-- ===== src/Cli/Args/Pins/Overflow.antt =====
-- A range that ends at INT_MAX.
use esp_components.Base.{
  ℕ, zero, suc, ◌+◌, ◌<◌, true, false, List, [], ◌∷◌, ◌++◌, Option, none, some, Bytes, length,
  length-append, ◌≡◌, refl, ap, ap₂, ◌∙◌, arith,
}
use esp_components.Base.Int.{ℤ, pos, ltb_ℤ}
use esp_components.Cli.Args.{int_max, parse_int_arg}
use esp_components.Cli.Args.Pins.{
  Heap, Outcome, undefined, max_pins, next, distance, range, split_range, tokens, add_range,
  add_pin, add_token, add_all, conclude, parse_pin_list,
}
use esp_components.Cli.Args.Pins.Ranges.{append_pin_room}
use esp_components.Cli.Args.Pins.Whole.{if_dups, after}

module _ (h : Heap) (grows : (n : ℕ) → h.grows n ≡ true) where
  range-undefined :
      (left : ℕ) (pin : ℤ) (pins : List ℤ)
      → length pins + left < max_pins
      → range h left pin (pos int_max) pins ≡ undefined
  unfolding range
  range-undefined zero pin pins l = rw (append_pin_room h grows pin pins (omega arith), range) refl
  range-undefined (suc left) pin pins l =
      rw (append_pin_room h grows pin pins (omega arith), range)
        (range-undefined left (next pin) (pins ++ pin ∷ [])
          (omega (arith, length-append pins (pin ∷ []))))

  add_range-undefined :
      (start : ℤ)
      → ltb_ℤ (pos int_max) start ≡ false
      → distance start (pos int_max) < max_pins
      → add_range h (some start) (some (pos int_max)) [] ≡ undefined
  unfolding add_range
  add_range-undefined start o n =
      rw o (range-undefined (distance start (pos int_max)) start [] (omega (arith, n)))

-- Where memory suffices, a list that is one range which ends at INT_MAX, and has at most 64 numbers, takes the loop
-- over its pins to increment INT_MAX.
pub parse_pin_list-undefined :
    (long_max : ℕ) (h : Heap) (text before behind : Bytes) (start : ℤ)
    → h.dups ≡ true
    → ((n : ℕ) → h.grows n ≡ true)
    → (tokens text ≡ text ∷ []) × (split_range text ≡ some (before, behind))
    → (parse_int_arg long_max (some before) ≡ some start)
      × (parse_int_arg long_max (some behind) ≡ some (pos int_max))
    → (ltb_ℤ (pos int_max) start ≡ false) × (distance start (pos int_max) < max_pins)
    → parse_pin_list long_max h (some text) ≡ undefined
unfolding parse_pin_list add_all add_token
parse_pin_list-undefined long_max h [] before behind start d g (t, s) p o = unfold split_range in cc
parse_pin_list-undefined long_max h (c ∷ cs) before behind start d g (t, s) (p, q) (o, n) =
    if_dups h.dups _ d
    ∙ ap (λ (ts : List Bytes). conclude (add_all long_max h ts [])) t
    ∙ ap (λ (x : Outcome). conclude (after h g long_max [] x))
        (ap by_dash s
          ∙ ap₂ (λ (x y : Option ℤ). add_range h x y []) p q
          ∙ add_range-undefined h g start o n)
  where
    by_dash : Option (Bytes × Bytes) → Outcome
    by_dash s = elim s [
      | none ↦ add_pin h (parse_int_arg long_max (some (c ∷ cs))) []
      | some (x, y) ↦
          add_range h (parse_int_arg long_max (some x)) (parse_int_arg long_max (some y)) []
    ]
