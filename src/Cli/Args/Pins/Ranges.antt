-- ===== src/Cli/Args/Pins/Ranges.antt =====
-- What a list of pins stands for, and the loop over one range.
use esp_components.Base.{
  ltb→lt, ℕ, zero, suc, ◌≤◌, ◌<◌, Bool, true, false, not, ◌&&◌, List, [], ◌∷◌, ◌++◌, Option, none,
  some, ltb, leb, if◌then◌else◌, Bytes, length, length-append, append_assoc, ◌≡◌, refl, ap, ◌∙◌,
  arith, Bool-cases, inl, inr,
}
use esp_components.Base.Int.{ℤ, ltb_ℤ}
use esp_components.Cli.Args.{parse_int_arg}
use esp_components.Cli.Args.Pins.{
  Heap, Outcome, rejected, filled, append_pin, max_pins, next, distance, is_int_max, range,
  split_range,
}

-- The numbers from one on, `n` of them beyond it.
abbrev pub from : ℕ → ℤ → List ℤ
from zero z = z ∷ []
from (suc n) z = z ∷ from n (next z)

abbrev pub interval : Option ℤ → Option ℤ → Option (List ℤ)
interval none end = none
interval (some start) none = none
interval (some start) (some end) =
    if ltb_ℤ end start then none else some (from (distance start end) start)

-- What a token stands for: a number, or all from one to another.
abbrev pub denoted : ℕ → Bytes → Option (List ℤ)
denoted long_max token = elim (split_range token) [
  | none ↦ (elim (parse_int_arg long_max (some token)) [ none ↦ none | some z ↦ some (z ∷ []) ])
  | some (before, behind) ↦
      interval (parse_int_arg long_max (some before)) (parse_int_arg long_max (some behind))
]

abbrev pub joined : Option (List ℤ) → Option (List ℤ) → Option (List ℤ)
joined none ps = none
joined (some xs) none = none
joined (some xs) (some ps) = some (xs ++ ps)

-- What all of them stand for, if each stands for something.
abbrev pub all_denoted : ℕ → List Bytes → Option (List ℤ)
all_denoted long_max [] = some []
all_denoted long_max (t ∷ ts) = joined (denoted long_max t) (all_denoted long_max ts)

-- At least one pin, and at most as many as are allowed.
abbrev pub allowed : Option (List ℤ) → Outcome
allowed none = rejected
allowed (some []) = rejected
allowed (some (p ∷ ps)) = if leb (length (p ∷ ps)) max_pins then filled (p ∷ ps) else rejected

-- No range ends at INT_MAX.
abbrev pub ends_below : ℕ → Bytes → Bool
ends_below long_max token = elim (split_range token) [
  | none ↦ true
  | some (before, behind) ↦ (elim (parse_int_arg long_max (some behind)) [
    | none ↦ true
    | some end ↦ not (is_int_max end)
  ])
]

abbrev pub all_end_below : ℕ → List Bytes → Bool
all_end_below long_max [] = true
all_end_below long_max (t ∷ ts) = ends_below long_max t && all_end_below long_max ts

abbrev pub capped : List ℤ → Outcome
capped ps = if leb (length ps) max_pins then filled ps else rejected

unfoldable pub capped_after : Option (List ℤ) → List ℤ → Outcome
capped_after none pins = rejected
capped_after (some xs) pins = capped (pins ++ xs)

module _ (h : Heap) (grows : (n : ℕ) → h.grows n ≡ true) where
  pub append_pin_room :
      (pin : ℤ) (pins : List ℤ)
      → length pins < max_pins
      → append_pin h pin pins ≡ some (pins ++ pin ∷ [])
  unfolding append_pin
  append_pin_room pin pins l = ground (arith, grows (length pins))

  pub append_pin_full :
      (pin : ℤ) (pins : List ℤ) → max_pins ≤ length pins → append_pin h pin pins ≡ none
  unfolding append_pin
  append_pin_full pin pins l = ground arith

  pub capped_full :
      (pins xs : List ℤ) (pin : ℤ) → max_pins ≤ length pins → capped (pins ++ pin ∷ xs) ≡ rejected
  capped_full pins xs pin l = ground (arith, length-append pins (pin ∷ xs))

  pub range-capped :
      (left : ℕ) (pin end : ℤ) (pins : List ℤ)
      → is_int_max end ≡ false
      → length pins ≤ max_pins
      → range h left pin end pins ≡ capped (pins ++ from left pin)
  unfolding range
  range-capped zero pin end pins b l = elim (Bool-cases (ltb (length pins) max_pins)) [
    | inl q ↦
        rw (append_pin_room pin pins (ground arith), range)
          (rw b (ground (arith, length-append pins (pin ∷ []))))
    | inr q ↦
        rw (append_pin_full pin pins (ground arith), range, capped_full pins [] pin (ground arith))
          refl
  ]
  range-capped (suc left) pin end pins b l = elim (Bool-cases (ltb (length pins) max_pins)) [
    | inl q ↦
        rw (append_pin_room pin pins (ground arith), range)
          (range-capped left (next pin) end (pins ++ pin ∷ []) b
              (omega (arith, length-append pins (pin ∷ []), ltb→lt _ _ q))
            ∙ ap capped (append_assoc pins (pin ∷ []) (from left (next pin))))
    | inr q ↦
        rw
          (
            append_pin_full pin pins (ground arith),
            range,
            capped_full pins (from left (next pin)) pin (ground arith),
          )
          refl
  ]
