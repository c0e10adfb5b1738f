-- ===== src/Cli/Args/Pins/Whole.antt =====
-- A list of pins against the numbers that its tokens stand for.
use esp_components.Base.{
  ℕ, ◌≤◌, Bool, true, false, not, List, [], ◌∷◌, ◌++◌, Option, none, some, ltb, leb, if◌then◌else◌,
  Bytes, length, length-append, append_assoc, append-nil, ◌≡◌, refl, ap, ◌∙◌, arith, Bool-cases,
  inl, inr,
}
use esp_components.Base.Int.{ℤ, ltb_ℤ}
use esp_components.Cli.Args.{parse_int_arg}
use esp_components.Cli.Args.Pins.{
  pieces, Heap, Outcome, rejected, undefined, filled, max_pins, distance, is_int_max, split_range,
  tokens, add_range, add_pin, add_token, add_all, conclude, parse_pin_list,
}
use esp_components.Cli.Args.Pins.Ranges.{
  interval, denoted, joined, all_denoted, allowed, ends_below, all_end_below, capped, capped_after,
  append_pin_room, append_pin_full, capped_full, range-capped,
}

module _ (h : Heap) (grows : (n : ℕ) → h.grows n ≡ true) where
  add_range-capped_after :
      (start end : Option ℤ) (pins : List ℤ)
      → (elim end [ none ↦ true | some z ↦ not (is_int_max z) ]) ≡ true
      → length pins ≤ max_pins
      → add_range h start end pins ≡ capped_after (interval start end) pins
  unfolding add_range capped_after
  add_range-capped_after none end pins b l = refl
  add_range-capped_after (some start) none pins b l = refl
  add_range-capped_after (some start) (some end) pins b l = elim (Bool-cases (ltb_ℤ end start)) [
    | inl q ↦ rw q refl
    | inr q ↦ rw q (range-capped h grows (distance start end) start end pins (ground arith) l)
  ]

  add_pin-capped_after :
      (pin : Option ℤ) (pins : List ℤ)
      → length pins ≤ max_pins
      → add_pin h pin pins ≡ capped_after (elim pin [ none ↦ none | some z ↦ some (z ∷ []) ]) pins
  unfolding add_pin capped_after
  add_pin-capped_after none pins l = refl
  add_pin-capped_after (some pin) pins l = elim (Bool-cases (ltb (length pins) max_pins)) [
    | inl q ↦
        rw (append_pin_room h grows pin pins (ground arith), add_pin)
          (ground (arith, length-append pins (pin ∷ [])))
    | inr q ↦
        rw
          (
            append_pin_full h grows pin pins (ground arith),
            add_pin,
            capped_full h grows pins [] pin (ground arith),
          )
          refl
  ]

  add_token-capped_after :
      (long_max : ℕ) (token : Bytes) (pins : List ℤ)
      → ends_below long_max token ≡ true
      → length pins ≤ max_pins
      → add_token long_max h token pins ≡ capped_after (denoted long_max token) pins
  unfolding add_token
  add_token-capped_after long_max token pins b l = by_dash (split_range token) b
    where
      parse : Bytes → Option ℤ
      parse t = parse_int_arg long_max (some t)

      by_dash :
          (s : Option (Bytes × Bytes))
          → (elim s [
            | none ↦ true
            | some (before, behind) ↦ (elim (parse behind) [
              | none ↦ true
              | some end ↦ not (is_int_max end)
            ])
          ])
            ≡ true
          → (elim s [
            | none ↦ add_pin h (parse token) pins
            | some (before, behind) ↦ add_range h (parse before) (parse behind) pins
          ])
            ≡ capped_after
                (elim s [
                  | none ↦ (elim (parse token) [ none ↦ none | some z ↦ some (z ∷ []) ])
                  | some (before, behind) ↦ interval (parse before) (parse behind)
                ])
                pins
      by_dash none b = add_pin-capped_after (parse token) pins l
      by_dash (some (before, behind)) b =
          add_range-capped_after (parse before) (parse behind) pins b l

  -- The rest of the loop, by what one token adds.
  abbrev pub after : ℕ → List Bytes → Outcome → Outcome
  after long_max ts o = elim o [
    | rejected ↦ rejected
    | undefined ↦ undefined
    | filled more ↦ add_all long_max h ts more
  ]

  add_all-capped_after :
      (long_max : ℕ) (ts : List Bytes) (pins : List ℤ)
      → all_end_below long_max ts ≡ true
      → length pins ≤ max_pins
      → add_all long_max h ts pins ≡ capped_after (all_denoted long_max ts) pins
  unfolding add_all capped_after
  add_all-capped_after long_max [] pins b l = rw append-nil (ground arith)
  add_all-capped_after long_max (t ∷ ts) pins b l =
      ap (after long_max ts) (add_token-capped_after long_max t pins (ground arith) l)
      ∙ continue (λ ps k. add_all-capped_after long_max ts ps later k) (denoted long_max t)
    where
      later : all_end_below long_max ts ≡ true
      later = ground arith

      regroup :
          (xs : List ℤ) (d : Option (List ℤ))
          → capped_after d (pins ++ xs) ≡ capped_after (joined (some xs) d) pins
      regroup xs none = refl
      regroup xs (some ps) = ap capped (append_assoc pins xs ps)

      overflow :
          (xs : List ℤ) (d : Option (List ℤ))
          → leb (length (pins ++ xs)) max_pins ≡ false
          → rejected ≡ capped_after (joined (some xs) d) pins
      overflow xs none q = refl
      overflow xs (some ps) q =
          ground (arith, length-append pins xs, length-append pins (xs ++ ps), length-append xs ps)

      continue :
          ((ps : List ℤ)
            → length ps ≤ max_pins
            → add_all long_max h ts ps ≡ capped_after (all_denoted long_max ts) ps)
          → (d : Option (List ℤ))
          → after long_max ts (capped_after d pins)
            ≡ capped_after (joined d (all_denoted long_max ts)) pins
      continue rest none = refl
      continue rest (some xs) = elim (Bool-cases (leb (length (pins ++ xs)) max_pins)) [
        | inl q ↦ rw q (rest (pins ++ xs) (ground arith) ∙ regroup xs (all_denoted long_max ts))
        | inr q ↦ rw q (overflow xs (all_denoted long_max ts) q)
      ]

conclude-capped_after : (d : Option (List ℤ)) → conclude (capped_after d []) ≡ allowed d
unfolding capped_after
conclude-capped_after none = refl
conclude-capped_after (some []) = refl
conclude-capped_after (some (p ∷ ps)) = elim (Bool-cases (leb (length (p ∷ ps)) max_pins)) [
  | inl q ↦ rw q refl
  | inr q ↦ rw q refl
]

pub if_dups : (b : Bool) (o : Outcome) → b ≡ true → (if not b then rejected else o) ≡ o
if_dups b o e = ground arith

-- Where memory suffices and no range ends at INT_MAX, the pins are the numbers that the tokens between the commas
-- stand for, a range for all its numbers, in the order of the text, if each token stands for some and if there are
-- between one and 64 of them in all; otherwise the call fails and leaves no pins.
pub parse_pin_list-allowed :
    (long_max : ℕ) (h : Heap) (text : Bytes)
    → h.dups ≡ true
    → ((n : ℕ) → h.grows n ≡ true)
    → all_end_below long_max (tokens text) ≡ true
    → parse_pin_list long_max h (some text) ≡ allowed (all_denoted long_max (tokens text))
unfolding parse_pin_list
parse_pin_list-allowed long_max h [] d g b = unfold pieces in refl
parse_pin_list-allowed long_max h (c ∷ cs) d g b =
    if_dups h.dups _ d
    ∙ (ap conclude (add_all-capped_after h g long_max (tokens (c ∷ cs)) [] b (omega arith))
        ∙ conclude-capped_after (all_denoted long_max (tokens (c ∷ cs))))
