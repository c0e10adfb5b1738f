-- ===== src/Cli/Args/Pins.antt =====
-- cli/src/cli_args.c: `cli_parse_pin_list`. Whether an allocation succeeds is an argument, that of `realloc` by the
-- number of pins that there are.
pub mod Ranges
pub mod Whole
pub mod Overflow
use esp_components.Base.{
  ℕ, zero, suc, ◌+◌, ◌-◌, Bool, true, false, not, ◌&&◌, List, [], ◌∷◌, ◌++◌, Option, none, some,
  ltb, ◌==◌, if◌then◌else◌, Bytes, length,
}
use esp_components.Base.Int.{ℤ, pos, negsuc, ltb_ℤ}
use esp_components.Cli.Args.{int_max, parse_int_arg}

pub record Heap : Type 0 where
  pub dups : Bool
  pub grows : ℕ → Bool

-- A call fails with no pins, or has collected some, or it increments an `int` that is INT_MAX, on which the behaviour
-- of C is not defined.
pub data Outcome : Type 0 where
  rejected undefined : Outcome
  filled : List ℤ → Outcome

abbrev pub max_pins : ℕ
max_pins = 64

-- `append_pin`
unfoldable pub append_pin : Heap → ℤ → List ℤ → Option (List ℤ)
append_pin h pin pins =
    if not (ltb (length pins) max_pins)
    then none
    else if not (h.grows (length pins))
    then none
    else some (pins ++ pin ∷ [])

-- `pin++` below INT_MAX
abbrev pub next : ℤ → ℤ
next (pos n) = pos (n + 1)
next (negsuc zero) = pos 0
next (negsuc (suc n)) = negsuc n

-- How often `start` is incremented until it is `end`.
abbrev pub distance : ℤ → ℤ → ℕ
distance (pos a) (pos b) = b - a
distance (pos a) (negsuc b) = 0
distance (negsuc a) (pos b) = a + 1 + b
distance (negsuc a) (negsuc b) = a - b

abbrev pub is_int_max : ℤ → Bool
is_int_max (pos n) = n == int_max
is_int_max (negsuc n) = false

-- `for (int pin = start; pin <= end; pin++)`, by the increments that are left until `pin` is `end`. The last
-- increment is that of `end`.
unfoldable pub range : Heap → ℕ → ℤ → ℤ → List ℤ → Outcome
range h zero pin end pins = elim (append_pin h pin pins) [
  | none ↦ rejected
  | some more ↦ if is_int_max end then undefined else filled more
]
range h (suc left) pin end pins = elim (append_pin h pin pins) [
  | none ↦ rejected
  | some more ↦ range h left (next pin) end more
]

-- `strchr(s, '-')`, with what stands before and behind the dash.
unfoldable pub split : Bytes → Option (Bytes × Bytes)
split [] = none
split (c ∷ cs) =
    if c == b'-'
    then some ([], cs)
    else (elim (split cs) [ none ↦ none | some (before, behind) ↦ some (c ∷ before, behind) ])

-- The dash of a range: not one at the start of the token.
unfoldable pub split_range : Bytes → Option (Bytes × Bytes)
split_range [] = none
split_range (c ∷ cs) =
    if c == b'-'
    then (elim (split cs) [ none ↦ none | some (before, behind) ↦ some (c ∷ before, behind) ])
    else split (c ∷ cs)

-- `strtok_r(str, ",", &save)`: what stands between the commas, where anything does.
abbrev pub flush : Bytes → List Bytes → List Bytes
flush [] ts = ts
flush (c ∷ cs) ts = (c ∷ cs) ∷ ts

unfoldable pub pieces : Bytes → Bytes × List Bytes
pieces [] = ([], [])
pieces (c ∷ cs) =
    let (open_piece, closed) = pieces cs in
    if c == b',' then ([], flush open_piece closed) else (c ∷ open_piece, closed)

abbrev pub tokens : Bytes → List Bytes
tokens text = flush (pieces text).0 (pieces text).1

-- One pass of the loop over the tokens.
unfoldable pub add_range : Heap → Option ℤ → Option ℤ → List ℤ → Outcome
add_range h none end pins = rejected
add_range h (some start) none pins = rejected
add_range h (some start) (some end) pins =
    let all = range h (distance start end) start end pins in
    if ltb_ℤ end start then rejected else all

unfoldable pub add_pin : Heap → Option ℤ → List ℤ → Outcome
add_pin h none pins = rejected
add_pin h (some pin) pins = elim (append_pin h pin pins) [
  | none ↦ rejected
  | some more ↦ filled more
]

unfoldable pub add_token : ℕ → Heap → Bytes → List ℤ → Outcome
add_token long_max h token pins = elim (split_range token) [
  | none ↦ add_pin h (parse_int_arg long_max (some token)) pins
  | some (before, behind) ↦
      add_range h (parse_int_arg long_max (some before)) (parse_int_arg long_max (some behind)) pins
]

unfoldable pub add_all : ℕ → Heap → List Bytes → List ℤ → Outcome
add_all long_max h [] pins = filled pins
add_all long_max h (t ∷ ts) pins = elim (add_token long_max h t pins) [
  | rejected ↦ rejected
  | undefined ↦ undefined
  | filled more ↦ add_all long_max h ts more
]

-- `if (result < 0 || *count == 0)`
abbrev pub conclude : Outcome → Outcome
conclude rejected = rejected
conclude undefined = undefined
conclude (filled []) = rejected
conclude (filled (p ∷ ps)) = filled (p ∷ ps)

-- `cli_parse_pin_list`
unfoldable pub parse_pin_list : ℕ → Heap → Option Bytes → Outcome
parse_pin_list long_max h none = rejected
parse_pin_list long_max h (some []) = rejected
parse_pin_list long_max h (some (c ∷ cs)) =
    if not h.dups then rejected else conclude (add_all long_max h (tokens (c ∷ cs)) [])
