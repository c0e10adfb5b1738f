-- ===== src/Cli/Args.antt =====
-- cli/src/cli_args.c: the numbers and the lists of pins in a command's arguments. An `int` has 32 bits; `long_max` is
-- LONG_MAX, and a `long` is in two's complement.
pub mod Pins
pub mod Digits
pub mod Hex
mod Tests
use esp_components.Base.{
  ℕ, zero, suc, ◌+◌, ◌-◌, ◌*◌, Bool, true, false, not, ◌&&◌, ◌||◌, List, [], ◌∷◌, ◌++◌, Option,
  none, some, ltb, leb, ◌==◌, if◌then◌else◌, Bytes, length,
}
use esp_components.Base.Int.{ℤ, pos, negsuc, ltb_ℤ}

abbrev pub int_max : ℕ
int_max = 2147483647

-- `while (*token == ' ') token++;`
unfoldable pub skip_spaces : Bytes → Bytes
skip_spaces [] = []
skip_spaces (c ∷ cs) = if c == b' ' then skip_spaces cs else c ∷ cs

-- `strtol`: the white space that it skips, a sign, the prefix of base 16, and the digits.
unfoldable pub skip_white : Bytes → Bytes
skip_white [] = []
skip_white (c ∷ cs) = if c == b' ' || leb 9 c && leb c 13 then skip_white cs else c ∷ cs

unfoldable pub digit : ℕ → ℕ → Option ℕ
digit base c =
    let d : ℕ =
      if leb b'0' c && leb c b'9'
      then c - b'0'
      else if leb b'a' c && leb c b'z'
      then c - b'a' + 10
      else if leb b'A' c && leb c b'Z'
      then c - b'A' + 10
      else base in
    if ltb d base then some d else none

unfoldable pub read_digits : ℕ → ℕ → Bytes → ℕ × Bytes
read_digits base n [] = (n, [])
read_digits base n (c ∷ cs) = elim (digit base c) [
  | none ↦ (n, c ∷ cs)
  | some d ↦ read_digits base (n * base + d) cs
]

unfoldable pub magnitude : ℕ → Bytes → Option (ℕ × Bytes)
magnitude base [] = none
magnitude base (c ∷ cs) = elim (digit base c) [
  | none ↦ none
  | some d ↦ some (read_digits base d cs)
]

unfoldable pub skip_prefix : ℕ → Bytes → Bytes
skip_prefix base (z ∷ x ∷ d ∷ cs) =
    let is_hex = base == 16 && z == b'0' && (x == b'x' || x == b'X') in
    elim (digit base d) [
      | none ↦ z ∷ x ∷ d ∷ cs
      | some v ↦ if is_hex then d ∷ cs else z ∷ x ∷ d ∷ cs
    ]
skip_prefix base cs = cs

abbrev pub signed : Bool → ℕ → ℤ
signed true zero = pos 0
signed true (suc n) = negsuc n
signed false n = pos n

-- What it returns, whether that is the number read (`errno` is set if not), and what is left of the text.
pub record Reading : Type 0 where
  pub value : ℤ
  pub in_range : Bool
  pub rest : Bytes

unfoldable pub reading : ℕ → Bool → Option (ℕ × Bytes) → Option Reading
reading long_max negative none = none
reading long_max negative (some (n, rest)) = some (record {
  value = signed negative n;
  in_range = if negative then leb n (long_max + 1) else leb n long_max;
  rest = rest;
})

unfoldable pub strtol : ℕ → ℕ → Bytes → Option Reading
unfolding reading
strtol long_max base text = elim (skip_white text) [
  | [] ↦ none
  | c ∷ cs ↦
      let digits = if c == b'-' || c == b'+' then cs else c ∷ cs in
      reading long_max (c == b'-') (magnitude base (skip_prefix base digits))
]

abbrev pub is_nil : Bytes → Bool
is_nil [] = true
is_nil (c ∷ cs) = false

-- `value < INT_MIN || value > INT_MAX`
abbrev pub fits_int : ℤ → Bool
fits_int z = not (ltb_ℤ z (negsuc int_max)) && not (ltb_ℤ (pos int_max) z)

-- What `parse_in_base` does with what it read.
unfoldable pub checked : Option Reading → Option ℤ
checked none = none
checked (some r) =
    if not r.in_range
    then none
    else if not (is_nil (skip_spaces r.rest))
    then none
    else if not (fits_int r.value)
    then none
    else some r.value

-- `parse_in_base`: the number that is stored, if 0 is returned.
unfoldable pub parse_in_base : ℕ → ℕ → Option Bytes → Option ℤ
unfolding checked
parse_in_base long_max base none = none
parse_in_base long_max base (some token) =
    let rest = skip_spaces token in
    if is_nil rest then none else checked (strtol long_max base rest)

-- `cli_parse_int_arg`
abbrev pub parse_int_arg : ℕ → Option Bytes → Option ℤ
parse_int_arg long_max token = parse_in_base long_max 10 token

-- A number that is parsed, if the sign can be given to it: `-value` is not defined for INT_MIN.
pub data Number : Type 0 where
  rejected undefined : Number
  number : ℤ → Number

abbrev pub negated : Bool → ℤ → Number
negated false z = number z
negated true (pos zero) = number (pos 0)
negated true (pos (suc n)) = number (negsuc n)
negated true (negsuc n) = if n == int_max then undefined else number (pos (n + 1))

abbrev pub with_sign : Bool → Option ℤ → Number
with_sign negative none = rejected
with_sign negative (some z) = negated negative z

-- What stands behind `0x` or `0X`.
unfoldable pub hex_digits : Bytes → Option Bytes
hex_digits (z ∷ x ∷ cs) = if z == b'0' && (x == b'x' || x == b'X') then some cs else none
hex_digits cs = none

abbrev pub is_minus : Bytes → Bool
is_minus [] = false
is_minus (c ∷ cs) = c == b'-'

abbrev pub skip_minus : Bytes → Bytes
skip_minus [] = []
skip_minus (c ∷ cs) = if c == b'-' then cs else c ∷ cs

-- `cli_parse_num_arg` behind the spaces in front of the token.
unfoldable pub parse_num_from : ℕ → Bytes → Bytes → Number
parse_num_from long_max token start = elim (hex_digits (skip_minus start)) [
  | none ↦ with_sign false (parse_in_base long_max 10 (some token))
  | some cs ↦ with_sign (is_minus start) (parse_in_base long_max 16 (some cs))
]

-- `cli_parse_num_arg`
unfoldable pub parse_num_arg : ℕ → Option Bytes → Number
unfolding parse_num_from
parse_num_arg long_max none = rejected
parse_num_arg long_max (some token) = parse_num_from long_max token (skip_spaces token)
