-- ===== src/Cli/Args/Hex.antt =====
-- `cli_parse_num_arg` on what follows the prefix `0x`.
use esp_components.Base.{
  ℕ, ◌≤◌, Bool, true, false, List, ◌∷◌, ◌++◌, some, none, if◌then◌else◌, ◌≡◌, refl, ap, ◌∙◌, arith,
}
use esp_components.Cli.Args.{int_max, signed, hex_digits, with_sign, parse_num_from, parse_num_arg}
use esp_components.Cli.Args.Digits.{
  all_digits, value, spaces, dash, within, parse_in_base-value, skip_spaces_to,
}

-- If a `long` is no narrower than an `int`: hexadecimal digits behind `0x` may carry a '-' of their own. They are
-- parsed as a number of an `int`'s range, that '-' included, before the '-' in front of the prefix is applied to it.
pub parse_num_arg-value :
    (long_max : ℕ) (outer inner : Bool) (i c : ℕ) (cs : List ℕ) (k : ℕ)
    → int_max ≤ long_max
    → all_digits 16 (c ∷ cs) ≡ true
    → parse_num_arg long_max
        (some (spaces i ++ (dash outer ++ b'0' ∷ b'x' ∷ (dash inner ++ (c ∷ cs ++ spaces k)))))
      ≡ with_sign outer (
          if within int_max inner (value 16 (c ∷ cs))
          then some (signed inner (value 16 (c ∷ cs)))
          else none)
unfolding parse_num_arg hex_digits
parse_num_arg-value long_max true inner i c cs k m h =
    let number = dash inner ++ (c ∷ cs ++ spaces k) in
    ap (parse_num_from long_max (spaces i ++ b'-' ∷ b'0' ∷ b'x' ∷ number))
      (skip_spaces_to i b'-' (b'0' ∷ b'x' ∷ number) refl)
    ∙ ap (with_sign true) (parse_in_base-value long_max 16 inner 0 c cs k (omega arith) m h)
parse_num_arg-value long_max false inner i c cs k m h =
    let number = dash inner ++ (c ∷ cs ++ spaces k) in
    ap (parse_num_from long_max (spaces i ++ b'0' ∷ b'x' ∷ number))
      (skip_spaces_to i b'0' (b'x' ∷ number) refl)
    ∙ ap (with_sign false) (parse_in_base-value long_max 16 inner 0 c cs k (omega arith) m h)
