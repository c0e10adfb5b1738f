-- ===== src/Cli/Args/Tests.antt =====
-- Arguments of commands as cli/test has them.
use esp_components.Base.{ℕ, true, [], ◌∷◌, ◌++◌, some, none, codes, ◌≡◌, refl, arith}
use esp_components.Base.Int.{pos, negsuc}
use esp_components.Cli.Args.{
  int_max, Number, skip_spaces, skip_white, digit, read_digits, magnitude, skip_prefix, strtol,
  reading, checked, parse_in_base, parse_int_arg, parse_num_arg,
}
use esp_components.Cli.Args.Digits.{spaces, dash, parse_in_base-value}
use esp_components.Cli.Args.Hex.{parse_num_arg-value}
use esp_components.Cli.Args.Pins.{Heap, Outcome, parse_pin_list, pieces, split, split_range}
use esp_components.Cli.Args.Pins.Whole.{parse_pin_list-allowed}
use esp_components.Cli.Args.Pins.Overflow.{parse_pin_list-undefined}

abbrev ample : Heap
ample = record { dups = true; grows = λ (n : ℕ). true }

parsing_runs :
    (parse_int_arg int_max (some (codes " -12 ")) ≡ some (negsuc 11))
    × (parse_int_arg int_max (some (codes "4x")) ≡ none)
    × (parse_in_base int_max 16 (some (codes "0x1F")) ≡ some (pos 31))
unfolding parse_in_base checked reading strtol skip_spaces skip_white skip_prefix magnitude
    read_digits digit
parsing_runs = (refl, refl, refl)

parse_in_base-value_example :
    parse_in_base int_max 10 (some (spaces 1 ++ (dash true ++ (codes "2147483648" ++ spaces 0))))
    ≡ some (negsuc int_max)
unfolding digit
parse_in_base-value_example =
    parse_in_base-value int_max 10 true 1 b'2' (codes "147483648") 0 (omega arith) (omega arith)
      refl

parse_num_arg-value_example :
    parse_num_arg int_max (
      some (spaces 0 ++ (dash true ++ b'0' ∷ b'x' ∷ (dash true ++ (codes "80000000" ++ spaces 0)))))
    ≡ Number.undefined
unfolding digit
parse_num_arg-value_example =
    parse_num_arg-value int_max true true 0 b'8' (codes "0000000") 0 (omega arith) refl

parse_pin_list-allowed_example :
    parse_pin_list int_max ample (some (codes "4,,1-3"))
    ≡ Outcome.filled (pos 4 ∷ pos 1 ∷ pos 2 ∷ pos 3 ∷ [])
unfolding pieces split split_range parse_in_base checked reading strtol skip_spaces skip_white
    skip_prefix magnitude read_digits digit
parse_pin_list-allowed_example =
    parse_pin_list-allowed int_max ample (codes "4,,1-3") refl (λ (n : ℕ). refl) refl

parse_pin_list-undefined_example :
    parse_pin_list int_max ample (some (codes "2147483646-2147483647")) ≡ Outcome.undefined
unfolding pieces split split_range parse_in_base checked reading strtol skip_spaces skip_white
    skip_prefix magnitude read_digits digit
parse_pin_list-undefined_example =
    parse_pin_list-undefined int_max ample (codes "2147483646-2147483647") (codes "2147483646")
      (codes "2147483647") (pos 2147483646) refl (λ (n : ℕ). refl) (refl, refl) (refl, refl)
      (refl, omega arith)
