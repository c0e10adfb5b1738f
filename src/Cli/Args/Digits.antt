-- ===== src/Cli/Args/Digits.antt =====
-- The number that a text of digits stands for, and what is parsed from it.
use esp_components.Base.{
  ℕ, zero, suc, ◌+◌, ◌*◌, ◌^◌, ◌≤◌, Bool, true, false, ◌&&◌, ◌||◌, [], ◌∷◌, ◌++◌, Option, none,
  some, leb, ◌==◌, if◌then◌else◌, Bytes, length, ◌≡◌, refl, ap, ◌∙◌, arith, inl, inr, Option-cases,
}
use native.Mathlib.Nat.{pow-succ', pow-zero, mul_assoc, add-mul}
use esp_components.Cli.Args.{
  int_max, skip_spaces, skip_white, digit, read_digits, magnitude, skip_prefix, signed, reading,
  strtol, checked, parse_in_base,
}

abbrev pub value_of : Option ℕ → ℕ
value_of none = 0
value_of (some d) = d

abbrev pub is_some : Option ℕ → Bool
is_some none = false
is_some (some d) = true

abbrev pub all_digits : ℕ → Bytes → Bool
all_digits base [] = true
all_digits base (c ∷ cs) = is_some (digit base c) && all_digits base cs

-- Each digit counts by its place.
abbrev pub value : ℕ → Bytes → ℕ
value base [] = 0
value base (c ∷ cs) = value_of (digit base c) * base ^ length cs + value base cs

abbrev pub spaces : ℕ → Bytes
spaces zero = []
spaces (suc n) = b' ' ∷ spaces n

skip_spaces-spaces : (n : ℕ) → skip_spaces (spaces n) ≡ []
unfolding skip_spaces
skip_spaces-spaces zero = refl
skip_spaces-spaces (suc n) = skip_spaces-spaces n

no_digit : (base : ℕ) → digit base b' ' ≡ none
unfolding digit
no_digit base = ground arith

read_digits-spaces : (base n k : ℕ) → read_digits base n (spaces k) ≡ (n, spaces k)
unfolding read_digits
read_digits-spaces base n zero = refl
read_digits-spaces base n (suc k) = rw (no_digit base, read_digits) refl

by_place :
    (n base d l v : ℕ) → (n * base + d) * base ^ l + v ≡ n * base ^ suc l + (d * base ^ l + v)
by_place n base d l v =
    rw (add-mul (n * base) d (base ^ l), mul_assoc n base (base ^ l), pow-succ' base l)
      (omega arith)

-- The loop over digits.
read_digits-value :
    (base n : ℕ) (cs : Bytes) (k : ℕ)
    → all_digits base cs ≡ true
    → read_digits base n (cs ++ spaces k) ≡ (n * base ^ length cs + value base cs, spaces k)
unfolding read_digits
read_digits-value base n [] k h =
    read_digits-spaces base n k ∙ ap (λ (x : ℕ). (x, spaces k)) (ground (arith, pow-zero base))
read_digits-value base n (c ∷ cs) k h = elim (Option-cases (digit base c)) [
  | inl e ↦ ground arith
  | inr (d, e) ↦
      rw (e, read_digits)
        (read_digits-value base (n * base + d) cs k (ground arith)
          ∙ ap (λ (x : ℕ). (x, spaces k)) (by_place n base d (length cs) (value base cs)))
]

magnitude-value :
    (base : ℕ) (c : ℕ) (cs : Bytes) (k : ℕ)
    → all_digits base (c ∷ cs) ≡ true
    → magnitude base (c ∷ cs ++ spaces k) ≡ some (value base (c ∷ cs), spaces k)
unfolding magnitude
magnitude-value base c cs k h = elim (Option-cases (digit base c)) [
  | inl e ↦ ground arith
  | inr (d, e) ↦
      rw (e, magnitude)
        (ap (λ (x : ℕ × Bytes). some x) (read_digits-value base d cs k (ground arith)))
]

-- The first byte of a number is neither white nor a sign, and an 'x' is no digit.
digit_plain :
    (base c : ℕ)
    → base ≤ 16
    → is_some (digit base c) ≡ true
    → ((c == b' ' || leb 9 c && leb c 13) ≡ false)
      × (c == b' ' ≡ false)
      × ((c == b'-' || c == b'+') ≡ false)
      × (c == b'-' ≡ false)
      × ((c == b'x' || c == b'X') ≡ false)
unfolding digit
digit_plain base c l h = ground arith

skip_prefix_plain :
    (base z : ℕ) (cs : Bytes) (k : ℕ)
    → base ≤ 16
    → all_digits base cs ≡ true
    → skip_prefix base (z ∷ cs ++ spaces k) ≡ z ∷ cs ++ spaces k
unfolding skip_prefix
skip_prefix_plain base z [] zero l h = refl
skip_prefix_plain base z [] (suc zero) l h = refl
skip_prefix_plain base z [] (suc (suc k)) l h = rw (no_digit base, skip_prefix) refl
skip_prefix_plain base z (x ∷ []) zero l h = refl
skip_prefix_plain base z (x ∷ []) (suc k) l h = rw (no_digit base, skip_prefix) refl
skip_prefix_plain base z (x ∷ d ∷ cs) k l h = elim (Option-cases (digit base d)) [
  | inl e ↦ rw (e, skip_prefix) refl
  | inr (v, e) ↦
      rw (e, skip_prefix)
        (rw ((digit_plain base x l (ground arith)).4) (not_hex (base == 16) (z == b'0')))
]
  where
    not_hex :
        (a b : Bool)
        → (if a && b && false then d ∷ (cs ++ spaces k) else z ∷ x ∷ d ∷ (cs ++ spaces k))
          ≡ z ∷ x ∷ d ∷ (cs ++ spaces k)
    not_hex a b = ground arith

pub skip_spaces_to :
    (i c : ℕ) (cs : Bytes) → (c == b' ') ≡ false → skip_spaces (spaces i ++ c ∷ cs) ≡ c ∷ cs
unfolding skip_spaces
skip_spaces_to zero c cs h = rw h refl
skip_spaces_to (suc i) c cs h = skip_spaces_to i c cs h

abbrev pub dash : Bool → Bytes
dash true = b'-' ∷ []
dash false = []

-- The bounds of a signed number of which `most` is the greatest.
abbrev pub within : ℕ → Bool → ℕ → Bool
within most true n = leb n (most + 1)
within most false n = leb n most

strtol-value :
    (long_max base : ℕ) (negative : Bool) (c : ℕ) (cs : Bytes) (k : ℕ)
    → base ≤ 16
    → all_digits base (c ∷ cs) ≡ true
    → strtol long_max base (dash negative ++ (c ∷ cs ++ spaces k))
      ≡ some (record {
        value = signed negative (value base (c ∷ cs));
        in_range = within long_max negative (value base (c ∷ cs));
        rest = spaces k;
      })
unfolding strtol reading skip_white
strtol-value long_max base true c cs k l h =
    rw (skip_prefix_plain base c cs k l (ground arith))
      (rw (magnitude-value base c cs k h, reading) refl)
strtol-value long_max base false c cs k l h =
    let (white, _, sign, dash, _) = digit_plain base c l (ground arith) in
    rw (white, skip_white, strtol)
      (rw sign (
        rw dash (
          rw (skip_prefix_plain base c cs k l (ground arith))
            (rw (magnitude-value base c cs k h, reading) refl))))

checked-value :
    (long_max : ℕ) (negative : Bool) (n k : ℕ)
    → int_max ≤ long_max
    → checked (
        some (record {
          value = signed negative n;
          in_range = within long_max negative n;
          rest = spaces k;
        }))
      ≡ (if within int_max negative n then some (signed negative n) else none)
unfolding checked
checked-value long_max true zero k l = rw (skip_spaces-spaces k) (ground arith)
checked-value long_max true (suc n) k l = rw (skip_spaces-spaces k) (ground arith)
checked-value long_max false n k l = rw (skip_spaces-spaces k) (ground arith)

-- If a `long` is no narrower than an `int`: digits of a base up to 16, at least one, with spaces around and perhaps
-- a '-' before them, are parsed to the number that they stand for by their places, exactly if it is one that an
-- `int` can hold.
pub parse_in_base-value :
    (long_max base : ℕ) (negative : Bool) (i c : ℕ) (cs : Bytes) (k : ℕ)
    → base ≤ 16
    → int_max ≤ long_max
    → all_digits base (c ∷ cs) ≡ true
    → parse_in_base long_max base (some (spaces i ++ (dash negative ++ (c ∷ cs ++ spaces k)))) ≡ (
        if within int_max negative (value base (c ∷ cs))
        then some (signed negative (value base (c ∷ cs)))
        else none)
unfolding parse_in_base
parse_in_base-value long_max base true i c cs k l m h =
    rw (skip_spaces_to i b'-' (c ∷ cs ++ spaces k) refl) (
      ap checked (strtol-value long_max base true c cs k l h)
      ∙ checked-value long_max true (value base (c ∷ cs)) k m)
parse_in_base-value long_max base false i c cs k l m h =
    rw (skip_spaces_to i c (cs ++ spaces k) (digit_plain base c l (ground arith)).1) (
      ap checked (strtol-value long_max base false c cs k l h)
      ∙ checked-value long_max false (value base (c ∷ cs)) k m)
