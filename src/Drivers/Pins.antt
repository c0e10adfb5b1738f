-- ===== src/Drivers/Pins.antt =====
-- A pin of an eight-bit port: `value |= (uint8_t)(1u << pin)`, `value &= (uint8_t)~(1u << pin)` and
-- `(value & (1u << pin)) != 0`, as in `set_pin` and `get_pin` of both port expanders.
use native.Mathlib.Nat.{pow-suc, one-le-pow}
use esp_components.Base.{
  ℕ, zero, suc, ◌-◌, ◌*◌, ◌/◌, ◌%◌, ◌^◌, ◌<◌, Bool, true, false, not, ◌==◌, if◌then◌else◌, bit_or,
  bit_and, ◌≡◌, refl, arith, ap, ◌∙◌, all_below, all_below_lem, ==_iff,
}
use esp_components.Base.Bits.{bit, bit-lt, bit-bit_or, bit-bit_and, bit_and_step, bit_and_low}

abbrev pub with_pin : ℕ → ℕ → Bool → ℕ
with_pin value pin high = if high then bit_or value (2 ^ pin) else bit_and value (255 - 2 ^ pin)

abbrev pub pin_of : ℕ → ℕ → Bool
pin_of value pin = not (bit_and value (2 ^ pin) == 0)

-- A test of the numbers of two pins.
abbrev both : (ℕ → ℕ → Bool) → ℕ → Bool
both test pin = all_below 8 (test pin)

both_lem :
    (test : ℕ → ℕ → Bool) (pin i : ℕ)
    → all_below 8 (both test) ≡ true
    → pin < 8
    → i < 8
    → test pin i ≡ true
both_lem test pin i h p q = all_below_lem 8 (test pin) i (all_below_lem 8 (both test) pin h p) q

bit_raised : (pin i : ℕ) → pin < 8 → i < 8 → bit i (2 ^ pin) ≡ (if i == pin then 1 else 0)
unfolding all_below
bit_raised pin i p q =
    (==_iff _ _).0
      (both_lem (λ (k j : ℕ). bit j (2 ^ k) == (if j == k then 1 else 0)) pin i refl p q)

bit_lowered : (pin i : ℕ) → pin < 8 → i < 8 → bit i (255 - 2 ^ pin) ≡ (if i == pin then 0 else 1)
unfolding all_below
bit_lowered pin i p q =
    (==_iff _ _).0
      (both_lem (λ (k j : ℕ). bit j (255 - 2 ^ k) == (if j == k then 0 else 1)) pin i refl p q)

-- Only the pin changes.
pub bit-with_pin :
    (value pin i : ℕ) (high : Bool)
    → pin < 8
    → i < 8
    → bit i (with_pin value pin high) ≡ (if i == pin then (if high then 1 else 0) else bit i value)
bit-with_pin value pin i true p q =
    ground (arith, bit-bit_or i value (2 ^ pin), bit_raised pin i, bit-lt i value)
bit-with_pin value pin i false p q =
    ground (arith, bit-bit_and i value (255 - 2 ^ pin), bit_lowered pin i, bit-lt i value)

bit_and_one_bit : (pin value : ℕ) → bit_and value (2 ^ pin) ≡ bit pin value * 2 ^ pin
bit_and_one_bit zero value = omega (arith, bit_and_low 1 value)
bit_and_one_bit (suc pin) value =
    let half : 2 ^ suc pin / 2 ≡ 2 ^ pin = omega (arith, pow-suc 2 pin) in
    let even : 2 ^ suc pin % 2 ≡ 0 = omega (arith, pow-suc 2 pin) in
    let high : bit_and (value / 2) (2 ^ suc pin / 2) ≡ bit pin (value / 2) * 2 ^ pin =
      ap (bit_and (value / 2)) half ∙ bit_and_one_bit pin (value / 2) in
    bit_and_step value (2 ^ suc pin)
    ∙ rw (high, even) (omega (arith, ap (λ (p : ℕ). bit pin (value / 2) * p) (pow-suc 2 pin)))

-- The test of a pin is the test of its bit.
pub pin_of_lem : (value pin : ℕ) → pin_of value pin ≡ (bit pin value == 1)
pin_of_lem value pin = ground (arith, bit_and_one_bit pin value, bit-lt pin value, one-le-pow pin 2)
