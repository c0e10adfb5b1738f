-- ===== src/Base/Bits.antt =====
-- The laws of `|`, `&` and `^` at variables. The native operations stand for a recursion on the
-- binary digits: one equation for the lowest digit each, and the rest by induction.
use Prim.Native.Nat.{
  ℕ, zero, suc, ◌+◌, ◌-◌, ◌*◌, ◌/◌, ◌%◌, ◌^◌, ◌≤◌, ◌<◌, min, max, bit_and, bit_or, bit_xor, digits,
  bit_and-bitwise, bit_or-bitwise, bit_xor-bitwise, differ,
}
use mathlib.Core.Path.{◌≡◌, refl, ap, ◌∙◌, sym}
use mathlib.Core.Logic.{◌↔◌}
use native.Mathlib.Nat.{pow-suc, one-le-pow}
use native.Mathlib.Omega.{arith}

-- Any fuel that is enough gives the same number, whatever is done to the digits.
digits_enough :
    (stop : ℕ → ℕ) (digit : ℕ → ℕ → ℕ) (k l a b : ℕ)
    → a ≤ k
    → a ≤ l
    → digits stop digit k a b ≡ digits stop digit l a b
digits_enough stop digit (suc k) (suc l) (suc a) b p q =
    let a' : ℕ = suc a / 2 in
    ap (λ (upper : ℕ). upper * 2 + digit (suc a % 2) (b % 2))
      (digits_enough stop digit k l a' (b / 2) (omega arith) (omega arith))
digits_enough stop digit k l (suc a) b p q = absurd (omega arith)
digits_enough stop digit (suc k) (suc l) zero b p q = refl
digits_enough stop digit (suc k) zero zero b p q = refl
digits_enough stop digit zero (suc l) zero b p q = refl
digits_enough stop digit zero zero zero b p q = refl

-- The lowest digit apart from the others.
digits_low :
    (stop : ℕ → ℕ) (digit : ℕ → ℕ → ℕ)
    → ((b : ℕ) → stop b ≡ stop (b / 2) * 2 + digit 0 (b % 2))
    → (a b : ℕ)
    → digits stop digit a a b
      ≡ digits stop digit (a / 2) (a / 2) (b / 2) * 2 + digit (a % 2) (b % 2)
digits_low stop digit stops zero b = stops b
digits_low stop digit stops (suc a) b =
    let a' : ℕ = suc a / 2 in
    ap (λ (upper : ℕ). upper * 2 + digit (suc a % 2) (b % 2))
      (digits_enough stop digit a a' a' (b / 2) (omega arith) (omega arith))

pub bit_and_step : (x y : ℕ) → bit_and x y ≡ bit_and (x / 2) (y / 2) * 2 + min (x % 2) (y % 2)
bit_and_step x y = omega (
  arith,
  bit_and-bitwise x y,
  bit_and-bitwise (x / 2) (y / 2),
  digits_low (λ _. 0) min (λ y. omega arith) x y,
)

pub bit_or_step : (x y : ℕ) → bit_or x y ≡ bit_or (x / 2) (y / 2) * 2 + max (x % 2) (y % 2)
bit_or_step x y = omega (
  arith,
  bit_or-bitwise x y,
  bit_or-bitwise (x / 2) (y / 2),
  digits_low (λ y. y) max (λ y. omega arith) x y,
)

differ_table : (x y : ℕ) → x < 2 → y < 2 → differ x y ≡ (x + y) % 2
differ_table zero y h k = omega arith
differ_table (suc zero) zero h k = refl
differ_table (suc zero) (suc zero) h k = refl
differ_table (suc zero) (suc (suc y)) h k = absurd (omega arith)
differ_table (suc (suc x)) y h k = absurd (omega arith)

pub bit_xor_step : (x y : ℕ) → bit_xor x y ≡ bit_xor (x / 2) (y / 2) * 2 + (x + y) % 2
bit_xor_step x y = omega (
  arith,
  bit_xor-bitwise x y,
  bit_xor-bitwise (x / 2) (y / 2),
  digits_low (λ y. y) differ (λ y. omega arith) x y,
  differ_table (x % 2) (y % 2),
)

-- Digit `i` of a number.
abbrev pub bit : ℕ → ℕ → ℕ
bit zero x = x % 2
bit (suc i) x = bit i (x / 2)

pub bit-lt : (i x : ℕ) → bit i x < 2
bit-lt zero x = omega arith
bit-lt (suc i) x = bit-lt i (x / 2)

pub bit-bit_or : (i a b : ℕ) → bit i (bit_or a b) ≡ max (bit i a) (bit i b)
bit-bit_or zero a b = omega (arith, bit_or_step a b)
bit-bit_or (suc i) a b =
    let high : bit_or a b / 2 ≡ bit_or (a / 2) (b / 2) = omega (arith, bit_or_step a b) in
    ap (bit i) high ∙ bit-bit_or i (a / 2) (b / 2)

pub bit-bit_and : (i a b : ℕ) → bit i (bit_and a b) ≡ min (bit i a) (bit i b)
bit-bit_and zero a b = omega (arith, bit_and_step a b)
bit-bit_and (suc i) a b =
    let high : bit_and a b / 2 ≡ bit_and (a / 2) (b / 2) = omega (arith, bit_and_step a b) in
    ap (bit i) high ∙ bit-bit_and i (a / 2) (b / 2)

-- The fuel `n` bounds both numbers.
bit_or_zero : (n a b : ℕ) → a ≤ n → b ≤ n → bit_or a b ≡ 0 → (a ≡ 0) × (b ≡ 0)
bit_or_zero zero a b p q h = omega arith
bit_or_zero (suc n) a b p q h = omega (
  arith,
  bit_or_step a b,
  bit_or_zero n (a / 2) (b / 2) (omega arith) (omega arith) (omega (arith, bit_or_step a b)),
)

pub bit_or-eq-zero_iff : (a b : ℕ) → (bit_or a b ≡ 0) ↔ ((a ≡ 0) × (b ≡ 0))
bit_or-eq-zero_iff a b = (
  bit_or_zero (a + b) a b (omega arith) (omega arith),
  λ h. ap (λ (x : ℕ). bit_or x b) h.0 ∙ ap (bit_or 0) h.1,
)

bit_xor_zero : (n a b : ℕ) → a ≤ n → b ≤ n → bit_xor a b ≡ 0 → a ≡ b
bit_xor_zero zero a b p q h = omega arith
bit_xor_zero (suc n) a b p q h = omega (
  arith,
  bit_xor_step a b,
  bit_xor_zero n (a / 2) (b / 2) (omega arith) (omega arith) (omega (arith, bit_xor_step a b)),
)

bit_xor_self : (n a : ℕ) → a ≤ n → bit_xor a a ≡ 0
bit_xor_self n zero p = refl
bit_xor_self zero (suc a) p = absurd (omega arith)
bit_xor_self (suc n) (suc a) p =
    omega (arith, bit_xor_step (suc a) (suc a), bit_xor_self n (suc a / 2) (omega arith))

pub bit_xor-eq-zero_iff : (a b : ℕ) → (bit_xor a b ≡ 0) ↔ (a ≡ b)
bit_xor-eq-zero_iff a b = (
  bit_xor_zero (a + b) a b (omega arith) (omega arith),
  λ e. ap (bit_xor a) (sym e) ∙ bit_xor_self a a (omega arith),
)

bit_and_right_zero : (n a : ℕ) → a ≤ n → bit_and a 0 ≡ 0
bit_and_right_zero n zero p = refl
bit_and_right_zero zero (suc a) p = absurd (omega arith)
bit_and_right_zero (suc n) (suc a) p =
    omega (arith, bit_and_step (suc a) 0, bit_and_right_zero n (suc a / 2) (omega arith))

bit_or_right_zero : (n a : ℕ) → a ≤ n → bit_or a 0 ≡ a
bit_or_right_zero n zero p = refl
bit_or_right_zero zero (suc a) p = absurd (omega arith)
bit_or_right_zero (suc n) (suc a) p =
    omega (arith, bit_or_step (suc a) 0, bit_or_right_zero n (suc a / 2) (omega arith))

double-pow : (q k : ℕ) → q * 2 ^ suc k ≡ 2 * (q * 2 ^ k)
double-pow q k = omega (arith, ap (λ (p : ℕ). q * p) (pow-suc 2 k))

bit_and_split : (k q r : ℕ) → r < 2 ^ k → bit_and (q * 2 ^ k + r) (2 ^ k - 1) ≡ r
bit_and_split zero q r h =
    omega (arith, bit_and_right_zero (q * 2 ^ 0 + r) (q * 2 ^ 0 + r) (omega arith))
bit_and_split (suc k) q r h =
    let top = 2 ^ suc k - 1 in
    ground (
      arith,
      pow-suc 2 k,
      double-pow q k,
      bit_and_step (q * 2 ^ suc k + r) top,
      bit_and_split k q (r / 2),
    )

-- A mask of the `k` low bits is a remainder.
pub bit_and_low : (k a : ℕ) → bit_and a (2 ^ k - 1) ≡ a % 2 ^ k
bit_and_low k a = ground (arith, one-le-pow k 2, bit_and_split k (a / 2 ^ k) (a % 2 ^ k))

-- `|` of a shifted number and one below it is a sum.
pub bit_or_shifted : (k q r : ℕ) → r < 2 ^ k → bit_or (q * 2 ^ k) r ≡ q * 2 ^ k + r
bit_or_shifted zero q r h = ground (arith, bit_or_right_zero q q)
bit_or_shifted (suc k) q r h =
    ground (
      arith,
      pow-suc 2 k,
      double-pow q k,
      bit_or_step (q * 2 ^ suc k) r,
      bit_or_shifted k q (r / 2),
    )

pub bit_or-lt : (k a b : ℕ) → a < 2 ^ k → b < 2 ^ k → bit_or a b < 2 ^ k
bit_or-lt zero a b h l = omega (arith, (bit_or-eq-zero_iff a b).1 (omega arith))
bit_or-lt (suc k) a b h l =
    ground (arith, pow-suc 2 k, bit_or_step a b, bit_or-lt k (a / 2) (b / 2))

pub bit_xor-lt : (k a b : ℕ) → a < 2 ^ k → b < 2 ^ k → bit_xor a b < 2 ^ k
bit_xor-lt zero a b h l = omega (arith, (bit_xor-eq-zero_iff a b).1 (omega arith))
bit_xor-lt (suc k) a b h l =
    ground (arith, pow-suc 2 k, bit_xor_step a b, bit_xor-lt k (a / 2) (b / 2))

bit_or_swap : (n a b : ℕ) → a ≤ n → b ≤ n → bit_or a b ≡ bit_or b a
bit_or_swap zero a b p q =
    let (a0, b0) : (a ≡ 0) × (b ≡ 0) = (omega arith, omega arith) in rw (a0, b0) refl
bit_or_swap (suc n) a b p q = omega (
  arith,
  bit_or_step a b,
  bit_or_step b a,
  bit_or_swap n (a / 2) (b / 2) (omega arith) (omega arith),
)

pub bit_or_comm : (a b : ℕ) → bit_or a b ≡ bit_or b a
bit_or_comm a b = bit_or_swap (a + b) a b (omega arith) (omega arith)
