-- ===== src/Cli/Compare.antt =====
-- `strcasecmp` and `strncasecmp` of the C library: bytes are compared as lower case letters, the
-- shorter of two strings that agree comes first.
use Prim.Native.Nat.{compare, Ordering}
use esp_components.Base.{
  ℕ, ◌+◌, Bool, true, false, ◌&&◌, [], ◌∷◌, leb, if◌then◌else◌, Bytes, map, ◌≡◌, refl, arith,
}

unfoldable pub lower : ℕ → ℕ
lower c = if leb b'A' c && leb c b'Z' then c + 32 else c

abbrev pub key : Bytes → Bytes
key = map lower

-- `strcmp`, on the bytes that are compared.
unfoldable pub order : Bytes → Bytes → Ordering
order [] [] = Ordering.eq
order [] (y ∷ ys) = Ordering.lt
order (x ∷ xs) [] = Ordering.gt
order (x ∷ xs) (y ∷ ys) =
    let rest = order xs ys in
    elim (compare x y) [
      | Ordering.lt ↦ Ordering.lt
      | Ordering.eq ↦ rest
      | Ordering.gt ↦ Ordering.gt
    ]

abbrev pub strcasecmp : Bytes → Bytes → Ordering
strcasecmp a b = order (key a) (key b)

abbrev pub is_eq : Ordering → Bool
is_eq Ordering.eq = true
is_eq _ = false

abbrev pub is_gt : Ordering → Bool
is_gt Ordering.gt = true
is_gt _ = false

pub order_self : (a : Bytes) → order a a ≡ Ordering.eq
unfolding order
order_self [] = refl
order_self (x ∷ xs) = ground (arith, order_self xs)

pub order-eq : (a b : Bytes) → order a b ≡ Ordering.eq → a ≡ b
unfolding order
order-eq [] [] h = refl
order-eq [] (y ∷ ys) h = ground arith
order-eq (x ∷ xs) [] h = ground arith
order-eq (x ∷ xs) (y ∷ ys) h = ground (arith, order-eq xs ys)

pub order_flip : (a b : Bytes) → order a b ≡ Ordering.gt → order b a ≡ Ordering.lt
unfolding order
order_flip [] [] h = ground arith
order_flip [] (y ∷ ys) h = ground arith
order_flip (x ∷ xs) [] h = refl
order_flip (x ∷ xs) (y ∷ ys) h = ground (arith, order_flip xs ys)

pub order_trans :
    (a b c : Bytes) → order a b ≡ Ordering.lt → order b c ≡ Ordering.lt → order a c ≡ Ordering.lt
unfolding order
order_trans [] [] c h k = ground arith
order_trans [] (y ∷ ys) [] h k = ground arith
order_trans [] (y ∷ ys) (z ∷ zs) h k = refl
order_trans (x ∷ xs) [] c h k = ground arith
order_trans (x ∷ xs) (y ∷ ys) [] h k = ground arith
order_trans (x ∷ xs) (y ∷ ys) (z ∷ zs) h k = ground (arith, order_trans xs ys zs)
