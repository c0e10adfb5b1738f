-- ===== src/Http/Auth/Compare.antt =====
-- The comparison that looks at every byte is equality.
use esp_components.Base.{
  ℕ, ◌<◌, bit_or, bit_xor, true, [], ◌∷◌, some, Bytes, length, ◌≡◌, ◌↔◌, arith,
}
use esp_components.Base.Bits.{bit_or-eq-zero_iff, bit_xor-eq-zero_iff, bit_or-lt, bit_xor-lt}
use esp_components.Http.Auth.Base64.{IsBytes}
use esp_components.Http.Auth.{u8, differences, header_matches}

-- One round keeps `diff` at 0 exactly when it was 0 and the two bytes are the same.
round_zero :
    (diff h e : ℕ)
    → diff < 256
    → h < 256
    → e < 256
    → (u8 (bit_or diff (u8 (bit_xor h e))) ≡ 0) ↔ ((diff ≡ 0) × (h ≡ e))
round_zero diff h e p q r = ground (
  arith,
  bit_xor-lt 8 h e,
  bit_xor-eq-zero_iff h e,
  bit_or-lt 8 diff (bit_xor h e),
  bit_or-eq-zero_iff diff (bit_xor h e),
)

-- `diff` after a round.
abbrev next : ℕ → ℕ → ℕ → ℕ
next diff h e = u8 (bit_or diff (u8 (bit_xor h e)))

-- Once a difference is seen it is never lost.
differences_kept :
    (diff : ℕ) (expected header : Bytes)
    → diff < 256
    → IsBytes expected
    → IsBytes header
    → differences diff expected header ≡ 0
    → diff ≡ 0
unfolding differences
differences_kept diff [] header d p q h = h
differences_kept diff (e ∷ expected) [] d p q h =
    ((round_zero diff 0 e d (omega arith) p.0).0
      (differences_kept (next diff 0 e) expected [] (omega arith) p.1 tt h)).0
differences_kept diff (e ∷ expected) (x ∷ header) d p q h =
    ((round_zero diff x e d q.0 p.0).0
      (differences_kept (next diff x e) expected header (omega arith) p.1 q.1 h)).0

differences_zero :
    (diff : ℕ) (expected header : Bytes)
    → diff < 256
    → IsBytes expected
    → IsBytes header
    → length expected ≡ length header
    → (differences diff expected header ≡ 0) ↔ ((diff ≡ 0) × (header ≡ expected))
unfolding differences
differences_zero diff [] [] d p q l = ground arith
differences_zero diff [] (x ∷ header) d p q l = absurd (omega arith)
differences_zero diff (e ∷ expected) [] d p q l = absurd (omega arith)
differences_zero diff (e ∷ expected) (x ∷ header) d p q l =
    let rest =
      differences_zero (next diff x e) expected header (omega arith) p.1 q.1 (omega arith) in
    let here = round_zero diff x e d q.0 p.0 in ground (arith, rest, here)

-- `http_auth_header_matches` accepts the expected header and no other.
pub header_matches_iff :
    (header expected : Bytes)
    → IsBytes header
    → IsBytes expected
    → (header_matches (some header) (some expected) ≡ true) ↔ (header ≡ expected)
unfolding header_matches
header_matches_iff header expected p q = ground (
  arith,
  bit_xor-eq-zero_iff (length expected) (length header),
  differences_zero 0 expected header (omega arith) q p,
  differences_kept 1 expected header (omega arith) q p,
)
