-- ===== src/Http/Auth/Login.antt =====
-- Which requests a configured user name and password let in.
use esp_components.Base.{
  ℕ, ◌+◌, ◌<◌, true, [], ◌∷◌, ◌++◌, Option, none, some, Bytes, length, ◌≡◌, ◌↔◌, arith, codes, ap,
  sym, subst, ◌∙◌,
}
use esp_components.Http.Auth.Base64.{
  IsBytes, reference, encode-reference, encode-IsBytes, length-encode,
}
use esp_components.Http.Auth.Compare.{header_matches_iff}
use esp_components.Http.Auth.{basic, plain_size, encode, base64, expected_header, header_matches}

IsBytes-append : (xs ys : Bytes) → IsBytes xs → IsBytes ys → IsBytes (xs ++ ys)
IsBytes-append [] ys h k = k
IsBytes-append (x ∷ xs) ys h k = (h.0, IsBytes-append xs ys h.1 k)

-- The credentials of a request, as they stand between "Basic " and its end.
abbrev pub credentials : Bytes → Bytes → Bytes
credentials user password = user ++ b':' ∷ password

-- The header that the two strings call for, where they fit the two buffers; nothing else.
abbrev pub IsExpected : Bytes → ℕ → Option Bytes → Type 0
IsExpected plain out_size (some header) =
    (header ≡ basic ++ encode plain) × (length plain < plain_size) × (length header < out_size)
IsExpected plain out_size none =
    ¬ ((length plain < plain_size) × (length basic + length (encode plain) < out_size))

-- The header of a user and a password is "Basic " and their base64, within the buffer; there is
-- none exactly where the two strings or that header do not fit.
expected_header-IsExpected :
    (user password : Bytes) (out_size : ℕ)
    → IsExpected
        (credentials user password)
        out_size
        (expected_header (some user) (some password) out_size)
unfolding expected_header base64
expected_header-IsExpected user password out_size =
    ground (arith, length-encode (credentials user password))

-- The header is a string of bytes, or there is none.
abbrev pub AreBytes : Option Bytes → Type 0
AreBytes none = Unit
AreBytes (some header) = IsBytes header

-- The header that RFC 7617 has a client send.
abbrev pub authorization : Bytes → Bytes → Bytes
authorization user password = codes "Basic " ++ reference (credentials user password)

-- The credentials and the header fit the two buffers.
abbrev pub Fits : Bytes → Bytes → ℕ → Type 0
Fits user password out_size =
    (length (credentials user password) < plain_size)
    × (length (authorization user password) < out_size)

module _ (user password : Bytes) (out_size : ℕ) (hu : IsBytes user) (hp : IsBytes password) where
  abbrev plain : Bytes
  plain = credentials user password

  plain-IsBytes : IsBytes plain
  plain-IsBytes = IsBytes-append user (b':' ∷ password) hu (omega arith, hp)

  basic-encode : basic ++ encode plain ≡ authorization user password
  basic-encode = ap (λ (t : Bytes). basic ++ t) (encode-reference plain plain-IsBytes)

  authorization-IsBytes : IsBytes (authorization user password)
  authorization-IsBytes =
      subst IsBytes basic-encode
        (IsBytes-append basic (encode plain) (omega arith) (encode-IsBytes plain))

  both_iff :
      (s header : Bytes)
      → IsBytes s
      → IsExpected plain out_size (some header)
      → (header_matches (some s) (some header) ≡ true)
        ↔ ((some s ≡ some (authorization user password)) × Fits user password out_size)
  both_iff s header h (shape, small, fits) =
      let it : header ≡ authorization user password = shape ∙ basic-encode in
      let same = header_matches_iff s header h (subst IsBytes (sym it) authorization-IsBytes) in
      (
        λ m. (ap some (same.0 m ∙ it), (small, subst (λ (t : Bytes). length t < out_size) it fits)),
        λ k. same.1 (cc (k.0, it)),
      )

  -- Against what the two strings call for.
  lets_in_iff :
      (sent expected : Option Bytes)
      → AreBytes sent
      → IsExpected plain out_size expected
      → (header_matches sent expected ≡ true)
        ↔ ((sent ≡ some (authorization user password)) × Fits user password out_size)
  unfolding header_matches
  lets_in_iff none none h w = (λ m. absurd (ground (arith, m)), λ k. absurd (ground (arith, k.0)))
  lets_in_iff none (some header) h w =
      (λ m. absurd (ground (arith, m)), λ k. absurd (ground (arith, k.0)))
  lets_in_iff (some s) none h w = (
    λ m. absurd (ground (arith, m)),
    λ k. absurd (w (k.1.0, omega (arith, k.1.1, ap length (encode-reference plain plain-IsBytes)))),
  )
  lets_in_iff (some s) (some header) h w = both_iff s header h w

-- The request's header is let in exactly if it is the one that RFC 7617 defines for the user and the password, with the
-- base64 of RFC 4648, and these fit the buffers; a request without the header is not, and where they do not fit, nobody
-- is.
pub header_matches-expected_header_iff :
    (user password : Bytes) (out_size : ℕ) (sent : Option Bytes)
    → IsBytes user
    → IsBytes password
    → AreBytes sent
    → (header_matches sent (expected_header (some user) (some password) out_size) ≡ true)
      ↔ ((sent ≡ some (authorization user password)) × Fits user password out_size)
header_matches-expected_header_iff user password out_size sent hu hp hs =
    lets_in_iff user password out_size hu hp sent
      (expected_header (some user) (some password) out_size) hs
      (expected_header-IsExpected user password out_size)
