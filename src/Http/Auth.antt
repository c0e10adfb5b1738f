-- ===== src/Http/Auth.antt =====
-- http_server/src/http_auth.c: base64, the expected Authorization header, and its comparison with
-- the one received. Bytes are numbers below 256; a C string holds no 0. A buffer of `out_size`
-- bytes that the code fills is the text it ends up with, `none` where the function returns false.
pub mod Base64
pub mod Compare
pub mod Login
use esp_components.Base.{
  ℕ, ◌+◌, ◌-◌, ◌*◌, ◌/◌, ◌%◌, ◌^◌, bit_and, bit_or, bit_xor, Bool, true, false, List, [], ◌∷◌, ◌++◌,
  Option, none, some, ltb, leb, ◌==◌, if◌then◌else◌, Bytes, length, get_or, codes,
}

-- B64
abbrev pub alphabet : Bytes
alphabet = codes "ABCDEFGHIJKLMNOPQRSTUVWXYZabcdefghijklmnopqrstuvwxyz0123456789+/"

-- `B64[(v >> shift) & 0x3f]`
unfoldable pub symbol : ℕ → ℕ → ℕ
symbol v shift = get_or alphabet (bit_and (v / 2 ^ shift) 0x3f) 0

-- The loop of `http_auth_base64` over three bytes at a time, and the one or two that remain.
unfoldable pub encode : Bytes → Bytes
encode [] = []
encode (a ∷ []) = let v = a * 2 ^ 16 in symbol v 18 ∷ symbol v 12 ∷ b'=' ∷ b'=' ∷ []
encode (a ∷ b ∷ []) =
    let v = bit_or (a * 2 ^ 16) (b * 2 ^ 8) in symbol v 18 ∷ symbol v 12 ∷ symbol v 6 ∷ b'=' ∷ []
encode (a ∷ b ∷ c ∷ rest) =
    let v = bit_or (bit_or (a * 2 ^ 16) (b * 2 ^ 8)) c in
    symbol v 18 ∷ symbol v 12 ∷ symbol v 6 ∷ symbol v 0 ∷ encode rest

-- `http_auth_base64`
unfoldable pub base64 : Option Bytes → ℕ → Option Bytes
base64 none out_size = none
base64 (some input) out_size =
    let encoded_len = (length input + 2) / 3 * 4 in
    if ltb out_size (encoded_len + 1) then none else some (encode input)

-- The `plain` buffer.
abbrev pub plain_size : ℕ
plain_size = 128

abbrev pub basic : Bytes
basic = codes "Basic "

-- `http_auth_expected_header`
unfoldable pub expected_header : Option Bytes → Option Bytes → ℕ → Option Bytes
expected_header none password out_size = none
expected_header (some user) none out_size = none
expected_header (some user) (some password) out_size =
    let plain = user ++ (b':' ∷ password) in
    let encoded = base64 (some plain) (out_size - length basic) in
    if leb plain_size (length plain)
    then none
    else if leb out_size (length basic)
    then none
    else elim encoded [ none ↦ none | some text ↦ some (basic ++ text) ]

-- `(unsigned char)`
abbrev pub u8 : ℕ → ℕ
u8 n = n % 2 ^ 8

-- The loop over the expected value: `diff |= (unsigned char)(h ^ expected[i])`, where `h` is 0 past
-- the end of the header.
unfoldable pub differences : ℕ → Bytes → Bytes → ℕ
differences diff [] header = diff
differences diff (e ∷ expected) [] = differences (u8 (bit_or diff (u8 (bit_xor 0 e)))) expected []
differences diff (e ∷ expected) (h ∷ header) =
    differences (u8 (bit_or diff (u8 (bit_xor h e)))) expected header

-- `http_auth_header_matches`
unfoldable pub header_matches : Option Bytes → Option Bytes → Bool
header_matches none expected = false
header_matches (some header) none = false
header_matches (some header) (some expected) =
    let start = if bit_xor (length expected) (length header) == 0 then 0 else 1 in
    differences start expected header == 0
