-- ===== src/Http/Auth/Base64.antt =====
-- Base64 as RFC 4648 reads it back, and the round trip through the encoder of the code.
use esp_components.Base.{
  ℕ, ◌-◌, ◌&&◌, Bool, leb, ◌+◌, ◌*◌, ◌/◌, ◌%◌, ◌^◌, ◌≤◌, ◌<◌, bit_or, true, false, not, [], ◌∷◌,
  ◌++◌, Option, none, some, ltb, ◌==◌, if◌then◌else◌, Bytes, length, get_or, ◌≡◌, refl, ltb→lt,
  ==_iff, arith, ap, ◌∙◌, All, all_below, all_below_lem,
}
use esp_components.Base.Bits.{bit_and_low, bit_or_shifted}
use esp_components.Http.Auth.{alphabet, symbol, encode, base64}

abbrev pub IsBytes : Bytes → Type 0
IsBytes = All (λ b. b < 256)

abbrev between : ℕ → ℕ → ℕ → Bool
between low high c = leb low c && leb c high

-- The six bits that a symbol stands for: A to Z are 0 to 25, a to z are 26 to 51, 0 to 9 are 52 to 61, + is 62 and / is
-- 63.
pub value : ℕ → Option ℕ
value c =
    if between b'A' b'Z' c
    then some (c - b'A')
    else if between b'a' b'z' c
    then some (c - b'a' + 26)
    else if between b'0' b'9' c
    then some (c - b'0' + 52)
    else if c == b'+'
    then some 62
    else if c == b'/'
    then some 63
    else none

-- The symbol that stands for six bits.
abbrev pub digit : ℕ → ℕ
digit i =
    if ltb i 26
    then b'A' + i
    else if ltb i 52
    then b'a' + (i - 26)
    else if ltb i 62
    then b'0' + (i - 52)
    else if i == 62
    then b'+'
    else b'/'

-- Base64 as RFC 4648 defines it, by its table and the bits of each three bytes.
unfoldable pub reference : Bytes → Bytes
reference [] = []
reference (a ∷ []) = digit (a / 4) ∷ digit (a % 4 * 16) ∷ b'=' ∷ b'=' ∷ []
reference (a ∷ b ∷ []) =
    digit (a / 4) ∷ digit (a % 4 * 16 + b / 16) ∷ digit (b % 16 * 4) ∷ b'=' ∷ []
reference (a ∷ b ∷ c ∷ rest) =
    digit (a / 4)
    ∷ digit (a % 4 * 16 + b / 16)
    ∷ digit (b % 16 * 4 + c / 64)
    ∷ digit (c % 64)
    ∷ reference rest

infixl 5 ◌>>=◌
abbrev ◌>>=◌ {ℓ κ} : {A : Type ℓ} {B : Type κ} → Option A → (A → Option B) → Option B
none >>= f = none
some a >>= f = f a

-- The bytes of one group of four symbols.
pub decode_group : ℕ → ℕ → ℕ → ℕ → Option Bytes
decode_group p q r s =
    let one = (do x ← value p; y ← value q; some ((x * 4 + y / 16) ∷ [])) in
    let two = (do
      x ← value p
      y ← value q
      z ← value r
      some ((x * 4 + y / 16) ∷ (y % 16 * 16 + z / 4) ∷ [])) in
    let three = (do
      x ← value p
      y ← value q
      z ← value r
      w ← value s
      some ((x * 4 + y / 16) ∷ (y % 16 * 16 + z / 4) ∷ (z % 4 * 64 + w) ∷ [])) in
    if s == b'=' then (if r == b'=' then one else two) else three

pub decode : Bytes → Option Bytes
decode [] = some []
decode (p ∷ q ∷ r ∷ s ∷ rest) =
    let later = decode rest in do bytes ← decode_group p q r s; more ← later; some (bytes ++ more)
decode _ = none

-- The symbol of six bits.
abbrev sign : ℕ → ℕ
sign i = get_or alphabet i 0

value_table : all_below 64 (λ i. elim (value (sign i)) [ none ↦ false | some j ↦ j == i ]) ≡ true
unfolding all_below value
value_table = refl

pad_table : all_below 64 (λ i. not (sign i == b'=')) ≡ true
unfolding all_below
pad_table = refl

value-sign : (i : ℕ) → i < 64 → value (sign i) ≡ some i
value-sign i h = ground (arith, all_below_lem 64 _ i value_table h)

pad-sign : (i : ℕ) → i < 64 → (sign i == b'=') ≡ false
pad-sign i h = ground (arith, all_below_lem 64 _ i pad_table h)

symbol-sign : (v shift : ℕ) → symbol v shift ≡ sign (v / 2 ^ shift % 64)
unfolding symbol
symbol-sign v shift = ap sign (bit_and_low 6 (v / 2 ^ shift))

module _ (i j k l : ℕ) (hi : i < 64) (hj : j < 64) (hk : k < 64) (hl : l < 64) where
  decode_group_three :
      decode_group (sign i) (sign j) (sign k) (sign l)
      ≡ some ((i * 4 + j / 16) ∷ (j % 16 * 16 + k / 4) ∷ (k % 4 * 64 + l) ∷ [])
  unfolding decode_group
  decode_group_three =
      rw (pad-sign l hl, value-sign i hi, value-sign j hj, value-sign k hk, value-sign l hl)

  decode_group_two :
      decode_group (sign i) (sign j) (sign k) b'='
      ≡ some ((i * 4 + j / 16) ∷ (j % 16 * 16 + k / 4) ∷ [])
  unfolding decode_group
  decode_group_two = rw (pad-sign k hk, value-sign i hi, value-sign j hj, value-sign k hk)

  decode_group_one : decode_group (sign i) (sign j) b'=' b'=' ≡ some ((i * 4 + j / 16) ∷ [])
  unfolding decode_group
  decode_group_one = rw (value-sign i hi, value-sign j hj)

-- The 24 bits of a group.
group_two : (a b : ℕ) → b < 256 → bit_or (a * 2 ^ 16) (b * 2 ^ 8) ≡ a * 65536 + b * 256
group_two a b h = bit_or_shifted 16 a (b * 2 ^ 8) (omega arith)

group_three :
    (a b c : ℕ)
    → b < 256
    → c < 256
    → bit_or (bit_or (a * 2 ^ 16) (b * 2 ^ 8)) c ≡ a * 65536 + b * 256 + c
group_three a b c hb hc =
    let pair : bit_or (a * 2 ^ 16) (b * 2 ^ 8) ≡ (a * 256 + b) * 2 ^ 8 =
      omega (arith, group_two a b hb) in
    rw pair (omega (arith, bit_or_shifted 8 (a * 256 + b) c hc))

some_three :
    (x y z a b c : ℕ)
    → x ≡ a
    → y ≡ b
    → z ≡ c
    → ◌≡◌ {A = Option Bytes} (some (x ∷ y ∷ z ∷ [])) (some (a ∷ b ∷ c ∷ []))
some_three x y z a b c p q r = cc

abbrev sextet : ℕ → ℕ → ℕ
sextet v shift = v / 2 ^ shift % 64

sextet-lt : (v shift : ℕ) → sextet v shift < 64
sextet-lt v shift = omega arith

decode_group-three :
    (v : ℕ)
    → decode_group (symbol v 18) (symbol v 12) (symbol v 6) (symbol v 0)
      ≡ some ((v / 65536 % 256) ∷ (v / 256 % 256) ∷ (v % 256) ∷ [])
decode_group-three v =
    rw (symbol-sign v 18, symbol-sign v 12, symbol-sign v 6, symbol-sign v 0)
      (decode_group_three (sextet v 18) (sextet v 12) (sextet v 6) (sextet v 0) (sextet-lt v 18)
          (sextet-lt v 12) (sextet-lt v 6) (sextet-lt v 0)
        ∙ some_three _ _ _ (v / 65536 % 256) (v / 256 % 256) (v % 256) (omega arith) (omega arith)
            (omega arith))

decode_group-two :
    (v : ℕ)
    → decode_group (symbol v 18) (symbol v 12) (symbol v 6) b'='
      ≡ some ((v / 65536 % 256) ∷ (v / 256 % 256) ∷ [])
decode_group-two v =
    rw (symbol-sign v 18, symbol-sign v 12, symbol-sign v 6)
      (decode_group_two (sextet v 18) (sextet v 12) (sextet v 6) 0 (sextet-lt v 18) (sextet-lt v 12)
          (sextet-lt v 6) (omega arith)
        ∙ ground arith)

decode_group-one :
    (v : ℕ) → decode_group (symbol v 18) (symbol v 12) b'=' b'=' ≡ some ((v / 65536 % 256) ∷ [])
decode_group-one v =
    rw (symbol-sign v 18, symbol-sign v 12)
      (decode_group_one (sextet v 18) (sextet v 12) 0 0 (sextet-lt v 18) (sextet-lt v 12)
          (omega arith) (omega arith)
        ∙ ground arith)

-- Whatever bytes are encoded, reading the result as base64 gives them back.
pub decode-encode : (bytes : Bytes) → IsBytes bytes → decode (encode bytes) ≡ some bytes
unfolding encode decode
decode-encode [] h = refl
decode-encode (a ∷ []) h = rw (decode_group-one (a * 2 ^ 16)) (ground arith)
decode-encode (a ∷ b ∷ []) h =
    let v = bit_or (a * 2 ^ 16) (b * 2 ^ 8) in
    rw (decode_group-two v) (ground (arith, group_two a b))
decode-encode (a ∷ b ∷ c ∷ rest) h =
    let v = bit_or (bit_or (a * 2 ^ 16) (b * 2 ^ 8)) c in
    rw (decode_group-three v, decode-encode rest h.1.1.1) (ground (arith, group_three a b c))

pub length-encode : (bytes : Bytes) → length (encode bytes) ≡ (length bytes + 2) / 3 * 4
unfolding encode
length-encode [] = refl
length-encode (a ∷ []) = refl
length-encode (a ∷ b ∷ []) = refl
length-encode (a ∷ b ∷ c ∷ rest) = omega (arith, length-encode rest)

-- What a buffer of `out_size` bytes owes to an input: a text that reads back as the input and fits
-- with its terminator, or failure where four symbols for each three bytes do not fit.
abbrev pub Encodes : ℕ → Bytes → Option Bytes → Type 0
Encodes out_size input (some text) = (decode text ≡ some input) × (length text < out_size)
Encodes out_size input none = out_size ≤ (length input + 2) / 3 * 4

-- `http_auth_base64` encodes every input that fits, within the buffer, so that it reads back.
pub base64-Encodes :
    (input : Bytes) (out_size : ℕ)
    → IsBytes input
    → Encodes out_size input (base64 (some input) out_size)
unfolding base64
base64-Encodes input out_size h = ground (arith, decode-encode input h, length-encode input)

-- Two inputs with the same encoding are the same.
encode-injective : (xs ys : Bytes) → IsBytes xs → IsBytes ys → encode xs ≡ encode ys → xs ≡ ys
encode-injective xs ys hx hy e = cc (decode-encode xs hx, decode-encode ys hy)

sign_byte : all_below 64 (λ i. ltb (sign i) 256) ≡ true
unfolding all_below
sign_byte = refl

symbol-lt : (v shift : ℕ) → symbol v shift < 256
symbol-lt v shift =
    rw (symbol-sign v shift)
      (ltb→lt _ _ (all_below_lem 64 _ (sextet v shift) sign_byte (sextet-lt v shift)))

pub encode-IsBytes : (bytes : Bytes) → IsBytes (encode bytes)
unfolding encode
encode-IsBytes [] = tt
encode-IsBytes (a ∷ []) = omega (arith, symbol-lt)
encode-IsBytes (a ∷ b ∷ []) = omega (arith, symbol-lt)
encode-IsBytes (a ∷ b ∷ c ∷ rest) =
    let v = bit_or (bit_or (a * 2 ^ 16) (b * 2 ^ 8)) c in
    (symbol-lt v 18, (symbol-lt v 12, (symbol-lt v 6, (symbol-lt v 0, encode-IsBytes rest))))

digit_table : all_below 64 (λ i. sign i == digit i) ≡ true
unfolding all_below
digit_table = refl

symbol-digit : (v shift i : ℕ) → v / 2 ^ shift % 64 ≡ i → symbol v shift ≡ digit i
symbol-digit v shift i e =
    symbol-sign v shift
    ∙ (==_iff _ _).0 (all_below_lem 64 _ (sextet v shift) digit_table (sextet-lt v shift))
    ∙ ap digit e

-- The encoder of the code is base64 as it is defined.
pub encode-reference : (bytes : Bytes) → IsBytes bytes → encode bytes ≡ reference bytes
unfolding encode reference
encode-reference [] h = refl
encode-reference (a ∷ []) h =
    let v = a * 2 ^ 16 in
    rw (symbol-digit v 18 (a / 4) (omega arith), symbol-digit v 12 (a % 4 * 16) (omega arith)) refl
encode-reference (a ∷ b ∷ []) h =
    let v = bit_or (a * 2 ^ 16) (b * 2 ^ 8) in
    let two = group_two a b (omega (arith, h)) in
    rw
      (
        symbol-digit v 18 (a / 4) (omega (arith, two)),
        symbol-digit v 12 (a % 4 * 16 + b / 16) (omega (arith, two)),
        symbol-digit v 6 (b % 16 * 4) (omega (arith, two)),
      )
      refl
encode-reference (a ∷ b ∷ c ∷ rest) h =
    let v = bit_or (bit_or (a * 2 ^ 16) (b * 2 ^ 8)) c in
    let three = group_three a b c (omega (arith, h)) (omega (arith, h)) in
    rw
      (
        symbol-digit v 18 (a / 4) (omega (arith, three)),
        symbol-digit v 12 (a % 4 * 16 + b / 16) (omega (arith, three)),
        symbol-digit v 6 (b % 16 * 4 + c / 64) (omega (arith, three)),
        symbol-digit v 0 (c % 64) (omega (arith, three)),
        encode-reference rest h.1.1.1,
      )
      refl
