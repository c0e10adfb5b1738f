-- ===== src/Http/Tests.antt =====
-- Runs of the authentication functions.
use esp_components.Base.{true, false, [], none, some, Option, Bytes, ◌≡◌, ◌↔◌, refl, arith, codes}
use esp_components.Http.Auth.Base64.{Encodes, reference, base64-Encodes}
use esp_components.Http.Auth.Login.{authorization, Fits, header_matches-expected_header_iff}
use esp_components.Http.Auth.{encode, symbol, base64, expected_header, header_matches, differences}

base64_runs :
    (base64 (some (codes "admin:x")) 13 ≡ some (codes "YWRtaW46eA=="))
    × (base64 (some (codes "admin:x")) 12 ≡ none)
    × (base64 (some []) 1 ≡ some [])
unfolding base64 encode symbol
base64_runs = (refl, refl, refl)

header_runs :
    (expected_header (some (codes "a")) (some (codes "b")) 64 ≡ some (codes "Basic YTpi"))
    × (header_matches (some (codes "Basic YTpj")) (some (codes "Basic YTpi")) ≡ false)
    × (header_matches (some (codes "Basic YTpi")) (some (codes "Basic YTpi")) ≡ true)
unfolding expected_header base64 encode symbol header_matches differences
header_runs = (refl, refl, refl)

base64-Encodes_example : Encodes 13 (codes "admin:x") (base64 (some (codes "admin:x")) 13)
base64-Encodes_example = base64-Encodes (codes "admin:x") 13 (omega arith)

header_matches-expected_header_iff_example :
    (header_matches
        (some (codes "Basic YTpi"))
        (expected_header (some (codes "a")) (some (codes "b")) 64)
      ≡ true)
    ↔ ((◌≡◌ {A = Option Bytes}
          (some (codes "Basic YTpi"))
          (some (authorization (codes "a") (codes "b"))))
        × Fits (codes "a") (codes "b") 64)
header_matches-expected_header_iff_example =
    header_matches-expected_header_iff (codes "a") (codes "b") 64 (some (codes "Basic YTpi"))
      (omega arith) (omega arith) (omega arith)

authorization_of_the_example :
    authorization (codes "Aladdin") (codes "open sesame")
    ≡ codes "Basic QWxhZGRpbjpvcGVuIHNlc2FtZQ=="
unfolding reference
authorization_of_the_example = refl
