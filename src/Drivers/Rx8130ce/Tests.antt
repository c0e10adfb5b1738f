-- ===== src/Drivers/Rx8130ce/Tests.antt =====
-- The clock on Friday, 2024-03-15, 12:34:56.
use esp_components.Base.{true, some, ◌≡◌, refl, arith}
use esp_components.Base.Int.{negsuc}
use esp_components.Drivers.Rx8130ce.{encoded, decode_time, encode_time}
use esp_components.Drivers.Rx8130ce.RoundTrip.{date, decode_time-encode_time}

friday :
    encoded (date 56 34 12 15 2 24 5 74 (negsuc 0))
    ≡ record { sec = 86; min = 52; hour = 18; wday = 5; mday = 21; mon = 3; year = 36 }
friday = refl

decode_time-encode_time_example :
    ((encode_time (some (date 56 34 12 15 2 24 5 74 (negsuc 0))) true).0 ≡ true)
    × (decode_time (encode_time (some (date 56 34 12 15 2 24 5 74 (negsuc 0))) true).1 true
        ≡ (true, some (date 56 34 12 15 2 24 5 0 (negsuc 0))))
decode_time-encode_time_example =
    decode_time-encode_time 56 34 12 15 2 24 5 74 (negsuc 0) (omega arith) (omega arith)
      (omega arith) (omega arith) (omega arith) (omega arith) (omega arith) (omega arith)
