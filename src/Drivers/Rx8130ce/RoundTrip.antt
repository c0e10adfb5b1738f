-- ===== src/Drivers/Rx8130ce/RoundTrip.antt =====
-- What is written to the clock is read back.
use esp_components.Base.{
  ℕ, ◌+◌, ◌%◌, ◌<◌, Bool, true, false, ◌||◌, Option, some, ltb, ◌==◌, if◌then◌else◌, bit_and, ◌≡◌,
  refl, arith, ap, ◌∙◌, all_below, all_below_lem, ==_iff,
}
use esp_components.Base.Int.{ℤ, pos, negsuc}
use esp_components.Drivers.Rx8130ce.{
  Tm, bin2bcd, bcd2bin, decode_time, encode_time, decoded, encoded, implausible, minus, to_byte,
}

-- A date and time with its day of the week: the month from 0, the year from 2000.
abbrev pub date : ℕ → ℕ → ℕ → ℕ → ℕ → ℕ → ℕ → ℕ → ℤ → Tm
date sec min hour mday mon year wday yday isdst = record {
  tm_sec = pos sec;
  tm_min = pos min;
  tm_hour = pos hour;
  tm_mday = pos mday;
  tm_mon = pos mon;
  tm_year = pos (year + 100);
  tm_wday = pos wday;
  tm_yday = pos yday;
  tm_isdst = isdst;
}

-- A field comes through the digits and the mask of its register.
abbrev through : ℕ → ℕ → ℕ
through mask n = bcd2bin (bit_and (bin2bcd (n % 256)) mask)

module _ (n : ℕ) where
  seconds : n < 60 → through 127 n ≡ n
  unfolding all_below
  seconds h = (==_iff _ _).0 (all_below_lem 60 (λ (k : ℕ). through 127 k == k) n refl h)

  hours : n < 32 → through 63 n ≡ n
  unfolding all_below
  hours h = (==_iff _ _).0 (all_below_lem 32 (λ (k : ℕ). through 63 k == k) n refl h)

  months : n < 13 → through 31 n ≡ n
  unfolding all_below
  months h = (==_iff _ _).0 (all_below_lem 13 (λ (k : ℕ). through 31 k == k) n refl h)

  weekdays : n < 7 → through 7 n ≡ n
  unfolding all_below
  weekdays h = (==_iff _ _).0 (all_below_lem 7 (λ (k : ℕ). through 7 k == k) n refl h)

  years : n < 100 → bcd2bin (bin2bcd (n % 256)) ≡ n
  unfolding all_below
  years h =
      (==_iff _ _).0 (all_below_lem 100 (λ (k : ℕ). bcd2bin (bin2bcd (k % 256)) == k) n refl h)

module _ (sec min hour mday mon year wday yday : ℕ) (isdst : ℤ) (hs : sec < 60) (hm : min < 60)
    (hh : hour < 24) (hd : 0 < mday) (he : mday < 32) (ho : mon < 12) (hy : year < 100)
    (hw : wday < 7) where
  abbrev t : Tm
  t = date sec min hour mday mon year wday yday isdst

  abbrev back : Tm
  back = date sec min hour mday mon year wday 0 (negsuc 0)

  encoded_year : to_byte (minus t.tm_year 100) ≡ year % 256
  encoded_year =
      let enough : ltb (year + 100) 100 ≡ false = ground arith in
      rw enough (ap (λ (n : ℕ). n % 256) (omega arith))

  decoded_mon : minus (pos (through 31 (mon + 1))) 1 ≡ pos mon
  decoded_mon =
      let enough : ltb (mon + 1) 1 ≡ false = ground arith in
      ap (λ (n : ℕ). minus (pos n) 1) (months (mon + 1) (omega arith))
      ∙ rw enough (ap pos (omega arith))

  decoded-encoded : decoded (encoded t) ≡ back
  decoded-encoded = λ i. record {
    tm_sec = pos (seconds sec hs i);
    tm_min = pos (seconds min hm i);
    tm_hour = pos (hours hour (omega arith) i);
    tm_mday = pos (hours mday he i);
    tm_mon = decoded_mon i;
    tm_year = pos ((ap (λ (n : ℕ). bcd2bin (bin2bcd n)) encoded_year ∙ years year hy) i + 100);
    tm_wday = pos (weekdays wday hw i);
    tm_yday = pos 0;
    tm_isdst = negsuc 0;
  }

  encoded_ok : encode_time (some t) true ≡ (true, some (encoded t))
  unfolding encode_time
  encoded_ok =
      let in_range : (ltb (year + 100) 100 || ltb 199 (year + 100)) ≡ false = ground arith in
      rw in_range refl

  back_ok : implausible back ≡ false
  back_ok = ground arith

  decoded_ok : decode_time (some (encoded t)) true ≡ (true, some back)
  unfolding decode_time
  decoded_ok =
      let judged : Tm → Bool × Option Tm =
        λ x. if implausible x then (false, some x) else (true, some x) in
      let plausible : judged back ≡ (true, some back) = rw back_ok refl in
      ap judged decoded-encoded ∙ plausible

-- A date from 2000 to 2099 with its fields in range is encoded, and what is encoded decodes to the date, with the
-- day of the year 0 and the daylight saving time unknown.
pub decode_time-encode_time :
    (sec min hour mday mon year wday yday : ℕ) (isdst : ℤ)
    → sec < 60
    → min < 60
    → hour < 24
    → 0 < mday
    → mday < 32
    → mon < 12
    → year < 100
    → wday < 7
    → ((encode_time (some (date sec min hour mday mon year wday yday isdst)) true).0 ≡ true)
      × (decode_time
            (encode_time (some (date sec min hour mday mon year wday yday isdst)) true).1
            true
          ≡ (true, some (date sec min hour mday mon year wday 0 (negsuc 0))))
decode_time-encode_time sec min hour mday mon year wday yday isdst hs hm hh hd he ho hy hw =
    let e = encoded_ok sec min hour mday mon year wday yday isdst hs hm hh hd he ho hy hw in
    rw e (refl, decoded_ok sec min hour mday mon year wday yday isdst hs hm hh hd he ho hy hw)
