-- ===== src/Drivers/Rx8130ce.antt =====
-- rx8130ce/src/rx8130ce_calc.c: the registers of the RX8130CE clock and `struct tm`. An `int` is a ℤ; the
-- registers are bytes. A pointer that may be NULL is an Option, or a Bool for one that is written to.
pub mod RoundTrip
mod Tests
use esp_components.Base.Int.{ℤ, pos, negsuc}
use esp_components.Base.{
  ℕ, zero, suc, ◌+◌, ◌-◌, ◌*◌, ◌/◌, ◌%◌, Bool, true, false, not, ◌&&◌, ◌||◌, Option, none, some,
  ltb, if◌then◌else◌, bit_and, bit_or,
}

-- `(uint8_t)x`
abbrev pub to_byte : ℤ → ℕ
to_byte (pos n) = n % 256
to_byte (negsuc n) = 255 - n % 256

-- `x - k`, where the difference is an `int`.
abbrev pub minus : ℤ → ℕ → ℤ
minus (pos n) k = if ltb n k then negsuc (k - n - 1) else pos (n - k)
minus (negsuc n) k = negsuc (n + k)

-- `x + 1`
abbrev pub plus_one : ℤ → ℤ
plus_one (pos n) = pos (n + 1)
plus_one (negsuc zero) = pos 0
plus_one (negsuc (suc n)) = negsuc n

-- `x > n` and `x < n`
abbrev pub above : ℤ → ℕ → Bool
above (pos k) n = ltb n k
above (negsuc k) n = false

abbrev pub below : ℤ → ℕ → Bool
below (pos k) n = ltb k n
below (negsuc k) n = true

-- `struct tm`
pub record Tm : Type 0 where
  pub tm_sec : ℤ
  pub tm_min : ℤ
  pub tm_hour : ℤ
  pub tm_mday : ℤ
  pub tm_mon : ℤ
  pub tm_year : ℤ
  pub tm_wday : ℤ
  pub tm_yday : ℤ
  pub tm_isdst : ℤ

-- The seven registers, `regs[0]` to `regs[6]`.
pub record Regs : Type 0 where
  pub sec : ℕ
  pub min : ℕ
  pub hour : ℕ
  pub wday : ℕ
  pub mday : ℕ
  pub mon : ℕ
  pub year : ℕ

-- `rx8130ce_bin2bcd`
abbrev pub bin2bcd : ℕ → ℕ
bin2bcd value = bit_or (value / 10 * 16) (value % 10) % 256

-- `rx8130ce_bcd2bin`
abbrev pub bcd2bin : ℕ → ℕ
bcd2bin value = (value / 16 * 10 + bit_and value 15) % 256

-- What `rx8130ce_decode_time` writes.
abbrev pub decoded : Regs → Tm
decoded r = record {
  tm_sec = pos (bcd2bin (bit_and r.sec 127));
  tm_min = pos (bcd2bin (bit_and r.min 127));
  tm_hour = pos (bcd2bin (bit_and r.hour 63));
  tm_mday = pos (bcd2bin (bit_and r.mday 63));
  tm_mon = minus (pos (bcd2bin (bit_and r.mon 31))) 1;
  tm_year = pos (bcd2bin r.year + 100);
  tm_wday = pos (bcd2bin (bit_and r.wday 7));
  tm_yday = pos 0;
  tm_isdst = negsuc 0;
}

-- The test of what was written.
abbrev pub implausible : Tm → Bool
implausible t =
    above t.tm_sec 59
    || above t.tm_min 59
    || above t.tm_hour 23
    || below t.tm_mday 1
    || above t.tm_mday 31
    || below t.tm_mon 0
    || above t.tm_mon 11
    || above t.tm_wday 6

-- `rx8130ce_decode_time`: what it returns and what it has written.
unfoldable pub decode_time : Option Regs → Bool → Bool × Option Tm
decode_time none out = (false, none)
decode_time (some r) out =
    if not out
    then (false, none)
    else if implausible (decoded r)
    then (false, some (decoded r))
    else (true, some (decoded r))

-- What `rx8130ce_encode_time` writes.
abbrev pub encoded : Tm → Regs
encoded t = record {
  sec = bin2bcd (to_byte t.tm_sec);
  min = bin2bcd (to_byte t.tm_min);
  hour = bin2bcd (to_byte t.tm_hour);
  wday = bin2bcd (to_byte t.tm_wday);
  mday = bin2bcd (to_byte t.tm_mday);
  mon = bin2bcd (to_byte (plus_one t.tm_mon));
  year = bin2bcd (to_byte (minus t.tm_year 100));
}

-- `rx8130ce_encode_time`
unfoldable pub encode_time : Option Tm → Bool → Bool × Option Regs
encode_time none regs = (false, none)
encode_time (some t) regs =
    if not regs
    then (false, none)
    else if below t.tm_year 100 || above t.tm_year 199
    then (false, none)
    else (true, some (encoded t))
