-- ===== src/Drivers/Nau7802.antt =====
-- nau7802/src/nau7802.c: the transport, DRDY, and a conversion. The I2C bus, the pin and the semaphore are a parameter
-- that answers each request from all that was requested before. A delay is not a request.
pub mod Power
pub mod Lifecycle
pub mod Setters
pub mod Averaging
pub mod Weighing
pub mod Waiting
pub mod Conversions
pub mod Quiet
pub mod Status
pub mod Drdy
mod Tests
use esp_components.Base.{
  ℕ, zero, suc, ◌+◌, ◌-◌, ◌*◌, ◌/◌, ◌%◌, ◌^◌, Bool, true, false, not, ◌&&◌, List, [], ◌∷◌, Option,
  none, some, ltb, leb, ◌==◌, if◌then◌else◌, bit_and, bit_or, get_or, take, length,
}
use esp_components.Base.Int.{ℤ, pos, negsuc}

-- The values of `esp_err_t`; `exhausted` is none of them, and stands for a loop that has not come to an end.
pub data Error : Type 0 where
  invalid_arg invalid_state no_mem timeout cal_failed too_few_samples within_noise exhausted : Error
  bus_error : ℕ → Error

pub data Result {ℓ κ} (E : Type ℓ) (A : Type κ) : Type (ℓ ⊔ κ) where
  ok : A → Result E A
  failed : E → Result E A

-- A write of a register, a burst read of some registers, `xSemaphoreTake` of the DRDY signal for so many milliseconds,
-- and the level of the DRDY pin.
pub data Request : Type 0 where
  store load : ℕ → ℕ → Request
  take_signal : ℕ → Request
  level : ℕ → Request

-- No success, with its code, or success with the bytes that were read, or with the level.
pub data Reply : Type 0 where
  nack : ℕ → Reply
  acked : List ℕ → Reply

-- What was requested and answered, the last first.
abbrev pub Log : Type 0
Log = List (Request × Reply)

abbrev pub Bus : Type 0
Bus = Log → Request → Reply

-- A call that may fail and leaves a longer log.
abbrev pub M : Type 0 → Type 0 → Type 0
M E A = Log → Result E A × Log

abbrev pub continue : {A B E : Type 0} → Result E A × Log → (A → M E B) → Result E B × Log
continue (ok a, log) f = f a log
continue (failed e, log) f = (failed e, log)

infixl 5 ◌>>=◌ ◌>>◌
abbrev pub ◌>>=◌ : {A B E : Type 0} → M E A → (A → M E B) → M E B
◌>>=◌ m f log = continue (m log) f

abbrev pub ◌>>◌ : {B E : Type 0} → M E (Unit {0}) → M E B → M E B
m >> k = m >>= λ _. k

abbrev pub give : {A E : Type 0} → A → M E A
give a log = (ok a, log)

abbrev pub fail : {A E : Type 0} → E → M E A
fail e log = (failed e, log)

-- `nau7802_scale_t`; the type of the floating point numbers is a parameter.
pub record Scale (R : Type 0) : Type 0 where
  pub tare_counts : R
  pub tare_stderr : R
  pub tare_samples : ℕ
  pub counts_per_unit : R
  pub calibrated : Bool
  pub supplied : Bool

-- `struct nau7802_dev_t`: whether it has a device on the bus, and the DRDY pin, if there is one.
pub record Handle (R : Type 0) : Type 0 where
  pub dev : Bool
  pub ready : Bool
  pub drdy_gpio : Option ℕ
  pub scale : Scale R

-- CONVERSION_TIMEOUT_MS, CALIBRATION_TIMEOUT_MS
abbrev pub conversion_timeout : ℕ
conversion_timeout = 1000

abbrev pub calibration_timeout : ℕ
calibration_timeout = 2000

-- REG_PU_CTRL, REG_CTRL1, REG_CTRL2
abbrev pub reg_pu_ctrl : ℕ
reg_pu_ctrl = 0

abbrev pub reg_ctrl1 : ℕ
reg_ctrl1 = 1

abbrev pub reg_ctrl2 : ℕ
reg_ctrl2 = 2

abbrev pub bytes_of : Reply → Result Error (List ℕ)
bytes_of (nack code) = failed (bus_error code)
bytes_of (acked bytes) = ok bytes

abbrev pub done_of : Reply → Result Error (Unit {0})
done_of (nack code) = failed (bus_error code)
done_of (acked bytes) = ok tt

abbrev pub taken_of : Reply → Result Error (Unit {0})
taken_of (nack code) = failed timeout
taken_of (acked bytes) = ok tt

abbrev pub is_high : Reply → Bool
is_high (nack code) = false
is_high (acked bytes) = get_or bytes 0 0 == 1

-- `(value & mask) != 0`
abbrev pub has : ℕ → ℕ → Bool
has mask value = not (bit_and value mask == 0)

-- The bytes of a big-endian number, read to 32 bits.
unfoldable pub big_endian : ℕ → List ℕ → ℕ
big_endian value [] = value
big_endian value (b ∷ bs) = big_endian (bit_or (value * 256 % 2 ^ 32) b) bs

-- `value |= 0xFF000000` if bit 23 is set.
unfoldable pub sign_extend : ℕ → ℕ
sign_extend value = if has 0x800000 value then bit_or value 0xFF000000 else value

-- `(int32_t)value`
abbrev pub to_int32 : ℕ → ℤ
to_int32 value = if ltb value (2 ^ 31) then pos value else negsuc (2 ^ 32 - 1 - value)

module _ (bus : Bus) where
  abbrev pub ask : Request → Log → Reply × Log
  ask r log = (bus log r, (r, bus log r) ∷ log)

  -- `read_regs`
  unfoldable pub read_regs : Bool → ℕ → ℕ → M Error (List ℕ)
  read_regs dev reg len log =
      if not dev
      then (failed invalid_state, log)
      else (bytes_of (bus log (load reg len)), (load reg len, bus log (load reg len)) ∷ log)

  -- `read_reg`
  unfoldable pub read_reg : Bool → ℕ → M Error ℕ
  unfolding read_regs
  read_reg dev reg = do bytes ← read_regs dev reg 1; give (get_or bytes 0 0)

  -- `write_reg`
  unfoldable pub write_reg : Bool → ℕ → ℕ → M Error (Unit {0})
  write_reg dev reg value log =
      if not dev
      then (failed invalid_state, log)
      else (done_of (bus log (store reg value)), (store reg value, bus log (store reg value)) ∷ log)

  -- `update_reg`
  unfoldable pub update_reg : Bool → ℕ → ℕ → ℕ → M Error (Unit {0})
  unfolding read_reg write_reg
  update_reg dev reg clear_mask set_mask = do
    value ← read_reg dev reg
    write_reg dev reg (bit_or (bit_and value (255 - clear_mask)) set_mask % 256)

  -- `read_be`
  unfoldable pub read_be : Bool → ℕ → ℕ → M Error ℕ
  unfolding read_regs big_endian
  read_be dev reg len =
      if ltb 4 len
      then fail invalid_arg
      else (do bytes ← read_regs dev reg len; give (big_endian 0 (take len bytes)))

  -- The loop of `wait_for_bit`: `value & mask` is to be set, or clear.
  unfoldable pub poll : ℕ → Bool → ℕ → ℕ → Bool → ℕ → ℕ → M Error (Unit {0})
  unfolding read_reg
  poll zero dev reg mask set timeout_ms waited = fail exhausted
  poll (suc fuel) dev reg mask set timeout_ms waited =
      let later = poll fuel dev reg mask set timeout_ms ((waited + 10) % 2 ^ 32) in
      if leb waited timeout_ms
      then (do
        value ← read_reg dev reg
        if (if has mask value then set else not set) then give tt else later)
      else fail timeout

  -- `wait_for_bit`, with fuel for each 10 ms that fit.
  unfoldable pub wait_for_bit : Bool → ℕ → ℕ → Bool → ℕ → M Error (Unit {0})
  unfolding poll
  wait_for_bit dev reg mask set timeout_ms =
      poll (timeout_ms / 10 + 2) dev reg mask set timeout_ms 0

  -- `wait_for_drdy`: a signal that is left over is dropped, then a pin that is high already ends the wait.
  unfoldable pub wait_for_drdy : ℕ → ℕ → M Error (Unit {0})
  wait_for_drdy pin timeout_ms log =
      let (dropped, log1) = ask (take_signal 0) log in
      let (high, log2) = ask (level pin) log1 in
      let (taken, log3) = ask (take_signal timeout_ms) log2 in
      if is_high high then (ok tt, log2) else (taken_of taken, log3)

  -- `if (h->drdy_gpio >= 0)`
  abbrev pub await : Bool → Option ℕ → M Error (Unit {0})
  await dev none = wait_for_bit dev reg_pu_ctrl 32 true conversion_timeout
  await dev (some pin) = wait_for_drdy pin conversion_timeout

  -- `read_raw`
  unfoldable pub read_raw : Bool → Option ℕ → M Error ℤ
  unfolding read_regs sign_extend
  read_raw dev drdy = do
    await dev drdy
    raw ← read_regs dev 0x12 3
    let value = bit_or (bit_or (get_or raw 0 0 * 2 ^ 16) (get_or raw 1 0 * 2 ^ 8)) (get_or raw 2 0)
    give (to_int32 (sign_extend value))

  -- `discard_conversions`
  unfoldable pub discard_conversions : ℕ → Bool → Option ℕ → M Error (Unit {0})
  unfolding read_raw
  discard_conversions zero dev drdy = give tt
  discard_conversions (suc n) dev drdy = do
    ignored ← read_raw dev drdy
    discard_conversions n dev drdy
