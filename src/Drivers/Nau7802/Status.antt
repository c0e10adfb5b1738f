-- ===== src/Drivers/Nau7802/Status.antt =====
-- nau7802/src/nau7802.c: what nau7802_get_status establishes, and the choices by their values.
use esp_components.Base.{
  ℕ, ◌+◌, ◌-◌, ◌/◌, ◌^◌, Bool, false, List, [], ◌∷◌, Option, none, some, ◌==◌, if◌then◌else◌,
  bit_and,
}
use esp_components.Base.Int.{ℤ, pos, negsuc}
use esp_components.Drivers.Floats.{Floats}
use esp_components.Drivers.Nau7802.{
  Error, Result, ok, failed, level, Log, Bus, M, ◌>>=◌, give, Scale, Handle, has, is_high, read_reg,
  read_be, reg_pu_ctrl, reg_ctrl1, reg_ctrl2,
}
use esp_components.Drivers.Nau7802.Setters.{gain_values, rate_values, rate_sps}
use esp_components.Drivers.Nau7802.Averaging.{whole, full_scale}

abbrev pub ldo_millivolts : List (Option ℕ)
ldo_millivolts =
    some 4500
    ∷ some 4200
    ∷ some 3900
    ∷ some 3600
    ∷ some 3300
    ∷ some 3000
    ∷ some 2700
    ∷ some 2400
    ∷ []

abbrev pub is_value : ℕ → Option ℕ → Bool
is_value value none = false
is_value value (some v) = v == value

-- The first index from `i` on where the value stands.
unfoldable pub index_from : ℕ → List (Option ℕ) → ℕ → Option ℕ
index_from i [] value = none
index_from i (v ∷ vs) value =
    let rest = index_from (i + 1) vs value in if is_value value v then some i else rest

-- `nau7802_gain_from_value`, `nau7802_rate_from_sps` of a rate that is not negative, `nau7802_ldo_from_millivolts`
abbrev pub gain_from_value : ℕ → Option ℕ
gain_from_value value = index_from 0 gain_values value

abbrev pub rate_from_sps : ℕ → Option ℕ
rate_from_sps sps = index_from 0 rate_values sps

abbrev pub ldo_from_millivolts : ℕ → Option ℕ
ldo_from_millivolts millivolts = index_from 0 ldo_millivolts millivolts

-- OCAL and GCAL of the channel.
pub record CalibrationRegs (R : Type 0) : Type 0 where
  pub ocal_raw : ℕ
  pub ocal_counts : ℤ
  pub gcal_raw : ℕ
  pub gcal_ratio : R

-- PGA and POWER_CTRL.
pub record Pga : Type 0 where
  pub pga : ℕ
  pub power : ℕ
  pub ldomode : Bool
  pub pga_cap : Bool

-- `nau7802_status_t`; what comes with a flag that it is valid is there if it is; the chopper's field of ADC_CTRL is left out.
pub record Status (R : Type 0) : Type 0 where
  pub revision : ℕ
  pub pu_ctrl : ℕ
  pub ctrl1 : ℕ
  pub ctrl2 : ℕ
  pub digital_up : Bool
  pub analog_up : Bool
  pub power_ready : Bool
  pub data_ready : Bool
  pub conversions_started : Bool
  pub internal_ldo : Bool
  pub gain : ℕ
  pub ldo : ℕ
  pub rate : ℕ
  pub rate_sps : Option ℕ
  pub channel_b : Bool
  pub cal_error : Bool
  pub cal_regs : Option (CalibrationRegs R)
  pub pga : Option Pga
  pub adc_ctrl : Option ℕ
  pub drdy_gpio : Option ℕ
  pub drdy_level : Option Bool
  pub brought_up : Bool
  pub scale : Scale R

abbrev pub if_ok : {A : Type 0} → Result Error A → Option A
if_ok (ok a) = some a
if_ok (failed e) = none

-- Sign and magnitude.
unfoldable pub decode_ocal : ℕ → ℤ
decode_ocal ocal =
    let magnitude = bit_and ocal 0x7FFFFF in
    if has 0x800000 ocal
    then (if magnitude == 0 then pos 0 else negsuc (magnitude - 1))
    else pos magnitude

module _ (F : Floats) (bus : Bus) where
  open F use {R, div}

  -- `read_calibration_regs`
  unfoldable pub read_calibration_regs : Bool → Bool → M Error (CalibrationRegs R)
  unfolding read_be decode_ocal
  read_calibration_regs dev channel_b = do
    ocal ← read_be bus dev (if channel_b then 0x0A else 0x03) 3
    gcal ← read_be bus dev (if channel_b then 0x0D else 0x06) 4
    give (record {
      ocal_raw = ocal;
      ocal_counts = decode_ocal ocal;
      gcal_raw = gcal;
      gcal_ratio = div (whole F gcal) (full_scale F);
    })

  -- `nau7802_drdy_level`
  abbrev pub drdy_level : Option ℕ → Log → Option Bool × Log
  drdy_level none log = (none, log)
  drdy_level (some pin) log =
      (some (is_high (bus log (level pin))), (level pin, bus log (level pin)) ∷ log)

  unfoldable pub read_pga : Bool → M Error Pga
  unfolding read_reg
  read_pga dev = do
    pga ← read_reg bus dev 0x1B
    power ← read_reg bus dev 0x1C
    give (record { pga = pga; power = power; ldomode = has 64 pga; pga_cap = has 128 power })

  -- What is read once the four registers are known; of these reads any may fail.
  unfoldable pub read_details : Handle R → ℕ → ℕ → ℕ → ℕ → M Error (Status R)
  unfolding read_calibration_regs read_pga read_reg
  read_details h pu_ctrl ctrl1 ctrl2 revision log =
      let (cal, log1) = read_calibration_regs h.dev (has 128 ctrl2) log in
      let (pga, log2) = read_pga h.dev log1 in
      let (adc, log3) = read_reg bus h.dev 0x15 log2 in
      let (high, log4) = drdy_level h.drdy_gpio log3 in
      (
        ok (record {
          revision = revision;
          pu_ctrl = pu_ctrl;
          ctrl1 = ctrl1;
          ctrl2 = ctrl2;
          digital_up = has 2 pu_ctrl;
          analog_up = has 4 pu_ctrl;
          power_ready = has 8 pu_ctrl;
          data_ready = has 32 pu_ctrl;
          conversions_started = has 16 pu_ctrl;
          internal_ldo = has 128 pu_ctrl;
          gain = bit_and ctrl1 0x07;
          ldo = bit_and ctrl1 0x38 / 2 ^ 3;
          rate = bit_and ctrl2 0x70 / 2 ^ 4;
          rate_sps = rate_sps (bit_and ctrl2 0x70 / 2 ^ 4);
          channel_b = has 128 ctrl2;
          cal_error = has 8 ctrl2;
          cal_regs = if_ok cal;
          pga = if_ok pga;
          adc_ctrl = if_ok adc;
          drdy_gpio = h.drdy_gpio;
          drdy_level = high;
          brought_up = h.ready;
          scale = h.scale;
        }),
        log4,
      )

  -- `nau7802_get_status`
  unfoldable pub get_status : Handle R → M Error (Status R)
  unfolding read_reg read_details
  get_status h = do
    pu_ctrl ← read_reg bus h.dev reg_pu_ctrl
    ctrl1 ← read_reg bus h.dev reg_ctrl1
    ctrl2 ← read_reg bus h.dev reg_ctrl2
    revision ← read_reg bus h.dev 0x1F
    read_details h pu_ctrl ctrl1 ctrl2 revision
