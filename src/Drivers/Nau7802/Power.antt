-- ===== src/Drivers/Nau7802/Power.antt =====
-- nau7802/src/nau7802.c: the sequences of calibration and of bring-up on the bus.
pub mod Regulator
pub mod Voltage
pub mod Steps
use esp_components.Base.{
  ℕ, ◌+◌, ◌*◌, ◌/◌, ◌%◌, ◌^◌, Bool, true, false, not, ◌&&◌, ◌||◌, Option, none, some, ltb, ◌==◌,
  if◌then◌else◌, bit_and, bit_or,
}
use esp_components.Drivers.Nau7802.{
  Error, invalid_arg, invalid_state, cal_failed, Result, ok, failed, Log, Bus, M, continue, ◌>>=◌,
  ◌>>◌, give, fail, Scale, Handle, has, reg_pu_ctrl, reg_ctrl1, reg_ctrl2, calibration_timeout,
  conversion_timeout, read_reg, write_reg, update_reg, wait_for_bit, discard_conversions,
}

-- `nau7802_stage_t`
pub data Stage : Type 0 where
  none_failed probe reset power_digital power_ready set_ldo set_gain power_analog adc_ctrl calibrate
        start settle :
      Stage

-- An error with the stage that it happened in.
abbrev pub blame : {A : Type 0} → Stage → Result Error A × Log → Result (Stage × Error) A × Log
blame stage (ok a, log) = (ok a, log)
blame stage (failed e, log) = (failed (stage, e), log)

abbrev pub at : {A : Type 0} → Stage → M Error A → M (Stage × Error) A
at stage m log = blame stage (m log)

abbrev pub settling_conversions : ℕ
settling_conversions = 3

abbrev pub stale_conversions : ℕ
stale_conversions = 1

module _ (bus : Bus) where
  -- The verdict of a calibration; the register is read back, and a read that fails is no verdict.
  abbrev pub verdict : Result Error ℕ × Log → Result Error (Unit {0}) × Log
  verdict (ok ctrl2, log) = if has 8 ctrl2 then (failed cal_failed, log) else (ok tt, log)
  verdict (failed e, log) = (ok tt, log)

  -- `run_calibration`: CALMOD and CAL_ERR are cleared, CALS is set.
  unfoldable pub run_calibration : Bool → M Error (Unit {0})
  unfolding update_reg read_reg
  run_calibration dev = do
    update_reg bus dev reg_ctrl2 15 4
    wait_for_bit bus dev reg_ctrl2 4 false calibration_timeout
    λ log. verdict (read_reg bus dev reg_ctrl2 log)

  -- `restart_conversions`, and whether it did.
  unfoldable pub restart_conversions : Bool → M Error Bool
  unfolding read_reg write_reg
  restart_conversions dev = do
    pu_ctrl ← read_reg bus dev reg_pu_ctrl
    if has 16 pu_ctrl
        then give false
        else (do write_reg bus dev reg_pu_ctrl (bit_or pu_ctrl 16); give true)

  -- The calibration and the restart of `apply_analog_change`; the result tells whether conversions were restarted.
  unfoldable pub recalibrate : Bool → M (Stage × Error) Bool
  unfolding run_calibration restart_conversions
  recalibrate dev = do at calibrate (run_calibration dev); at start (restart_conversions dev)

  -- `if (opts->use_internal_ldo)`, `if (opts->set_gain)`
  unfoldable pub configure_ldo : Bool → Option ℕ → M (Stage × Error) (Unit {0})
  unfolding update_reg
  configure_ldo dev none = give tt
  configure_ldo dev (some vldo) =
      at set_ldo (update_reg bus dev reg_ctrl1 0x38 (vldo * 2 ^ 3 % 256))

  unfoldable pub configure_gain : Bool → Option ℕ → M (Stage × Error) (Unit {0})
  unfolding update_reg
  configure_gain dev none = give tt
  configure_gain dev (some gain) = at set_gain (update_reg bus dev reg_ctrl1 0x07 (gain % 256))

  -- `nau7802_bring_up` up to `handle->ready = true`; the revision that is read is not kept.
  unfoldable pub power_up : Bool → Option ℕ → Option ℕ → M (Stage × Error) (Unit {0})
  unfolding read_reg write_reg configure_ldo configure_gain wait_for_bit
  power_up dev ldo gain = do
    revision ← at probe (read_reg bus dev 0x1F)
    at reset (write_reg bus dev reg_pu_ctrl 1)
    at reset (write_reg bus dev reg_pu_ctrl 0)
    at power_digital (write_reg bus dev reg_pu_ctrl 2)
    at power_ready (wait_for_bit bus dev reg_pu_ctrl 8 true conversion_timeout)
    configure_ldo dev ldo
    configure_gain dev gain
    at power_analog
        (write_reg bus dev reg_pu_ctrl (elim ldo [ none ↦ 6 | some vldo ↦ bit_or 6 128 ]))

  -- `nau7802_bring_up` from there to its last discarded conversion.
  unfoldable pub begin : Bool → Option ℕ → M (Stage × Error) (Unit {0})
  unfolding write_reg run_calibration update_reg discard_conversions
  begin dev drdy = do
    at adc_ctrl (write_reg bus dev 0x15 0x30)
    at calibrate (run_calibration dev)
    at start (update_reg bus dev reg_pu_ctrl 0 16)
    at settle (discard_conversions bus settling_conversions dev drdy)
