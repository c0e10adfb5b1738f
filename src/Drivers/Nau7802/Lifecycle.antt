-- ===== src/Drivers/Nau7802/Lifecycle.antt =====
-- nau7802/src/nau7802.c: what bring-up and a change of the analog path do to the handle, and what they report.
pub mod Outcome
pub mod Guarded
use esp_components.Base.{
  ℕ, ◌+◌, ◌*◌, ◌/◌, ◌%◌, ◌^◌, Bool, true, false, not, ◌&&◌, ◌||◌, Option, none, some, ltb, ◌==◌,
  if◌then◌else◌, bit_and, bit_or,
}
use esp_components.Drivers.Nau7802.{
  Error, invalid_arg, invalid_state, cal_failed, Result, ok, failed, Log, Bus, M, continue, ◌>>=◌,
  ◌>>◌, give, fail, Scale, Handle, has, reg_pu_ctrl, reg_ctrl1, reg_ctrl2, calibration_timeout,
  conversion_timeout, read_reg, write_reg, update_reg, wait_for_bit, discard_conversions,
}
use esp_components.Drivers.Nau7802.Power.{
  Stage, none_failed, settle, at, settling_conversions, stale_conversions, recalibrate, power_up,
  begin,
}

-- `nau7802_bringup_opts_t`: the VLDO setting if the internal regulator is used, the gain if it is to be set, and the
-- scale factor if one is supplied.
pub record Opts (R : Type 0) : Type 0 where
  pub ldo : Option ℕ
  pub gain : Option ℕ
  pub counts_per_unit : Option R

-- `nau7802_bringup_report_t`, without what is copied from the options and the revision.
pub record BringUpReport : Type 0 where
  pub failed_stage : Stage
  pub gain : ℕ
  pub adc_ctrl : Option ℕ

-- `nau7802_change_report_t`, without the two constants.
pub record ChangeReport : Type 0 where
  pub scale_invalidated : Bool
  pub scale_was_supplied : Bool
  pub conversions_restarted : Bool
  pub failed_stage : Stage

-- What a call leaves. The report is none where nothing is written to it.
pub record Done (R Report : Type 0) : Type 0 where
  pub status : Result Error (Unit {0})
  pub handle : Handle R
  pub report : Option Report
  pub log : Log

-- `nau7802_set_device` of a handle that is not NULL, with whether the device is not NULL.
unfoldable pub set_device : {R : Type 0} → Bool → Handle R → Result Error (Unit {0}) × Handle R
set_device false h = (failed invalid_arg, h)
set_device true h = (ok tt, record h { dev = true })

abbrev pub read_gain : Option ℕ → Result Error ℕ → ℕ
read_gain requested (ok ctrl1) = bit_and ctrl1 7
read_gain none (failed e) = 0
read_gain (some gain) (failed e) = gain

abbrev pub to_option : Result Error ℕ → Option ℕ
to_option (ok value) = some value
to_option (failed e) = none

module _ {R : Type 0} (zero_float : R) (bus : Bus) where
  -- `(nau7802_scale_t){0}`
  abbrev pub no_scale : Scale R
  no_scale = record {
    tare_counts = zero_float;
    tare_stderr = zero_float;
    tare_samples = 0;
    counts_per_unit = zero_float;
    calibrated = false;
    supplied = false;
  }

  -- `nau7802_reset_scale`
  abbrev pub reset_scale : Handle R → Handle R
  reset_scale h = record h { scale = no_scale }

  -- The report of a change before anything has failed.
  abbrev pub begun : Handle R → ChangeReport
  begun h = record {
    scale_invalidated = h.scale.calibrated || ltb 0 h.scale.tare_samples;
    scale_was_supplied = h.scale.supplied;
    conversions_restarted = false;
    failed_stage = none_failed;
  }

  abbrev pub changed :
      Handle R → ChangeReport → Result (Stage × Error) (Unit {0}) × Log → Done R ChangeReport
  changed h report (ok _, log) = record {
    status = ok tt;
    handle = h;
    report = some report;
    log = log;
  }
  changed h report (failed (stage, e), log) = record {
    status = failed e;
    handle = h;
    report = some (record report { failed_stage = stage });
    log = log;
  }

  -- The conversions are discarded once calibration and restart have succeeded.
  abbrev pub recalibrated :
      Handle R → ChangeReport → Result (Stage × Error) Bool × Log → Done R ChangeReport
  recalibrated h report (failed e, log) = changed h report (failed e, log)
  recalibrated h report (ok restarted, log) =
      changed h (record report { conversions_restarted = restarted })
        (at settle
          (discard_conversions bus (stale_conversions + settling_conversions) h.dev h.drdy_gpio)
          log)

  -- `apply_analog_change`
  unfoldable pub apply_analog_change : Handle R → Log → Done R ChangeReport
  apply_analog_change h log = recalibrated (reset_scale h) (begun h) (recalibrate bus h.dev log)

  abbrev pub unchanged : Error → Handle R → Log → Done R ChangeReport
  unchanged e h log = record { status = failed e; handle = h; report = none; log = log }

  abbrev pub written : Handle R → Result Error (Unit {0}) × Log → Done R ChangeReport
  written h (failed e, log) = unchanged e h log
  written h (ok _, log) = apply_analog_change h log

  -- `set_field`, of a handle that is not NULL.
  unfoldable pub set_field : Handle R → ℕ → ℕ → ℕ → Log → Done R ChangeReport
  unfolding apply_analog_change
  set_field h reg clear_mask set_mask log =
      if not h.ready
      then unchanged invalid_state h log
      else written h (update_reg bus h.dev reg clear_mask set_mask log)

  -- BRINGUP_FAIL
  abbrev pub bringup_fail : Handle R → Stage × Error → Log → Done R BringUpReport
  bringup_fail h (stage, e) log = record {
    status = failed e;
    handle = record h { ready = false };
    report = some (record { failed_stage = stage; gain = 0; adc_ctrl = none });
    log = log;
  }

  abbrev pub install : Option R → Handle R → Handle R
  install none h = h
  install (some factor) h = record h {
    scale = record h.scale { counts_per_unit = factor; calibrated = true; supplied = true };
  }

  -- The registers are read back, whether or not that succeeds, and a supplied factor is installed.
  abbrev pub brought_up : Handle R → Opts R → Log → Done R BringUpReport
  brought_up h opts log =
      let (ctrl1, log1) = read_reg bus h.dev reg_ctrl1 log in
      let (adc, log2) = read_reg bus h.dev 0x15 log1 in
      record {
        status = ok tt;
        handle = install opts.counts_per_unit h;
        report = some (record {
          failed_stage = none_failed;
          gain = read_gain opts.gain ctrl1;
          adc_ctrl = to_option adc;
        });
        log = log2;
      }

  abbrev pub begin_done :
      Handle R → Opts R → Result (Stage × Error) (Unit {0}) × Log → Done R BringUpReport
  begin_done h opts (failed e, log) = bringup_fail h e log
  begin_done h opts (ok _, log) = brought_up h opts log

  abbrev pub powered :
      Handle R → Opts R → Result (Stage × Error) (Unit {0}) × Log → Done R BringUpReport
  powered h opts (failed e, log) = bringup_fail h e log
  powered h opts (ok _, log) =
      begin_done (reset_scale (record h { ready = true })) opts (begin bus h.dev h.drdy_gpio log)

  -- `opts->set_scale && (opts->counts_per_unit == 0.0 || !isfinite(opts->counts_per_unit))`
  abbrev pub is_refused : (R → Bool) → Option R → Bool
  is_refused usable none = false
  is_refused usable (some factor) = not (usable factor)

  -- `nau7802_bring_up` of a handle and options that are not NULL. `usable` tells whether a factor is finite and not
  -- zero.
  unfoldable pub bring_up : (R → Bool) → Handle R → Opts R → Log → Done R BringUpReport
  unfolding power_up begin
  bring_up usable h opts log =
      if is_refused usable opts.counts_per_unit
      then record { status = failed invalid_arg; handle = h; report = none; log = log }
      else powered h opts (power_up bus h.dev opts.ldo opts.gain log)
