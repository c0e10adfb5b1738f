-- ===== src/Drivers/Nau7802/Weighing.antt =====
-- nau7802/src/nau7802_scale.c: tare, calibration and weighing.
pub mod Measured
pub mod Stale
use esp_components.Base.{
  ℕ, ◌+◌, ◌-◌, Bool, true, false, not, ◌||◌, Option, none, some, ltb, ◌==◌, if◌then◌else◌, bit_and,
}
use esp_components.Base.Int.{ℤ, pos, sub_ℤ}
use esp_components.Drivers.Floats.{Floats}
use esp_components.Drivers.Nau7802.{
  Error, invalid_arg, invalid_state, too_few_samples, within_noise, Result, ok, failed, Log, Bus,
  Scale, Handle, read_reg, reg_ctrl1,
}
use esp_components.Drivers.Nau7802.Lifecycle.{to_option}
use esp_components.Drivers.Nau7802.Averaging.{Stats, whole, no_stats, read_average}

-- `nau7802_calibration_t`; the gain is there if it could be read.
pub record Calibration (R : Type 0) : Type 0 where
  pub net_counts : R
  pub uncertainty : R
  pub counts_per_unit : R
  pub precision_percent : R
  pub gain : Option ℕ

-- `nau7802_weight_t`
pub record Weight (R : Type 0) : Type 0 where
  pub net_counts : R
  pub units : R
  pub uncertainty_units : R
  pub spread_units : R
  pub tare_taken : Bool

-- What a call leaves, with what it stores where its result is wanted.
pub record Outcome (R A : Type 0) : Type 0 where
  pub status : Result Error (Unit {0})
  pub handle : Handle R
  pub stored : A
  pub log : Log

module _ (F : Floats) where
  open F use {R, of_int, sub, mul, div, fabs, hypot, lt, eq, is_finite}

  -- CALIBRATION_SIGMA
  abbrev pub sigma : R
  sigma = whole F 10

  module _ (bus : Bus) where
    -- `nau7802_set_scale`
    unfoldable pub set_scale : R → Handle R → Result Error (Unit {0}) × Handle R
    set_scale factor h =
        if eq factor (whole F 0) || not (is_finite factor)
        then (failed invalid_arg, h)
        else if not h.ready
        then (failed invalid_state, h)
        else (
          ok tt,
          record h {
            scale = record h.scale { counts_per_unit = factor; calibrated = true; supplied = true };
          },
        )

    abbrev pub tared : Handle R → (Result Error (Unit {0}) × Stats R) × Log → Outcome R (Stats R)
    tared h ((failed e, stats), log) = record {
      status = failed e;
      handle = h;
      stored = stats;
      log = log;
    }
    tared h ((ok _, stats), log) = record {
      status = ok tt;
      handle = record h {
        scale = record h.scale {
          tare_counts = stats.mean;
          tare_stderr = stats.stderr_mean;
          tare_samples = stats.samples;
        };
      };
      stored = stats;
      log = log;
    }

    -- `nau7802_tare`
    unfoldable pub tare : Handle R → ℕ → Log → Outcome R (Stats R)
    unfolding read_average
    tare h samples log = tared h (read_average F bus h samples (no_stats F) log)

    abbrev pub no_calibration : Calibration R
    no_calibration = record {
      net_counts = whole F 0;
      uncertainty = whole F 0;
      counts_per_unit = whole F 0;
      precision_percent = whole F 0;
      gain = none;
    }

    abbrev pub field_of : Option ℕ → Option ℕ
    field_of none = none
    field_of (some ctrl1) = some (bit_and ctrl1 7)

    -- `nau7802_calibrate` once the average has been taken and the gain has been read, or not.
    unfoldable pub judge :
        Handle R → R → Stats R → Option ℕ → Log → Outcome R (Stats R × Calibration R)
    judge h known_mass stats gain log =
        let net_counts = sub stats.mean h.scale.tare_counts in
        let uncertainty = hypot stats.stderr_mean h.scale.tare_stderr in
        let factor = div net_counts known_mass in
        let found : Calibration R = record no_calibration {
          net_counts = net_counts;
          uncertainty = uncertainty;
          gain = gain;
        } in
        let installed : Handle R = record h {
          scale = record h.scale { counts_per_unit = factor; calibrated = true; supplied = false };
        } in
        if ltb stats.samples 2 || ltb h.scale.tare_samples 2
        then record {
          status = failed too_few_samples;
          handle = h;
          stored = (stats, found);
          log = log;
        }
        else if lt (fabs net_counts) (mul sigma uncertainty)
        then record { status = failed within_noise; handle = h; stored = (stats, found); log = log }
        else record {
          status = ok tt;
          handle = installed;
          stored = (
            stats,
            record found {
              counts_per_unit = factor;
              precision_percent = div (mul (whole F 100) uncertainty) (fabs net_counts);
            },
          );
          log = log;
        }

    abbrev pub calibrated_by :
        Handle R
        → R
        → (Result Error (Unit {0}) × Stats R) × Log
        → Outcome R (Stats R × Calibration R)
    calibrated_by h known_mass ((failed e, stats), log) = record {
      status = failed e;
      handle = h;
      stored = (stats, no_calibration);
      log = log;
    }
    calibrated_by h known_mass ((ok _, stats), log) =
        let (ctrl1, later) = read_reg bus h.dev reg_ctrl1 log in
        judge h known_mass stats (field_of (to_option ctrl1)) later

    -- `nau7802_calibrate`
    unfoldable pub calibrate : Handle R → R → ℕ → Log → Outcome R (Stats R × Calibration R)
    unfolding read_average judge
    calibrate h known_mass samples log =
        if eq known_mass (whole F 0)
        then record {
          status = failed invalid_arg;
          handle = h;
          stored = (no_stats F, no_calibration);
          log = log;
        }
        else calibrated_by h known_mass (read_average F bus h samples (no_stats F) log)

    -- The weight that the average stands for.
    unfoldable pub weighed : Handle R → Stats R → Weight R
    weighed h stats =
        let scale = fabs h.scale.counts_per_unit in
        let net_counts = sub stats.mean h.scale.tare_counts in
        record {
          net_counts = net_counts;
          units = div net_counts h.scale.counts_per_unit;
          uncertainty_units =
              if ltb 1 stats.samples
              then div (hypot stats.stderr_mean h.scale.tare_stderr) scale
              else whole F 0;
          spread_units =
              if ltb 1 stats.samples
              then div (of_int (sub_ℤ stats.max stats.min)) scale
              else whole F 0;
          tare_taken = ltb 0 h.scale.tare_samples;
        }

    abbrev pub weight_of :
        Handle R → (Result Error (Unit {0}) × Stats R) × Log → Result Error (Weight R) × Log
    weight_of h ((failed e, stats), log) = (failed e, log)
    weight_of h ((ok _, stats), log) = (ok (weighed h stats), log)

    -- `nau7802_weigh`
    unfoldable pub weigh : Handle R → ℕ → Log → Result Error (Weight R) × Log
    unfolding read_average weighed
    weigh h samples log =
        if not h.scale.calibrated
        then (failed invalid_state, log)
        else weight_of h (read_average F bus h samples (no_stats F) log)
