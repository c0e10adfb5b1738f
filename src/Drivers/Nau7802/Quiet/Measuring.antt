-- ===== src/Drivers/Nau7802/Quiet/Measuring.antt =====
-- Averages, weights and the status are had without a write.
use esp_components.Base.{
  ℕ, zero, suc, ◌+◌, Bool, true, false, not, Option, none, some, ◌==◌, if◌then◌else◌, ◌≡◌, refl, ap,
  ◌∙◌, ◌||◌, ltb, Bool-cases, inl, inr,
}
use esp_components.Base.Int.{ℤ}
use esp_components.Drivers.Floats.{Floats}
use esp_components.Drivers.Nau7802.{
  Error, invalid_arg, invalid_state, Result, ok, failed, Log, Bus, Handle, reg_ctrl1, reg_ctrl2,
  reg_pu_ctrl, read_reg, read_be, read_raw, has,
}
use esp_components.Drivers.Nau7802.Averaging.{
  Stats, Sums, whole, no_stats, at_first, accumulate, sample, averaged, read_average,
}
use esp_components.Drivers.Nau7802.Weighing.{
  judge, tared, tare, calibrated_by, calibrate, weight_of, weigh,
}
use esp_components.Drivers.Nau7802.Weighing.Measured.{within_noise_of}
use esp_components.Drivers.Nau7802.Status.{
  read_calibration_regs, drdy_level, read_pga, read_details, get_status,
}
use esp_components.Drivers.Nau7802.Quiet.{
  stores, IsQuiet, continue-stores, read_reg-IsQuiet, read_be-IsQuiet, read_raw-IsQuiet,
}

module _ (F : Floats) (bus : Bus) where
  open F use {R, lt, fabs, eq, sub, mul}

  sample-stores :
      (left i : ℕ) (h : Handle R) (s : Sums R) (log : Log)
      → stores (sample F bus left i h s log).1 ≡ stores log
  unfolding sample
  sample-stores zero i h s log = refl
  sample-stores (suc left) i h s log =
      by_conversion (read_raw bus h.dev h.drdy_gpio log) (sample F bus left (i + 1) h)
        (sample-stores left (i + 1) h)
      ∙ read_raw-IsQuiet bus h.dev h.drdy_gpio log
    where
      by_conversion :
          (w : Result Error ℤ × Log) (rest : Sums R → Log → Result (ℕ × Error) (Sums R) × Log)
          → ((s' : Sums R) (log' : Log) → stores (rest s' log').1 ≡ stores log')
          → stores
              (elim w.0 as (λ _. Result (ℕ × Error) (Sums R) × Log) [
                | ok value ↦ rest (accumulate F i value s) w.1
                | failed e ↦ (failed (i, e), w.1)
              ]).1
            ≡ stores w.1
      by_conversion (ok value, later) rest k = k _ later
      by_conversion (failed e, later) rest k = refl

  averaged-stores :
      (samples : ℕ) (w : Result (ℕ × Error) (Sums R) × Log)
      → stores (averaged F bus samples w).1 ≡ stores w.1
  averaged-stores samples (ok s, log) = refl
  averaged-stores samples (failed (i, e), log) = refl

  read_average-stores :
      (h : Handle R) (samples : ℕ) (stats : Stats R) (log : Log)
      → stores (read_average F bus h samples stats log).1 ≡ stores log
  unfolding read_average
  read_average-stores h samples stats log = by_tests (samples == 0) h.ready
    where
      by_tests :
          (empty ready : Bool)
          → stores
              (if◌then◌else◌ {A = (Result Error (Unit {0}) × Stats R) × Log} empty
                ((failed invalid_arg, stats), log)
                (if not ready
                  then ((failed invalid_state, stats), log)
                  else averaged F bus samples (sample F bus samples 0 h (at_first F) log))).1
            ≡ stores log
      by_tests true ready = refl
      by_tests false false = refl
      by_tests false true =
          averaged-stores samples (sample F bus samples 0 h (at_first F) log)
          ∙ sample-stores samples 0 h (at_first F) log

  tared-stores :
      (h : Handle R) (w : (Result Error (Unit {0}) × Stats R) × Log)
      → stores (tared F bus h w).log ≡ stores w.1
  tared-stores h ((ok done, stats), log) = refl
  tared-stores h ((failed e, stats), log) = refl

  weight_of-stores :
      (h : Handle R) (w : (Result Error (Unit {0}) × Stats R) × Log)
      → stores (weight_of F bus h w).1 ≡ stores w.1
  weight_of-stores h ((ok done, stats), log) = refl
  weight_of-stores h ((failed e, stats), log) = refl

  weigh-stores :
      (h : Handle R) (samples : ℕ) (log : Log) → stores (weigh F bus h samples log).1 ≡ stores log
  unfolding weigh
  weigh-stores h samples log = by_factor h.scale.calibrated
    where
      by_factor :
          (calibrated : Bool)
          → stores
              (if◌then◌else◌ {A = Result Error _ × Log}
                (not calibrated)
                (failed invalid_state, log)
                (weight_of F bus h (read_average F bus h samples (no_stats F) log))).1
            ≡ stores log
      by_factor false = refl
      by_factor true =
          weight_of-stores h (read_average F bus h samples (no_stats F) log)
          ∙ read_average-stores h samples (no_stats F) log

  tare-stores :
      (h : Handle R) (samples : ℕ) (log : Log) → stores (tare F bus h samples log).log ≡ stores log
  unfolding tare
  tare-stores h samples log =
      tared-stores h (read_average F bus h samples (no_stats F) log)
      ∙ read_average-stores h samples (no_stats F) log

  judge-log :
      (h : Handle R) (known_mass : R) (stats : Stats R) (gain : Option ℕ) (log : Log)
      → (judge F bus h known_mass stats gain log).log ≡ log
  unfolding judge
  judge-log h known_mass stats gain log =
      elim (Bool-cases (ltb stats.samples 2 || ltb h.scale.tare_samples 2)) [
        | inl few ↦ rw few refl
        | inr many ↦ elim (Bool-cases (within_noise_of F h stats)) [
          | inl noise ↦ rw (many, noise) refl
          | inr signal ↦ rw (many, signal) refl
        ]
      ]

  calibrated_by-stores :
      (h : Handle R) (known_mass : R) (w : (Result Error (Unit {0}) × Stats R) × Log)
      → stores (calibrated_by F bus h known_mass w).log ≡ stores w.1
  calibrated_by-stores h known_mass ((failed e, stats), log) = refl
  calibrated_by-stores h known_mass ((ok done, stats), log) =
      ap stores (judge-log h known_mass stats _ _) ∙ read_reg-IsQuiet bus h.dev reg_ctrl1 log

  calibrate-stores :
      (h : Handle R) (known_mass : R) (samples : ℕ) (log : Log)
      → stores (calibrate F bus h known_mass samples log).log ≡ stores log
  unfolding calibrate
  calibrate-stores h known_mass samples log = elim (Bool-cases (eq known_mass (whole F 0))) [
    | inl is_zero ↦ rw is_zero refl
    | inr mass ↦ rw mass (
        calibrated_by-stores h known_mass (read_average F bus h samples (no_stats F) log)
        ∙ read_average-stores h samples (no_stats F) log)
  ]

  drdy_level-stores :
      (pin : Option ℕ) (log : Log) → stores (drdy_level F bus pin log).1 ≡ stores log
  drdy_level-stores none log = refl
  drdy_level-stores (some pin) log = refl

  read_pga-IsQuiet : (dev : Bool) → IsQuiet (read_pga F bus dev)
  unfolding read_pga
  read_pga-IsQuiet dev log =
      continue-stores (read_reg bus dev 0x1B log) _ (λ pga log1.
        continue-stores (read_reg bus dev 0x1C log1) _ (λ power log2. refl)
        ∙ read_reg-IsQuiet bus dev 0x1C log1)
      ∙ read_reg-IsQuiet bus dev 0x1B log

  read_calibration_regs-IsQuiet :
      (dev channel_b : Bool) → IsQuiet (read_calibration_regs F bus dev channel_b)
  unfolding read_calibration_regs
  read_calibration_regs-IsQuiet dev channel_b log =
      continue-stores (read_be bus dev (if channel_b then 0x0A else 0x03) 3 log) _ (λ ocal log1.
        continue-stores (read_be bus dev (if channel_b then 0x0D else 0x06) 4 log1) _
          (λ gcal log2. refl)
        ∙ read_be-IsQuiet bus dev (if channel_b then 0x0D else 0x06) 4 log1)
      ∙ read_be-IsQuiet bus dev (if channel_b then 0x0A else 0x03) 3 log

  read_details-IsQuiet :
      (h : Handle R) (pu_ctrl ctrl1 ctrl2 revision : ℕ)
      → IsQuiet (read_details F bus h pu_ctrl ctrl1 ctrl2 revision)
  unfolding read_details
  read_details-IsQuiet h pu_ctrl ctrl1 ctrl2 revision log =
      drdy_level-stores h.drdy_gpio _
      ∙ read_reg-IsQuiet bus h.dev 0x15 _
      ∙ read_pga-IsQuiet h.dev _
      ∙ read_calibration_regs-IsQuiet h.dev (has 128 ctrl2) log

  get_status-IsQuiet : (h : Handle R) → IsQuiet (get_status F bus h)
  unfolding get_status
  get_status-IsQuiet h log =
      continue-stores (read_reg bus h.dev reg_pu_ctrl log) _ (λ pu_ctrl log1.
        continue-stores (read_reg bus h.dev reg_ctrl1 log1) _ (λ ctrl1 log2.
          continue-stores (read_reg bus h.dev reg_ctrl2 log2) _ (λ ctrl2 log3.
            continue-stores (read_reg bus h.dev 0x1F log3) _
              (λ revision. read_details-IsQuiet h pu_ctrl ctrl1 ctrl2 revision)
            ∙ read_reg-IsQuiet bus h.dev 0x1F log3)
          ∙ read_reg-IsQuiet bus h.dev reg_ctrl2 log2)
        ∙ read_reg-IsQuiet bus h.dev reg_ctrl1 log1)
      ∙ read_reg-IsQuiet bus h.dev reg_pu_ctrl log

-- A tare, a calibration of the scale, a weighing and the status write no register of the device, however they end.
pub measuring-stores :
    (F : Floats) (bus : Bus) (h : Handle F.R) (known_mass : F.R) (samples : ℕ) (log : Log)
    → (stores (tare F bus h samples log).log ≡ stores log)
      × (stores (calibrate F bus h known_mass samples log).log ≡ stores log)
      × (stores (weigh F bus h samples log).1 ≡ stores log)
      × (stores (get_status F bus h log).1 ≡ stores log)
measuring-stores F bus h known_mass samples log = (
  tare-stores F bus h samples log,
  calibrate-stores F bus h known_mass samples log,
  weigh-stores F bus h samples log,
  get_status-IsQuiet F bus h log,
)
