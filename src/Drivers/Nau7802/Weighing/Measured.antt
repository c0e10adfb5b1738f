-- ===== src/Drivers/Nau7802/Weighing/Measured.antt =====
-- What a calibration has measured once it is there.
use esp_components.Base.{
  ℕ, ◌<◌, Bool, true, false, Option, ltb, ◌≡◌, refl, ◌⊎◌, inl, inr, Bool-cases, arith,
}
use esp_components.Drivers.Floats.{Floats}
use esp_components.Drivers.Nau7802.{Error, Result, ok, failed, Log, Bus, Handle}
use esp_components.Drivers.Nau7802.Averaging.{Stats, whole, no_stats, read_average}
use esp_components.Drivers.Nau7802.Weighing.{
  Calibration, Outcome, sigma, judge, calibrated_by, calibrate,
}

module _ (F : Floats) where
  open F use {R, sub, mul, div, fabs, hypot, lt, eq}

  -- The handle with the factor of this average and this mass.
  abbrev pub with_factor : Handle R → R → Stats R → Handle R
  with_factor h known_mass stats = record h {
    scale = record h.scale {
      counts_per_unit = div (sub stats.mean h.scale.tare_counts) known_mass;
      calibrated = true;
      supplied = false;
    };
  }

  abbrev pub within_noise_of : Handle R → Stats R → Bool
  within_noise_of h stats =
      lt (fabs (sub stats.mean h.scale.tare_counts))
        (mul (sigma F) (hypot stats.stderr_mean h.scale.tare_stderr))

  abbrev pub IsRefused : Handle R → Outcome R (Stats R × Calibration R) → Type 0
  IsRefused h o = (e : Error) × (o.status ≡ failed e) × (o.handle ≡ h)

  abbrev pub IsTaken : Handle R → R → Outcome R (Stats R × Calibration R) → Type 0
  IsTaken h known_mass o =
      (o.status ≡ ok tt)
      × (1 < o.stored.0.samples)
      × (1 < h.scale.tare_samples)
      × (within_noise_of h o.stored.0 ≡ false)
      × (o.handle ≡ with_factor h known_mass o.stored.0)

  -- Either refused, or taken of the average that it is given.
  abbrev Ends : Handle R → R → Stats R → Outcome R (Stats R × Calibration R) → Type 0
  Ends h known_mass stats o =
      IsRefused h o
      ⊎ (IsTaken h known_mass o
          × (Path (Result Error (Unit {0}) × Stats R) (ok tt, stats) (ok tt, o.stored.0)))

  judge-Ends :
      (bus : Bus) (h : Handle R) (known_mass : R) (stats : Stats R) (gain : Option ℕ) (log : Log)
      → Ends h known_mass stats (judge F bus h known_mass stats gain log)
  unfolding judge
  judge-Ends bus h known_mass stats gain log = elim (Bool-cases (ltb stats.samples 2)) [
    | inl few ↦ rw few (inl (_, refl, refl))
    | inr many ↦ elim (Bool-cases (ltb h.scale.tare_samples 2)) [
      | inl few ↦ rw (many, few) (inl (_, refl, refl))
      | inr tares ↦ elim (Bool-cases (within_noise_of h stats)) [
        | inl noise ↦ rw (many, tares, noise) (inl (_, refl, refl))
        | inr signal ↦
            rw (many, tares, signal) (inr ((refl, ground arith, ground arith, signal, refl), refl))
      ]
    ]
  ]

  calibrated_by-Ends :
      (bus : Bus) (h : Handle R) (known_mass : R) (w : (Result Error (Unit {0}) × Stats R) × Log)
      → IsRefused h (calibrated_by F bus h known_mass w)
        ⊎ (IsTaken h known_mass (calibrated_by F bus h known_mass w)
            × (w.0 ≡ (ok tt, (calibrated_by F bus h known_mass w).stored.0)))
  calibrated_by-Ends bus h known_mass ((failed e, stats), log) = inl (_, refl, refl)
  calibrated_by-Ends bus h known_mass ((ok done, stats), log) =
      judge-Ends bus h known_mass stats _ _

  -- A calibration either fails and leaves the handle as it was, or it succeeds, and then: the mass is not zero; the
  -- average was taken of the handle as it was, and is what is stored; it and the tare are of two conversions or more;
  -- their difference is not within the noise; and all that has changed of the handle is its factor, which is that
  -- difference by the mass, and that it is calibrated, and not by a supplied factor.
  pub calibrate-IsTaken :
      (bus : Bus) (h : Handle R) (known_mass : R) (samples : ℕ) (log : Log)
      → IsRefused h (calibrate F bus h known_mass samples log)
        ⊎ (IsTaken h known_mass (calibrate F bus h known_mass samples log)
            × (eq known_mass (whole F 0) ≡ false)
            × ((read_average F bus h samples (no_stats F) log).0
                ≡ (ok tt, (calibrate F bus h known_mass samples log).stored.0)))
  unfolding calibrate
  calibrate-IsTaken bus h known_mass samples log = elim (Bool-cases (eq known_mass (whole F 0))) [
    | inl is_zero ↦ rw is_zero (inl (_, refl, refl))
    | inr mass ↦
        rw mass
          (elim (calibrated_by-Ends bus h known_mass
            (read_average F bus h samples (no_stats F) log)) [
              | inl refused ↦ inl refused
              | inr (taken, average) ↦ inr (taken, refl, average)
            ])
  ]
