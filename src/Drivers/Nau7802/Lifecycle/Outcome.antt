-- ===== src/Drivers/Nau7802/Lifecycle/Outcome.antt =====
-- What bring-up leaves in the handle.
use esp_components.Base.{Bool, true, false, Option, some, none, ◌≡◌, ◌⊎◌}
use esp_components.Drivers.Nau7802.{Error, invalid_arg, Result, ok, failed, Bus, Handle}
use esp_components.Drivers.Nau7802.Power.{none_failed}
use esp_components.Drivers.Nau7802.Lifecycle.{
  Opts, BringUpReport, Done, reset_scale, no_scale, install,
}

-- A factor, if one is supplied, can be used.
abbrev Accepted : {R : Type 0} → (R → Bool) → Option R → Type 0
Accepted usable none = Unit
Accepted usable (some factor) = usable factor ≡ true

-- By the result and the report.
abbrev Left :
    {R : Type 0}
    → R
    → Bus
    → (R → Bool)
    → Handle R
    → Opts R
    → Done R BringUpReport
    → Result Error (Unit {0})
    → Option BringUpReport
    → Type 0
Left zero_float bus usable h opts d (ok _) none = ⊥
Left zero_float bus usable h opts d (ok _) (some report) =
    Accepted usable opts.counts_per_unit
    × (report.failed_stage ≡ none_failed)
    × (d.handle.ready ≡ true)
    × (d.handle.scale
        ≡ (install zero_float bus opts.counts_per_unit (reset_scale zero_float bus h)).scale)
Left {R = R} zero_float bus usable h opts d (failed e) none =
    (d.handle ≡ h)
    × (e ≡ invalid_arg)
    × ((factor : R) × (opts.counts_per_unit ≡ some factor) × (usable factor ≡ false))
Left zero_float bus usable h opts d (failed e) (some report) =
    Accepted usable opts.counts_per_unit
    × (d.handle.ready ≡ false)
    × ((d.handle.scale ≡ h.scale) ⊎ (d.handle.scale ≡ no_scale zero_float bus))

abbrev pub IsLeft :
    {R : Type 0} → R → Bus → (R → Bool) → Handle R → Opts R → Done R BringUpReport → Type 0
IsLeft zero_float bus usable h opts d =
    Left zero_float bus usable h opts d d.status d.report
    × (d.handle.dev ≡ h.dev)
    × (d.handle.drdy_gpio ≡ h.drdy_gpio)
