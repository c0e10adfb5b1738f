-- ===== src/Drivers/Nau7802/Averaging.antt =====
-- nau7802/src/nau7802.c: the average of conversions.
use esp_components.Base.{ℕ, zero, suc, ◌+◌, ◌-◌, Bool, false, not, ◌||◌, ltb, ◌==◌, if◌then◌else◌}
use esp_components.Base.Int.{ℤ, pos, negsuc, ltb_ℤ}
use esp_components.Drivers.Floats.{Floats}
use esp_components.Drivers.Nau7802.{
  Error, invalid_arg, invalid_state, Result, ok, failed, Log, Bus, Handle, read_raw,
}

-- `nau7802_stats_t`
pub record Stats (R : Type 0) : Type 0 where
  pub mean : R
  pub min : ℤ
  pub max : ℤ
  pub samples : ℕ
  pub stderr_mean : R
  pub saturated : Bool
  pub saturation_percent : R

-- The variables of the loop of `nau7802_read_average`.
pub record Sums (R : Type 0) : Type 0 where
  pub total : R
  pub running_mean : R
  pub m2 : R
  pub low : ℤ
  pub high : ℤ

module _ (F : Floats) where
  open F use {R, of_int, add, sub, mul, div, fabs, sqrt, hypot, lt, le, eq, is_finite}

  abbrev pub whole : ℕ → R
  whole n = of_int (pos n)

  -- NAU7802_FULL_SCALE, ADC_SATURATION_FRACTION
  abbrev pub full_scale : R
  full_scale = whole 8388608

  abbrev pub rail : R
  rail = mul (div (whole 99) (whole 100)) full_scale

  abbrev pub no_stats : Stats R
  no_stats = record {
    mean = whole 0;
    min = pos 0;
    max = pos 0;
    samples = 0;
    stderr_mean = whole 0;
    saturated = false;
    saturation_percent = whole 0;
  }

  abbrev pub at_first : Sums R
  at_first = record {
    total = whole 0;
    running_mean = whole 0;
    m2 = whole 0;
    low = pos 2147483647;
    high = negsuc 2147483647;
  }

  -- One pass, by the conversion and its index.
  unfoldable pub accumulate : ℕ → ℤ → Sums R → Sums R
  accumulate i value s =
      let x = of_int value in
      let delta = sub x s.running_mean in
      let mean = add s.running_mean (div delta (whole (i + 1))) in
      record {
        total = add s.total x;
        running_mean = mean;
        m2 = add s.m2 (mul delta (sub x mean));
        low = if ltb_ℤ value s.low then value else s.low;
        high = if ltb_ℤ s.high value then value else s.high;
      }

  -- What is stored at the end.
  unfoldable pub summary : ℕ → Sums R → Stats R
  summary samples s =
      let variance = if ltb 1 samples then div s.m2 (whole (samples - 1)) else whole 0 in
      let low = fabs (of_int s.low) in
      let high = fabs (of_int s.high) in
      let worst = if lt high low then low else high in
      record {
        mean = div s.total (whole samples);
        min = s.low;
        max = s.high;
        samples = samples;
        stderr_mean = if ltb 1 samples then sqrt (div variance (whole samples)) else whole 0;
        saturated = le (of_int s.low) (sub (whole 0) rail) || le rail (of_int s.high);
        saturation_percent = div (mul (whole 100) worst) full_scale;
      }

  module _ (bus : Bus) where
    -- The loop, with the conversions that are left and the index of the next.
    unfoldable pub sample : ℕ → ℕ → Handle R → Sums R → Log → Result (ℕ × Error) (Sums R) × Log
    unfolding accumulate
    sample zero i h s log = (ok s, log)
    sample (suc left) i h s log =
        let (conversion, later) = read_raw bus h.dev h.drdy_gpio log in
        elim conversion [
          | ok value ↦ sample left (i + 1) h (accumulate i value s) later
          | failed e ↦ (failed (i, e), later)
        ]

    abbrev pub averaged :
        ℕ → Result (ℕ × Error) (Sums R) × Log → (Result Error (Unit {0}) × Stats R) × Log
    averaged samples (ok s, log) = ((ok tt, summary samples s), log)
    averaged samples (failed (i, e), log) = ((failed e, record no_stats { samples = i }), log)

    -- `nau7802_read_average`, of a handle and a place that are not NULL. `stats` is what the place held.
    unfoldable pub read_average :
        Handle R → ℕ → Stats R → Log → (Result Error (Unit {0}) × Stats R) × Log
    unfolding sample summary
    read_average h samples stats log =
        if samples == 0
        then ((failed invalid_arg, stats), log)
        else if not h.ready
        then ((failed invalid_state, stats), log)
        else averaged samples (sample samples 0 h at_first log)
