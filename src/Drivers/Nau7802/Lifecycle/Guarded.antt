-- ===== src/Drivers/Nau7802/Lifecycle/Guarded.antt =====
-- Bring-up against the order of the regulator's registers.
use esp_components.Base.{
  ℕ, ◌<◌, Bool, true, false, Option, some, none, if◌then◌else◌, ◌≡◌, refl, subst, sym,
}
use esp_components.Drivers.Nau7802.{
  Error, Result, ok, failed, Log, Bus, Handle, read_reg, reg_ctrl1,
}
use esp_components.Drivers.Nau7802.Power.{Stage, power_up, begin}
use esp_components.Drivers.Nau7802.Power.Regulator.{chosen, guarded, Answers, Ends}
use esp_components.Drivers.Nau7802.Power.Steps.{read_reg_keeps}
use esp_components.Drivers.Nau7802.Power.Voltage.{any, gain_fits, power_up-Ends, begin-Ends}
use esp_components.Drivers.Nau7802.Lifecycle.{
  Opts, is_refused, begin_done, powered, bring_up, reset_scale,
}

module _ {R : Type 0} (zero_float : R) (bus : Bus) (vldo : ℕ) (answers : Answers bus)
    (l : vldo < 8) where
  begin_done-guarded :
      (h : Handle R) (opts : Opts R) (r : Result (Stage × Error) (Unit {0}) × Log)
      → Ends vldo any r
      → guarded vldo (begin_done zero_float bus h opts r).log ≡ true
  begin_done-guarded h opts (failed e, log) g = g
  begin_done-guarded h opts (ok _, log) (g, _) =
      let (g1, _) = read_reg_keeps vldo any bus h.dev reg_ctrl1 log g refl in
      (read_reg_keeps vldo any bus h.dev 0x15 (read_reg bus h.dev reg_ctrl1 log).1 g1 refl).0

  powered-guarded :
      (h : Handle R) (opts : Opts R) (r : Result (Stage × Error) (Unit {0}) × Log)
      → Ends vldo (chosen vldo) r
      → guarded vldo (powered zero_float bus h opts r).log ≡ true
  powered-guarded h opts (failed e, log) g = g
  powered-guarded h opts (ok _, log) (g, c) =
      begin_done-guarded (reset_scale zero_float bus (record h { ready = true })) opts
        (begin bus h.dev h.drdy_gpio log) (begin-Ends vldo bus answers l h.dev h.drdy_gpio log g c)

-- If a read of CTRL1 is answered with what it holds: a bring-up that uses the internal regulator, however it ends,
-- never writes PU_CTRL with the regulator on unless CTRL1 holds the voltage that was asked for at that time, in a log
-- where that was so before. The voltage and the gain, if one is set, are values of their three bits.
pub bring_up-guarded :
    {R : Type 0} (zero_float : R) (bus : Bus) (usable : R → Bool) (h : Handle R) (opts : Opts R)
    (vldo : ℕ) (log : Log)
    → Answers bus
    → (opts.ldo ≡ some vldo) × (vldo < 8) × (gain_fits opts.gain ≡ true)
    → guarded vldo log ≡ true
    → guarded vldo (bring_up zero_float bus usable h opts log).log ≡ true
unfolding bring_up
bring_up-guarded zero_float bus usable h opts vldo log answers (e, l, k) g =
    by_refusal (is_refused zero_float bus usable opts.counts_per_unit)
  where
    by_refusal :
        (b : Bool)
        → guarded vldo
            (if b
              then record {
                status = failed Error.invalid_arg;
                handle = h;
                report = none;
                log = log;
              }
              else powered zero_float bus h opts (power_up bus h.dev opts.ldo opts.gain log)).log
          ≡ true
    by_refusal true = g
    by_refusal false =
        powered-guarded zero_float bus vldo answers l h opts
          (power_up bus h.dev opts.ldo opts.gain log)
          (subst (λ (o : Option ℕ). Ends vldo (chosen vldo) (power_up bus h.dev o opts.gain log))
            (sym e) (power_up-Ends vldo bus answers l h.dev opts.gain log k g))
