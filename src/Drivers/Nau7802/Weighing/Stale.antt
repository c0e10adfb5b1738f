-- ===== src/Drivers/Nau7802/Weighing/Stale.antt =====
-- What a change of the analog path leaves of the scale.
use esp_components.Base.{
  ℕ, [], ◌∷◌, ◌+◌, ◌-◌, bit_and, bit_or, get_or, ◌%◌, ◌*◌, ◌^◌, Bool, true, false, not, Option,
  none, some, if◌then◌else◌, ◌≡◌, refl, ap, ◌⊎◌, inl, inr,
}
use esp_components.Drivers.Floats.{Floats}
use esp_components.Drivers.Nau7802.{
  store, load, take_signal, level, Reply, nack, acked, M, continue, give, bytes_of, done_of,
  read_reg, read_regs, write_reg, Error, invalid_arg, invalid_state, Result, ok, failed, Log, Bus,
  Handle, reg_ctrl1, reg_ctrl2, update_reg,
}
use esp_components.Drivers.Nau7802.Power.{Stage, recalibrate}
use esp_components.Drivers.Nau7802.Lifecycle.{
  ChangeReport, Done, reset_scale, changed, recalibrated, apply_analog_change, unchanged, written,
  set_field,
}
use esp_components.Drivers.Nau7802.Setters.{
  Setting, gain, rate, channel_b, ldomode, pga_cap, gain_value, rate_sps, change_gain, change_rate,
  change,
}
use esp_components.Drivers.Nau7802.Averaging.{whole}
use esp_components.Drivers.Nau7802.Weighing.{Weight, weigh}

-- How many writes of a register the device has acknowledged.
abbrev pub acknowledged : Log → ℕ
acknowledged [] = 0
acknowledged ((store reg value, acked bytes) ∷ log) = acknowledged log + 1
acknowledged ((store reg value, nack code) ∷ log) = acknowledged log
acknowledged ((load reg len, reply) ∷ log) = acknowledged log
acknowledged ((take_signal ms, reply) ∷ log) = acknowledged log
acknowledged ((level pin, reply) ∷ log) = acknowledged log

-- If a call fails, no write of it has been acknowledged.
abbrev IsUnwritten : {A E : Type 0} → Log → Result E A × Log → Type 0
IsUnwritten log (ok a, later) = Unit
IsUnwritten log (failed e, later) = acknowledged later ≡ acknowledged log

module _ (bus : Bus) where
  write_reg-IsUnwritten :
      (dev : Bool) (reg value : ℕ) (before log : Log)
      → acknowledged log ≡ acknowledged before
      → IsUnwritten before (write_reg bus dev reg value log)
  unfolding write_reg
  write_reg-IsUnwritten false reg value before log e = e
  write_reg-IsUnwritten true reg value before log e = by_reply (bus log (store reg value))
    where
      by_reply : (r : Reply) → IsUnwritten before (done_of r, (store reg value, r) ∷ log)
      by_reply (nack code) = e
      by_reply (acked bytes) = tt

  update_reg-IsUnwritten :
      (dev : Bool) (reg clear_mask set_mask : ℕ) (log : Log)
      → IsUnwritten log (update_reg bus dev reg clear_mask set_mask log)
  unfolding update_reg read_reg read_regs
  update_reg-IsUnwritten false reg clear_mask set_mask log = refl
  update_reg-IsUnwritten true reg clear_mask set_mask log = by_reply (bus log (load reg 1))
    where
      store_it : ℕ → M Error (Unit {0})
      store_it value =
          write_reg bus true reg (bit_or (bit_and value (255 - clear_mask)) set_mask % 256)

      by_reply :
          (r : Reply)
          → IsUnwritten log (
              continue
                (continue (bytes_of r, (load reg 1, r) ∷ log) (λ bytes. give (get_or bytes 0 0)))
                store_it)
      by_reply (nack code) = refl
      by_reply (acked bytes) =
          write_reg-IsUnwritten true reg
            (bit_or (bit_and (get_or bytes 0 0) (255 - clear_mask)) set_mask % 256) log
            ((load reg 1, acked bytes) ∷ log) refl

module _ {R : Type 0} (zero_float : R) (bus : Bus) where
  -- No write has been acknowledged, or the scale is gone.
  abbrev pub IsUnscaled : Handle R → Log → Done R ChangeReport → Type 0
  IsUnscaled h before d =
      ((e : Error) × (d.status ≡ failed e)
        × (d.handle ≡ h)
        × (d.report ≡ none)
        × (acknowledged d.log ≡ acknowledged before))
      ⊎ (d.handle ≡ reset_scale zero_float bus h)

  changed-handle :
      (h : Handle R) (report : ChangeReport) (w : Result (Stage × Error) (Unit {0}) × Log)
      → (changed zero_float bus h report w).handle ≡ h
  changed-handle h report (ok done, log) = refl
  changed-handle h report (failed (stage, e), log) = refl

  recalibrated-handle :
      (h : Handle R) (report : ChangeReport) (w : Result (Stage × Error) Bool × Log)
      → (recalibrated zero_float bus h report w).handle ≡ h
  recalibrated-handle h report (failed e, log) = changed-handle h report (failed e, log)
  recalibrated-handle h report (ok restarted, log) = changed-handle h _ _

  written-IsUnscaled :
      (h : Handle R) (before : Log) (w : Result Error (Unit {0}) × Log)
      → IsUnwritten before w
      → IsUnscaled h before (written zero_float bus h w)
  unfolding apply_analog_change
  written-IsUnscaled h before (failed e, log) u = inl (e, refl, refl, refl, u)
  written-IsUnscaled h before (ok done, log) u =
      inr (recalibrated-handle _ _ (recalibrate bus h.dev log))

  set_field-IsUnscaled :
      (h : Handle R) (reg clear_mask set_mask : ℕ) (log : Log)
      → IsUnscaled h log (set_field zero_float bus h reg clear_mask set_mask log)
  unfolding set_field
  set_field-IsUnscaled h reg clear_mask set_mask log = by_ready h.ready
    where
      by_ready :
          (ready : Bool)
          → IsUnscaled h log (
              if not ready
              then unchanged zero_float bus invalid_state h log
              else written zero_float bus h (update_reg bus h.dev reg clear_mask set_mask log))
      by_ready false = inl (_, refl, refl, refl, refl)
      by_ready true =
          written-IsUnscaled h log _ (update_reg-IsUnwritten bus h.dev reg clear_mask set_mask log)

  change_gain-IsUnscaled :
      (value : ℕ) (h : Handle R) (log : Log)
      → IsUnscaled h log (change_gain zero_float bus value h log)
  unfolding change_gain
  change_gain-IsUnscaled value h log = by_value (gain_value value)
    where
      by_value :
          (times : Option ℕ)
          → IsUnscaled h log (elim times [
            | none ↦ unchanged zero_float bus invalid_arg h log
            | some n ↦ set_field zero_float bus h reg_ctrl1 0x07 (value % 256) log
          ])
      by_value none = inl (_, refl, refl, refl, refl)
      by_value (some n) = set_field-IsUnscaled h _ _ _ log

  change_rate-IsUnscaled :
      (value : ℕ) (h : Handle R) (log : Log)
      → IsUnscaled h log (change_rate zero_float bus value h log)
  unfolding change_rate
  change_rate-IsUnscaled value h log = by_value (rate_sps value)
    where
      by_value :
          (sps : Option ℕ)
          → IsUnscaled h log (elim sps [
            | none ↦ unchanged zero_float bus invalid_arg h log
            | some n ↦ set_field zero_float bus h reg_ctrl2 0x70 (value * 2 ^ 4 % 256) log
          ])
      by_value none = inl (_, refl, refl, refl, refl)
      by_value (some n) = set_field-IsUnscaled h _ _ _ log

  change-IsUnscaled :
      (s : Setting) (h : Handle R) (log : Log) → IsUnscaled h log (change zero_float bus s h log)
  unfolding change
  change-IsUnscaled (gain value) h log = change_gain-IsUnscaled value h log
  change-IsUnscaled (rate value) h log = change_rate-IsUnscaled value h log
  change-IsUnscaled (channel_b on) h log = set_field-IsUnscaled h _ _ _ log
  change-IsUnscaled (ldomode on) h log = set_field-IsUnscaled h _ _ _ log
  change-IsUnscaled (pga_cap on) h log = set_field-IsUnscaled h _ _ _ log

module _ (F : Floats) (bus : Bus) where
  open F use {R}

  -- What a weighing is refused with.
  abbrev pub refusal : Log → Result Error (Weight R) × Log
  refusal log = (failed invalid_state, log)

  weigh-refusal :
      (h : Handle R) (samples : ℕ) (log : Log)
      → h.scale.calibrated ≡ false
      → weigh F bus h samples log ≡ refusal log
  unfolding weigh
  weigh-refusal h samples log e = rw e refl

  -- A change of the gain, the rate, the channel, the LDO mode or the PGA capacitor either fails without a report and
  -- leaves the handle as it was, and then the device has acknowledged no write of it; or it leaves the handle without any
  -- tare and factor, even if it fails, and from then on every weighing is refused, and nothing is asked of the device for
  -- it.
  pub change-weigh :
      (s : Setting) (h : Handle R) (log : Log)
      → ((e : Error) × ((change (whole F 0) bus s h log).status ≡ failed e)
          × ((change (whole F 0) bus s h log).handle ≡ h)
          × ((change (whole F 0) bus s h log).report ≡ none)
          × (acknowledged (change (whole F 0) bus s h log).log ≡ acknowledged log))
        ⊎ (((change (whole F 0) bus s h log).handle ≡ reset_scale (whole F 0) bus h)
            × ((samples : ℕ) (later : Log)
                → weigh F bus (change (whole F 0) bus s h log).handle samples later
                  ≡ refusal later))
  change-weigh s h log = elim (change-IsUnscaled (whole F 0) bus s h log) [
    | inl untouched ↦ inl untouched
    | inr reset ↦ inr (
      reset,
      λ (samples : ℕ) (later : Log).
          weigh-refusal _ samples later (ap (λ (k : Handle R). k.scale.calibrated) reset),
    )
  ]
