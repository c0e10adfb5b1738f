-- ===== src/Drivers/Nau7802/Power/Voltage.antt =====
-- The sequence of bring-up chooses the voltage of the regulator before it is switched on.
use esp_components.Base.{
  ℕ, ◌-◌, ◌*◌, ◌%◌, ◌^◌, ◌<◌, Bool, true, false, ◌&&◌, List, [], ◌∷◌, Option, none, some, ltb, ◌==◌,
  bit_and, bit_or, get_or, ◌≡◌, refl, sym, ap, subst, ◌∙◌, arith, Option-cases, inl, inr, all_below,
  all_below_lem,
}
use esp_components.Drivers.Nau7802.{
  Error, Result, ok, load, Reply, nack, acked, Log, Bus, M, continue, ◌>>◌, bytes_of, read_regs,
  read_reg, write_reg, update_reg, wait_for_bit, discard_conversions, reg_pu_ctrl, reg_ctrl1,
  conversion_timeout,
}
use esp_components.Drivers.Nau7802.Power.{
  Stage, blame, power_ready, probe, reset, power_digital, set_ldo, set_gain, power_analog, adc_ctrl,
  calibrate, start, settle, at, configure_ldo, configure_gain, power_up, begin, run_calibration,
  settling_conversions,
}
use esp_components.Drivers.Nau7802.Power.Regulator.{ctrl1, chosen, guarded, Answers, Ends}
use esp_components.Drivers.Nau7802.Power.Steps.{
  continue-Ends, blame-Ends, read_reg-Ends, write_reg-Ends, update_reg-Ends, wait_for_bit-Ends,
  discard_conversions-Ends, run_calibration-Ends,
}

abbrev pub any : Option ℕ → Bool
any held = true

-- CTRL1 has been reset.
abbrev is_reset : Option ℕ → Bool
is_reset none = false
is_reset (some c) = c == 0

-- A gain in its field leaves the voltage alone.
gain_table :
    all_below 256 (λ (c : ℕ). all_below 8 (λ (gain : ℕ).
      ltb (bit_or (bit_and c 248) gain) 256
      && bit_and (bit_or (bit_and c 248) gain) 56 == bit_and c 56))
    ≡ true
unfolding all_below
gain_table = refl

ldo_table :
    all_below 8
      (λ (vldo : ℕ). bit_or 0 (vldo * 8 % 256) == vldo * 8 && bit_and (vldo * 8) 56 == vldo * 8)
    ≡ true
unfolding all_below
ldo_table = refl

-- A change of CTRL1, from what it holds.
update_ctrl1 :
    (vldo c clear_mask set_mask : ℕ) (bus : Bus) (dev : Bool) (log : Log)
    → Answers bus
    → guarded vldo log ≡ true
    → ctrl1 log ≡ some c
    → chosen vldo (some (bit_or (bit_and c (255 - clear_mask)) set_mask % 256)) ≡ true
    → Ends vldo (chosen vldo) (update_reg bus dev reg_ctrl1 clear_mask set_mask log)
unfolding update_reg read_reg read_regs
update_ctrl1 vldo c clear_mask set_mask bus false log answers g e h = g
update_ctrl1 vldo c clear_mask set_mask bus true log answers g e h =
    by_reply (bus log (load 1 1)) refl
  where
    write : Reply → Result Error (Unit {0}) × Log
    write r =
        continue
          (continue (bytes_of r, (load 1 1, r) ∷ log) (λ bytes log'. (ok (get_or bytes 0 0), log')))
          (λ value. write_reg bus true 1 (bit_or (bit_and value (255 - clear_mask)) set_mask % 256))

    by_reply : (r : Reply) → bus log (load 1 1) ≡ r → Ends vldo (chosen vldo) (write r)
    by_reply (nack code) q = g
    by_reply (acked bytes) q =
        let held : Ends vldo (chosen vldo) (write (acked (c ∷ []))) =
          write_reg-Ends vldo (chosen vldo) bus ((load 1 1, acked (c ∷ [])) ∷ log) g true 1
            (bit_or (bit_and c (255 - clear_mask)) set_mask % 256) refl h in
        subst (λ (bs : List ℕ). Ends vldo (chosen vldo) (write (acked bs)))
          (sym (answers log c bytes e q)) held

ldo_field :
    (vldo : ℕ)
    → vldo < 8
    → chosen vldo (some (bit_or (bit_and 0 (255 - 0x38)) (vldo * 2 ^ 3 % 256) % 256)) ≡ true
ldo_field vldo l = ground (
  arith,
  all_below_lem 8 (λ (x : ℕ). bit_or 0 (x * 8 % 256) == x * 8 && bit_and (x * 8) 56 == x * 8) vldo
      ldo_table l,
)

gain_field :
    (vldo c gain : ℕ)
    → gain < 8
    → chosen vldo (some c) ≡ true
    → chosen vldo (some (bit_or (bit_and c (255 - 0x07)) (gain % 256) % 256)) ≡ true
gain_field vldo c gain l h =
    let test = λ (d : ℕ). λ (x : ℕ).
      ltb (bit_or (bit_and d 248) x) 256 && bit_and (bit_or (bit_and d 248) x) 56 == bit_and d 56 in
    let row = all_below_lem 256 (λ (d : ℕ). all_below 8 (test d)) c gain_table (ground arith) in
    let entry = all_below_lem 8 (test c) gain row l in
    let small : gain % 256 ≡ gain = omega arith in rw small (ground (arith, entry, h))

-- The options that a caller may give.
abbrev pub gain_fits : Option ℕ → Bool
gain_fits none = true
gain_fits (some gain) = ltb gain 8

module _ (vldo : ℕ) (bus : Bus) (answers : Answers bus) (l : vldo < 8) where
  choose_ldo :
      (dev : Bool) (log : Log)
      → guarded vldo log ≡ true
      → is_reset (ctrl1 log) ≡ true
      → Ends vldo (chosen vldo) (update_reg bus dev reg_ctrl1 0x38 (vldo * 2 ^ 3 % 256) log)
  choose_ldo dev log g h = elim (Option-cases (ctrl1 log)) [
    | inl e ↦ absurd (ground (arith, rw e at h))
    | inr (c, e) ↦
        let zero : c ≡ 0 = ground (arith, rw e at h) in
        update_ctrl1 vldo 0 0x38 (vldo * 2 ^ 3 % 256) bus dev log answers g
          (e ∙ ap (λ (x : ℕ). some x) zero) (ldo_field vldo l)
  ]

  choose_gain :
      (gain : ℕ) (dev : Bool) (log : Log)
      → gain < 8
      → guarded vldo log ≡ true
      → chosen vldo (ctrl1 log) ≡ true
      → Ends vldo (chosen vldo) (update_reg bus dev reg_ctrl1 0x07 (gain % 256) log)
  choose_gain gain dev log k g h = elim (Option-cases (ctrl1 log)) [
    | inl e ↦ absurd (ground (arith, rw e at h))
    | inr (c, e) ↦
        update_ctrl1 vldo c 0x07 (gain % 256) bus dev log answers g e
          (gain_field vldo c gain k (rw e at h))
  ]

  -- A step under its stage, and what follows it.
  staged :
      {A B : Type 0} (p q : Option ℕ → Bool) (stage : Stage) (r : Result Error A × Log)
      (f : A → M (Stage × Error) B)
      → Ends vldo q r
      → ((a : A) (log : Log)
          → guarded vldo log ≡ true
          → q (ctrl1 log) ≡ true
          → Ends vldo p (f a log))
      → Ends vldo p (continue (blame stage r) f)
  staged p q stage r f h k =
      continue-Ends vldo p q (blame stage r) f (blame-Ends vldo q stage r h) k

  configure_ldo-Ends :
      (dev : Bool) (log : Log)
      → guarded vldo log ≡ true
      → is_reset (ctrl1 log) ≡ true
      → Ends vldo (chosen vldo) (configure_ldo bus dev (some vldo) log)
  unfolding configure_ldo
  configure_ldo-Ends dev log g h =
      blame-Ends vldo (chosen vldo) set_ldo
        (update_reg bus dev reg_ctrl1 0x38 (vldo * 2 ^ 3 % 256) log) (choose_ldo dev log g h)

  configure_gain-Ends :
      (dev : Bool) (gain : Option ℕ) (log : Log)
      → gain_fits gain ≡ true
      → guarded vldo log ≡ true
      → chosen vldo (ctrl1 log) ≡ true
      → Ends vldo (chosen vldo) (configure_gain bus dev gain log)
  unfolding configure_gain
  configure_gain-Ends dev none log k g h = (g, h)
  configure_gain-Ends dev (some gain) log k g h =
      blame-Ends vldo (chosen vldo) set_gain (update_reg bus dev reg_ctrl1 0x07 (gain % 256) log)
        (choose_gain gain dev log (ground arith) g h)

  pub power_up-Ends :
      (dev : Bool) (gain : Option ℕ) (log : Log)
      → gain_fits gain ≡ true
      → guarded vldo log ≡ true
      → Ends vldo (chosen vldo) (power_up bus dev (some vldo) gain log)
  unfolding power_up
  power_up-Ends dev gain log k g =
      staged (chosen vldo) any probe (read_reg bus dev 0x1F log) _
        (read_reg-Ends vldo any bus log g dev 0x1F refl)
        λ _ log1 g1 _.
          staged (chosen vldo) is_reset reset (write_reg bus dev reg_pu_ctrl 1 log1) _
            (write_reg-Ends vldo is_reset bus log1 g1 dev reg_pu_ctrl 1 refl refl)
            λ _ log2 g2 h2.
              staged (chosen vldo) is_reset reset (write_reg bus dev reg_pu_ctrl 0 log2) _
                (write_reg-Ends vldo is_reset bus log2 g2 dev reg_pu_ctrl 0 refl h2)
                λ _ log3 g3 h3.
                  staged (chosen vldo) is_reset power_digital (write_reg bus dev reg_pu_ctrl 2 log3)
                    _ (write_reg-Ends vldo is_reset bus log3 g3 dev reg_pu_ctrl 2 refl h3)
                    λ _ log4 g4 h4.
                      staged (chosen vldo) is_reset power_ready
                        (wait_for_bit bus dev reg_pu_ctrl 8 true conversion_timeout log4) _
                        (wait_for_bit-Ends vldo is_reset bus dev reg_pu_ctrl 8 true
                          conversion_timeout log4 g4 h4)
                        λ _ log5 g5 h5. configured log5 g5 h5
    where
      configured :
          (log5 : Log)
          → guarded vldo log5 ≡ true
          → is_reset (ctrl1 log5) ≡ true
          → Ends vldo (chosen vldo) (
              continue (configure_ldo bus dev (some vldo) log5) (λ _.
                configure_gain bus dev gain
                >> at power_analog (write_reg bus dev reg_pu_ctrl (bit_or 6 128))))
      configured log5 g5 h5 =
          continue-Ends vldo (chosen vldo) (chosen vldo) (configure_ldo bus dev (some vldo) log5) _
            (configure_ldo-Ends dev log5 g5 h5)
            λ _ log6 g6 h6.
              continue-Ends vldo (chosen vldo) (chosen vldo) (configure_gain bus dev gain log6) _
                (configure_gain-Ends dev gain log6 k g6 h6)
                λ _ log7 g7 h7.
                  blame-Ends vldo (chosen vldo) power_analog
                    (write_reg bus dev reg_pu_ctrl (bit_or 6 128) log7)
                    (write_reg-Ends vldo (chosen vldo) bus log7 g7 dev reg_pu_ctrl (bit_or 6 128) h7
                      h7)

  pub begin-Ends :
      (dev : Bool) (drdy : Option ℕ) (log : Log)
      → guarded vldo log ≡ true
      → chosen vldo (ctrl1 log) ≡ true
      → Ends vldo any (begin bus dev drdy log)
  unfolding begin
  begin-Ends dev drdy log g h =
      let p = chosen vldo in
      staged any p adc_ctrl (write_reg bus dev 0x15 0x30 log) _
        (write_reg-Ends vldo p bus log g dev 0x15 0x30 refl h)
        λ _ log1 g1 h1.
          staged any p calibrate (run_calibration bus dev log1) _
            (run_calibration-Ends vldo p bus dev log1 g1 h1)
            λ _ log2 g2 h2.
              staged any any start (update_reg bus dev reg_pu_ctrl 0 16 log2) _
                (update_reg-Ends vldo p bus any log2 dev reg_pu_ctrl 0 16
                  (λ v held q. (ground (arith, q), refl)) g2 h2)
                λ _ log3 g3 _.
                  blame-Ends vldo any settle
                    (discard_conversions bus settling_conversions dev drdy log3)
                    (discard_conversions-Ends vldo any bus settling_conversions dev drdy log3 g3
                      refl)
