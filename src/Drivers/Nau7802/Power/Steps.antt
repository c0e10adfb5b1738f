-- ===== src/Drivers/Nau7802/Power/Steps.antt =====
-- What each step of the sequences does to CTRL1 and to the log.
use esp_components.Base.{
  ℕ, zero, suc, ◌+◌, ◌-◌, ◌%◌, ◌^◌, Bool, true, false, not, List, [], ◌∷◌, Option, none, some, leb,
  if◌then◌else◌, bit_and, bit_or, get_or, ◌≡◌, ◌⊎◌, refl, inl, inr,
}
use esp_components.Drivers.Nau7802.{
  Error, cal_failed, Result, ok, failed, store, load, take_signal, level, Reply, nack, acked, Log,
  Bus, M, continue, has, bytes_of, done_of, read_regs, read_reg, write_reg, update_reg, poll,
  wait_for_bit, wait_for_drdy, await, read_raw, discard_conversions, reg_pu_ctrl, reg_ctrl2,
  calibration_timeout, taken_of, ◌>>=◌, give, fail, timeout, is_high, conversion_timeout,
}
use esp_components.Drivers.Nau7802.Power.{Stage, blame, verdict, run_calibration}
use esp_components.Drivers.Nau7802.Power.Regulator.{ctrl1_after, ctrl1, permitted, guarded, Ends}

pub Reply-cases : (r : Reply) → ((c : ℕ) × (r ≡ nack c)) ⊎ ((bytes : List ℕ) × (r ≡ acked bytes))
Reply-cases (nack c) = inl (c, refl)
Reply-cases (acked bytes) = inr (bytes, refl)

module _ (vldo : ℕ) (p : Option ℕ → Bool) where
  pub continue-Ends :
      {A B E : Type 0} (q : Option ℕ → Bool) (r : Result E A × Log) (f : A → M E B)
      → Ends vldo q r
      → ((a : A) (log : Log)
          → guarded vldo log ≡ true
          → q (ctrl1 log) ≡ true
          → Ends vldo p (f a log))
      → Ends vldo p (continue r f)
  continue-Ends q (ok a, log) f h k = k a log h.0 h.1
  continue-Ends q (failed e, log) f h k = h

  pub blame-Ends :
      {A : Type 0} (stage : Stage) (r : Result Error A × Log)
      → Ends vldo p r
      → Ends vldo p (blame stage r)
  blame-Ends stage (ok a, log) h = h
  blame-Ends stage (failed e, log) h = h

module _ (vldo : ℕ) (p : Option ℕ → Bool) (bus : Bus) (log : Log)
    (g : guarded vldo log ≡ true) where
  -- A read leaves CTRL1 alone.
  pub read_regs-Ends :
      (dev : Bool) (reg len : ℕ)
      → p (ctrl1 log) ≡ true
      → Ends vldo p (read_regs bus dev reg len log)
  unfolding read_regs
  read_regs-Ends false reg len h = g
  read_regs-Ends true reg len h = by_reply (bus log (load reg len))
    where
      by_reply : (r : Reply) → Ends vldo p (bytes_of r, (load reg len, r) ∷ log)
      by_reply (nack c) = g
      by_reply (acked bytes) = (g, h)

  pub read_reg-Ends :
      (dev : Bool) (reg : ℕ) → p (ctrl1 log) ≡ true → Ends vldo p (read_reg bus dev reg log)
  unfolding read_reg
  read_reg-Ends dev reg h =
      continue-Ends vldo p p (read_regs bus dev reg 1 log) _ (read_regs-Ends dev reg 1 h)
        (λ a log' g' h'. (g', h'))

  pub write_reg-Ends :
      (dev : Bool) (reg value : ℕ)
      → permitted vldo reg value (ctrl1 log) ≡ true
      → p (ctrl1_after reg value (acked []) (ctrl1 log)) ≡ true
      → Ends vldo p (write_reg bus dev reg value log)
  unfolding write_reg
  write_reg-Ends false reg value m h = g
  write_reg-Ends true reg value m h = by_reply (bus log (store reg value))
    where
      by_reply : (r : Reply) → Ends vldo p (done_of r, (store reg value, r) ∷ log)
      by_reply (nack c) = rw m g
      by_reply (acked bytes) = (rw m g, h)

module _ (vldo : ℕ) (p : Option ℕ → Bool) (bus : Bus) where
  -- A change of a register, whatever is read from it.
  pub update_reg-Ends :
      (q : Option ℕ → Bool) (log : Log) (dev : Bool) (reg clear_mask set_mask : ℕ)
      → ((v : ℕ) (held : Option ℕ)
          → p held ≡ true
          → (permitted vldo reg v held ≡ true) × (q (ctrl1_after reg v (acked []) held) ≡ true))
      → guarded vldo log ≡ true
      → p (ctrl1 log) ≡ true
      → Ends vldo q (update_reg bus dev reg clear_mask set_mask log)
  unfolding update_reg
  update_reg-Ends q log dev reg clear_mask set_mask k g h =
      continue-Ends vldo q p (read_reg bus dev reg log) _ (read_reg-Ends vldo p bus log g dev reg h)
        λ v log' g' h'.
          let value = bit_or (bit_and v (255 - clear_mask)) set_mask % 256 in
          let (m, n) = k value (ctrl1 log') h' in
          write_reg-Ends vldo q bus log' g' dev reg value m n

  poll-Ends :
      (fuel : ℕ) (dev : Bool) (reg mask : ℕ) (set : Bool) (timeout_ms waited : ℕ) (log : Log)
      → guarded vldo log ≡ true
      → p (ctrl1 log) ≡ true
      → Ends vldo p (poll bus fuel dev reg mask set timeout_ms waited log)
  unfolding poll
  poll-Ends zero dev reg mask set timeout_ms waited log g h = g
  poll-Ends (suc fuel) dev reg mask set timeout_ms waited log g h =
      by_time (leb waited timeout_ms)
        λ log' g' h'. poll-Ends fuel dev reg mask set timeout_ms ((waited + 10) % 2 ^ 32) log' g' h'
    where
      later : M Error (Unit {0})
      later = poll bus fuel dev reg mask set timeout_ms ((waited + 10) % 2 ^ 32)

      decide :
          (b : Bool) (log' : Log)
          → Ends vldo p (later log')
          → guarded vldo log' ≡ true
          → p (ctrl1 log') ≡ true
          → Ends vldo p ((if b then give tt else later) log')
      decide true log' k g' h' = (g', h')
      decide false log' k g' h' = k

      by_time :
          (b : Bool)
          → ((log' : Log)
              → guarded vldo log' ≡ true
              → p (ctrl1 log') ≡ true
              → Ends vldo p (later log'))
          → Ends vldo p (
              (if b
                  then (read_reg bus dev reg >>= λ value.
                      if (if has mask value then set else not set) then give tt else later)
                  else fail timeout)
                log)
      by_time false ih = g
      by_time true ih =
          continue-Ends vldo p p (read_reg bus dev reg log) _
            (read_reg-Ends vldo p bus log g dev reg h)
            λ v log' g' h'. decide (if has mask v then set else not set) log' (ih log' g' h') g' h'

  pub wait_for_bit-Ends :
      (dev : Bool) (reg mask : ℕ) (set : Bool) (timeout_ms : ℕ) (log : Log)
      → guarded vldo log ≡ true
      → p (ctrl1 log) ≡ true
      → Ends vldo p (wait_for_bit bus dev reg mask set timeout_ms log)
  unfolding wait_for_bit
  wait_for_bit-Ends dev reg mask set timeout_ms log g h =
      poll-Ends _ dev reg mask set timeout_ms 0 log g h

  await-Ends :
      (dev : Bool) (drdy : Option ℕ) (log : Log)
      → guarded vldo log ≡ true
      → p (ctrl1 log) ≡ true
      → Ends vldo p (await bus dev drdy log)
  unfolding wait_for_drdy
  await-Ends dev none log g h = wait_for_bit-Ends dev reg_pu_ctrl 32 true conversion_timeout log g h
  await-Ends dev (some pin) log g h =
      by_level (is_high (bus dropped (level pin))) (bus seen (take_signal conversion_timeout))
    where
      dropped : Log
      dropped = (take_signal 0, bus log (take_signal 0)) ∷ log

      seen : Log
      seen = (level pin, bus dropped (level pin)) ∷ dropped

      by_level :
          (high : Bool) (taken : Reply)
          → Ends vldo p (
              if high
              then (ok tt, seen)
              else (taken_of taken, (take_signal conversion_timeout, taken) ∷ seen))
      by_level true taken = (g, h)
      by_level false (nack c) = g
      by_level false (acked bytes) = (g, h)

  pub read_raw-Ends :
      (dev : Bool) (drdy : Option ℕ) (log : Log)
      → guarded vldo log ≡ true
      → p (ctrl1 log) ≡ true
      → Ends vldo p (read_raw bus dev drdy log)
  unfolding read_raw
  read_raw-Ends dev drdy log g h =
      continue-Ends vldo p p (await bus dev drdy log) _ (await-Ends dev drdy log g h)
        λ _ log1 g1 h1.
          continue-Ends vldo p p (read_regs bus dev 0x12 3 log1) _
            (read_regs-Ends vldo p bus log1 g1 dev 0x12 3 h1) λ _ log2 g2 h2. (g2, h2)

  pub discard_conversions-Ends :
      (n : ℕ) (dev : Bool) (drdy : Option ℕ) (log : Log)
      → guarded vldo log ≡ true
      → p (ctrl1 log) ≡ true
      → Ends vldo p (discard_conversions bus n dev drdy log)
  unfolding discard_conversions
  discard_conversions-Ends zero dev drdy log g h = (g, h)
  discard_conversions-Ends (suc n) dev drdy log g h =
      continue-Ends vldo p p (read_raw bus dev drdy log) _ (read_raw-Ends dev drdy log g h)
        λ _ log1 g1 h1. discard_conversions-Ends n dev drdy log1 g1 h1

  -- However a read ends.
  pub read_reg_keeps :
      (dev : Bool) (reg : ℕ) (log : Log)
      → guarded vldo log ≡ true
      → p (ctrl1 log) ≡ true
      → (guarded vldo (read_reg bus dev reg log).1 ≡ true)
        × (p (ctrl1 (read_reg bus dev reg log).1) ≡ true)
  unfolding read_reg read_regs
  read_reg_keeps false reg log g h = (g, h)
  read_reg_keeps true reg log g h = by_reply (bus log (load reg 1))
    where
      read : Reply → Result Error ℕ × Log
      read r = continue (bytes_of r, (load reg 1, r) ∷ log) (λ bytes. give (get_or bytes 0 0))

      by_reply : (r : Reply) → (guarded vldo (read r).1 ≡ true) × (p (ctrl1 (read r).1) ≡ true)
      by_reply (nack c) = (g, h)
      by_reply (acked bytes) = (g, h)

  verdict-Ends :
      (r : Result Error ℕ × Log)
      → (guarded vldo r.1 ≡ true) × (p (ctrl1 r.1) ≡ true)
      → Ends vldo p (verdict bus r)
  verdict-Ends (ok ctrl2, log) (g, h) = by_error (has 8 ctrl2)
    where
      by_error : (b : Bool) → Ends vldo p (if b then (failed cal_failed, log) else (ok tt, log))
      by_error true = g
      by_error false = (g, h)
  verdict-Ends (failed e, log) h = h

  pub run_calibration-Ends :
      (dev : Bool) (log : Log)
      → guarded vldo log ≡ true
      → p (ctrl1 log) ≡ true
      → Ends vldo p (run_calibration bus dev log)
  unfolding run_calibration
  run_calibration-Ends dev log g h =
      continue-Ends vldo p p (update_reg bus dev reg_ctrl2 15 4 log) _
        (update_reg-Ends p log dev reg_ctrl2 15 4 (λ v held k. (refl, k)) g h)
        λ _ log1 g1 h1.
          continue-Ends vldo p p (wait_for_bit bus dev reg_ctrl2 4 false calibration_timeout log1) _
            (wait_for_bit-Ends dev reg_ctrl2 4 false calibration_timeout log1 g1 h1)
            λ _ log2 g2 h2.
              verdict-Ends (read_reg bus dev reg_ctrl2 log2)
                (read_reg_keeps dev reg_ctrl2 log2 g2 h2)
