-- ===== src/Drivers/Nau7802/Quiet.antt =====
-- Which calls write nothing to the device.
pub mod Measuring
use esp_components.Base.{
  ℕ, zero, suc, ◌+◌, ◌/◌, ◌%◌, ◌^◌, Bool, true, false, not, List, [], ◌∷◌, Option, none, some, ltb,
  leb, ◌==◌, if◌then◌else◌, ◌≡◌, refl, ◌∙◌, get_or, take,
}
use esp_components.Base.Int.{ℤ}
use esp_components.Drivers.Floats.{Floats}
use esp_components.Drivers.Nau7802.{
  Error, invalid_arg, invalid_state, timeout, Result, ok, failed, Request, store, load, take_signal,
  level, Reply, Log, Bus, M, continue, give, fail, Handle, has, bytes_of, reg_ctrl1, reg_ctrl2,
  reg_pu_ctrl, conversion_timeout, read_regs, read_reg, read_be, poll, wait_for_bit, is_high,
  taken_of, wait_for_drdy, await, read_raw, sign_extend, to_int32, big_endian,
}

-- How many registers have been written.
abbrev pub stores : Log → ℕ
stores [] = 0
stores ((store reg value, reply) ∷ log) = stores log + 1
stores ((load reg len, reply) ∷ log) = stores log
stores ((take_signal ms, reply) ∷ log) = stores log
stores ((level pin, reply) ∷ log) = stores log

abbrev pub IsQuiet : {A E : Type 0} → M E A → Type 0
IsQuiet m = (log : Log) → stores (m log).1 ≡ stores log

pub continue-stores :
    {A B E : Type 0} (w : Result E A × Log) (f : A → M E B)
    → ((a : A) → IsQuiet (f a))
    → stores (continue w f).1 ≡ stores w.1
continue-stores (ok a, log) f k = k a log
continue-stores (failed e, log) f k = refl

module _ (bus : Bus) where
  read_regs-IsQuiet : (dev : Bool) (reg len : ℕ) → IsQuiet (read_regs bus dev reg len)
  unfolding read_regs
  read_regs-IsQuiet false reg len log = refl
  read_regs-IsQuiet true reg len log = refl

  pub read_reg-IsQuiet : (dev : Bool) (reg : ℕ) → IsQuiet (read_reg bus dev reg)
  unfolding read_reg
  read_reg-IsQuiet dev reg log =
      continue-stores (read_regs bus dev reg 1 log) (λ bytes. give (get_or bytes 0 0))
        (λ bytes log'. refl)
      ∙ read_regs-IsQuiet dev reg 1 log

  pub read_be-IsQuiet : (dev : Bool) (reg len : ℕ) → IsQuiet (read_be bus dev reg len)
  unfolding read_be
  read_be-IsQuiet dev reg len log = by_length (ltb 4 len)
    where
      by_length :
          (long : Bool)
          → stores
              ((if long then fail invalid_arg else (λ (l : Log).
                  continue
                    (read_regs bus dev reg len l)
                    (λ bytes. give (big_endian 0 (take len bytes)))))
                log).1
            ≡ stores log
      by_length true = refl
      by_length false =
          continue-stores (read_regs bus dev reg len log)
            (λ bytes. give (big_endian 0 (take len bytes))) (λ bytes log'. refl)
          ∙ read_regs-IsQuiet dev reg len log

  poll-IsQuiet :
      (fuel : ℕ) (dev : Bool) (reg mask : ℕ) (set : Bool) (timeout_ms waited : ℕ)
      → IsQuiet (poll bus fuel dev reg mask set timeout_ms waited)
  unfolding poll
  poll-IsQuiet zero dev reg mask set timeout_ms waited log = refl
  poll-IsQuiet (suc fuel) dev reg mask set timeout_ms waited log =
      by_time (leb waited timeout_ms)
        (poll bus fuel dev reg mask set timeout_ms ((waited + 10) % 2 ^ 32))
        (poll-IsQuiet fuel dev reg mask set timeout_ms ((waited + 10) % 2 ^ 32))
    where
      by_bit :
          (shown : Bool) (later : M Error (Unit {0}))
          → IsQuiet later
          → IsQuiet (if shown then give tt else later)
      by_bit true later q log' = refl
      by_bit false later q log' = q log'

      by_time :
          (early : Bool) (later : M Error (Unit {0}))
          → IsQuiet later
          → stores
              ((if early
                  then (λ (l : Log). continue (read_reg bus dev reg l) (λ value.
                      if (if has mask value then set else not set) then give tt else later))
                  else fail timeout)
                log).1
            ≡ stores log
      by_time true later q =
          continue-stores (read_reg bus dev reg log) _
            (λ value. by_bit (if has mask value then set else not set) later q)
          ∙ read_reg-IsQuiet dev reg log
      by_time false later q = refl

  wait_for_drdy-IsQuiet : (pin timeout_ms : ℕ) → IsQuiet (wait_for_drdy bus pin timeout_ms)
  unfolding wait_for_drdy
  wait_for_drdy-IsQuiet pin timeout_ms log =
      by_level (is_high (bus ((take_signal 0, bus log (take_signal 0)) ∷ log) (level pin)))
    where
      log1 : Log
      log1 = (take_signal 0, bus log (take_signal 0)) ∷ log

      log2 : Log
      log2 = (level pin, bus log1 (level pin)) ∷ log1

      by_level :
          (high : Bool)
          → stores
              (if◌then◌else◌ {A = Result Error (Unit {0}) × Log} high
                (ok tt, log2)
                (
                  taken_of (bus log2 (take_signal timeout_ms)),
                  (take_signal timeout_ms, bus log2 (take_signal timeout_ms)) ∷ log2,
                )).1
            ≡ stores log
      by_level true = refl
      by_level false = refl

  wait_for_bit-IsQuiet :
      (dev : Bool) (reg mask : ℕ) (set : Bool) (timeout_ms : ℕ)
      → IsQuiet (wait_for_bit bus dev reg mask set timeout_ms)
  unfolding wait_for_bit
  wait_for_bit-IsQuiet dev reg mask set timeout_ms =
      poll-IsQuiet (timeout_ms / 10 + 2) dev reg mask set timeout_ms 0

  await-IsQuiet : (dev : Bool) (drdy : Option ℕ) → IsQuiet (await bus dev drdy)
  await-IsQuiet dev none log = wait_for_bit-IsQuiet dev reg_pu_ctrl 32 true conversion_timeout log
  await-IsQuiet dev (some pin) log = wait_for_drdy-IsQuiet pin conversion_timeout log

  pub read_raw-IsQuiet : (dev : Bool) (drdy : Option ℕ) → IsQuiet (read_raw bus dev drdy)
  unfolding read_raw
  read_raw-IsQuiet dev drdy log =
      continue-stores (await bus dev drdy log) _ (λ done log1.
        continue-stores (read_regs bus dev 0x12 3 log1) _ (λ raw log2. refl)
        ∙ read_regs-IsQuiet dev 0x12 3 log1)
      ∙ await-IsQuiet dev drdy log
