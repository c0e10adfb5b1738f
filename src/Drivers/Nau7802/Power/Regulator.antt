-- ===== src/Drivers/Nau7802/Power/Regulator.antt =====
-- The internal regulator is switched on by PU_CTRL.AVDDS; its voltage is CTRL1.VLDO. When it is switched on, the voltage
-- has been chosen.
use esp_components.Base.{
  ℕ, ◌*◌, Bool, true, false, not, ◌&&◌, ◌||◌, List, [], ◌∷◌, Option, none, some, ltb, ◌==◌,
  if◌then◌else◌, bit_and, ◌≡◌,
}
use esp_components.Drivers.Nau7802.{
  Result, ok, failed, store, load, take_signal, level, Reply, nack, acked, Log, Bus, has,
}

-- What CTRL1 holds after a write that has been acknowledged, or may have been done all the same: a write with RR set to
-- PU_CTRL resets it.
abbrev pub ctrl1_after : ℕ → ℕ → Reply → Option ℕ → Option ℕ
ctrl1_after reg value (acked bytes) held =
    if reg == 1 then some value else if reg == 0 && has 1 value then some 0 else held
ctrl1_after reg value (nack code) held = if reg == 1 || reg == 0 && has 1 value then none else held

abbrev pub ctrl1 : Log → Option ℕ
ctrl1 [] = none
ctrl1 ((store reg value, reply) ∷ log) = ctrl1_after reg value reply (ctrl1 log)
ctrl1 ((load reg len, reply) ∷ log) = ctrl1 log
ctrl1 ((take_signal ms, reply) ∷ log) = ctrl1 log
ctrl1 ((level pin, reply) ∷ log) = ctrl1 log

-- A byte with the voltage in its field.
abbrev pub chosen : ℕ → Option ℕ → Bool
chosen vldo none = false
chosen vldo (some c) = ltb c 256 && bit_and c 0x38 == vldo * 8

abbrev pub permitted : ℕ → ℕ → ℕ → Option ℕ → Bool
permitted vldo reg value held = not (reg == 0 && has 128 value) || chosen vldo held

-- Wherever PU_CTRL is written with AVDDS set, CTRL1 holds the voltage.
abbrev pub guarded : ℕ → Log → Bool
guarded vldo [] = true
guarded vldo ((store reg value, reply) ∷ log) =
    permitted vldo reg value (ctrl1 log) && guarded vldo log
guarded vldo ((load reg len, reply) ∷ log) = guarded vldo log
guarded vldo ((take_signal ms, reply) ∷ log) = guarded vldo log
guarded vldo ((level pin, reply) ∷ log) = guarded vldo log

-- The device answers a read of CTRL1 with what the register holds.
abbrev pub Answers : Bus → Type 0
Answers bus =
    (log : Log) (c : ℕ) (bytes : List ℕ)
    → ctrl1 log ≡ some c
    → bus log (load 1 1) ≡ acked bytes
    → bytes ≡ c ∷ []

-- The log is guarded whatever happens, and CTRL1 is as `p` says if the call succeeds.
abbrev pub Ends : {A E : Type 0} → ℕ → (Option ℕ → Bool) → Result E A × Log → Type 0
Ends vldo p (ok a, log) = (guarded vldo log ≡ true) × (p (ctrl1 log) ≡ true)
Ends vldo p (failed e, log) = guarded vldo log ≡ true
