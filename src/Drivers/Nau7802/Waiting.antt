-- ===== src/Drivers/Nau7802/Waiting.antt =====
-- How the wait for a status bit ends.
use esp_components.Base.{
  ℕ, zero, suc, ◌+◌, ◌-◌, ◌/◌, ◌%◌, ◌^◌, ◌≤◌, ◌<◌, Bool, true, false, not, List, ◌∷◌, leb,
  if◌then◌else◌, get_or, length, ◌≡◌, refl, arith, Bool-cases, inl, inr,
}
use esp_components.Drivers.Nau7802.{
  Error, exhausted, Result, ok, failed, load, Reply, nack, acked, Log, Bus, M, continue, give, has,
  bytes_of, read_regs, read_reg, poll, wait_for_bit,
}

abbrev pub is_exhausted : Error → Bool
is_exhausted exhausted = true
is_exhausted _ = false

-- The bit is set, or clear.
abbrev pub shows : ℕ → Bool → ℕ → Bool
shows mask set value = if has mask value then set else not set

-- The last thing that was read is the register, with the bit as it was wanted.
abbrev pub Seen : ℕ → ℕ → Bool → Log → Type 0
Seen reg mask set ((load r len, acked bytes) ∷ log) =
    (r ≡ reg) × (shows mask set (get_or bytes 0 0) ≡ true)
Seen reg mask set _ = ⊥

-- The wait ends, with at most `most` entries in the log.
abbrev pub Ended : ℕ → ℕ → Bool → ℕ → Result Error (Unit {0}) × Log → Type 0
Ended reg mask set most (ok _, log) = Seen reg mask set log × (length log ≤ most)
Ended reg mask set most (failed e, log) = (is_exhausted e ≡ false) × (length log ≤ most)

-- What a round does with what it reads.
abbrev round : ℕ → Bool → M Error (Unit {0}) → ℕ → M Error (Unit {0})
round mask set later value = if shows mask set value then give tt else later

round-Ended :
    (bus : Bus) (dev : Bool) (reg mask : ℕ) (set : Bool) (most : ℕ) (log : Log)
    (later : M Error (Unit {0}))
    → length log + 1 ≤ most
    → ((log' : Log) → length log' ≡ length log + 1 → Ended reg mask set most (later log'))
    → Ended reg mask set most (continue (read_reg bus dev reg log) (round mask set later))
unfolding read_reg read_regs
round-Ended bus false reg mask set most log later m k = (refl, omega arith)
round-Ended bus true reg mask set most log later m k = by_reply (bus log (load reg 1))
  where
    by_value :
        (bytes : List ℕ) (b : Bool)
        → shows mask set (get_or bytes 0 0) ≡ b
        → Ended reg mask set most ((if b then give tt else later) ((load reg 1, acked bytes) ∷ log))
    by_value bytes true e = ((refl, e), omega arith)
    by_value bytes false e = k ((load reg 1, acked bytes) ∷ log) (omega arith)

    by_reply :
        (r : Reply)
        → Ended reg mask set most (
            continue
              (continue (bytes_of r, (load reg 1, r) ∷ log) (λ bytes. give (get_or bytes 0 0)))
              (round mask set later))
    by_reply (nack c) = (refl, omega arith)
    by_reply (acked bytes) = by_value bytes (shows mask set (get_or bytes 0 0)) refl

poll-Ended :
    (bus : Bus) (fuel : ℕ) (dev : Bool) (reg mask : ℕ) (set : Bool) (timeout_ms waited most : ℕ)
    (log : Log)
    → timeout_ms + 10 < 2 ^ 32
    → waited ≤ timeout_ms + 10
    → (timeout_ms + 10 - waited) / 10 < fuel
    → length log + (timeout_ms + 10 - waited) / 10 ≤ most
    → Ended reg mask set most (poll bus fuel dev reg mask set timeout_ms waited log)
unfolding poll
poll-Ended bus zero dev reg mask set timeout_ms waited most log s w f m = absurd (omega arith)
poll-Ended bus (suc fuel) dev reg mask set timeout_ms waited most log s w f m =
    elim (Bool-cases (leb waited timeout_ms)) [
      | inr q ↦ rw q (refl, omega arith)
      | inl q ↦ rw q (
          round-Ended bus dev reg mask set most log
            (poll bus fuel dev reg mask set timeout_ms ((waited + 10) % 2 ^ 32)) (ground arith)
            λ log' e.
              poll-Ended bus fuel dev reg mask set timeout_ms ((waited + 10) % 2 ^ 32) most log' s
                (ground arith) (ground arith) (ground arith))
    ]

-- For a timeout that leaves room for another 10 ms in 32 bits, the wait comes to an end after one read for each 10 ms
-- and one more at most, whatever the bus answers; and where it succeeds, the last thing that was read is the
-- register, with the bit as it was wanted.
pub wait_for_bit-Ended :
    (bus : Bus) (dev : Bool) (reg mask : ℕ) (set : Bool) (timeout_ms : ℕ) (log : Log)
    → timeout_ms + 10 < 2 ^ 32
    → Ended reg mask set
        (length log + timeout_ms / 10 + 1)
        (wait_for_bit bus dev reg mask set timeout_ms log)
unfolding wait_for_bit
wait_for_bit-Ended bus dev reg mask set timeout_ms log s =
    poll-Ended bus (timeout_ms / 10 + 2) dev reg mask set timeout_ms 0
      (length log + timeout_ms / 10 + 1) log s (omega arith) (omega arith) (omega arith)
