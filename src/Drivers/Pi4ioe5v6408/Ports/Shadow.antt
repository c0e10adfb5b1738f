-- ===== src/Drivers/Pi4ioe5v6408/Ports/Shadow.antt =====
-- The shadow register of the PI4IOE5V6408's driver and the output register of the part, over any sequence of calls.
use esp_components.Base.{
  ℕ, ◌<◌, Bool, true, false, not, ◌||◌, List, [], ◌∷◌, Option, none, some, ltb, ◌==◌, if◌then◌else◌,
  ◌≡◌, refl, arith, ap, Bool-cases, inl, inr, ==_refl,
}
use esp_components.Drivers.Bus.{
  Result, ok, failed, Status, store, Reply, acked, nack, Log, Bus, write8, read8, latest, status_of,
}
use esp_components.Base.Bits.{bit}
use esp_components.Drivers.Pins.{with_pin, bit-with_pin}
use esp_components.Drivers.Pins.{with_pin}
use esp_components.Drivers.Pi4ioe5v6408.{Device}
use esp_components.Drivers.Pi4ioe5v6408.Ports.{
  remember, write_port, read_port, set_pin, get_pin, read_interrupt_status, test_pin,
}

-- The device is on the bus, and its shadow register is what the part's output register was last written with.
pub record IsShadow (part : ℕ) (d : Device) (log : Log) : Type 0 where
  pub on_bus : d.dev ≡ some part
  pub port : latest part 5 log ≡ some d.out

abbrev pub Shadows : ℕ → Option Device → Log → Type 0
Shadows part none log = ⊥
Shadows part (some d) log = IsShadow part d log

-- The calls on a handle, with their arguments.
pub data Call : Type 0 where
  write_call : ℕ → Call
  read_call : Bool → Call
  set_call : ℕ → Bool → Call
  get_call : ℕ → Bool → Call
  status_call : Bool → Call

-- What a call leaves.
abbrev left : Status × Option Device × Log → Option Device × Log
left o = (o.1, o.2)

abbrev pub run : Bus → Call → Option Device × Log → Option Device × Log
run bus (write_call value) (h, log) = left (write_port bus h value log)
run bus (read_call value) (h, log) = (h, (read_port bus h value log).1)
run bus (set_call pin high) (h, log) = left (set_pin bus h pin high log)
run bus (get_call pin high) (h, log) = (h, (get_pin bus h pin high log).1)
run bus (status_call changed) (h, log) = (h, (read_interrupt_status bus h changed log).1)

abbrev pub run_all : Bus → List Call → Option Device × Log → Option Device × Log
run_all bus [] s = s
run_all bus (c ∷ cs) s = run_all bus cs (run bus c s)

-- What has become of a pin, numbered `i`, and of the part, where a pin was set.
abbrev pub Sets : ℕ → Device → ℕ → Bool → ℕ → Log → Status × Option Device × Log → Type 0
Sets part d pin high i log (ok _, some d', log') =
    (bit i d'.out ≡ (if i == pin then (if high then 1 else 0) else bit i d.out))
    × (latest part 5 log' ≡ some d'.out)
Sets part d pin high i log (ok _, none, log') = ⊥
Sets part d pin high i log (failed e, h, log') =
    (h ≡ some d) × (latest part 5 log' ≡ latest part 5 log)

module _ (bus : Bus) (part : ℕ) (d : Device) (log : Log) (c : IsShadow part d log) where
  -- The answer to a write of the output register.
  abbrev answer : ℕ → Reply
  answer value = bus log (store part 5 value)

  abbrev written : ℕ → Reply → Status × Option Device × Log
  written value reply = remember value d (status_of reply, (store part 5 value, reply) ∷ log)

  write_port_lem : (value : ℕ) → write_port bus (some d) value log ≡ written value (answer value)
  unfolding write_port
  write_port_lem value = ap (λ (o : Option ℕ). remember value d (write8 bus o 5 value log)) c.on_bus

  written-Shadows :
      (value : ℕ) (reply : Reply) → Shadows part (written value reply).1 (written value reply).2
  written-Shadows value (nack x) = record { on_bus = c.on_bus; port = c.port }
  written-Shadows value (acked x) = record { on_bus = c.on_bus; port = rw (==_refl part) refl }

  write_port-Shadows :
      (value : ℕ)
      → Shadows part (write_port bus (some d) value log).1 (write_port bus (some d) value log).2
  write_port-Shadows value = rw (write_port_lem value) (written-Shadows value (answer value))

  set_pin-Shadows :
      (pin : ℕ) (high : Bool)
      → Shadows part (set_pin bus (some d) pin high log).1 (set_pin bus (some d) pin high log).2
  unfolding set_pin
  set_pin-Shadows pin high = elim (Bool-cases (ltb 7 pin)) [
    | inl q ↦ rw q c
    | inr q ↦ rw q (write_port-Shadows (with_pin d.out pin high))
  ]

  read8-Shadows : (o : Option ℕ) (reg : ℕ) → IsShadow part d (read8 bus o reg log).1
  read8-Shadows none reg = c
  read8-Shadows (some p) reg = record { on_bus = c.on_bus; port = c.port }

  read_port-Shadows : (value : Bool) → IsShadow part d (read_port bus (some d) value log).1
  unfolding read_port
  read_port-Shadows false = c
  read_port-Shadows true = read8-Shadows d.dev 15

  read_interrupt_status-Shadows :
      (changed : Bool) → IsShadow part d (read_interrupt_status bus (some d) changed log).1
  unfolding read_interrupt_status
  read_interrupt_status-Shadows false = c
  read_interrupt_status-Shadows true = read8-Shadows d.dev 19

  test_pin-Shadows :
      (pin : ℕ) (o : Result ℕ × Log) → IsShadow part d o.1 → IsShadow part d (test_pin pin o).1
  test_pin-Shadows pin (ok value, log') h = h
  test_pin-Shadows pin (failed e, log') h = h

  get_pin-Shadows : (pin : ℕ) (high : Bool) → IsShadow part d (get_pin bus (some d) pin high log).1
  unfolding get_pin
  get_pin-Shadows pin high = elim (Bool-cases (not high || ltb 7 pin)) [
    | inl q ↦ rw q c
    | inr q ↦ rw q (test_pin-Shadows pin (read_port bus (some d) true log) (read_port-Shadows true))
  ]

  written-Sets :
      (pin i : ℕ) (high : Bool) (reply : Reply)
      → pin < 8
      → i < 8
      → Sets part d pin high i log (written (with_pin d.out pin high) reply)
  written-Sets pin i high (nack x) q l = (refl, refl)
  written-Sets pin i high (acked x) q l =
      (bit-with_pin d.out pin i high q l, rw (==_refl part) refl)

run-Shadows :
    (bus : Bus) (part : ℕ) (call : Call) (h : Option Device) (log : Log)
    → Shadows part h log
    → Shadows part (run bus call (h, log)).0 (run bus call (h, log)).1
run-Shadows bus part call none log c = absurd c
run-Shadows bus part (write_call value) (some d) log c = write_port-Shadows bus part d log c value
run-Shadows bus part (read_call value) (some d) log c = read_port-Shadows bus part d log c value
run-Shadows bus part (set_call pin high) (some d) log c = set_pin-Shadows bus part d log c pin high
run-Shadows bus part (get_call pin high) (some d) log c = get_pin-Shadows bus part d log c pin high
run-Shadows bus part (status_call changed) (some d) log c =
    read_interrupt_status-Shadows bus part d log c changed

-- Whatever calls are made, with whatever arguments and answers of the bus, the shadow register stays what the
-- part's output register was last written with, if it is so at first.
run_all-Shadows :
    (bus : Bus) (part : ℕ) (calls : List Call) (h : Option Device) (log : Log)
    → Shadows part h log
    → Shadows part (run_all bus calls (h, log)).0 (run_all bus calls (h, log)).1
run_all-Shadows bus part [] h log c = c
run_all-Shadows bus part (call ∷ calls) h log c =
    run_all-Shadows bus part calls (run bus call (h, log)).0 (run bus call (h, log)).1
      (run-Shadows bus part call h log c)

-- Setting one of the eight pins to a level, by a device whose shadow register is right: if it succeeds, that
-- pin of the part's output register has the level, and the other pins have the levels they had; if it fails,
-- the device and the output register are what they were.
pub set_pin-Sets :
    (bus : Bus) (part : ℕ) (d : Device) (pin i : ℕ) (high : Bool) (log : Log)
    → IsShadow part d log
    → pin < 8
    → i < 8
    → Sets part d pin high i log (set_pin bus (some d) pin high log)
unfolding set_pin
set_pin-Sets bus part d pin i high log c q l =
    let valid : ltb 7 pin ≡ false = ground arith in
    let value = with_pin d.out pin high in
    rw (valid, write_port_lem bus part d log c value)
      (written-Sets bus part d log c pin i high (answer bus part d log c value) q l)
