-- ===== src/Drivers/Aw9523b/Ports/Calls.antt =====
-- Each call on a handle of the AW9523B keeps the shadow registers.
use esp_components.Base.{
  ℕ, Bool, true, false, not, ◌||◌, ◌∷◌, Option, none, some, ltb, ◌==◌, ◌≡◌, refl, ap, sym, ◌∙◌,
  Bool-cases, inl, inr, ==_refl,
}
use esp_components.Drivers.Bus.{
  invalid_arg, Result, ok, failed, Status, store, Reply, acked, nack, Log, Bus, write8, read8,
  latest, status_of,
}
use esp_components.Drivers.Pins.{with_pin}
use esp_components.Drivers.Aw9523b.{Device, Report, cleared, set_device}
use esp_components.Drivers.Aw9523b.Setup.{configure-IsConfigured}
use esp_components.Drivers.Aw9523b.Ports.{
  out, reg_output, reg_input, remember, write_port, read_port, set_pin, get_pin, test_pin,
  clear_second, discarded,
}

-- The device is on the bus, and its shadow registers are what the part's output registers were last written with.
pub record IsCoherent (part : ℕ) (d : Device) (log : Log) : Type 0 where
  pub on_bus : d.dev ≡ some part
  pub port0 : latest part 2 log ≡ some d.out0
  pub port1 : latest part 3 log ≡ some d.out1

abbrev pub Coherent : ℕ → Option Device → Log → Type 0
Coherent part none log = ⊥
Coherent part (some d) log = IsCoherent part d log

module _ (bus : Bus) (part : ℕ) (d : Device) (log : Log) (c : IsCoherent part d log) where
  -- The request of a write and the answer.
  abbrev pub answer : ℕ → ℕ → Reply
  answer port value = bus log (store part (reg_output port) value)

  abbrev pub written : ℕ → ℕ → Reply → Status × Option Device × Log
  written port value reply =
      remember port value d (status_of reply, (store part (reg_output port) value, reply) ∷ log)

  write_port_invalid :
      (port value : ℕ)
      → ltb 1 port ≡ true
      → write_port bus (some d) port value log ≡ (failed invalid_arg, some d, log)
  unfolding write_port
  write_port_invalid port value p = rw p refl

  pub write_port_lem :
      (port value : ℕ)
      → ltb 1 port ≡ false
      → write_port bus (some d) port value log ≡ written port value (answer port value)
  unfolding write_port
  write_port_lem port value p = rw p (
      ap (λ (o : Option ℕ). remember port value d (write8 bus o (reg_output port) value log))
        c.on_bus)

  written-Coherent :
      (port value : ℕ)
      → ltb 1 port ≡ false
      → (reply : Reply) → Coherent part (written port value reply).1 (written port value reply).2
  written-Coherent port value p (nack x) = record {
    on_bus = c.on_bus;
    port0 = c.port0;
    port1 = c.port1;
  }
  written-Coherent port value p (acked x) = elim (Bool-cases (port == 0)) [
    | inl q ↦ rw q (record {
      on_bus = c.on_bus;
      port0 = rw (==_refl part) refl;
      port1 = rw (==_refl part) c.port1;
    })
    | inr q ↦ rw q (record {
      on_bus = c.on_bus;
      port0 = rw (==_refl part) c.port0;
      port1 = rw (==_refl part) refl;
    })
  ]

  pub write_port-Coherent :
      (port value : ℕ)
      → Coherent part
          (write_port bus (some d) port value log).1
          (write_port bus (some d) port value log).2
  write_port-Coherent port value = elim (Bool-cases (ltb 1 port)) [
    | inl p ↦ rw (write_port_invalid port value p) c
    | inr p ↦ rw (write_port_lem port value p) (written-Coherent port value p (answer port value))
  ]

  pub set_pin-Coherent :
      (port pin : ℕ) (high : Bool)
      → Coherent part
          (set_pin bus (some d) port pin high log).1
          (set_pin bus (some d) port pin high log).2
  unfolding set_pin
  set_pin-Coherent port pin high = elim (Bool-cases (ltb 1 port || ltb 7 pin)) [
    | inl q ↦ rw q c
    | inr q ↦ rw q (write_port-Coherent port (with_pin (out port d) pin high))
  ]

  pub read8-Coherent : (o : Option ℕ) (reg : ℕ) → IsCoherent part d (read8 bus o reg log).1
  read8-Coherent none reg = c
  read8-Coherent (some p) reg = record { on_bus = c.on_bus; port0 = c.port0; port1 = c.port1 }

  pub read_port-Coherent :
      (port : ℕ) (value : Bool) → IsCoherent part d (read_port bus (some d) port value log).1
  unfolding read_port
  read_port-Coherent port value = elim (Bool-cases (not value || ltb 1 port)) [
    | inl q ↦ rw q c
    | inr q ↦ rw q (read8-Coherent d.dev (reg_input port))
  ]

  test_pin-Coherent :
      (pin : ℕ) (o : Result ℕ × Log) → IsCoherent part d o.1 → IsCoherent part d (test_pin pin o).1
  test_pin-Coherent pin (ok value, log') h = h
  test_pin-Coherent pin (failed e, log') h = h

  pub get_pin-Coherent :
      (port pin : ℕ) (high : Bool) → IsCoherent part d (get_pin bus (some d) port pin high log).1
  unfolding get_pin
  get_pin-Coherent port pin high = elim (Bool-cases (not high || ltb 7 pin)) [
    | inl q ↦ rw q c
    | inr q ↦ rw q (
        test_pin-Coherent pin (read_port bus (some d) port true log) (read_port-Coherent port true))
  ]

pub clear_second-Coherent :
    (bus : Bus) (part : ℕ) (d : Device) (o : Result ℕ × Log)
    → IsCoherent part d o.1
    → IsCoherent part d (clear_second bus d o).1
clear_second-Coherent bus part d (failed e, log) c = c
clear_second-Coherent bus part d (ok value, log) c =
    go (read8 bus d.dev 1 log) (read8-Coherent bus part d log c d.dev 1)
  where
    go : (o : Result ℕ × Log) → IsCoherent part d o.1 → IsCoherent part d (discarded o).1
    go (ok x, log') h = h
    go (failed e, log') h = h

pub device-Coherent :
    (bus : Bus) (part : ℕ) (d : Device) (report : Option Report) (log : Log)
    → (set_device bus (some d) (some part) report log).0 ≡ ok tt
    → Coherent part
        (set_device bus (some d) (some part) report log).1
        (set_device bus (some d) (some part) report log).3
unfolding set_device
device-Coherent bus part d report log h =
    let there : Device = record { dev = some part; cfg = d.cfg; out0 = d.out0; out1 = d.out1 } in
    let done = configure-IsConfigured bus part there (cleared report) log refl h in
    record {
      on_bus = ap (λ (x : Device). x.dev) done.device;
      port0 = done.registers.0 ∙ ap some (sym (ap (λ (x : Device). x.out0) done.device));
      port1 = done.registers.1.0 ∙ ap some (sym (ap (λ (x : Device). x.out1) done.device));
    }
