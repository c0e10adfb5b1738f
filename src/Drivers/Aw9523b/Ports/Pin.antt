-- ===== src/Drivers/Aw9523b/Ports/Pin.antt =====
-- What setting a pin of the AW9523B changes.
use esp_components.Base.{
  ℕ, zero, suc, ◌-◌, ◌<◌, Bool, true, false, ◌&&◌, ◌||◌, Option, none, some, ltb, ◌==◌,
  if◌then◌else◌, ◌≡◌, refl, arith, ap, ◌∙◌, Bool-cases, inl, inr, sym, ==_refl,
}
use esp_components.Base.Bits.{bit}
use esp_components.Drivers.Bus.{ok, failed, Status, Reply, acked, nack, Log, Bus, latest}
use esp_components.Drivers.Pins.{with_pin, bit-with_pin}
use esp_components.Drivers.Aw9523b.{Device}
use esp_components.Drivers.Aw9523b.Ports.{out, with_out, reg_output, set_pin}
use esp_components.Drivers.Aw9523b.Ports.Calls.{IsCoherent, answer, written, write_port_lem}

out-with_out : (port value : ℕ) (d : Device) → out port (with_out port value d) ≡ value
out-with_out port value d = elim (Bool-cases (port == 0)) [ inl q ↦ rw q refl | inr q ↦ rw q refl ]

out-with_out_other :
    (port value : ℕ) (d : Device)
    → port < 2
    → out (1 - port) (with_out port value d) ≡ out (1 - port) d
out-with_out_other zero value d p = refl
out-with_out_other (suc zero) value d p = refl
out-with_out_other (suc (suc port)) value d p = absurd (omega arith)

-- What has become of a pin, numbered `i`, of the port whose pin was set, of the other port and of the part.
abbrev pub Changed : ℕ → Device → ℕ → ℕ → Bool → ℕ → Log → Status × Option Device × Log → Type 0
Changed part d port pin high i log (ok _, some d', log') =
    (bit i (out port d') ≡ (if i == pin then (if high then 1 else 0) else bit i (out port d)))
    × (out (1 - port) d' ≡ out (1 - port) d)
    × (latest part (reg_output port) log' ≡ some (out port d'))
Changed part d port pin high i log (ok _, none, log') = ⊥
Changed part d port pin high i log (failed e, h, log') =
    (h ≡ some d)
    × (latest part 2 log' ≡ latest part 2 log)
    × (latest part 3 log' ≡ latest part 3 log)

-- Setting one of the eight pins of a port to a level, by a coherent device: if it succeeds, that pin of the port's
-- output register has the level, and the port's other pins and the other port's levels are what they were; if
-- it fails, the device and both output registers are what they were.
set_pin-Changed :
    (bus : Bus) (part : ℕ) (d : Device) (port pin i : ℕ) (high : Bool) (log : Log)
    → IsCoherent part d log
    → port < 2
    → pin < 8
    → i < 8
    → Changed part d port pin high i log (set_pin bus (some d) port pin high log)
unfolding set_pin
set_pin-Changed bus part d port pin i high log c p q l =
    let valid : (ltb 1 port || ltb 7 pin) ≡ false = ground arith in
    let value = with_pin (out port d) pin high in
    rw (valid, write_port_lem bus part d log c port value (ground arith))
      (go (answer bus part d log c port value))
  where
    value : ℕ
    value = with_pin (out port d) pin high

    go :
        (reply : Reply)
        → Changed part d port pin high i log (written bus part d log c port value reply)
    go (nack x) = (refl, refl, refl)
    go (acked x) =
        let set = out-with_out port value d in
        let same : ((part == part) && (reg_output port == reg_output port)) ≡ true =
          ground (arith, ==_refl part, ==_refl (reg_output port)) in
        (
          ap (bit i) set ∙ bit-with_pin (out port d) pin i high q l,
          out-with_out_other port value d p,
          rw same (ap some (sym set)),
        )
