-- ===== src/Drivers/Aw9523b/Ports/Shadow.antt =====
-- The shadow registers of the AW9523B's driver and the output registers of the part, over any sequence of calls.
use esp_components.Base.{ℕ, Bool, List, [], ◌∷◌, Option, none, some, ◌≡◌, sym, subst}
use esp_components.Drivers.Bus.{ok, Status, Log, Bus, read8}
use esp_components.Drivers.Aw9523b.{Device, Report, set_device}
use esp_components.Drivers.Aw9523b.Ports.{write_port, read_port, set_pin, get_pin, clear_interrupt}
use esp_components.Drivers.Aw9523b.Ports.Calls.{
  Coherent, write_port-Coherent, set_pin-Coherent, read_port-Coherent, get_pin-Coherent,
  read8-Coherent, clear_second-Coherent, device-Coherent,
}

-- The calls on a handle, with their arguments.
pub data Call : Type 0 where
  write_call : ℕ → ℕ → Call
  read_call : ℕ → Bool → Call
  set_call : ℕ → ℕ → Bool → Call
  get_call : ℕ → ℕ → Bool → Call
  clear_call : Call
  device_call : Option ℕ → Option Report → Call

-- What a call leaves.
abbrev moved : Status × Option Device × Option Report × Log → Option Device × Log
moved o = (o.1, o.3)

abbrev left : Status × Option Device × Log → Option Device × Log
left o = (o.1, o.2)

abbrev pub run : Bus → Call → Option Device × Log → Option Device × Log
run bus (write_call port value) (h, log) = left (write_port bus h port value log)
run bus (read_call port value) (h, log) = (h, (read_port bus h port value log).1)
run bus (set_call port pin high) (h, log) = left (set_pin bus h port pin high log)
run bus (get_call port pin high) (h, log) = (h, (get_pin bus h port pin high log).1)
run bus clear_call (h, log) = (h, (clear_interrupt bus h log).1)
run bus (device_call dev report) (h, log) = moved (set_device bus h dev report log)

abbrev pub run_all : Bus → List Call → Option Device × Log → Option Device × Log
run_all bus [] s = s
run_all bus (c ∷ cs) s = run_all bus cs (run bus c s)

-- The handle is only given the device of this part, and with success. One that fails may leave the shadow registers with
-- the initial levels while the part has others.
abbrev pub Allowed : Bus → ℕ → Call → Option Device × Log → Type 0
Allowed bus part (device_call dev report) (h, log) =
    (dev ≡ some part) × ((set_device bus h dev report log).0 ≡ ok tt)
Allowed bus part _ s = Unit

abbrev pub AllAllowed : Bus → ℕ → List Call → Option Device × Log → Type 0
AllAllowed bus part [] s = Unit
AllAllowed bus part (c ∷ cs) s = Allowed bus part c s × AllAllowed bus part cs (run bus c s)

run-Coherent :
    (bus : Bus) (part : ℕ) (call : Call) (h : Option Device) (log : Log)
    → Allowed bus part call (h, log)
    → Coherent part h log
    → Coherent part (run bus call (h, log)).0 (run bus call (h, log)).1
unfolding clear_interrupt
run-Coherent bus part call none log a c = absurd c
run-Coherent bus part (write_call port value) (some d) log a c =
    write_port-Coherent bus part d log c port value
run-Coherent bus part (read_call port value) (some d) log a c =
    read_port-Coherent bus part d log c port value
run-Coherent bus part (set_call port pin high) (some d) log a c =
    set_pin-Coherent bus part d log c port pin high
run-Coherent bus part (get_call port pin high) (some d) log a c =
    get_pin-Coherent bus part d log c port pin high
run-Coherent bus part clear_call (some d) log a c =
    clear_second-Coherent bus part d (read8 bus d.dev 0 log)
      (read8-Coherent bus part d log c d.dev 0)
run-Coherent bus part (device_call dev report) (some d) log (e, h) c =
    subst
      (λ (o : Option ℕ).
        (set_device bus (some d) o report log).0 ≡ ok tt
        → Coherent part (set_device bus (some d) o report log).1
            (set_device bus (some d) o report log).3)
      (sym e) (device-Coherent bus part d report log) h

-- Over any sequence of aw9523b_write_port, aw9523b_read_port, aw9523b_set_pin, aw9523b_get_pin and
-- aw9523b_clear_interrupt, with whatever arguments and answers of the bus, and of aw9523b_set_device with the part's
-- device where that succeeds, the shadow registers stay what the part's output registers were last written with, if they
-- are so at first.
pub run_all-Coherent :
    (bus : Bus) (part : ℕ) (calls : List Call) (h : Option Device) (log : Log)
    → AllAllowed bus part calls (h, log)
    → Coherent part h log
    → Coherent part (run_all bus calls (h, log)).0 (run_all bus calls (h, log)).1
run_all-Coherent bus part [] h log a c = c
run_all-Coherent bus part (call ∷ calls) h log (a, allowed) c =
    run_all-Coherent bus part calls (run bus call (h, log)).0 (run bus call (h, log)).1 allowed
      (run-Coherent bus part call h log a c)
