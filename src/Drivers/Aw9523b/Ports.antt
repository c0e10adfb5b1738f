-- ===== src/Drivers/Aw9523b/Ports.antt =====
-- aw9523b/src/aw9523b.c: the calls on a handle. A pointer for a result is told by whether it is not NULL, and the
-- result is in the status.
pub mod Shadow
pub mod Calls
pub mod Pin
use esp_components.Base.{
  ℕ, ◌*◌, ◌^◌, Bool, true, false, not, ◌&&◌, ◌||◌, List, [], ◌∷◌, Option, none, some, ltb, ◌==◌,
  if◌then◌else◌,
}
use esp_components.Drivers.Bus.{
  Error, invalid_arg, invalid_state, no_mem, wrong_part, Result, ok, failed, Status, Log, Bus,
  write8, read8, write_all,
}
use esp_components.Drivers.Pins.{with_pin, pin_of}
use esp_components.Drivers.Aw9523b.{Device}

-- `handle->out[port]`
abbrev pub out : ℕ → Device → ℕ
out port d = if port == 0 then d.out0 else d.out1

abbrev pub with_out : ℕ → ℕ → Device → Device
with_out port value d =
    if port == 0
    then record { dev = d.dev; cfg = d.cfg; out0 = value; out1 = d.out1 }
    else record { dev = d.dev; cfg = d.cfg; out0 = d.out0; out1 = value }

abbrev pub reg_output : ℕ → ℕ
reg_output port = if port == 0 then 2 else 3

abbrev pub reg_input : ℕ → ℕ
reg_input port = if port == 0 then 0 else 1

-- The end of `aw9523b_write_port`, behind its write.
abbrev pub remember : ℕ → ℕ → Device → Status × Log → Status × Option Device × Log
remember port value d (ok _, log) = (ok tt, some (with_out port value d), log)
remember port value d (failed e, log) = (failed e, some d, log)

-- `aw9523b_write_port`
unfoldable pub write_port : Bus → Option Device → ℕ → ℕ → Log → Status × Option Device × Log
write_port bus none port value log = (failed invalid_arg, none, log)
write_port bus (some d) port value log =
    if ltb 1 port
    then (failed invalid_arg, some d, log)
    else remember port value d (write8 bus d.dev (reg_output port) value log)

-- `aw9523b_read_port`
unfoldable pub read_port : Bus → Option Device → ℕ → Bool → Log → Result ℕ × Log
read_port bus none port value log = (failed invalid_arg, log)
read_port bus (some d) port value log =
    if not value || ltb 1 port
    then (failed invalid_arg, log)
    else read8 bus d.dev (reg_input port) log

-- `aw9523b_set_pin`
unfoldable pub set_pin : Bus → Option Device → ℕ → ℕ → Bool → Log → Status × Option Device × Log
set_pin bus none port pin high log = (failed invalid_arg, none, log)
set_pin bus (some d) port pin high log =
    if ltb 1 port || ltb 7 pin
    then (failed invalid_arg, some d, log)
    else write_port bus (some d) port (with_pin (out port d) pin high) log

-- The end of `aw9523b_get_pin`.
abbrev pub test_pin : ℕ → Result ℕ × Log → Result Bool × Log
test_pin pin (ok value, log) = (ok (pin_of value pin), log)
test_pin pin (failed e, log) = (failed e, log)

-- `aw9523b_get_pin`
unfoldable pub get_pin : Bus → Option Device → ℕ → ℕ → Bool → Log → Result Bool × Log
get_pin bus none port pin high log = (failed invalid_arg, log)
get_pin bus (some d) port pin high log =
    if not high || ltb 7 pin
    then (failed invalid_arg, log)
    else test_pin pin (read_port bus (some d) port true log)

-- A read whose value is not used.
abbrev pub discarded : Result ℕ × Log → Status × Log
discarded (ok value, log) = (ok tt, log)
discarded (failed e, log) = (failed e, log)

-- The second read of `aw9523b_clear_interrupt`.
abbrev pub clear_second : Bus → Device → Result ℕ × Log → Status × Log
clear_second bus d (failed e, log) = (failed e, log)
clear_second bus d (ok value, log) = discarded (read8 bus d.dev 1 log)

-- `aw9523b_clear_interrupt`
unfoldable pub clear_interrupt : Bus → Option Device → Log → Status × Log
clear_interrupt bus none log = (failed invalid_arg, log)
clear_interrupt bus (some d) log = clear_second bus d (read8 bus d.dev 0 log)
