-- ===== src/Drivers/Pi4ioe5v6408/Ports.antt =====
-- pi4ioe5v6408/src/pi4ioe5v6408.c: the calls on a handle. A pointer for a result is told by whether it is not NULL, and the
-- result is in the status.
pub mod Shadow
use esp_components.Base.{ℕ, Bool, true, false, not, ◌||◌, Option, none, some, ltb, if◌then◌else◌}
use esp_components.Drivers.Bus.{
  Error, invalid_arg, invalid_state, no_mem, wrong_part, Result, ok, failed, Status, Log, Bus,
  write8, read8, write_all,
}
use esp_components.Drivers.Pins.{with_pin, pin_of}
use esp_components.Drivers.Pi4ioe5v6408.{Device}

-- The end of `pi4ioe5v6408_write_port`, behind its write.
abbrev pub remember : ℕ → Device → Status × Log → Status × Option Device × Log
remember value d (ok _, log) = (ok tt, some (record { dev = d.dev; cfg = d.cfg; out = value }), log)
remember value d (failed e, log) = (failed e, some d, log)

-- `pi4ioe5v6408_write_port`
unfoldable pub write_port : Bus → Option Device → ℕ → Log → Status × Option Device × Log
write_port bus none value log = (failed invalid_arg, none, log)
write_port bus (some d) value log = remember value d (write8 bus d.dev 5 value log)

-- `pi4ioe5v6408_read_port`
unfoldable pub read_port : Bus → Option Device → Bool → Log → Result ℕ × Log
read_port bus none value log = (failed invalid_arg, log)
read_port bus (some d) value log =
    if not value then (failed invalid_arg, log) else read8 bus d.dev 15 log

-- `pi4ioe5v6408_set_pin`
unfoldable pub set_pin : Bus → Option Device → ℕ → Bool → Log → Status × Option Device × Log
set_pin bus none pin high log = (failed invalid_arg, none, log)
set_pin bus (some d) pin high log =
    if ltb 7 pin
    then (failed invalid_arg, some d, log)
    else write_port bus (some d) (with_pin d.out pin high) log

-- The end of `pi4ioe5v6408_get_pin`.
abbrev pub test_pin : ℕ → Result ℕ × Log → Result Bool × Log
test_pin pin (ok value, log) = (ok (pin_of value pin), log)
test_pin pin (failed e, log) = (failed e, log)

-- `pi4ioe5v6408_get_pin`
unfoldable pub get_pin : Bus → Option Device → ℕ → Bool → Log → Result Bool × Log
get_pin bus none pin high log = (failed invalid_arg, log)
get_pin bus (some d) pin high log =
    if not high || ltb 7 pin
    then (failed invalid_arg, log)
    else test_pin pin (read_port bus (some d) true log)

-- `pi4ioe5v6408_read_interrupt_status`
unfoldable pub read_interrupt_status : Bus → Option Device → Bool → Log → Result ℕ × Log
read_interrupt_status bus none changed log = (failed invalid_arg, log)
read_interrupt_status bus (some d) changed log =
    if not changed then (failed invalid_arg, log) else read8 bus d.dev 19 log
