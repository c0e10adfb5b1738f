-- ===== src/Drivers/Pi4ioe5v6408/Tests.antt =====
-- The driver of the PI4IOE5V6408 on a bus that always answers.
use esp_components.Base.{true, List, [], ◌∷◌, some, none, ◌≡◌, refl, arith}
use esp_components.Drivers.Bus.{Bus, Log, acked, ok, write_all}
use esp_components.Drivers.Pi4ioe5v6408.{Config, Device, configure, preset}
use esp_components.Drivers.Pi4ioe5v6408.Ports.{set_pin}
use esp_components.Drivers.Pi4ioe5v6408.Ports.Shadow.{
  IsShadow, Sets, Call, set_call, status_call, set_pin-Sets,
}

-- Every read gives the device id, and a reset bit below it.
abbrev agreeable : Bus
agreeable log request = acked 162

abbrev buttons : Config
buttons = record {
  dev = some 67;
  outputs = 15;
  initial = 5;
  pull_enable = 240;
  pull_up = 240;
  interrupt_on = 240;
}

abbrev panel : Device
panel = record { dev = some 67; cfg = buttons; out = 0 }

abbrev panel_log : Log
panel_log = (configure agreeable panel none []).log

configure_succeeds : (configure agreeable panel none []).status ≡ ok tt
unfolding configure write_all
configure_succeeds = refl

panel-IsShadow : IsShadow 67 (preset panel) panel_log
unfolding configure write_all
panel-IsShadow = record { on_bus = refl; port = refl }

abbrev two_calls : List Call
two_calls = set_call 1 true ∷ status_call true ∷ []

set_pin-Sets_example :
    Sets 67
      (preset panel)
      1
      true
      2
      panel_log
      (set_pin agreeable (some (preset panel)) 1 true panel_log)
set_pin-Sets_example =
    set_pin-Sets agreeable 67 (preset panel) 1 2 true panel_log panel-IsShadow (omega arith)
      (omega arith)
