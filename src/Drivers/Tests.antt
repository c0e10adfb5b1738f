-- ===== src/Drivers/Tests.antt =====
-- The driver of the AW9523B on a bus that always answers.
use esp_components.Base.{true, List, [], ◌∷◌, none, some, ◌≡◌, refl}
use esp_components.Drivers.Bus.{Bus, Log, acked, ok, write_all}
use esp_components.Drivers.Bus.Guards.{Guarded}
use esp_components.Drivers.Aw9523b.{Config, Device, configure, levels, preset, set_device}
use esp_components.Drivers.Aw9523b.Setup.{is_direction, configure-Guarded}
use esp_components.Drivers.Aw9523b.Ports.{set_pin, write_port}
use esp_components.Drivers.Aw9523b.Ports.Calls.{IsCoherent, Coherent}
use esp_components.Drivers.Aw9523b.Ports.Shadow.{
  Call, set_call, device_call, run_all, run_all-Coherent,
}

-- Every read gives the id of the AW9523B.
abbrev agreeable : Bus
agreeable log request = acked 35

abbrev relay_board : Config
relay_board = record {
  dev = some 88;
  port0_inputs = 0;
  port1_inputs = 240;
  port0_initial = 170;
  port1_initial = 3;
  port0_push_pull = true;
}

abbrev relays : Device
relays = record { dev = some 88; cfg = relay_board; out0 = 0; out1 = 0 }

abbrev set_up_log : Log
set_up_log = (configure agreeable relays none []).log

configure-Guarded_example :
    Guarded 88 is_direction (levels relay_board) (configure agreeable relays none []).log
configure-Guarded_example = configure-Guarded agreeable 88 relays none [] refl tt

configure_succeeds : (configure agreeable relays none []).status ≡ ok tt
unfolding configure write_all
configure_succeeds = refl

relays-IsCoherent : IsCoherent 88 (preset relays) set_up_log
unfolding configure write_all
relays-IsCoherent = record { on_bus = refl; port0 = refl; port1 = refl }

abbrev two_calls : List Call
two_calls = set_call 0 2 true ∷ device_call (some 88) none ∷ []

run_all-Coherent_example :
    Coherent 88
      (run_all agreeable two_calls (some (preset relays), set_up_log)).0
      (run_all agreeable two_calls (some (preset relays), set_up_log)).1
unfolding set_device configure write_all set_pin write_port
run_all-Coherent_example =
    run_all-Coherent agreeable 88 two_calls (some (preset relays)) set_up_log
      (tt, ((refl, refl), tt)) relays-IsCoherent
