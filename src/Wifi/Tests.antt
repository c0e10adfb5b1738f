-- ===== src/Wifi/Tests.antt =====
-- The manager of wifi_manager on small examples.
use esp_components.Base.{
  ◌*◌, ◌≤◌, true, false, List, [], ◌∷◌, none, some, codes, ◌≡◌, refl, arith, inl, inr, same_bytes,
}
use esp_components.Base.Int.{pos, negsuc}
use esp_components.Wifi.State.{
  State, sta_disconnected, sta_connecting, Network, Config, Heard, Manager, Answers, Sizes,
}
use esp_components.Wifi.Reconnect.{
  choose, hear, hear_all, schedule_reconnect, delay_ms, at_least_min,
}
use esp_components.Wifi.Reconnect.Strongest.{Chosen, Strongest, nothing_yet, choose-Chosen}
use esp_components.Wifi.Reconnect.Backoff.{backoff, schedule_reconnect-backoff}
use esp_components.Wifi.Events.{Event, timeout_fires, reconnect_fires, disconnected, handle}
use esp_components.Wifi.Events.Watched.{watched, run, run-watched, is_armed}
use esp_components.Wifi.Events.Recovery.{CanConnect, watched-CanConnect}
use esp_components.Wifi.Control.{stop, add_known_network}
use esp_components.Wifi.Control.Stopping.{stop-timeout_fires}
use esp_components.Wifi.Control.Known.{Adds, add_known_network-Adds}

abbrev home : Network
home = record { ssid = codes "home"; password = codes "secret"; priority = 0 }

abbrev work : Network
work = record { ssid = codes "work"; password = codes "hidden"; priority = 9 }

abbrev nets : List Network
nets = home ∷ work ∷ []

abbrev heard : List Heard
heard =
    record { ssid = codes "work"; rssi = negsuc 79 }
    ∷ record { ssid = codes "other"; rssi = negsuc 29 }
    ∷ record { ssid = codes "home"; rssi = negsuc 59 }
    ∷ []

home_is_stronger : choose nets heard ≡ record { index = some 0; rssi = negsuc 59 }
unfolding choose hear_all hear same_bytes
home_is_stronger = refl

choose-Chosen_example :
    Chosen nets heard nothing_yet (choose nets heard)
    × Strongest nets (choose nets heard).rssi heard
choose-Chosen_example = choose-Chosen nets heard

abbrev settings : Config
settings = record {
  known_networks = nets;
  scan_interval_ms = 120000;
  connection_timeout_ms = 15000;
  reconnect_delay_ms = 2000;
  reachability_host = [];
  roaming = true;
}

abbrev sizes : Sizes
sizes = record { known_ssid = 33; known_password = 64; sta_ssid = 32; sta_password = 64 }

-- A station whose attempt to connect is in flight, the third since the link was up.
abbrev connecting : Manager
connecting = record {
  initialized = true;
  state = sta_connecting;
  wifi_cfg = settings;
  reachability_started = false;
  consecutive_reachability_count = 0;
  reachability_ping = false;
  reconnect_timer = none;
  connect_timeout_timer = some 15000000;
  ip_addr = [];
  scan_for_caller = false;
  reconnect_attempts = 3;
  link_losses = 0;
  roams = 0;
  last_disconnect_reason = 0;
  last_disconnect_rssi = pos 0;
  last_disconnect_us = 0;
  scanning = false;
  joining = true;
  target = none;
  posted = [];
}

abbrev refusing : Answers
refusing = record { scan_starts = false; records = none; config_set = false; connects = false }

abbrev bad_luck : List (Event × Answers)
bad_luck =
    (timeout_fires, refusing)
    ∷ (reconnect_fires, refusing)
    ∷ (disconnected 201 (negsuc 89) 7, refusing)
    ∷ []

run-watched_example : watched (run sizes bad_luck connecting) ≡ true
run-watched_example = run-watched sizes bad_luck connecting (tt, (tt, (tt, tt))) refl

watched-CanConnect_example : CanConnect sizes connecting
watched-CanConnect_example =
    watched-CanConnect sizes home (work ∷ []) connecting refl (inr (inl refl)) refl

schedule_reconnect-backoff_example :
    ((schedule_reconnect connecting).reconnect_timer ≡ some (backoff 2000 120000 3 * 1000))
    × (1000 ≤ delay_ms connecting)
    × (delay_ms connecting ≤ at_least_min 120000)
schedule_reconnect-backoff_example =
    schedule_reconnect-backoff connecting (omega arith, omega arith)

sixteen_seconds : (schedule_reconnect connecting).reconnect_timer ≡ some 16000000
unfolding schedule_reconnect delay_ms
sixteen_seconds = refl

stop-timeout_fires_example :
    ((stop connecting).1.state ≡ State.powered_off)
    × (is_armed (stop connecting).1.connect_timeout_timer ≡ true)
    × ((handle sizes refusing timeout_fires (stop connecting).1).state ≡ sta_disconnected)
    × (is_armed (handle sizes refusing timeout_fires (stop connecting).1).reconnect_timer ≡ true)
stop-timeout_fires_example = stop-timeout_fires sizes refusing connecting refl refl

add_known_network-Adds_example :
    Adds sizes
      (codes "work")
      (codes "changed")
      nets
      (codes "home")
      (add_known_network sizes (codes "work") (codes "changed") nets)
add_known_network-Adds_example =
    add_known_network-Adds sizes (codes "work") (codes "changed") (codes "home") nets (omega arith)
      (omega arith)
