-- ===== src/Wifi/Control/Stopping.antt =====
-- What `wifi_manager_stop` leaves behind.
use esp_components.Base.{true, ◌≡◌, arith}
use esp_components.Wifi.State.{Manager, Answers, Sizes, sta_disconnected, powered_off}
use esp_components.Wifi.Reconnect.{connect_timeout_cb, schedule_reconnect}
use esp_components.Wifi.Events.{handle, timeout_fires}
use esp_components.Wifi.Events.Watched.{is_armed}
use esp_components.Wifi.Control.{stop}

-- A manager that is stopped while the timeout of a connection is armed is powered off, but the timeout stays
-- armed; when it fires, the manager counts as a disconnected station again, and arms the retry that scans.
pub stop-timeout_fires :
    (sz : Sizes) (a : Answers) (w : Manager)
    → w.initialized ≡ true
    → is_armed w.connect_timeout_timer ≡ true
    → ((stop w).1.state ≡ powered_off)
      × (is_armed (stop w).1.connect_timeout_timer ≡ true)
      × ((handle sz a timeout_fires (stop w).1).state ≡ sta_disconnected)
      × (is_armed (handle sz a timeout_fires (stop w).1).reconnect_timer ≡ true)
unfolding stop handle connect_timeout_cb schedule_reconnect
stop-timeout_fires sz a w h k = ground arith
