-- ===== src/Wifi/Control.antt =====
-- wifi_manager/src/wifi_manager.c: the calls that set the manager up, start and stop the radio, and edit the known
-- networks. A call of the driver under ESP_ERROR_CHECK succeeds, since the program does not go on if it fails.
pub mod Known
pub mod Stopping
use esp_components.Base.{
  ℕ, zero, suc, ◌+◌, ◌-◌, Bool, true, false, not, ◌&&◌, ◌||◌, List, [], ◌∷◌, ◌++◌, Option, none,
  some, ltb, leb, if◌then◌else◌, Bytes, same_bytes, length,
}
use esp_components.Wifi.State.{
  State, sta_disconnected, sta_connecting, sta_connected, ap_mode, powered_off, Network, Config,
  Manager, Sizes,
}
use esp_components.Wifi.Reconnect.{at_least_min, truncated}
use esp_components.Wifi.Events.{stop_reachability_check}

pub data Status : Type 0 where
  ok invalid_state no_mem not_found : Status

-- The three intervals, raised to their floors.
abbrev pub clamped : Config → Config
clamped c = record c {
  scan_interval_ms = at_least_min c.scan_interval_ms;
  connection_timeout_ms = at_least_min c.connection_timeout_ms;
  reconnect_delay_ms = at_least_min c.reconnect_delay_ms;
}

-- `wifi_manager_init`
unfoldable pub init : Config → Manager → Status × Manager
init c w =
    if w.initialized
    then (ok, w)
    else (ok, record w { wifi_cfg = clamped c; ip_addr = []; initialized = true })

-- `wifi_manager_start_station_mode`. Leaving the access point mode ends what the driver has in flight.
unfoldable pub start_station_mode : Bool → Manager → Status × Manager
start_station_mode driver_in_ap w =
    if not w.initialized
    then (invalid_state, w)
    else if driver_in_ap
    then (ok, record w { state = sta_disconnected; scanning = false; joining = false })
    else (ok, record w { state = sta_disconnected })

-- `wifi_manager_start_ap_mode`, by whether the driver is in station mode.
unfoldable pub start_ap_mode : Bool → Manager → Status × Manager
start_ap_mode driver_in_sta w =
    if not w.initialized
    then (invalid_state, w)
    else if driver_in_sta
    then (
      ok,
      record (stop_reachability_check w) { state = ap_mode; scanning = false; joining = false },
    )
    else (ok, record w { state = ap_mode })

-- `wifi_manager_stop`; the driver drops what it has in flight.
unfoldable pub stop : Manager → Status × Manager
stop w = if not w.initialized then (invalid_state, w) else (
  ok,
  record (stop_reachability_check w) { state = powered_off; scanning = false; joining = false },
)

-- `wifi_manager_deinit`, which deletes the timers.
unfoldable pub deinit : Manager → Status × Manager
unfolding stop
deinit w =
    let stopped = (stop w).1 in
    if not w.initialized then (ok, w) else (
      ok,
      record stopped { connect_timeout_timer = none; reconnect_timer = none; initialized = false },
    )

-- The loop over the known networks for one to update: none if there is none.
unfoldable pub update_password : Bytes → Bytes → List Network → Option (List Network)
update_password ssid password [] = none
update_password ssid password (n ∷ ns) =
    if same_bytes n.ssid ssid
    then some (record n { password = password } ∷ ns)
    else elim (update_password ssid password ns) [ none ↦ none | some ns' ↦ some (n ∷ ns') ]

-- `wifi_manager_add_known_network`, on the list of known networks.
unfoldable pub add_known_network : Sizes → Bytes → Bytes → List Network → Status × List Network
unfolding update_password
add_known_network sz ssid password nets =
    let kept = truncated sz.known_password password in
    elim (update_password ssid kept nets) [
      | some updated ↦ (ok, updated)
      | none ↦ if leb 4 (length nets) then (no_mem, nets) else (
        ok,
        nets ++ record { ssid = truncated sz.known_ssid ssid; password = kept; priority = 0 } ∷ [],
      )
    ]

-- The loop of `wifi_manager_remove_known_network`, with the shift of the networks behind.
unfoldable pub removed : Bytes → List Network → Option (List Network)
removed ssid [] = none
removed ssid (n ∷ ns) =
    if same_bytes n.ssid ssid
    then some ns
    else elim (removed ssid ns) [ none ↦ none | some ns' ↦ some (n ∷ ns') ]

-- `wifi_manager_remove_known_network`
unfoldable pub remove_known_network : Bytes → List Network → Status × List Network
unfolding removed
remove_known_network ssid nets = elim (removed ssid nets) [
  | none ↦ (not_found, nets)
  | some left ↦ (ok, left)
]
