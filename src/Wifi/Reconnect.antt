-- ===== src/Wifi/Reconnect.antt =====
-- wifi_manager/src/wifi_manager.c: the retry timer, the scan that it starts, and the choice of a network among
-- what the scan has heard.
pub mod Backoff
pub mod Strongest
use esp_components.Base.{
  ℕ, zero, suc, ◌+◌, ◌-◌, ◌*◌, ◌%◌, ◌^◌, Bool, true, false, not, ◌&&◌, ◌||◌, List, [], ◌∷◌, Option,
  none, some, ltb, ◌==◌, if◌then◌else◌, same_bytes, length, get_elem?, take,
}
use esp_components.Base.Int.{ℤ, pos, negsuc, ltb_ℤ}
use esp_components.Wifi.State.{
  State, sta_disconnected, sta_connecting, sta_connected, ap_mode, powered_off, Network, Config,
  Heard, Target, Manager, Answers, Sizes,
}

-- `MIN_SCAN_INTERVAL_MS`, `MIN_CONNECTION_TIMEOUT_MS` and `MIN_RECONNECT_DELAY_MS`
abbrev pub min_ms : ℕ
min_ms = 1000

abbrev pub at_least_min : ℕ → ℕ
at_least_min ms = if ltb ms min_ms then min_ms else ms

-- The delay of `schedule_reconnect` in milliseconds, a `uint64_t`.
unfoldable pub delay_ms : Manager → ℕ
delay_ms w =
    let max_ms = at_least_min w.wifi_cfg.scan_interval_ms in
    let shift = if ltb w.reconnect_attempts 22 then w.reconnect_attempts else 22 in
    let delay = at_least_min w.wifi_cfg.reconnect_delay_ms * 2 ^ shift % 2 ^ 64 in
    if ltb max_ms delay then max_ms else delay

-- `schedule_reconnect`
unfoldable pub schedule_reconnect : Manager → Manager
schedule_reconnect w = record w { reconnect_timer = some (delay_ms w * 1000 % 2 ^ 64) }

-- The state of a station without a connection, with a retry to come.
unfoldable pub give_up : Manager → Manager
unfolding schedule_reconnect
give_up w = schedule_reconnect (record w { state = sta_disconnected })

-- `connect_timeout_cb`; `esp_wifi_disconnect` ends an attempt.
unfoldable pub connect_timeout_cb : Manager → Manager
unfolding schedule_reconnect
connect_timeout_cb w = schedule_reconnect (record w { state = sta_disconnected; joining = false })

-- The scan of `start_reconnect_scan`, and what follows it.
unfoldable pub scan_again : Bool → Manager → Manager
unfolding schedule_reconnect
scan_again starts w =
    let counted = record w {
      reconnect_attempts = (w.reconnect_attempts + 1) % 2 ^ 32;
      scanning = w.scanning || starts;
    } in
    if starts then counted else schedule_reconnect counted

abbrev pub scan_in : State → Bool → Manager → Manager
scan_in sta_connecting starts w = schedule_reconnect w
scan_in sta_disconnected starts w = scan_again starts w
scan_in sta_connected starts w = w
scan_in ap_mode starts w = w
scan_in powered_off starts w = w

-- `start_reconnect_scan`, and so `reconnect_timer_cb`
unfoldable pub start_reconnect_scan : Bool → Manager → Manager
unfolding scan_again schedule_reconnect
start_reconnect_scan starts w = scan_in w.state starts w

-- `best_index`, none for -1, and `best_rssi`.
pub record Best : Type 0 where
  pub index : Option ℕ
  pub rssi : ℤ

-- One access point against the known networks, from number `k` on.
unfoldable pub hear : ℕ → List Network → Heard → Best → Best
hear k [] ap b = b
hear k (n ∷ ns) ap b = hear (k + 1) ns ap (
    if same_bytes n.ssid ap.ssid && ltb_ℤ b.rssi ap.rssi
    then record { index = some k; rssi = ap.rssi }
    else b)

-- The loop of `connect_from_scan_results`.
unfoldable pub hear_all : List Network → List Heard → Best → Best
hear_all nets [] b = b
hear_all nets (ap ∷ aps) b = hear_all nets aps (hear 0 nets ap b)

-- The choice starts from no network at -100 dBm.
unfoldable pub choose : List Network → List Heard → Best
choose nets aps = hear_all nets aps (record { index = none; rssi = negsuc 99 })

-- `strncpy` into an array of `size` zero bytes of which the last is kept.
abbrev pub truncated : ℕ → List ℕ → List ℕ
truncated size = take (size - 1)

-- The connection of `connect_to_best_network` once a network is found.
unfoldable pub join : Sizes → Answers → Network → Manager → Manager
unfolding give_up
join sz a n w =
    let connecting = record w { state = sta_connecting } in
    let told = record connecting {
      target = some (record {
        ssid = truncated sz.sta_ssid n.ssid;
        password = truncated sz.sta_password n.password;
        rm_enabled = w.wifi_cfg.roaming;
        btm_enabled = w.wifi_cfg.roaming;
      });
    } in
    if not a.config_set
    then give_up connecting
    else if not a.connects
    then give_up told
    else record told {
      joining = true;
      connect_timeout_timer = some (w.wifi_cfg.connection_timeout_ms * 1000 % 2 ^ 64);
    }

-- `connect_to_best_network`. An index past the networks is not met.
unfoldable pub connect_to_best_network : Sizes → Answers → ℕ → Manager → Manager
unfolding give_up join
connect_to_best_network sz a index w =
    if length w.wifi_cfg.known_networks == 0
    then give_up w
    else elim (get_elem? w.wifi_cfg.known_networks index) [ none ↦ w | some n ↦ join sz a n w ]

-- `connect_from_scan_results`; the driver gives at most 16 records.
unfoldable pub connect_from_scan_results : Sizes → Answers → Manager → Manager
unfolding schedule_reconnect connect_to_best_network
connect_from_scan_results sz a w = elim a.records [
  | none ↦ schedule_reconnect w
  | some aps ↦ elim (choose w.wifi_cfg.known_networks (take 16 aps)).index [
    | none ↦ schedule_reconnect w
    | some index ↦ connect_to_best_network sz a index w
  ]
]
