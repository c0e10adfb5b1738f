-- ===== src/Wifi/Events.antt =====
-- wifi_manager/src/wifi_manager.c: the event handler, the timers' callbacks and the calls that scan, as the
-- events of one machine.
pub mod Watched
pub mod Recovery
use esp_components.Base.{
  ℕ, ◌+◌, ◌*◌, ◌%◌, ◌^◌, Bool, true, false, not, ◌&&◌, ◌||◌, List, [], ◌∷◌, Option, none, some,
  ◌==◌, if◌then◌else◌, Bytes, length,
}
use esp_components.Base.Int.{ℤ}
use esp_components.Wifi.State.{
  State, sta_disconnected, sta_connecting, sta_connected, ap_mode, powered_off, NetEvent, link_up,
  link_down, ap_started, ap_stopped, Manager, Answers, Sizes,
}
use esp_components.Wifi.Reconnect.{
  schedule_reconnect, give_up, connect_timeout_cb, start_reconnect_scan, connect_from_scan_results,
}

abbrev pub is_connected : State → Bool
is_connected sta_connected = true
is_connected _ = false

abbrev pub is_disconnected : State → Bool
is_disconnected sta_disconnected = true
is_disconnected _ = false

-- `net_events_post`
abbrev pub post : NetEvent → Manager → Manager
post e w = record w { posted = e ∷ w.posted }

-- `esp_timer_stop` and `esp_timer_start_once` of the connection's timer.
abbrev pub arm_timeout : Manager → Manager
arm_timeout w = record w {
  connect_timeout_timer = some (w.wifi_cfg.connection_timeout_ms * 1000 % 2 ^ 64);
}

-- `stop_reachability_check`
abbrev pub stop_reachability_check : Manager → Manager
stop_reachability_check w =
    if not w.reachability_started
    then w
    else record w { reachability_started = false; reachability_ping = false }

-- `start_reachability_check`; its task is an event of its own.
abbrev pub start_reachability_check : Manager → Manager
start_reachability_check w =
    if length w.wifi_cfg.reachability_host == 0
    then w
    else record w { consecutive_reachability_count = 0 }

-- `reachability_task`, by whether the host is found and a session is created.
unfoldable pub reachability_task : Bool → Bool → Manager → Manager
reachability_task found created w =
    if not found
    then w
    else if not (is_connected w.state)
    then w
    else if not created
    then record w { reachability_ping = false }
    else record w { reachability_ping = true; reachability_started = true }

-- `wifi_manager_record_reachability_result`
unfoldable pub record_reachability_result : Bool → Manager → Manager
record_reachability_result is_reachable w =
    if is_reachable then record w { consecutive_reachability_count = 0 } else record w {
      consecutive_reachability_count = (w.consecutive_reachability_count + 1) % 2 ^ 32;
    }

-- `WIFI_REASON_BSS_TRANSITION_DISASSOC` and `WIFI_REASON_ROAMING`, the reasons 12 and 207.
abbrev pub is_roaming : ℕ → Bool
is_roaming reason = reason == 12 || reason == 207

-- The part of the handler that the lock guards.
unfoldable pub note_disconnect : ℕ → ℤ → ℕ → Manager → Manager
note_disconnect reason rssi us w =
    let noted = record w {
      last_disconnect_reason = reason;
      last_disconnect_rssi = rssi;
      last_disconnect_us = us;
    } in
    if not (is_connected w.state)
    then noted
    else if is_roaming reason
    then record noted { roams = (w.roams + 1) % 2 ^ 32 }
    else record noted { link_losses = (w.link_losses + 1) % 2 ^ 32 }

-- A link that is gone: the state, the timers and the event.
unfoldable pub lose_link : Manager → Manager
unfolding give_up
lose_link w =
    post link_down (
      give_up
        (record (stop_reachability_check w) { connect_timeout_timer = none; joining = false }))

-- `WIFI_EVENT_STA_DISCONNECTED`; with no event data the reason is 0. In a roam the driver goes on joining.
unfoldable pub on_disconnected : ℕ → ℤ → ℕ → Manager → Manager
unfolding note_disconnect lose_link
on_disconnected reason rssi us w =
    let noted = note_disconnect reason rssi us w in
    if is_roaming reason && is_connected w.state
    then arm_timeout (record noted { state = sta_connecting })
    else lose_link noted

-- `WIFI_EVENT_SCAN_DONE`, the end of a scan that did not block.
unfoldable pub on_scan_done : Sizes → Answers → Manager → Manager
unfolding connect_from_scan_results
on_scan_done sz a w =
    let done = record w { scanning = false } in
    if w.scan_for_caller
    then done
    else if is_disconnected w.state
    then connect_from_scan_results sz a done
    else done

-- `IP_EVENT_STA_GOT_IP`
unfoldable pub on_got_ip : Bytes → Manager → Manager
on_got_ip ip w =
    let up = record w { ip_addr = ip; state = sta_connected; reconnect_attempts = 0 } in
    start_reachability_check
      (record (post (link_up ip) up) { connect_timeout_timer = none; reconnect_timer = none })

-- `IP_EVENT_STA_LOST_IP`
unfoldable pub on_lost_ip : Manager → Manager
unfolding give_up
on_lost_ip w = post link_down (give_up (stop_reachability_check (record w { ip_addr = [] })))

-- `wifi_manager_scan_and_connect` of an initialized manager that is not connected.
unfoldable pub scan_and_connect : Bool → Manager → Manager
unfolding schedule_reconnect
scan_and_connect starts w =
    if not w.initialized || is_connected w.state
    then w
    else if starts
    then record w { scanning = true }
    else schedule_reconnect w

abbrev pub can_scan : State → Bool
can_scan ap_mode = false
can_scan powered_off = false
can_scan _ = true

-- `wifi_manager_scan` up to the scan for which it blocks, of a place for the records.
unfoldable pub caller_scan_begins : Manager → Manager
caller_scan_begins w =
    if not w.initialized || not (can_scan w.state) || w.scan_for_caller
    then w
    else record w { scan_for_caller = true }

-- `wifi_manager_scan` from the end of its scan on.
unfoldable pub caller_scan_ends : Manager → Manager
unfolding schedule_reconnect
caller_scan_ends w =
    let free = record w { scan_for_caller = false } in
    if not w.scan_for_caller
    then w
    else if is_disconnected w.state
    then schedule_reconnect free
    else free

-- What can happen to a manager whose radio is on.
pub data Event : Type 0 where
  started associated scan_done lost_ip ap_starts ap_stops : Event
  disconnected : ℕ → ℤ → ℕ → Event
  got_ip : Bytes → Event
  reconnect_fires timeout_fires : Event
  reachability_runs : Bool → Bool → Event
  ping : Bool → Event
  scan_called caller_scan_called caller_scan_returns disconnect_forced : Event

-- The handler of an event. A timer is disarmed before its callback runs.
unfoldable pub handle : Sizes → Answers → Event → Manager → Manager
unfolding on_disconnected on_scan_done on_got_ip on_lost_ip connect_timeout_cb start_reconnect_scan
    scan_and_connect reachability_task record_reachability_result caller_scan_begins
    caller_scan_ends
handle sz a started w = record w { state = sta_disconnected }
handle sz a associated w = arm_timeout w
handle sz a (disconnected reason rssi us) w = on_disconnected reason rssi us w
handle sz a scan_done w = on_scan_done sz a w
handle sz a (got_ip ip) w = on_got_ip ip w
handle sz a lost_ip w = on_lost_ip w
handle sz a ap_starts w = post ap_started (record w { state = ap_mode })
handle sz a ap_stops w = post ap_stopped w
handle sz a reconnect_fires w =
    start_reconnect_scan a.scan_starts (record w { reconnect_timer = none })
handle sz a timeout_fires w = connect_timeout_cb (record w { connect_timeout_timer = none })
handle sz a (reachability_runs found created) w = reachability_task found created w
handle sz a (ping is_reachable) w = record_reachability_result is_reachable w
handle sz a scan_called w = scan_and_connect a.scan_starts w
handle sz a caller_scan_called w = caller_scan_begins w
handle sz a caller_scan_returns w = caller_scan_ends w
handle sz a disconnect_forced w = record w { joining = false }
