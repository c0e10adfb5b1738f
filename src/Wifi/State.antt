-- ===== src/Wifi/State.antt =====
-- wifi_manager/src/wifi_manager.c: the module's state, with what the driver and the timers hold.
use esp_components.Base.{ℕ, Bool, List, Option, Bytes}
use esp_components.Base.Int.{ℤ}

-- `wifi_manager_state_t`
pub data State : Type 0 where
  sta_disconnected sta_connecting sta_connected ap_mode powered_off : State

-- An item of `known_networks`.
pub record Network : Type 0 where
  pub ssid : Bytes
  pub password : Bytes
  pub priority : ℕ

-- `wifi_manager_config_t`, as far as the manager reads it.
pub record Config : Type 0 where
  pub known_networks : List Network
  pub scan_interval_ms : ℕ
  pub connection_timeout_ms : ℕ
  pub reconnect_delay_ms : ℕ
  pub reachability_host : Bytes
  pub roaming : Bool

-- An access point that a scan has heard, `wifi_ap_record_t`.
pub record Heard : Type 0 where
  pub ssid : Bytes
  pub rssi : ℤ

-- What the station is told to join, by `esp_wifi_set_config`.
pub record Target : Type 0 where
  pub ssid : Bytes
  pub password : Bytes
  pub rm_enabled : Bool
  pub btm_enabled : Bool

-- The events of net_events that are posted.
pub data NetEvent : Type 0 where
  link_up : Bytes → NetEvent
  link_down ap_started ap_stopped : NetEvent

-- `wifi_manager_ctx_t`. A timer holds the delay for which it is armed, in microseconds. The last four
-- fields are no part of the struct: whether the driver has a scan in flight that does not block, whether
-- it is joining a network or has joined one, what it was told to join, and the events posted, last first.
pub record Manager : Type 0 where
  pub initialized : Bool
  pub state : State
  pub wifi_cfg : Config
  pub reachability_started : Bool
  pub consecutive_reachability_count : ℕ
  pub reachability_ping : Bool
  pub reconnect_timer : Option ℕ
  pub connect_timeout_timer : Option ℕ
  pub ip_addr : Bytes
  pub scan_for_caller : Bool
  pub reconnect_attempts : ℕ
  pub link_losses : ℕ
  pub roams : ℕ
  pub last_disconnect_reason : ℕ
  pub last_disconnect_rssi : ℤ
  pub last_disconnect_us : ℕ
  pub scanning : Bool
  pub joining : Bool
  pub target : Option Target
  pub posted : List NetEvent

-- How the driver answers the calls of one handler: whether a scan starts, the records of a scan, and whether the
-- configuration and the connection are accepted.
pub record Answers : Type 0 where
  pub scan_starts : Bool
  pub records : Option (List Heard)
  pub config_set : Bool
  pub connects : Bool

-- The sizes of the arrays `sta.ssid` and `sta.password` of the driver's `wifi_config_t`, and of those of a known
-- network, which the configuration's generator declares.
pub record Sizes : Type 0 where
  pub known_ssid : ℕ
  pub known_password : ℕ
  pub sta_ssid : ℕ
  pub sta_password : ℕ
