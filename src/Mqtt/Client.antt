-- ===== src/Mqtt/Client.antt =====
-- mqtt_manager/src/mqtt_manager.c: the client's session, the link under it, and the table of subscriptions. A
-- callback and its context are numbers. `topic_max` is MAX_TOPIC.
pub mod Session
pub mod Routing
pub mod Starting
pub mod Early
mod Tests
use esp_components.Base.{
  ℕ, ◌+◌, Bool, true, false, not, ◌&&◌, ◌||◌, List, [], ◌∷◌, ◌++◌, map, Option, none, some, ◌==◌,
  if◌then◌else◌, Bytes, length,
}
use esp_components.Base.Int.{ℤ, pos, negsuc, ltb_ℤ}
use esp_components.Mqtt.Topic.{topic_matches}
use esp_components.Mqtt.Building.{Built, built, full, topic_build, topic_needs_device}

pub data Status : Type 0 where
  ok invalid_arg invalid_state no_mem topic_too_long fail : Status
  client_error : ℕ → Status

-- `subscription_t`
pub record Subscription : Type 0 where
  pub filter : Bytes
  pub qos : ℤ
  pub cb : ℕ
  pub ctx : ℕ

-- `mqtt_manager_config_t`, as far as the manager itself reads it.
pub record Config : Type 0 where
  pub uri : Bytes
  pub topic_prefix : Bytes
  pub lwt_suffix : Bytes
  pub lwt_online : Bytes

-- The module's state: `client` and `handling` tell whether there is a client, and whether the handler of network
-- events is registered. The last two fields are the client's: the filters it was told to subscribe to in the
-- present session, each with whether it took it, and the messages it was told to publish, last first.
pub record Manager : Type 0 where
  pub client : Bool
  pub connected : Bool
  pub running : Bool
  pub link_up : Bool
  pub handling : Bool
  pub cfg : Config
  pub prefix : Bytes
  pub lwt_topic : Bytes
  pub subs : List Subscription
  pub asked : List (Bytes × Bool)
  pub published : List (Bytes × Bytes)

-- How the client library answers: whether a client is made, the codes of the two registrations, 0 for ESP_OK, whether
-- the client starts, and whether a message is taken.
pub record Answers : Type 0 where
  pub made : Bool
  pub events_registered : ℕ
  pub net_registered : ℕ
  pub starts : Bool
  pub takes : Bool

abbrev pub topic_max : ℕ
topic_max = 160

-- `mqtt_manager_is_connected`
abbrev pub is_connected : Manager → Bool
is_connected m = m.connected && m.link_up && m.client

-- `full_topic`: what is in the buffer, and whether it is the whole topic.
unfoldable pub full_topic : Bytes → Bytes → Built
full_topic prefix suffix = topic_build topic_max (some prefix) none (some suffix)

abbrev pub text : Built → Bytes
text (built t) = t
text (full t) = t

abbrev pub is_whole : Built → Bool
is_whole (built t) = true
is_whole (full t) = false

-- `resubscribe_all`, from an index of the table on. Where `esp_mqtt_client_subscribe` refuses a filter, `msg_id < 0`, that
-- is logged, and the loop goes on.
unfoldable pub resubscribe_all : (ℕ → Bool) → ℕ → List Subscription → List (Bytes × Bool)
resubscribe_all takes i [] = []
resubscribe_all takes i (s ∷ ss) = (s.filter, takes i) ∷ resubscribe_all takes (i + 1) ss

-- `publish_birth`, `resubscribe_all` and `MQTT_EVENT_CONNECTED`. A new session holds no subscription.
unfoldable pub on_session : (ℕ → Bool) → Manager → Manager
unfolding resubscribe_all
on_session takes m =
    let session = record m { connected = true; asked = resubscribe_all takes 0 m.subs } in
    if length m.lwt_topic == 0
    then session
    else record session { published = (m.lwt_topic, m.cfg.lwt_online) ∷ m.published }

-- `MQTT_EVENT_DISCONNECTED`
unfoldable pub on_session_lost : Manager → Manager
on_session_lost m = record m { connected = false; asked = [] }

-- `dispatch`: the subscriptions whose callbacks are called, in this order.
unfoldable pub dispatch : Bytes → List Subscription → List Subscription
dispatch topic [] = []
dispatch topic (s ∷ ss) =
    let rest = dispatch topic ss in
    if topic_matches (some s.filter) (some topic) then s ∷ rest else rest

-- `esp_mqtt_client_start` and what is done about it.
abbrev pub start_client : Bool → Manager → Manager
start_client starts m = if starts then record m { running = true } else m

-- `on_net_event`
unfoldable pub on_link_up : Bool → Manager → Manager
on_link_up starts m =
    let up = record m { link_up = true } in
    if m.client && not m.running then start_client starts up else up

unfoldable pub on_link_down : Manager → Manager
on_link_down m = record m { link_up = false }

-- `mqtt_manager_start` from the creation of the client on.
unfoldable pub open_client : Answers → Manager → Status × Manager
open_client a m =
    if not a.made
    then (fail, m)
    else if not (a.events_registered == 0)
    then (client_error a.events_registered, m)
    else if not (a.net_registered == 0)
    then (client_error a.net_registered, m)
    else if m.link_up
    then (ok, start_client a.starts (record m { client = true; handling = true }))
    else (ok, record m { client = true; handling = true })

-- `mqtt_manager_start` from the will's topic on.
unfoldable pub set_will : Answers → Manager → Status × Manager
unfolding open_client full_topic
set_will a m =
    let will = full_topic m.prefix m.cfg.lwt_suffix in
    if length m.cfg.lwt_suffix == 0
    then open_client a (record m { lwt_topic = [] })
    else if is_whole will
    then open_client a (record m { lwt_topic = text will })
    else (topic_too_long, record m { lwt_topic = text will })

abbrev pub is_given : Option Bytes → Bool
is_given none = false
is_given (some name) = not (length name == 0)

-- `mqtt_manager_start` from `s_cfg = *cfg` on.
unfoldable pub configure : Config → Option Bytes → Answers → Manager → Status × Manager
unfolding set_will
configure cfg device_name a m =
    let prefix = topic_build topic_max (some cfg.topic_prefix) device_name none in
    let configured = record m { cfg = cfg; prefix = text prefix } in
    if is_whole prefix then set_will a configured else (topic_too_long, configured)

-- `mqtt_manager_start`
unfoldable pub start : Option Config → Option Bytes → Answers → Manager → Status × Manager
unfolding configure
start none device_name a m = (invalid_arg, m)
start (some cfg) device_name a m =
    if length cfg.uri == 0
    then (invalid_arg, m)
    else if m.client
    then (invalid_state, m)
    else if topic_needs_device (some cfg.topic_prefix) && not (is_given device_name)
    then (invalid_arg, m)
    else configure cfg device_name a m

-- `mqtt_manager_stop`
unfoldable pub stop : Manager → Status × Manager
stop m = if not m.client then (invalid_state, m) else (
  ok,
  record m { handling = false; connected = false; running = false; client = false; asked = [] },
)

-- `mqtt_manager_subscribe` to a suffix that is not NULL, with a callback that is not; `capacity` is
-- CONFIG_MQTT_MANAGER_MAX_SUBSCRIPTIONS, and `taken` what `esp_mqtt_client_subscribe` answers, which is not looked at.
unfoldable pub subscribe : ℕ → Bytes → ℤ → ℕ → ℕ → Bool → Manager → Status × Manager
unfolding full_topic
subscribe capacity suffix qos cb ctx taken m =
    let topic = full_topic m.prefix suffix in
    let s : Subscription = record { filter = text topic; qos = qos; cb = cb; ctx = ctx } in
    let noted = record m { subs = m.subs ++ s ∷ [] } in
    if ltb_ℤ qos (pos 0) || ltb_ℤ (pos 2) qos
    then (invalid_arg, m)
    else if length m.subs == capacity
    then (no_mem, m)
    else if not (is_whole topic)
    then (topic_too_long, m)
    else if is_connected m
    then (ok, record noted { asked = m.asked ++ (text topic, taken) ∷ [] })
    else (ok, noted)

-- `publish_common` to a suffix that is not NULL; whether the message is queued does not matter here.
unfoldable pub publish : Bytes → Bytes → Answers → Manager → Status × Manager
unfolding full_topic
publish suffix payload a m =
    let topic = full_topic m.prefix suffix in
    if not (is_connected m)
    then (invalid_state, m)
    else if not (is_whole topic)
    then (topic_too_long, m)
    else if a.takes
    then (ok, record m { published = (text topic, payload) ∷ m.published })
    else (fail, m)

-- What the manager hears of, and what is called: the events of the client and of the link, the latter with whether
-- the client starts, and the manager's own operations. With the first event and with a subscription stands whether the
-- client takes the filters.
pub data Event : Type 0 where
  session_lost link_goes stopped : Event
  session_begins : (ℕ → Bool) → Event
  link_comes : Bool → Event
  started : Option Config → Option Bytes → Answers → Event
  subscribed : Bytes → ℤ → ℕ → ℕ → Bool → Event
  sent : Bytes → Bytes → Answers → Event

-- `mqtt_event_handler`, `on_net_event` and the calls. An event of the network reaches a registered handler only.
unfoldable pub handle : ℕ → Event → Manager → Manager
handle capacity (session_begins takes) m = on_session takes m
handle capacity session_lost m = on_session_lost m
handle capacity (link_comes starts) m = if m.handling then on_link_up starts m else m
handle capacity link_goes m = if m.handling then on_link_down m else m
handle capacity (started cfg device_name a) m = (start cfg device_name a m).1
handle capacity stopped m = (stop m).1
handle capacity (subscribed suffix qos cb ctx taken) m =
    (subscribe capacity suffix qos cb ctx taken m).1
handle capacity (sent suffix payload a) m = (publish suffix payload a m).1

abbrev pub run : ℕ → List Event → Manager → Manager
run capacity [] m = m
run capacity (e ∷ es) m = run capacity es (handle capacity e m)
