-- ===== src/Mqtt/Client/Tests.antt =====
-- The client on small examples.
use esp_components.Base.{
  Bool, Bytes, ◌==◌, true, false, List, [], ◌∷◌, some, codes, ◌≡◌, refl, map, inr,
}
use esp_components.Base.Int.{pos}
use esp_components.Mqtt.Topic.{topic_matches}
use esp_components.Mqtt.Topic.Levels.{levels, ends_in_level}
use esp_components.Mqtt.Building.{
  topic_build, substitute, join, append, find_token, strip, ends_in_slash, topic_needs_device,
}
use esp_components.Mqtt.Client.{
  ok, Subscription, Config, Manager, Answers, Event, session_begins, session_lost, link_goes,
  link_comes, subscribed, started, is_connected, on_link_down, on_session_lost, handle, run, start,
  configure, set_will, open_client, subscribe, full_topic, text, dispatch,
}
use esp_components.Mqtt.Client.Routing.{wanted, dispatch-wanted}
use esp_components.Mqtt.Client.Session.{AllAsked, run-AllAsked, subscribe-link_comes}
use esp_components.Mqtt.Client.Starting.{link, start-unheard}
use esp_components.Mqtt.Client.Early.{subscribe-session_begins}

abbrev settings : Config
settings = record {
  uri = codes "mqtt://h";
  topic_prefix = codes "s/$DEVICE$";
  lwt_suffix = codes "up";
  lwt_online = codes "1";
}

abbrev commands : Subscription
commands = record { filter = codes "s/g/cmd/#"; qos = pos 1; cb = 7; ctx = 0 }

abbrev tap : Subscription
tap = record { filter = codes "s/#"; qos = pos 0; cb = 8; ctx = 0 }

abbrev others : Subscription
others = record { filter = codes "t/#"; qos = pos 0; cb = 9; ctx = 0 }

both_are_called : dispatch (codes "s/g/cmd/x") (commands ∷ others ∷ tap ∷ []) ≡ commands ∷ tap ∷ []
unfolding dispatch topic_matches
both_are_called = refl

dispatch-wanted_example :
    dispatch (codes "s/g/cmd/x") (commands ∷ others ∷ tap ∷ [])
    ≡ wanted (levels (codes "s/g/cmd/x")) (commands ∷ others ∷ tap ∷ [])
unfolding ends_in_level
dispatch-wanted_example = dispatch-wanted (codes "s/g/cmd/x") (commands ∷ others ∷ tap ∷ []) refl

abbrev idle : Manager
idle = record {
  client = false;
  connected = false;
  running = false;
  link_up = false;
  handling = false;
  cfg = settings;
  prefix = [];
  lwt_topic = [];
  subs = [];
  asked = [];
  published = [];
}

-- One that is connected, with a subscription that the client has taken.
abbrev online : Manager
online = record idle {
  client = true;
  connected = true;
  running = true;
  link_up = true;
  handling = true;
  prefix = codes "s/g";
  subs = commands ∷ [];
  asked = (codes "s/g/cmd/#", true) ∷ [];
}

abbrev reconnect : List Event
reconnect =
    link_goes
    ∷ session_lost
    ∷ subscribed (codes "new") (pos 1) 3 4 true
    ∷ link_comes true
    ∷ session_begins (λ i. i == 0)
    ∷ []

run-AllAsked_example : AllAsked (run 8 reconnect online)
unfolding handle on_link_down on_session_lost
run-AllAsked_example = run-AllAsked 8 reconnect online (tt, (tt, (refl, (tt, (tt, tt))))) (inr refl)

subscribe-link_comes_example :
    ((subscribe 8 (codes "new") (pos 1) 3 4 false (record online { link_up = false })).0 ≡ ok)
    × ((run 8
          (subscribed (codes "new") (pos 1) 3 4 false ∷ link_comes true ∷ [])
          (record online { link_up = false })).subs
        ≡ commands
          ∷ record {
            filter = text (full_topic (codes "s/g") (codes "new"));
            qos = pos 1;
            cb = 3;
            ctx = 4;
          }
          ∷ [])
    × ((run 8
          (subscribed (codes "new") (pos 1) 3 4 false ∷ link_comes true ∷ [])
          (record online { link_up = false })).asked
        ≡ (codes "s/g/cmd/#", true) ∷ [])
    × (is_connected (
          run 8
            (subscribed (codes "new") (pos 1) 3 4 false ∷ link_comes true ∷ [])
            (record online { link_up = false }))
        ≡ true)
unfolding full_topic topic_build substitute join append find_token strip ends_in_slash
subscribe-link_comes_example =
    subscribe-link_comes 8 (codes "new") (pos 1) 3 4 false true (record online { link_up = false })
      (refl, refl, refl, refl) (refl, refl, refl)

abbrev willing : Answers
willing = record {
  made = true;
  events_registered = 0;
  net_registered = 0;
  starts = true;
  takes = true;
}

start-unheard_example :
    ((start
        (some settings)
        (some (codes "g"))
        willing
        (run 8 (map link (some true ∷ [])) idle)).1.running
      ≡ false)
    × ((run 8
          (link_goes ∷ link_comes true ∷ [])
          (start
            (some settings)
            (some (codes "g"))
            willing
            (run 8 (map link (some true ∷ [])) idle)).1).running
        ≡ true)
unfolding start set_will open_client full_topic topic_build substitute join append find_token strip
    ends_in_slash handle configure topic_needs_device
start-unheard_example =
    start-unheard 8 (some true ∷ []) (some settings) (some (codes "g")) willing idle
      (refl, refl, refl) refl

subscribe-session_begins_example :
    map
      (λ (x : Bytes × Bool). x.0)
      (run 8
        (subscribed (codes "new") (pos 1) 3 4 true
          ∷ started (some settings) (some (codes "g")) willing
          ∷ session_begins (λ i. true)
          ∷ [])
        idle).asked
    ≡ codes "new" ∷ []
unfolding subscribe full_topic topic_build substitute join append find_token strip ends_in_slash
subscribe-session_begins_example =
    subscribe-session_begins 8 (codes "new") (pos 1) 3 4 true (λ i. true) (some settings)
      (some (codes "g")) willing idle refl refl
