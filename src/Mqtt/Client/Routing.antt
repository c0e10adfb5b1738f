-- ===== src/Mqtt/Client/Routing.antt =====
-- The callbacks that a message reaches.
use esp_components.Base.{true, List, [], ◌∷◌, Bytes, ◌≡◌, refl, if◌then◌else◌}
use esp_components.Mqtt.Topic.Levels.{levels, accepts, ends_in_level}
use esp_components.Mqtt.Topic.Matching.{topic_matches-accepts}
use esp_components.Mqtt.Client.{Subscription, dispatch}

-- Those of a table whose filter is well formed and covers the levels of the topic, in its order.
abbrev pub wanted : List Bytes → List Subscription → List Subscription
wanted topic [] = []
wanted topic (s ∷ ss) =
    if accepts (levels s.filter) topic then s ∷ wanted topic ss else wanted topic ss

-- A message on a topic whose last level is not empty is handed to exactly the subscriptions whose filters are well
-- formed and cover its levels, each once and in the table's order.
pub dispatch-wanted :
    (topic : Bytes) (ss : List Subscription)
    → ends_in_level true topic ≡ true
    → dispatch topic ss ≡ wanted (levels topic) ss
unfolding dispatch
dispatch-wanted topic [] h = refl
dispatch-wanted topic (s ∷ ss) h =
    rw (topic_matches-accepts s.filter topic h, dispatch-wanted topic ss h) refl
