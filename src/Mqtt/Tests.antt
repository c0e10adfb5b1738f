-- ===== src/Mqtt/Tests.antt =====
-- Runs of the topic functions on texts of mqtt_manager/test/test_mqtt_topic.c.
use esp_components.Base.{true, false, codes, none, some, ◌≡◌, refl}
use esp_components.Mqtt.Building.{
  built, full, topic_build, substitute, join, append, find_token, strip, ends_in_slash,
}
use esp_components.Mqtt.Building.Whole.{Writes, whole_topic, topic_build-Writes}
use esp_components.Mqtt.Topic.{topic_matches}
use esp_components.Mqtt.Topic.Levels.{levels, accepts, ends_in_level, is_plain}
use esp_components.Mqtt.Topic.Matching.{topic_matches-accepts, topic_matches_trailing}

matching_runs :
    (topic_matches (some (codes "sensor/+/status")) (some (codes "sensor//status")) ≡ true)
    × (topic_matches (some (codes "sensor/#")) (some (codes "sensor")) ≡ true)
    × (topic_matches (some (codes "sensor/#/x")) (some (codes "sensor/a/x")) ≡ false)
    × (topic_matches (some (codes "sensor/a+/x")) (some (codes "sensor/ab/x")) ≡ false)
unfolding topic_matches
matching_runs = (refl, refl, refl, refl)

building_runs :
    (topic_build 128 (some (codes "s/$DEVICE$/")) (some (codes "g1")) (some (codes "/x"))
      ≡ built (codes "s/g1/x"))
    × (topic_build 128 (some (codes "a")) none (some (codes "b")) ≡ built (codes "a/b"))
    × (topic_build 4 (some (codes "abc")) none (some (codes "d")) ≡ full (codes "abc"))
unfolding topic_build substitute join append find_token strip ends_in_slash
building_runs = (refl, refl, refl)

topic_matches-accepts_example :
    topic_matches (some (codes "a/+/#")) (some (codes "a/b"))
    ≡ accepts (levels (codes "a/+/#")) (levels (codes "a/b"))
unfolding ends_in_level
topic_matches-accepts_example = topic_matches-accepts (codes "a/+/#") (codes "a/b") refl

topic_matches_trailing_example :
    (topic_matches (some (codes "s/#")) (some (codes "s/")) ≡ false)
    × (accepts (levels (codes "s/#")) (levels (codes "s/")) ≡ true)
unfolding is_plain
topic_matches_trailing_example = topic_matches_trailing (codes "s") refl

topic_build-Writes_example :
    Writes 64
      (whole_topic (some (codes "s/$DEVICE$")) (some (codes "g1")) (some (codes "x")))
      (topic_build 64 (some (codes "s/$DEVICE$")) (some (codes "g1")) (some (codes "x")))
topic_build-Writes_example =
    topic_build-Writes 64 (some (codes "s/$DEVICE$")) (some (codes "g1")) (some (codes "x"))
