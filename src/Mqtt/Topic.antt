-- ===== src/Mqtt/Topic.antt =====
-- mqtt_manager/src/mqtt_topic.c: the match of a filter against a topic, and the topic's building.
-- A `const char *` is an `Option` of its bytes, `none` for NULL. An index into a string is kept as
-- the part of the string from that index on.
pub mod Levels
pub mod Matching
use esp_components.Base.{
  ℕ, Bool, true, false, not, ◌&&◌, ◌||◌, List, [], ◌∷◌, Option, none, some, ◌==◌, if◌then◌else◌,
  Bytes,
}

-- `f == 0 || filter[f - 1] == '/'`, on the byte before index `f`.
pub at_level_start : Option ℕ → Bool
at_level_start none = true
at_level_start (some c) = c == b'/'

-- `while (t < topic_len && topic[t] != '/') t++;`
pub skip_level : Bytes → Bytes
skip_level [] = []
skip_level (x ∷ xs) = if x == b'/' then x ∷ xs else skip_level xs

-- What stands behind the separator at `topic[t]`, if one is there.
pub after_separator : Bytes → Option Bytes
after_separator [] = none
after_separator (x ∷ xs) = if x == b'/' then some xs else none

-- What follows the loop: `"/#"` left over at the end of the topic, or both sides used up.
pub finish : Bytes → Bytes → Bool
finish [] [] = true
finish (c ∷ d ∷ []) [] = c == b'/' && d == b'#'
finish _ _ = false

-- The loop, with `filter[f - 1]`, the filter from `f` on and the topic from `t` on.
unfoldable pub walk : Option ℕ → Bytes → Bytes → Bool
unfolding at_level_start skip_level after_separator finish
walk before [] ts = finish [] ts
walk before (c ∷ fs) [] = finish (c ∷ fs) []
walk before (c ∷ []) (x ∷ ts) =
    let passed = walk (some c) [] (skip_level (x ∷ ts)) in
    let stepped = walk (some c) [] ts in
    if c == b'#'
    then at_level_start before
    else if c == b'+'
    then (if not (at_level_start before) then false else passed)
    else if not (c == x)
    then false
    else stepped
walk before (c ∷ d ∷ fs) (x ∷ ts) =
    let rest = skip_level (x ∷ ts) in
    let passed = walk (some c) (d ∷ fs) rest in
    let separated = λ (behind : Bytes). walk (some d) fs behind in
    let stepped = walk (some c) (d ∷ fs) ts in
    if c == b'#'
    then false
    else if c == b'+'
    then (if not (at_level_start before) || not (d == b'/')
        then false
        else elim (after_separator rest) [ none ↦ passed | some behind ↦ separated behind ])
    else if not (c == x)
    then false
    else stepped

-- `mqtt_topic_matches`; the topic is its first `topic_len` bytes.
unfoldable pub topic_matches : Option Bytes → Option Bytes → Bool
unfolding walk
topic_matches none topic = false
topic_matches (some filter) none = false
topic_matches (some filter) (some topic) = walk none filter topic
