-- ===== src/Mqtt/Topic/Levels.antt =====
-- What a filter means in MQTT: both texts are cut into levels at each '/', and the levels are
-- compared one by one. It stands apart from the code, which never cuts anything.
use esp_components.Base.{
  Bool, true, false, not, ◌&&◌, ◌||◌, List, [], ◌∷◌, ◌==◌, if◌then◌else◌, Bytes, same_bytes,
}

-- The first level of a text.
unfoldable pub first_level : Bytes → Bytes
first_level [] = []
first_level (x ∷ xs) = if x == b'/' then [] else x ∷ first_level xs

-- The levels behind the first.
unfoldable pub other_levels : Bytes → List Bytes
unfolding first_level
other_levels [] = []
other_levels (x ∷ xs) = if x == b'/' then first_level xs ∷ other_levels xs else other_levels xs

abbrev pub levels : Bytes → List Bytes
levels text = first_level text ∷ other_levels text

abbrev pub is_hash : Bytes → Bool
is_hash (c ∷ []) = c == b'#'
is_hash _ = false

abbrev pub is_plus : Bytes → Bool
is_plus (c ∷ []) = c == b'+'
is_plus _ = false

-- A level with no wildcard in it.
unfoldable pub is_plain : Bytes → Bool
is_plain [] = true
is_plain (c ∷ cs) = not (c == b'#') && not (c == b'+') && is_plain cs

abbrev pub is_last : List Bytes → Bool
is_last [] = true
is_last (l ∷ ls) = false

-- Wildcards stand alone in their level, and '#' in the last one only.
unfoldable pub well_formed : List Bytes → Bool
unfolding is_plain
well_formed [] = true
well_formed (l ∷ ls) = (is_plain l || is_plus l || (is_hash l && is_last ls)) && well_formed ls

-- '+' takes any one level, '#' any levels, none included, and a plain level itself.
unfoldable pub covers : List Bytes → List Bytes → Bool
unfolding same_bytes
covers [] [] = true
covers [] (t ∷ ts) = false
covers (l ∷ ls) [] = is_hash l
covers (l ∷ ls) (t ∷ ts) = is_hash l || ((is_plus l || same_bytes l t) && covers ls ts)

unfoldable pub accepts : List Bytes → List Bytes → Bool
unfolding well_formed covers
accepts filter topic = well_formed filter && covers filter topic

-- The last level holds something: the topic is not empty and does not end in '/'.
unfoldable pub ends_in_level : Bool → Bytes → Bool
ends_in_level fresh [] = not fresh
ends_in_level fresh (x ∷ xs) = ends_in_level (x == b'/') xs
