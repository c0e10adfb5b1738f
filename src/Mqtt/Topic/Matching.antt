-- ===== src/Mqtt/Topic/Matching.antt =====
-- The loop of `mqtt_topic_matches` against the comparison of levels.
use esp_components.Base.{
  ℕ, Bool, true, false, ◌&&◌, [], ◌∷◌, ◌++◌, Option, none, some, ◌==◌, Bytes, same_bytes, ◌≡◌, refl,
  arith, Bool-cases, inl, inr, ◌⊎◌,
}
use esp_components.Mqtt.Topic.{at_level_start, skip_level, finish, walk, topic_matches}
use esp_components.Mqtt.Topic.Levels.{
  first_level, other_levels, levels, is_plain, accepts, ends_in_level,
}

-- What is left of the filter accepts what is left of the topic, at the start of a level or behind
-- a part of one, which must have been plain.
abbrev accepts_from : Bool → Bytes → Bytes → Bool
accepts_from true fs ts = accepts (levels fs) (levels ts)
accepts_from false fs ts =
    is_plain (first_level fs)
    && same_bytes (first_level fs) (first_level ts)
    && accepts (other_levels fs) (other_levels ts)

-- With no level of the topic left, only "#" is accepted.
accepts_nothing :
    (fs : Bytes) → accepts (levels fs) [] ≡ (elim fs [ c ∷ [] ↦ c == b'#' | _ ↦ false ])
unfolding accepts other_levels
accepts_nothing [] = refl
accepts_nothing (c ∷ []) = ground arith
accepts_nothing (c ∷ d ∷ fs) = ground arith

finish_lem : (fs : Bytes) → finish fs [] ≡ accepts_from false fs []
unfolding finish other_levels accepts
finish_lem [] = refl
finish_lem (c ∷ []) = ground arith
finish_lem (c ∷ d ∷ []) = ground (arith, accepts_nothing (d ∷ []))
finish_lem (c ∷ d ∷ e ∷ fs) = ground (arith, accepts_nothing (d ∷ e ∷ fs))

-- '+' takes the rest of the level.
skip_level-other_levels :
    (fresh : Bool) (ts : Bytes)
    → ends_in_level fresh ts ≡ true
    → (skip_level ts ≡ []) × (other_levels ts ≡ [])
      ⊎ ((rest : Bytes) × (skip_level ts ≡ b'/' ∷ rest)
          × (other_levels ts ≡ levels rest)
          × (ends_in_level true rest ≡ true))
unfolding skip_level other_levels ends_in_level
skip_level-other_levels fresh [] h = inl (refl, refl)
skip_level-other_levels fresh (x ∷ xs) h = elim (Bool-cases (x == b'/')) [
  | inl e ↦ inr (xs, ground arith, ground arith, ground arith)
  | inr e ↦ elim (skip_level-other_levels (x == b'/') xs h) [
    | inl (a, b) ↦ inl (ground arith, ground arith)
    | inr (rest, a, b, k) ↦ inr (rest, ground arith, ground arith, k)
  ]
]

walk_lem :
    (before : Option ℕ) (fs ts : Bytes)
    → ends_in_level (at_level_start before) ts ≡ true
    → walk before fs ts ≡ accepts_from (at_level_start before) fs ts
unfolding walk ends_in_level other_levels accepts
walk_lem before [] [] h = ground (arith)
walk_lem before [] (x ∷ ts) h = ground (arith)
walk_lem before (c ∷ fs) [] h = ground (arith, finish_lem (c ∷ fs))
walk_lem before (c ∷ []) (x ∷ ts) h = elim (Bool-cases (c == b'#')) [
  | inl e ↦ ground arith
  | inr e ↦ elim (Bool-cases (c == b'+')) [
    | inl p ↦ ground (arith, skip_level-other_levels (at_level_start before) (x ∷ ts) h)
    | inr p ↦ ground (arith, walk_lem (some c) [] ts)
  ]
]
walk_lem before (c ∷ d ∷ fs) (x ∷ ts) h = elim (Bool-cases (c == b'#')) [
  | inl e ↦ ground arith
  | inr e ↦ elim (Bool-cases (c == b'+')) [
    | inl p ↦ elim (skip_level-other_levels (at_level_start before) (x ∷ ts) h) [
      | inl (a, b) ↦ ground (arith, finish_lem (d ∷ fs))
      | inr (rest, a, b, k) ↦ ground (arith, walk_lem (some d) fs rest)
    ]
    | inr p ↦ ground (arith, walk_lem (some c) (d ∷ fs) ts)
  ]
]

-- A topic is matched exactly when the filter is well formed and covers its levels, if the last
-- level of the topic is not empty.
pub topic_matches-accepts :
    (filter topic : Bytes)
    → ends_in_level true topic ≡ true
    → topic_matches (some filter) (some topic) ≡ accepts (levels filter) (levels topic)
unfolding topic_matches
topic_matches-accepts filter topic h = walk_lem none filter topic h

abbrev parent : Bytes → Bytes
parent p = p ++ b'/' ∷ []

abbrev subtree : Bytes → Bytes
subtree p = p ++ b'/' ∷ b'#' ∷ []

walk_trailing :
    (before : Option ℕ) (p : Bytes) → is_plain p ≡ true → walk before (subtree p) (parent p) ≡ false
unfolding walk is_plain
walk_trailing before [] h = refl
walk_trailing before (c ∷ []) h = ground (arith, walk_trailing (some c) [])
walk_trailing before (c ∷ d ∷ p) h = ground (arith, walk_trailing (some c) (d ∷ p))

accepts_trailing :
    (fresh : Bool) (p : Bytes)
    → is_plain p ≡ true
    → accepts_from fresh (subtree p) (parent p) ≡ true
unfolding accepts other_levels is_plain
accepts_trailing fresh [] h = ground arith
accepts_trailing fresh (c ∷ p) h = ground (arith, accepts_trailing (c == b'/') p)

-- Where the topic does end in '/', the two differ: "p/#" covers the empty level of "p/", and the
-- code does not match it.
pub topic_matches_trailing :
    (p : Bytes)
    → is_plain p ≡ true
    → (topic_matches (some (subtree p)) (some (parent p)) ≡ false)
      × (accepts (levels (subtree p)) (levels (parent p)) ≡ true)
unfolding topic_matches
topic_matches_trailing p h = (walk_trailing none p h, accepts_trailing true p h)
