-- ===== src/Mqtt/Building.antt =====
-- mqtt_manager/src/mqtt_topic.c: how a topic is built from a prefix, the device's name and a
-- suffix. The buffer `out` of `out_size` bytes is the text that it holds so far.
pub mod Whole
use esp_components.Base.{
  ℕ, zero, suc, ◌+◌, Bool, true, false, not, ◌&&◌, ◌||◌, List, [], ◌∷◌, ◌++◌, Option, none, some,
  ltb, ◌==◌, if◌then◌else◌, Bytes, length,
}
use mathlib.Core.Option

-- The text in `out`, behind the return value: `full` is the code's `false`.
pub data Built : Type 0 where
  built full : Bytes → Built

infixl 5 ◌>>=◌
abbrev pub ◌>>=◌ : Built → (Bytes → Built) → Built
built text >>= f = f text
full text >>= f = full text

-- The static `append`: all of the text or none of it.
unfoldable pub append : ℕ → Bytes → Bytes → Built
append out_size used text =
    if ltb out_size (length used + length text + 1) then full used else built (used ++ text)

-- "$DEVICE$"
abbrev pub token : Bytes
token = b'$' ∷ b'D' ∷ b'E' ∷ b'V' ∷ b'I' ∷ b'C' ∷ b'E' ∷ b'$' ∷ []

-- What follows `prefix` in a text that starts with it.
unfoldable pub strip : Bytes → Bytes → Option Bytes
strip [] text = some text
strip (c ∷ cs) [] = none
strip (c ∷ cs) (x ∷ xs) = if c == x then strip cs xs else none

-- `strstr(p, TOKEN)`: the text before the first hit, and that behind it.
unfoldable pub find_token : Bytes → Option (Bytes × Bytes)
find_token [] = none
find_token (x ∷ xs) =
    let later = Option.map (λ (hit : Bytes × Bytes). (x ∷ hit.0, hit.1)) (find_token xs) in
    elim (strip token (x ∷ xs)) [ some rest ↦ some ([], rest) | none ↦ later ]

abbrev pub text_of : Option Bytes → Bytes
text_of none = []
text_of (some text) = text

-- `while (*p)` with fuel for its rounds. Out of fuel counts as a failure.
unfoldable pub substitute : ℕ → ℕ → Bytes → Bytes → Bytes → Built
substitute zero out_size name p used = full used
substitute (suc fuel) out_size name [] used = built used
substitute (suc fuel) out_size name (c ∷ p) used = elim (find_token (c ∷ p)) [
  | none ↦ append out_size used (c ∷ p)
  | some hit ↦ do
    before ← append out_size used hit.0
    named ← append out_size before name
    substitute fuel out_size name hit.1 named
]

unfoldable pub ends_in_slash : Bytes → Bool
ends_in_slash [] = false
ends_in_slash (c ∷ []) = c == b'/'
ends_in_slash (c ∷ d ∷ cs) = ends_in_slash (d ∷ cs)

-- What `mqtt_topic_build` does behind the loop.
unfoldable pub join : ℕ → Bytes → Bytes → Built
join out_size [] used = built used
join out_size (c ∷ suffix) used =
    let prefix_ends = ends_in_slash used in
    let suffix_starts = c == b'/' in
    if prefix_ends && suffix_starts
    then append out_size used suffix
    else if ltb 0 (length used) && not prefix_ends && not suffix_starts
    then (do slashed ← append out_size used (b'/' ∷ []); append out_size slashed (c ∷ suffix))
    else append out_size used (c ∷ suffix)

-- `mqtt_topic_build`. A NULL `out` counts as one of size 0, and leaves no text.
unfoldable pub topic_build : ℕ → Option Bytes → Option Bytes → Option Bytes → Built
topic_build out_size prefix device_name suffix =
    let p = text_of prefix in
    let run = substitute (length p + 1) out_size (text_of device_name) p [] in
    if out_size == 0 then full [] else (do used ← run; join out_size (text_of suffix) used)

unfoldable pub topic_needs_device : Option Bytes → Bool
topic_needs_device none = false
topic_needs_device (some prefix) = elim (find_token prefix) [ none ↦ false | some hit ↦ true ]
