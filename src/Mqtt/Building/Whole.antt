-- ===== src/Mqtt/Building/Whole.antt =====
-- A topic is built whole or not at all.
use esp_components.Base.{
  ℕ, zero, suc, ◌+◌, ◌≤◌, ◌<◌, true, false, [], ◌∷◌, ◌++◌, Option, none, some, ltb, ◌==◌,
  if◌then◌else◌, Bytes, length, length-append, ◌≡◌, refl, arith, append_assoc, append-nil, subst,
  Option-cases, inl, inr, ap, sym, Bool-cases,
}
use mathlib.Core.Bool.{false≢true}
use esp_components.Mqtt.Building.{
  Built, built, full, ◌>>=◌, append, token, strip, find_token, text_of, substitute, ends_in_slash,
  join, topic_build, topic_needs_device,
}

-- The prefix with the name in place of every token, in a buffer without bounds.
abbrev pub expand : ℕ → Bytes → Bytes → Bytes
expand zero name p = p
expand (suc fuel) name p = elim (find_token p) [
  | none ↦ p
  | some hit ↦ hit.0 ++ (name ++ expand fuel name hit.1)
]

-- The separator that stands between two texts that are joined.
abbrev pub joined : Bytes → Bytes → Bytes
joined used [] = used
joined [] (c ∷ suffix) = c ∷ suffix
joined (u ∷ used) (c ∷ suffix) =
    if ends_in_slash (u ∷ used)
    then (u ∷ used) ++ (if c == b'/' then suffix else c ∷ suffix)
    else (u ∷ used) ++ (if c == b'/' then c ∷ suffix else b'/' ∷ c ∷ suffix)

-- The outcome that a bounded buffer owes to a text: all of it where it fits with its terminator.
abbrev pub Writes : ℕ → Bytes → Built → Type 0
Writes out_size whole (built text) = (text ≡ whole) × (length whole < out_size)
Writes out_size whole (full text) = out_size ≤ length whole

append-Writes :
    (out_size : ℕ) (used text : Bytes) → Writes out_size (used ++ text) (append out_size used text)
unfolding append
append-Writes out_size used text = ground (arith, length-append used text)

-- A step that writes part of the text, followed by one that writes the rest.
>>=-Writes :
    (out_size : ℕ) (text whole : Bytes) (m : Built) (f : Bytes → Built)
    → Writes out_size text m
    → length text ≤ length whole
    → (length text < out_size → Writes out_size whole (f text))
    → Writes out_size whole (m >>= f)
>>=-Writes out_size text whole (built t) f (e, h) le next = rw e (next h)
>>=-Writes out_size text whole (full t) f h le next = omega arith

strip-append : (s text : Bytes) {rest : Bytes} → strip s text ≡ some rest → text ≡ s ++ rest
unfolding strip
strip-append [] text h = ground arith
strip-append (c ∷ cs) [] h = cc
strip-append (c ∷ cs) (x ∷ xs) {rest} h = ground (arith, strip-append cs xs {rest = rest})

-- A hit splits the text at a token.
find_token-some :
    (p : Bytes) {hit : Bytes × Bytes} → find_token p ≡ some hit → p ≡ hit.0 ++ (token ++ hit.1)
unfolding find_token
find_token-some [] h = cc
find_token-some (x ∷ xs) {hit} h = elim (Option-cases (strip token (x ∷ xs))) [
  | inl miss ↦ elim (Option-cases (find_token xs)) [
    | inl e ↦ ground arith
    | inr (later, e) ↦ ground (arith, find_token-some xs e)
  ]
  | inr (rest, found) ↦ ground (arith, strip-append token (x ∷ xs) found)
]

length-find_token :
    (p : Bytes) {hit : Bytes × Bytes} → find_token p ≡ some hit → length hit.1 + 8 ≤ length p
length-find_token p {hit} h =
    omega (arith, ap length (find_token-some p h), length-append hit.0 (token ++ hit.1))

expand_miss : (fuel : ℕ) (name p : Bytes) → find_token p ≡ none → expand (suc fuel) name p ≡ p
expand_miss fuel name p e = rw (e, expand)

expand_hit :
    (fuel : ℕ) (name p : Bytes) {hit : Bytes × Bytes}
    → find_token p ≡ some hit
    → expand (suc fuel) name p ≡ hit.0 ++ (name ++ expand fuel name hit.1)
expand_hit fuel name p e = rw (e, expand)

-- The loop writes the expanded prefix behind what is there.
substitute-Writes :
    (fuel out_size : ℕ) (name p used : Bytes)
    → length p < fuel
    → length used < out_size
    → Writes out_size (used ++ expand fuel name p) (substitute fuel out_size name p used)
unfolding substitute
substitute-Writes zero out_size name p used h k = absurd (omega arith)
substitute-Writes (suc fuel) out_size name [] used h k =
    (unfold find_token in sym (append-nil used), unfold find_token in rw append-nil k)
substitute-Writes (suc fuel) out_size name (c ∷ p) used h k =
    elim (Option-cases (find_token (c ∷ p))) [
      | inl miss ↦
          rw (expand_miss fuel name (c ∷ p) miss, miss, substitute)
            (append-Writes out_size used (c ∷ p))
      | inr (hit, found) ↦
          let rest = expand fuel name hit.1 in
          let short : length hit.1 < fuel = omega (arith, length-find_token (c ∷ p) found) in
          let whole = used ++ (hit.0 ++ (name ++ rest)) in
          let regroup : whole ≡ ((used ++ hit.0) ++ name) ++ rest = simp append_assoc in
          rw (expand_hit fuel name (c ∷ p) found, found, substitute)
            (>>=-Writes out_size (used ++ hit.0) whole _ _ (append-Writes out_size used hit.0)
              (omega (arith, length-append {0}))
              λ fits.
                >>=-Writes out_size ((used ++ hit.0) ++ name) whole _ _
                  (append-Writes out_size (used ++ hit.0) name) (omega (arith, length-append {0}))
                  λ fits'. rw regroup (
                    substitute-Writes fuel out_size name hit.1 ((used ++ hit.0) ++ name) short
                      fits'))
    ]

join-Writes :
    (out_size : ℕ) (used suffix : Bytes)
    → length used < out_size
    → Writes out_size (joined used suffix) (join out_size suffix used)
unfolding join
join-Writes out_size [] [] h = (refl, h)
join-Writes out_size (u ∷ used) [] h = (refl, h)
join-Writes out_size [] (c ∷ suffix) h =
    unfold ends_in_slash in append-Writes out_size [] (c ∷ suffix)
join-Writes out_size (u ∷ used) (c ∷ suffix) h = elim (Bool-cases (ends_in_slash (u ∷ used))) [
  | inl e ↦ elim (Bool-cases (c == b'/')) [
    | inl g ↦ rw (e, g) (append-Writes out_size (u ∷ used) suffix)
    | inr g ↦ rw (e, g, pos) (append-Writes out_size (u ∷ used) (c ∷ suffix))
  ]
  | inr e ↦ elim (Bool-cases (c == b'/')) [
    | inl g ↦ rw (e, g, pos) (append-Writes out_size (u ∷ used) (c ∷ suffix))
    | inr g ↦
        let slashed = (u ∷ used) ++ b'/' ∷ [] in
        let whole = (u ∷ used) ++ b'/' ∷ c ∷ suffix in
        let regroup : whole ≡ slashed ++ (c ∷ suffix) = simp append_assoc in
        rw (e, g, pos)
          (>>=-Writes out_size slashed whole _ _ (append-Writes out_size (u ∷ used) (b'/' ∷ []))
            (omega (arith, length-append used (b'/' ∷ []), length-append used (b'/' ∷ c ∷ suffix)))
            λ fits. rw regroup (append-Writes out_size slashed (c ∷ suffix)))
  ]
]
  where
    pos : ltb 0 (length (u ∷ used)) ≡ true
    pos = ground arith

length-joined : (used suffix : Bytes) → length used ≤ length (joined used suffix)
length-joined [] suffix = omega arith
length-joined (u ∷ used) [] = omega arith
length-joined (u ∷ used) (c ∷ suffix) = elim (Bool-cases (ends_in_slash (u ∷ used))) [
  | inl e ↦ rw e (omega (arith, le-append (u ∷ used) (if c == b'/' then suffix else c ∷ suffix)))
  | inr e ↦
      rw e
        (omega (arith, le-append (u ∷ used) (if c == b'/' then c ∷ suffix else b'/' ∷ c ∷ suffix)))
]
  where
    le-append : (xs ys : Bytes) → length xs ≤ length (xs ++ ys)
    le-append xs ys = omega (arith, length-append xs ys)

-- The topic that the arguments name, in a buffer without bounds.
abbrev pub whole_topic : Option Bytes → Option Bytes → Option Bytes → Bytes
whole_topic prefix device_name suffix =
    let p = text_of prefix in
    joined (expand (length p + 1) (text_of device_name) p) (text_of suffix)

-- `mqtt_topic_build` writes the whole topic if it fits the buffer with its terminator, and reports
-- failure otherwise: no topic is cut short.
pub topic_build-Writes :
    (out_size : ℕ) (prefix device_name suffix : Option Bytes)
    → Writes out_size
        (whole_topic prefix device_name suffix)
        (topic_build out_size prefix device_name suffix)
unfolding topic_build
topic_build-Writes zero prefix device_name suffix = omega arith
topic_build-Writes (suc n) prefix device_name suffix =
    let p = text_of prefix in
    let name = text_of device_name in
    let used = expand (length p + 1) name p in
    let sized : (suc n == 0) ≡ false = ground arith in
    rw sized (
      >>=-Writes (suc n) used (joined used (text_of suffix)) _ _
        (substitute-Writes (length p + 1) (suc n) name p [] (omega arith) (omega arith))
        (length-joined used (text_of suffix))
        λ fits. join-Writes (suc n) used (text_of suffix) fits)

expand_plain :
    (fuel : ℕ) (name p : Bytes) → topic_needs_device (some p) ≡ false → expand fuel name p ≡ p
unfolding topic_needs_device
expand_plain zero name p h = refl
expand_plain (suc fuel) name p h = elim (Option-cases (find_token p)) [
  | inl e ↦ expand_miss fuel name p e
  | inr (hit, e) ↦ absurd (false≢true (sym (rw (e, topic_needs_device) at h)))
]

-- A prefix for which `mqtt_topic_needs_device` says no is joined to the suffix as it stands,
-- whatever the device is called.
pub topic_build_no_device :
    (out_size : ℕ) (prefix : Bytes) (device_name suffix : Option Bytes)
    → topic_needs_device (some prefix) ≡ false
    → Writes out_size
        (joined prefix (text_of suffix))
        (topic_build out_size (some prefix) device_name suffix)
topic_build_no_device out_size prefix device_name suffix h =
    let same = expand_plain (length prefix + 1) (text_of device_name) prefix h in
    subst
      (λ (p : Bytes).
        Writes out_size (joined p (text_of suffix))
          (topic_build out_size (some prefix) device_name suffix))
      same (topic_build-Writes out_size (some prefix) device_name suffix)
