-- ===== src/Mqtt/Client/Early.antt =====
-- A subscription that is made before the first start.
use esp_components.Base.{
  ℕ, Bool, true, false, [], ◌∷◌, ◌++◌, map, Option, some, none, Bytes, ◌≡◌, ◌⊎◌, refl, ap, sym, ◌∙◌,
  inl, inr, arith,
}
use esp_components.Base.Int.{ℤ}
use esp_components.Mqtt.Building.{Built, built, full, topic_needs_device, find_token}
use esp_components.Mqtt.Building.Whole.{Writes, joined, topic_build_no_device}
use esp_components.Mqtt.Client.{
  Status, ok, Subscription, Config, Manager, Answers, subscribed, started, session_begins, handle,
  run, start, subscribe, full_topic, text, is_whole, topic_max,
}
use esp_components.Mqtt.Client.Session.{
  start-Agree, filters-snoc, on_session-asked, resubscribe_all-filters,
}
use esp_components.Mqtt.Client.Starting.{is_ok, not_ok}

-- Under an empty prefix a topic is its suffix.
text-full_topic :
    (suffix : Bytes) → is_whole (full_topic [] suffix) ≡ true → text (full_topic [] suffix) ≡ suffix
unfolding full_topic topic_needs_device find_token
text-full_topic suffix h =
    whole (full_topic [] suffix) h (topic_build_no_device topic_max [] none (some suffix) refl)
    ∙ bare suffix
  where
    bare : (s : Bytes) → joined [] s ≡ s
    bare [] = refl
    bare (c ∷ s) = refl

    whole :
        (b : Built)
        → is_whole b ≡ true
        → Writes topic_max (joined [] suffix) b
        → text b ≡ joined [] suffix
    whole (built t) h w = w.0
    whole (full t) h w = cc

-- Either the call fails, or it enters the subscription behind the others.
abbrev Enters : Subscription → Bool → Manager → Status × Manager → Type 0
Enters s fits m (status, n) = (is_ok status ≡ false) ⊎ ((n.subs ≡ m.subs ++ s ∷ []) × (fits ≡ true))

subscribe-Enters :
    (capacity : ℕ) (suffix : Bytes) (qos : ℤ) (cb ctx : ℕ) (taken : Bool) (m : Manager)
    → Enters
        (record { filter = text (full_topic m.prefix suffix); qos = qos; cb = cb; ctx = ctx })
        (is_whole (full_topic m.prefix suffix))
        m
        (subscribe capacity suffix qos cb ctx taken m)
unfolding subscribe
subscribe-Enters capacity suffix qos cb ctx taken m = ground arith

entered :
    (s : Subscription) (fits : Bool) (m : Manager) (r : Status × Manager)
    → r.0 ≡ ok
    → Enters s fits m r
    → (r.1.subs ≡ m.subs ++ s ∷ []) × (fits ≡ true)
entered s fits m (status, n) e (inl h) = absurd (not_ok status e h)
entered s fits m (status, n) e (inr h) = h

-- A subscription that is accepted before the first start is handed to the client under its bare suffix when the first
-- session begins, whatever prefix the manager is started with.
pub subscribe-session_begins :
    (capacity : ℕ) (suffix : Bytes) (qos : ℤ) (cb ctx : ℕ) (taken : Bool) (takes : ℕ → Bool)
    (cfg : Option Config) (device_name : Option Bytes) (a : Answers) (m : Manager)
    → m.prefix ≡ []
    → (subscribe capacity suffix qos cb ctx taken m).0 ≡ ok
    → map
        (λ (x : Bytes × Bool). x.0)
        (run capacity
          (subscribed suffix qos cb ctx taken
            ∷ started cfg device_name a
            ∷ session_begins takes
            ∷ [])
          m).asked
      ≡ map (λ (s : Subscription). s.filter) m.subs ++ suffix ∷ []
unfolding handle
subscribe-session_begins capacity suffix qos cb ctx taken takes cfg device_name a m p e =
    let filters = map (λ (s : Subscription). s.filter) in
    let n = (subscribe capacity suffix qos cb ctx taken m).1 in
    let topic = full_topic m.prefix suffix in
    let s : Subscription = record { filter = text topic; qos = qos; cb = cb; ctx = ctx } in
    let (noted, fits) =
      entered s (is_whole topic) m (subscribe capacity suffix qos cb ctx taken m) e
        (subscribe-Enters capacity suffix qos cb ctx taken m) in
    ap (map (λ (x : Bytes × Bool). x.0)) (on_session-asked takes (start cfg device_name a n).1)
    ∙ resubscribe_all-filters takes 0 (start cfg device_name a n).1.subs
    ∙ ap filters (start-Agree cfg device_name a n).2
    ∙ ap filters noted
    ∙ filters-snoc m.subs s
    ∙ ap (λ (t : Bytes). filters m.subs ++ t ∷ []) (bare m.prefix p fits)
  where
    bare :
        (prefix : Bytes)
        → prefix ≡ []
        → is_whole (full_topic prefix suffix) ≡ true
        → text (full_topic prefix suffix) ≡ suffix
    bare prefix q fits =
        ap (λ (x : Bytes). text (full_topic x suffix)) q
        ∙ text-full_topic suffix (ap (λ (x : Bytes). is_whole (full_topic x suffix)) (sym q) ∙ fits)
