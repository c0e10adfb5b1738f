-- ===== src/Mqtt/Client/Session.antt =====
-- What the client was told to subscribe to in the present session, against the table of subscriptions.
use esp_components.Base.{
  ℕ, ◌+◌, Bool, true, false, not, ◌||◌, List, [], ◌∷◌, ◌++◌, map, sym, Option, none, some, ◌==◌,
  Bytes, length, ◌≡◌, ◌⊎◌, refl, ap, ◌∙◌, arith, Bool-cases, inl, inr,
}
use esp_components.Base.Int.{ℤ, pos, ltb_ℤ}
use esp_components.Mqtt.Building.{topic_build}
use esp_components.Mqtt.Client.{
  ok, Subscription, Config, Manager, Answers, Event, session_begins, session_lost, link_goes,
  stopped, link_comes, started, subscribed, sent, is_connected, handle, run, on_session,
  on_session_lost, on_link_up, on_link_down, start, set_will, open_client, stop, subscribe, publish,
  full_topic, configure, text, is_whole, topic_max, resubscribe_all,
}

-- With a session, the client was told to subscribe to exactly what the table holds, in its order, each once. Which of
-- these it took stands beside them.
abbrev pub AllAsked : Manager → Type 0
AllAsked m =
    (m.connected ≡ false)
    ⊎ (map (λ (a : Bytes × Bool). a.0) m.asked ≡ map (λ (s : Subscription). s.filter) m.subs)

-- A subscription is made while the link is up, or while there is no session.
abbrev pub Allowed : Event → Manager → Type 0
Allowed (subscribed suffix qos cb ctx taken) m = not m.connected || is_connected m ≡ true
Allowed _ m = Unit

-- Two managers agree on what `AllAsked` speaks of.
abbrev Agree : Manager → Manager → Type 0
Agree m n = (n.connected ≡ m.connected) × (n.asked ≡ m.asked) × (n.subs ≡ m.subs)

Agree-AllAsked : (m n : Manager) → Agree m n → AllAsked m → AllAsked n
Agree-AllAsked m n (c, a, s) (inl h) = inl (c ∙ h)
Agree-AllAsked m n (c, a, s) (inr h) =
    inr (
      ap (map (λ (x : Bytes × Bool). x.0)) a
      ∙ h
      ∙ ap (map (λ (x : Subscription). x.filter)) (sym s))

open_client-Agree : (a : Answers) (m : Manager) → Agree m (open_client a m).1
unfolding open_client
open_client-Agree a m = ground arith

set_will-Agree : (a : Answers) (m : Manager) → Agree m (set_will a m).1
unfolding set_will
set_will-Agree a m = ground (arith, open_client-Agree a)

configure-Agree :
    (cfg : Config) (device_name : Option Bytes) (a : Answers) (m : Manager)
    → Agree m (configure cfg device_name a m).1
unfolding configure
configure-Agree cfg device_name a m =
    let prefix = topic_build topic_max (some cfg.topic_prefix) device_name none in
    elim (Bool-cases (is_whole prefix)) [
      | inl q ↦ rw q (set_will-Agree a (record m { cfg = cfg; prefix = text prefix }))
      | inr q ↦ rw q (refl, refl, refl)
    ]

pub start-Agree :
    (cfg : Option Config) (device_name : Option Bytes) (a : Answers) (m : Manager)
    → Agree m (start cfg device_name a m).1
unfolding start
start-Agree none device_name a m = (refl, refl, refl)
start-Agree (some cfg) device_name a m = ground (arith, configure-Agree cfg device_name a m)

pub filters-snoc :
    (ss : List Subscription) (s : Subscription)
    → map (λ (x : Subscription). x.filter) (ss ++ s ∷ [])
      ≡ map (λ (x : Subscription). x.filter) ss ++ s.filter ∷ []
filters-snoc [] s = refl
filters-snoc (x ∷ ss) s = ap (λ fs. x.filter ∷ fs) (filters-snoc ss s)

asked-snoc :
    (pairs : List (Bytes × Bool)) (filter : Bytes) (taken : Bool)
    → map (λ (a : Bytes × Bool). a.0) (pairs ++ (filter, taken) ∷ [])
      ≡ map (λ (a : Bytes × Bool). a.0) pairs ++ filter ∷ []
asked-snoc [] filter taken = refl
asked-snoc (a ∷ pairs) filter taken = ap (λ fs. a.0 ∷ fs) (asked-snoc pairs filter taken)

pub resubscribe_all-filters :
    (takes : ℕ → Bool) (i : ℕ) (ss : List Subscription)
    → map (λ (a : Bytes × Bool). a.0) (resubscribe_all takes i ss)
      ≡ map (λ (s : Subscription). s.filter) ss
unfolding resubscribe_all
resubscribe_all-filters takes i [] = refl
resubscribe_all-filters takes i (s ∷ ss) =
    ap (λ fs. s.filter ∷ fs) (resubscribe_all-filters takes (i + 1) ss)

pub on_session-asked :
    (takes : ℕ → Bool) (m : Manager) → (on_session takes m).asked ≡ resubscribe_all takes 0 m.subs
unfolding on_session
on_session-asked takes m = ground arith

on_session-subs : (takes : ℕ → Bool) (m : Manager) → (on_session takes m).subs ≡ m.subs
unfolding on_session
on_session-subs takes m = ground arith

subscribe-AllAsked :
    (capacity : ℕ) (suffix : Bytes) (qos : ℤ) (cb ctx : ℕ) (taken : Bool) (m : Manager)
    → not m.connected || is_connected m ≡ true
    → AllAsked m
    → AllAsked (subscribe capacity suffix qos cb ctx taken m).1
unfolding subscribe
subscribe-AllAsked capacity suffix qos cb ctx taken m p h =
    let filter = text (full_topic m.prefix suffix) in
    ground (
      arith,
      asked-snoc m.asked filter taken,
      filters-snoc m.subs (record { filter = filter; qos = qos; cb = cb; ctx = ctx }),
    )

handle-AllAsked :
    (capacity : ℕ) (e : Event) (m : Manager)
    → Allowed e m
    → AllAsked m
    → AllAsked (handle capacity e m)
unfolding handle
handle-AllAsked capacity (session_begins takes) m p h = inr (
    ap (map (λ (a : Bytes × Bool). a.0)) (on_session-asked takes m)
    ∙ resubscribe_all-filters takes 0 m.subs
    ∙ ap (map (λ (s : Subscription). s.filter)) (sym (on_session-subs takes m)))
handle-AllAsked capacity session_lost m p h = unfold on_session_lost in inl refl
handle-AllAsked capacity link_goes m p h = unfold on_link_down in ground arith
handle-AllAsked capacity stopped m p h = unfold stop in ground arith
handle-AllAsked capacity (link_comes starts) m p h = unfold on_link_up in ground arith
handle-AllAsked capacity (started cfg device_name a) m p h =
    Agree-AllAsked m (start cfg device_name a m).1 (start-Agree cfg device_name a m) h
handle-AllAsked capacity (subscribed suffix qos cb ctx taken) m p h =
    subscribe-AllAsked capacity suffix qos cb ctx taken m p h
handle-AllAsked capacity (sent suffix payload a) m p h = unfold publish in ground arith

-- Each event happens when it may.
abbrev pub AllAllowed : ℕ → List Event → Manager → Type 0
AllAllowed capacity [] m = Unit
AllAllowed capacity (e ∷ es) m = Allowed e m × AllAllowed capacity es (handle capacity e m)

-- Whatever sessions begin and are lost, whatever the link does, whichever filters the client takes or refuses, and
-- however the manager is started, stopped, given subscriptions and messages: if a subscription is only made while the
-- link is up or while there is no session, then with a session the client was told to subscribe to exactly the filters
-- of the table, in its order and each once, if that was so at first. A filter that the client refuses is not told again
-- in that session.
pub run-AllAsked :
    (capacity : ℕ) (es : List Event) (m : Manager)
    → AllAllowed capacity es m
    → AllAsked m
    → AllAsked (run capacity es m)
run-AllAsked capacity [] m p h = h
run-AllAsked capacity (e ∷ es) m p h =
    run-AllAsked capacity es (handle capacity e m) p.1 (handle-AllAsked capacity e m p.0 h)

-- A link that drops and returns under a session leaves the manager connected as it was, in between it is not, and
-- nothing is asked of the broker again.
pub link_flap :
    (capacity : ℕ) (starts : Bool) (m : Manager)
    → is_connected m ≡ true
    → m.running ≡ true
    → m.handling ≡ true
    → (is_connected (handle capacity link_goes m) ≡ false)
      × (run capacity (link_goes ∷ link_comes starts ∷ []) m ≡ m)
unfolding handle on_link_up on_link_down
link_flap capacity starts m c r h = ground arith

-- A subscription made while the session stands but the link is down, with a valid QoS, room in the table and a topic
-- that fits, is accepted and entered in the table; the client is not told to subscribe to it, and it still has not been
-- when the link is up again and the manager connected.
pub subscribe-link_comes :
    (capacity : ℕ) (suffix : Bytes) (qos : ℤ) (cb ctx : ℕ) (taken starts : Bool) (m : Manager)
    → (m.client ≡ true) × (m.connected ≡ true) × (m.link_up ≡ false) × (m.handling ≡ true)
    → (ltb_ℤ qos (pos 0) || ltb_ℤ (pos 2) qos ≡ false)
      × (length m.subs == capacity ≡ false)
      × (is_whole (full_topic m.prefix suffix) ≡ true)
    → ((subscribe capacity suffix qos cb ctx taken m).0 ≡ ok)
      × ((run capacity (subscribed suffix qos cb ctx taken ∷ link_comes starts ∷ []) m).subs
          ≡ m.subs
            ++ record { filter = text (full_topic m.prefix suffix); qos = qos; cb = cb; ctx = ctx }
              ∷ [])
      × ((run capacity (subscribed suffix qos cb ctx taken ∷ link_comes starts ∷ []) m).asked
          ≡ m.asked)
      × (is_connected (run capacity (subscribed suffix qos cb ctx taken ∷ link_comes starts ∷ []) m)
          ≡ true)
unfolding handle subscribe on_link_up
subscribe-link_comes capacity suffix qos cb ctx taken starts m (a, b, c, d) (e, f, g) = ground arith
