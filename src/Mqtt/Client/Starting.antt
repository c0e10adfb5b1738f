-- ===== src/Mqtt/Client/Starting.antt =====
-- A manager that is started while the link is up already.
use esp_components.Base.{
  ℕ, Bool, true, false, List, [], ◌∷◌, Option, none, some, Bytes, ◌≡◌, ◌⊎◌, refl, inl, inr, map, ap,
  ◌∙◌, arith, Bool-cases,
}
use esp_components.Mqtt.Building.{topic_build}
use esp_components.Mqtt.Client.{
  Status, ok, Config, Manager, Answers, Event, link_goes, link_comes, handle, run, on_link_up,
  on_link_down, start, configure, set_will, open_client, text, is_whole, topic_max,
}

-- The link goes, or comes with what the client library answers.
abbrev pub link : Option Bool → Event
link none = link_goes
link (some starts) = link_comes starts

unheard_one :
    (capacity : ℕ) (e : Option Bool) (m : Manager)
    → m.handling ≡ false
    → handle capacity (link e) m ≡ m
unfolding handle
unheard_one capacity none m h = ground arith
unheard_one capacity (some starts) m h = ground arith

unheard :
    (capacity : ℕ) (es : List (Option Bool)) (m : Manager)
    → m.handling ≡ false
    → run capacity (map link es) m ≡ m
unheard capacity [] m h = refl
unheard capacity (e ∷ es) m h =
    ap (run capacity (map link es)) (unheard_one capacity e m h) ∙ unheard capacity es m h

abbrev pub is_ok : Status → Bool
is_ok ok = true
is_ok _ = false

-- Either the call fails, or it leaves a client that was not started and that waits for the link.
abbrev Waits : Status × Manager → Type 0
Waits (s, m) = (is_ok s ≡ false) ⊎ ((m.client ≡ true) × (m.handling ≡ true) × (m.running ≡ false))

open_client-Waits :
    (a : Answers) (m : Manager) → m.link_up ≡ false → m.running ≡ false → Waits (open_client a m)
unfolding open_client
open_client-Waits a m l r = ground arith

set_will-Waits :
    (a : Answers) (m : Manager) → m.link_up ≡ false → m.running ≡ false → Waits (set_will a m)
unfolding set_will
set_will-Waits a m l r = ground (arith, open_client-Waits a)

configure-Waits :
    (cfg : Config) (device_name : Option Bytes) (a : Answers) (m : Manager)
    → m.link_up ≡ false
    → m.running ≡ false
    → Waits (configure cfg device_name a m)
unfolding configure
configure-Waits cfg device_name a m l r =
    let prefix = topic_build topic_max (some cfg.topic_prefix) device_name none in
    elim (Bool-cases (is_whole prefix)) [
      | inl q ↦ rw q (set_will-Waits a (record m { cfg = cfg; prefix = text prefix }) l r)
      | inr q ↦ rw q (inl refl)
    ]

start-Waits :
    (cfg : Option Config) (device_name : Option Bytes) (a : Answers) (m : Manager)
    → m.link_up ≡ false
    → m.running ≡ false
    → Waits (start cfg device_name a m)
unfolding start
start-Waits none device_name a m l r = inl refl
start-Waits (some cfg) device_name a m l r = ground (arith, configure-Waits cfg device_name a m l r)

pub not_ok : (s : Status) → s ≡ ok → is_ok s ≡ false → ⊥
not_ok s e h = grind arith

flap :
    (capacity : ℕ) (m : Manager)
    → (m.client ≡ true) × (m.handling ≡ true) × (m.running ≡ false)
    → (run capacity (link_goes ∷ link_comes true ∷ []) m).running ≡ true
unfolding handle on_link_up on_link_down
flap capacity m (c, h, r) = ground arith

started_ok :
    (r : Status × Manager)
    → r.0 ≡ ok
    → Waits r
    → (r.1.client ≡ true) × (r.1.handling ≡ true) × (r.1.running ≡ false)
started_ok (s, m) e (inl h) = absurd (not_ok s e h)
started_ok (s, m) e (inr h) = h

-- However often the link has come and gone before a first start that succeeds, the client is not started by it,
-- whether the link is up or not; it is when the link goes and comes again and the client library agrees.
pub start-unheard :
    (capacity : ℕ) (es : List (Option Bool)) (cfg : Option Config) (device_name : Option Bytes)
    (a : Answers) (m : Manager)
    → (m.handling ≡ false) × (m.link_up ≡ false) × (m.running ≡ false)
    → (start cfg device_name a (run capacity (map link es) m)).0 ≡ ok
    → ((start cfg device_name a (run capacity (map link es) m)).1.running ≡ false)
      × ((run capacity
            (link_goes ∷ link_comes true ∷ [])
            (start cfg device_name a (run capacity (map link es) m)).1).running
          ≡ true)
start-unheard capacity es cfg device_name a m (h, l, r) e =
    let n = run capacity (map link es) m in
    let quiet = unheard capacity es m h in
    let waits = started_ok (start cfg device_name a n) e (
      start-Waits cfg device_name a n (ap (λ (x : Manager). x.link_up) quiet ∙ l)
        (ap (λ (x : Manager). x.running) quiet ∙ r)) in
    (waits.2, flap capacity (start cfg device_name a n).1 waits)
