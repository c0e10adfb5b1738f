-- ===== src/Wifi/Events/Recovery.antt =====
-- A way back to a connection from every state of a watched station.
use esp_components.Base.{
  ℕ, Bool, true, false, ◌&&◌, List, [], ◌∷◌, Option, none, some, ◌==◌, length, get_elem?,
  same_bytes_iff, ◌≡◌, refl, ap, ◌∙◌, arith, Bool-cases, ◌⊎◌, inl, inr,
}
use esp_components.Base.Int.{ℤ, pos, negsuc, ltb_ℤ}
use esp_components.Wifi.State.{
  sta_disconnected, sta_connecting, sta_connected, Manager, Answers, Sizes, Network, Heard,
}
use esp_components.Wifi.Reconnect.{
  schedule_reconnect, connect_timeout_cb, start_reconnect_scan, scan_again,
  connect_from_scan_results, connect_to_best_network, join, choose, Best,
}
use esp_components.Wifi.Reconnect.Strongest.{choose-Chosen, is_known}
use esp_components.Wifi.Events.{
  Event, scan_done, got_ip, reconnect_fires, timeout_fires, caller_scan_returns, handle,
  on_scan_done, on_got_ip, caller_scan_ends,
}
use esp_components.Wifi.Events.Watched.{is_armed, watched}

-- The event is one that the manager waits for: the timer is armed, the scan in flight, the network joined. No other event
-- is.
abbrev pub Enabled : Event → Manager → Type 0
Enabled reconnect_fires w = is_armed w.reconnect_timer ≡ true
Enabled timeout_fires w = is_armed w.connect_timeout_timer ≡ true
Enabled scan_done w = w.scanning ≡ true
Enabled (got_ip ip) w = w.joining ≡ true
Enabled caller_scan_returns w = w.scan_for_caller ≡ true
Enabled _ w = ⊥

-- One manager becomes another by enabled events.
pub data Reach (sz : Sizes) (v : Manager) : Manager → Type 0 where
  here : Reach sz v v
  next :
      (e : Event) (a : Answers) (w : Manager)
      → Enabled e w
      → Reach sz v (handle sz a e w)
      → Reach sz v w

-- A connected manager can be reached.
abbrev pub CanConnect : Sizes → Manager → Type 0
CanConnect sz w = (v : Manager) × Reach sz v w × (v.state ≡ sta_connected)

step_on :
    (sz : Sizes) (e : Event) (a : Answers) (w : Manager)
    → Enabled e w
    → CanConnect sz (handle sz a e w)
    → CanConnect sz w
step_on sz e a w p (v, r, q) = (v, next e a w p r, q)

-- The driver accepts all calls, and its scan hears the network.
abbrev hears : Network → Answers
hears n = record {
  scan_starts = true;
  records = some (record { ssid = n.ssid; rssi = pos 0 } ∷ []);
  config_set = true;
  connects = true;
}

missed :
    (known : Bool) (r : ℤ) → known ≡ true → r ≡ negsuc 99 → (known && ltb_ℤ r (pos 0)) ≡ false → ⊥
missed known r h q k = ground (arith)

module _ (sz : Sizes) (n : Network) (ns : List Network) where
  -- A network that is heard is joined.
  abbrev by_index : Manager → Option ℕ → Manager
  by_index w i = elim i [
    | none ↦ schedule_reconnect w
    | some k ↦ connect_to_best_network sz (hears n) k w
  ]

  joined :
      (w : Manager) (k : ℕ) (m : Network)
      → w.wifi_cfg.known_networks ≡ n ∷ ns
      → get_elem? (n ∷ ns) k ≡ some m
      → (connect_to_best_network sz (hears n) k w).joining ≡ true
  unfolding connect_to_best_network join
  joined w k m e g =
      let some_known : (length w.wifi_cfg.known_networks == 0) ≡ false = rw e (ground arith) in
      let found : get_elem? w.wifi_cfg.known_networks k ≡ some m = rw e g in
      rw some_known (rw found refl)

  joins :
      (w : Manager)
      → w.wifi_cfg.known_networks ≡ n ∷ ns
      → (connect_from_scan_results sz (hears n) w).joining ≡ true
  unfolding connect_from_scan_results
  joins w e =
      let nets = w.wifi_cfg.known_networks in
      let h : Heard = record { ssid = n.ssid; rssi = pos 0 } in
      let (chosen, strongest) = choose-Chosen nets (h ∷ []) in
      let known : is_known nets h ≡ true =
        rw e (ground (arith, (same_bytes_iff n.ssid n.ssid).1 refl)) in
      elim chosen [
        | inl q ↦ absurd (
            missed (is_known nets h) (choose nets (h ∷ [])).rssi known (ap (λ (b : Best). b.rssi) q)
              strongest.0)
        | inr (j, m, i, g, _, _) ↦
            ap (λ (i : Option ℕ). (by_index w i).joining) i ∙ joined w j m e (rw e at g)
      ]

  joined_scan_done :
      (w : Manager)
      → w.state ≡ sta_disconnected
      → w.scan_for_caller ≡ false
      → w.wifi_cfg.known_networks ≡ n ∷ ns
      → (handle sz (hears n) scan_done w).joining ≡ true
  unfolding handle on_scan_done
  joined_scan_done w s c e = ground (arith, joins (record w { scanning = false }) e)

  connected_got_ip : (w : Manager) → (handle sz (hears n) (got_ip []) w).state ≡ sta_connected
  unfolding handle on_got_ip
  connected_got_ip w = ground arith

  -- A scan is in flight, for the manager itself.
  from_scan :
      (w : Manager)
      → w.state ≡ sta_disconnected
      → w.scan_for_caller ≡ false
      → w.wifi_cfg.known_networks ≡ n ∷ ns
      → w.scanning ≡ true
      → CanConnect sz w
  from_scan w s c e f =
      let done = handle sz (hears n) scan_done w in
      step_on sz scan_done (hears n) w f (
        step_on sz (got_ip []) (hears n) done (joined_scan_done w s c e)
          (_, here, connected_got_ip done))

  -- The retry is armed.
  from_retry :
      (w : Manager)
      → w.state ≡ sta_disconnected
      → w.scan_for_caller ≡ false
      → w.wifi_cfg.known_networks ≡ n ∷ ns
      → is_armed w.reconnect_timer ≡ true
      → CanConnect sz w
  unfolding handle start_reconnect_scan scan_again
  from_retry w s c e f = step_on sz reconnect_fires (hears n) w f (
      from_scan (handle sz (hears n) reconnect_fires w) (ground arith) (ground arith) (ground arith)
        (ground arith))

  -- A caller waits for its own scan.
  from_caller :
      (w : Manager)
      → w.state ≡ sta_disconnected
      → w.scan_for_caller ≡ true
      → w.wifi_cfg.known_networks ≡ n ∷ ns
      → CanConnect sz w
  unfolding handle caller_scan_ends schedule_reconnect
  from_caller w s c e = step_on sz caller_scan_returns (hears n) w c (
      from_retry (handle sz (hears n) caller_scan_returns w) (ground arith) (ground arith)
        (ground arith) (ground arith))

  from_disconnected :
      (w : Manager)
      → w.state ≡ sta_disconnected
      → w.wifi_cfg.known_networks ≡ n ∷ ns
      → watched w ≡ true
      → CanConnect sz w
  from_disconnected w s e h = elim (Bool-cases w.scan_for_caller) [
    | inl c ↦ from_caller w s c e
    | inr c ↦ elim (Bool-cases (is_armed w.reconnect_timer)) [
      | inl r ↦ from_retry w s c e r
      | inr r ↦ from_scan w s c e (ground arith)
    ]
  ]

  from_connecting :
      (w : Manager)
      → w.state ≡ sta_connecting
      → w.wifi_cfg.known_networks ≡ n ∷ ns
      → watched w ≡ true
      → CanConnect sz w
  unfolding handle connect_timeout_cb schedule_reconnect
  from_connecting w s e h =
      step_on sz timeout_fires (hears n) w (ground arith)
        (from_disconnected (handle sz (hears n) timeout_fires w) refl e refl)

-- From every state of a watched station that knows some network, whether it is connecting, disconnected or
-- connected, there is a way to a connection by events that the manager itself waits for, and by no others: a timer that
-- is armed fires, a scan that is in flight ends, a network that is joined gives an address. The driver's answers on the
-- way, and what a scan hears, are chosen.
pub watched-CanConnect :
    (sz : Sizes) (n : Network) (ns : List Network) (w : Manager)
    → w.wifi_cfg.known_networks ≡ n ∷ ns
    → (w.state ≡ sta_disconnected) ⊎ ((w.state ≡ sta_connecting) ⊎ (w.state ≡ sta_connected))
    → watched w ≡ true
    → CanConnect sz w
watched-CanConnect sz n ns w e (inl s) h = from_disconnected sz n ns w s e h
watched-CanConnect sz n ns w e (inr (inl s)) h = from_connecting sz n ns w s e h
watched-CanConnect sz n ns w e (inr (inr s)) h = (w, here, s)
