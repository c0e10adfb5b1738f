-- ===== src/Wifi/Events/Watched.antt =====
-- The manager is never left without a connection and without something that looks for one.
use esp_components.Base.{
  ℕ, Bool, true, false, ◌||◌, List, [], ◌∷◌, Option, none, some, ◌==◌, length, get_elem?, take, ◌≡◌,
  refl, ap, ◌∙◌, arith, Bool-cases, inl, inr,
}
use esp_components.Base.Int.{ℤ}
use esp_components.Wifi.State.{
  State, sta_disconnected, sta_connecting, Manager, Answers, Sizes, Network, Heard,
}
use esp_components.Wifi.Reconnect.{
  schedule_reconnect, give_up, connect_timeout_cb, start_reconnect_scan, scan_again,
  connect_from_scan_results, connect_to_best_network, join, choose, Best,
}
use esp_components.Wifi.Reconnect.Strongest.{choose-Chosen}
use esp_components.Wifi.Events.{
  Event, started, associated, scan_done, lost_ip, ap_starts, ap_stops, disconnected, got_ip,
  reconnect_fires, timeout_fires, reachability_runs, ping, scan_called, caller_scan_called,
  caller_scan_returns, disconnect_forced, handle, on_disconnected, on_scan_done, on_got_ip,
  on_lost_ip, scan_and_connect, caller_scan_begins, caller_scan_ends, reachability_task,
  record_reachability_result, lose_link,
}

abbrev pub is_armed : Option ℕ → Bool
is_armed none = false
is_armed (some us) = true

-- An attempt to connect has its timeout. Without one a retry is armed, or a scan is in flight.
abbrev pub watched_in : State → Bool → Bool → Bool
watched_in sta_connecting timeout retry = timeout
watched_in sta_disconnected timeout retry = retry
watched_in _ timeout retry = true

abbrev pub watched : Manager → Bool
watched w =
    watched_in w.state (is_armed w.connect_timeout_timer)
      (is_armed w.reconnect_timer || w.scanning || w.scan_for_caller)

schedule_reconnect-watched :
    (w : Manager) → watched w ≡ true → watched (schedule_reconnect w) ≡ true
unfolding schedule_reconnect
schedule_reconnect-watched w h = ground arith

give_up-watched : (w : Manager) → watched (give_up w) ≡ true
unfolding give_up schedule_reconnect
give_up-watched w = refl

join-watched :
    (sz : Sizes) (a : Answers) (n : Network) (w : Manager) → watched (join sz a n w) ≡ true
unfolding join
join-watched sz a n w = ground (arith)

connect_to_best_network-watched :
    (sz : Sizes) (a : Answers) (k : ℕ) (n : Network) (w : Manager)
    → get_elem? w.wifi_cfg.known_networks k ≡ some n
    → watched (connect_to_best_network sz a k w) ≡ true
unfolding connect_to_best_network
connect_to_best_network-watched sz a k n w g =
    elim (Bool-cases (length w.wifi_cfg.known_networks == 0)) [
      | inl q ↦ rw q (give_up-watched w)
      | inr q ↦ rw q (rw g (join-watched sz a n w))
    ]

module _ (sz : Sizes) (a : Answers) (w : Manager) (h : w.state ≡ sta_disconnected) where
  -- What is done, by the records and by the choice among them.
  abbrev by_index : Option ℕ → Manager
  by_index i = elim i [ none ↦ schedule_reconnect w | some k ↦ connect_to_best_network sz a k w ]

  abbrev by_records : Option (List Heard) → Manager
  by_records r = elim r [
    | none ↦ schedule_reconnect w
    | some aps ↦ by_index (choose w.wifi_cfg.known_networks (take 16 aps)).index
  ]

  retry : watched (schedule_reconnect w) ≡ true
  unfolding schedule_reconnect
  retry = ground arith

  by_index-watched :
      (aps : List Heard) → watched (by_index (choose w.wifi_cfg.known_networks aps).index) ≡ true
  by_index-watched aps = elim (choose-Chosen w.wifi_cfg.known_networks aps).0 [
    | inl e ↦ ap (λ (i : Option ℕ). watched (by_index i)) (ap (λ (b : Best). b.index) e) ∙ retry
    | inr (j, n, i, g, _, _) ↦
        ap (λ (i : Option ℕ). watched (by_index i)) i ∙ connect_to_best_network-watched sz a j n w g
  ]

  by_records-watched : (r : Option (List Heard)) → watched (by_records r) ≡ true
  by_records-watched none = retry
  by_records-watched (some aps) = by_index-watched (take 16 aps)

connect_from_scan_results-watched :
    (sz : Sizes) (a : Answers) (w : Manager)
    → w.state ≡ sta_disconnected
    → watched (connect_from_scan_results sz a w) ≡ true
unfolding connect_from_scan_results
connect_from_scan_results-watched sz a w h = by_records-watched sz a w h a.records

start_reconnect_scan-watched :
    (starts : Bool) (w : Manager)
    → (w.state ≡ sta_connecting → is_armed w.connect_timeout_timer ≡ true)
    → watched (start_reconnect_scan starts w) ≡ true
unfolding start_reconnect_scan scan_again schedule_reconnect
start_reconnect_scan-watched starts w h = ground (arith)

on_disconnected-watched :
    (reason : ℕ) (rssi : ℤ) (us : ℕ) (w : Manager)
    → watched (on_disconnected reason rssi us w) ≡ true
unfolding on_disconnected lose_link give_up schedule_reconnect
on_disconnected-watched reason rssi us w = ground (arith)

on_scan_done-watched :
    (sz : Sizes) (a : Answers) (w : Manager)
    → watched w ≡ true
    → watched (on_scan_done sz a w) ≡ true
unfolding on_scan_done
on_scan_done-watched sz a w h =
    ground (arith, connect_from_scan_results-watched sz a (record w { scanning = false }))

-- What may happen: the driver reports its start only to a station that is not connected.
abbrev pub Allowed : Event → Manager → Type 0
Allowed started w = w.state ≡ sta_disconnected
Allowed _ w = Unit

handle-watched :
    (sz : Sizes) (a : Answers) (e : Event) (w : Manager)
    → Allowed e w
    → watched w ≡ true
    → watched (handle sz a e w) ≡ true
unfolding handle
handle-watched sz a started w p h = ground arith
handle-watched sz a associated w p h = ground arith
handle-watched sz a (disconnected reason rssi us) w p h = on_disconnected-watched reason rssi us w
handle-watched sz a scan_done w p h = on_scan_done-watched sz a w h
handle-watched sz a (got_ip ip) w p h = unfold on_got_ip in ground arith
handle-watched sz a lost_ip w p h = unfold on_lost_ip give_up schedule_reconnect in ground arith
handle-watched sz a ap_starts w p h = refl
handle-watched sz a ap_stops w p h = h
handle-watched sz a reconnect_fires w p h =
    start_reconnect_scan-watched a.scan_starts (record w { reconnect_timer = none })
      (λ q. ground (arith, h, q))
handle-watched sz a timeout_fires w p h = unfold connect_timeout_cb schedule_reconnect in refl
handle-watched sz a (reachability_runs found created) w p h =
    unfold reachability_task in ground arith
handle-watched sz a (ping is_reachable) w p h = unfold record_reachability_result in ground arith
handle-watched sz a scan_called w p h = unfold scan_and_connect schedule_reconnect in ground arith
handle-watched sz a caller_scan_called w p h = unfold caller_scan_begins in ground arith
handle-watched sz a caller_scan_returns w p h =
    unfold caller_scan_ends schedule_reconnect in ground arith
handle-watched sz a disconnect_forced w p h = h

-- The events that are handled one after the other, each with the answers of the driver.
abbrev pub run : Sizes → List (Event × Answers) → Manager → Manager
run sz [] w = w
run sz ((e, a) ∷ es) w = run sz es (handle sz a e w)

-- Each event may happen when it does.
abbrev pub AllAllowed : Sizes → List (Event × Answers) → Manager → Type 0
AllAllowed sz [] w = Unit
AllAllowed sz ((e, a) ∷ es) w = Allowed e w × AllAllowed sz es (handle sz a e w)

-- Whatever events follow one another, with whatever answers of the driver, if only the driver reports the start of
-- the station to one that is disconnected: a manager that starts out watched is so at the end. While an attempt to
-- connect is in flight its timeout is armed; while there is none and no connection, the retry is armed, or a scan
-- is in flight.
pub run-watched :
    (sz : Sizes) (es : List (Event × Answers)) (w : Manager)
    → AllAllowed sz es w
    → watched w ≡ true
    → watched (run sz es w) ≡ true
run-watched sz [] w p h = h
run-watched sz ((e, a) ∷ es) w p h =
    run-watched sz es (handle sz a e w) p.1 (handle-watched sz a e w p.0 h)
