-- ===== src/Wifi/Reconnect/Backoff.antt =====
-- The delays of `schedule_reconnect`.
use Prim.Native.Nat.{min}
use native.Mathlib.Nat.{one-le-pow}
use esp_components.Base.{
  ℕ, ◌*◌, ◌%◌, ◌^◌, ◌≤◌, ◌<◌, some, ltb, leb, if◌then◌else◌, ◌≡◌, refl, ap, ◌∙◌, arith, all_below,
  all_below_lem,
}
use esp_components.Wifi.State.{Manager}
use esp_components.Wifi.Reconnect.{schedule_reconnect, delay_ms, at_least_min}

-- The intervals of the configuration are `uint32_t`.
abbrev pub FitsWords : Manager → Type 0
FitsWords w =
    (w.wifi_cfg.scan_interval_ms < 4294967296) × (w.wifi_cfg.reconnect_delay_ms < 4294967296)

doubled : (k : ℕ) → k < 23 → 2 ^ k ≤ 4194304
unfolding all_below
doubled k h = ground (arith, all_below_lem 23 (λ (j : ℕ). leb (2 ^ j) 4194304) k refl h)

product-lt : (a p : ℕ) → a < 4294967296 → p ≤ 4194304 → a * p < 18446744073709551616
product-lt a p h k = grind arith

product-ge : (a p : ℕ) → 1 ≤ p → a ≤ a * p
product-ge a p h = grind arith

-- The delay with the doubling unbounded by any word.
abbrev pub backoff : ℕ → ℕ → ℕ → ℕ
backoff base interval attempts = min (base * 2 ^ min attempts 22) interval

least-lt : (ms : ℕ) → ms < 4294967296 → at_least_min ms < 4294967296
least-lt ms h = ground arith

shift_lem : (n : ℕ) → (if ltb n 22 then n else 22) ≡ min n 22
shift_lem n = ground arith

-- Below the modulus the cap is a minimum.
capped :
    (x m : ℕ) → x < 18446744073709551616 → (if ltb m (x % 2 ^ 64) then m else x % 2 ^ 64) ≡ min x m
capped x m h = ground arith

delay_ms_lem :
    (w : Manager)
    → FitsWords w
    → delay_ms w
      ≡ backoff
          (at_least_min w.wifi_cfg.reconnect_delay_ms)
          (at_least_min w.wifi_cfg.scan_interval_ms)
          w.reconnect_attempts
unfolding delay_ms
delay_ms_lem w (_, h) =
    let base = at_least_min w.wifi_cfg.reconnect_delay_ms in
    let interval = at_least_min w.wifi_cfg.scan_interval_ms in
    let small = doubled (min w.reconnect_attempts 22) (omega arith) in
    ap (λ (s : ℕ). if ltb interval (base * 2 ^ s % 2 ^ 64) then interval else base * 2 ^ s % 2 ^ 64)
      (shift_lem w.reconnect_attempts)
    ∙ capped (base * 2 ^ min w.reconnect_attempts 22) interval (
        product-lt base (2 ^ min w.reconnect_attempts 22) (least-lt w.wifi_cfg.reconnect_delay_ms h)
          small)

backoff_bounds :
    (base interval attempts : ℕ)
    → 1000 ≤ base
    → 1000 ≤ interval
    → (1000 ≤ backoff base interval attempts) × (backoff base interval attempts ≤ interval)
backoff_bounds base interval attempts h k =
    omega
      (arith, product-ge base (2 ^ min attempts 22) (one-le-pow (min attempts 22) 2 (omega arith)))

least-ge : (ms : ℕ) → 1000 ≤ at_least_min ms
least-ge ms = ground arith

-- No product wraps: a retry is armed for the configured delay, doubled for each scan since the link was last up, 22
-- times at most, but for no longer than the scan interval; each of the two counts as a second at least. So a retry
-- comes after one second at the earliest, and after the scan interval at the latest.
pub schedule_reconnect-backoff :
    (w : Manager)
    → FitsWords w
    → ((schedule_reconnect w).reconnect_timer
        ≡ some (
            backoff
              (at_least_min w.wifi_cfg.reconnect_delay_ms)
              (at_least_min w.wifi_cfg.scan_interval_ms)
              w.reconnect_attempts
            * 1000))
      × (1000 ≤ delay_ms w)
      × (delay_ms w ≤ at_least_min w.wifi_cfg.scan_interval_ms)
unfolding schedule_reconnect
schedule_reconnect-backoff w h =
    let e = delay_ms_lem w h in
    let (low, high) =
      backoff_bounds (at_least_min w.wifi_cfg.reconnect_delay_ms)
        (at_least_min w.wifi_cfg.scan_interval_ms) w.reconnect_attempts
        (least-ge w.wifi_cfg.reconnect_delay_ms) (least-ge w.wifi_cfg.scan_interval_ms) in
    let small = least-lt w.wifi_cfg.scan_interval_ms h.0 in
    rw e (ap some (omega (arith)), low, high)
