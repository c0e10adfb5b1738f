-- ===== src/Drivers/Nau7802/Tests.antt =====
-- Runs on a bus that answers, and on whole numbers for the floating point numbers.
use esp_components.Base.{
  ℕ, zero, suc, ◌+◌, ◌-◌, ◌*◌, ◌/◌, true, false, not, List, [], ◌∷◌, Option, none, some, ltb, leb,
  ◌==◌, if◌then◌else◌, ◌≡◌, refl, sym, ap, ◌∙◌, ◌⊎◌, arith,
}
use esp_components.Base.Int.{ℤ, pos, negsuc}
use esp_components.Drivers.Floats.{Floats}
use esp_components.Drivers.Nau7802.{invalid_state, no_mem}
use esp_components.Drivers.Nau7802.{
  Error, ok, failed, store, load, take_signal, level, Reply, nack, acked, Log, Bus, Handle,
  wait_for_bit, read_raw,
}
use esp_components.Drivers.Nau7802.Power.Regulator.{ctrl1, guarded, Answers}
use esp_components.Drivers.Nau7802.Lifecycle.{Opts, bring_up, reset_scale}
use esp_components.Drivers.Nau7802.Lifecycle.Guarded.{bring_up-guarded}
use esp_components.Drivers.Nau7802.Setters.{gain, change}
use esp_components.Drivers.Nau7802.Averaging.{no_stats, read_average}
use esp_components.Drivers.Nau7802.Weighing.{weigh, calibrate, tare}
use esp_components.Drivers.Nau7802.Weighing.Measured.{IsRefused, IsTaken, calibrate-IsTaken}
use esp_components.Drivers.Nau7802.Weighing.Stale.{acknowledged, refusal, change-weigh}
use esp_components.Drivers.Nau7802.Status.{
  get_status, gain_from_value, rate_from_sps, index_from, decode_ocal,
}
use esp_components.Drivers.Nau7802.Quiet.{stores}
use esp_components.Drivers.Nau7802.Quiet.Measuring.{measuring-stores}
use esp_components.Drivers.Nau7802.Drdy.{
  add_handler, install_service, configure_input, create_signal, Calls, Gpio, Line, set_drdy,
}
use esp_components.Drivers.Nau7802.Drdy.Held.{Ends, set_drdy-IsHeld}
use esp_components.Drivers.Nau7802.Waiting.{Ended, wait_for_bit-Ended}

abbrev held_or_reset : Option ℕ → ℕ
held_or_reset none = 0
held_or_reset (some c) = c

-- A device that is ready at once, and whose conversions are all -8388607.
abbrev loaded : ℕ → Option ℕ → Reply
loaded reg held =
    if reg == 1
    then acked (held_or_reset held ∷ [])
    else if reg == 0
    then acked (0x28 ∷ [])
    else if reg == 0x12
    then acked (0x80 ∷ 0x00 ∷ 0x01 ∷ [])
    else acked (0 ∷ [])

abbrev device : Bus
device log (store reg value) = acked []
device log (load reg len) = loaded reg (ctrl1 log)
device log (take_signal ms) = acked []
device log (level pin) = acked []

abbrev bytes_in : Reply → List ℕ
bytes_in (nack code) = []
bytes_in (acked bytes) = bytes

device-Answers : Answers device
device-Answers log c bytes held answered =
    sym (ap bytes_in answered) ∙ ap (λ (o : Option ℕ). held_or_reset o ∷ []) held

abbrev magnitude : ℤ → ℕ
magnitude (pos n) = n
magnitude (negsuc n) = n + 1

abbrev root : ℕ → ℕ → ℕ
root zero n = 0
root (suc k) n = if leb ((k + 1) * (k + 1)) n then k + 1 else root k n

abbrev numbers : Floats
numbers = record {
  R = ℕ;
  of_int = magnitude;
  add = λ a b. a + b;
  sub = λ a b. if ltb a b then b - a else a - b;
  mul = λ a b. a * b;
  div = λ a b. if b == 0 then 0 else a / b;
  fabs = λ a. a;
  sqrt = λ a. root a a;
  hypot = λ a b. a + b;
  lt = ltb;
  le = leb;
  eq = λ a b. a == b;
  is_finite = λ a. true;
}

abbrev tared : Handle ℕ
tared = record {
  dev = true;
  ready = true;
  drdy_gpio = none;
  scale = record {
    tare_counts = 1000;
    tare_stderr = 3;
    tare_samples = 4;
    counts_per_unit = 7;
    calibrated = true;
    supplied = true;
  };
}

abbrev asleep : Handle ℕ
asleep = record tared { ready = false }

abbrev options : Opts ℕ
options = record { ldo = some 5; gain = some 7; counts_per_unit = some 12 }

bring_up-guarded_example :
    guarded 5 (bring_up 0 device (λ n. not (n == 0)) asleep options []).log ≡ true
bring_up-guarded_example =
    bring_up-guarded 0 device (λ n. not (n == 0)) asleep options 5 [] device-Answers
      (refl, omega arith, refl) refl

-- The bit is never shown.
wait_for_bit-Ended_example :
    Ended 0 64 true (0 + 2000 / 10 + 1) (wait_for_bit device true 0 64 true 2000 [])
wait_for_bit-Ended_example = wait_for_bit-Ended device true 0 64 true 2000 [] (omega arith)

calibrate-IsTaken_example :
    IsRefused numbers tared (calibrate numbers device tared 100 3 [])
    ⊎ (IsTaken numbers tared 100 (calibrate numbers device tared 100 3 [])
        × ((100 == 0) ≡ false)
        × ((read_average numbers device tared 3 (no_stats numbers) []).0
            ≡ (ok tt, (calibrate numbers device tared 100 3 []).stored.0)))
calibrate-IsTaken_example = calibrate-IsTaken numbers device tared 100 3 []

change-weigh_example :
    ((e : Error) × ((change 0 device (gain 7) tared []).status ≡ failed e)
      × ((change 0 device (gain 7) tared []).handle ≡ tared)
      × ((change 0 device (gain 7) tared []).report ≡ none)
      × (acknowledged (change 0 device (gain 7) tared []).log ≡ 0))
    ⊎ (((change 0 device (gain 7) tared []).handle ≡ reset_scale 0 device tared)
        × ((samples : ℕ) (later : Log)
            → weigh numbers device (change 0 device (gain 7) tared []).handle samples later
              ≡ refusal numbers device later))
change-weigh_example = change-weigh numbers device (gain 7) tared []

calibrate_of_a_load : (calibrate numbers device tared 100 3 []).status ≡ ok tt
unfolding calibrate read_raw wait_for_bit
calibrate_of_a_load = refl

measuring-stores_example :
    (stores (tare numbers device tared 3 []).log ≡ 0)
    × (stores (calibrate numbers device tared 100 3 []).log ≡ 0)
    × (stores (weigh numbers device tared 3 []).1 ≡ 0)
    × (stores (get_status numbers device tared []).1 ≡ 0)
measuring-stores_example = measuring-stores numbers device tared 100 3 []

-- A board where the interrupt service is there already, and no handler can be added for pin 9.
abbrev board : Gpio
board calls install_service = some invalid_state
board calls (add_handler pin) = if pin == 9 then some no_mem else none
board calls call = none

abbrev with_pin_4 : Line
with_pin_4 = record { drdy_gpio = some 4; has_signal = true; isr_service_ready = false }

abbrev pin_4_taken : Calls
pin_4_taken = (add_handler 4, none) ∷ (configure_input 4, none) ∷ (create_signal, none) ∷ []

set_drdy-IsHeld_example :
    Ends (some 4) (some 9) (set_drdy board (λ pin. ltb pin 40) (some 9) with_pin_4 pin_4_taken)
set_drdy-IsHeld_example =
    set_drdy-IsHeld board (λ pin. ltb pin 40) (some 9) with_pin_4 pin_4_taken λ p. ground arith

pin_9_is_given_up :
    (set_drdy board (λ pin. ltb pin 40) (some 9) with_pin_4 pin_4_taken).line.drdy_gpio ≡ none
unfolding set_drdy
pin_9_is_given_up = refl

gain_128_by_its_value : gain_from_value 128 ≡ some 7
unfolding index_from
gain_128_by_its_value = refl

rate_90_is_no_choice : rate_from_sps 90 ≡ none
unfolding index_from
rate_90_is_no_choice = refl

ocal_of_the_comment : decode_ocal 0x800622 ≡ negsuc 1569
unfolding decode_ocal
ocal_of_the_comment = refl
