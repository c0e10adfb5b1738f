-- ===== src/Drivers/Nau7802/Drdy.antt =====
-- nau7802/src/nau7802.c: claiming and releasing the DRDY pin, nau7802_set_drdy, and a handle's creation and deletion.
pub mod Held
use esp_components.Base.{
  ℕ, Bool, true, false, not, List, [], ◌∷◌, Option, none, some, if◌then◌else◌,
}
use esp_components.Drivers.Nau7802.{Error, invalid_arg, invalid_state, no_mem}

-- The calls of the GPIO driver and of FreeRTOS. `gpio_config`, as a pulled-down input with an interrupt on a rising
-- edge; `gpio_isr_handler_add`, `gpio_isr_handler_remove`, `gpio_set_intr_type` with GPIO_INTR_DISABLE,
-- `gpio_reset_pin`; `gpio_install_isr_service`, `xSemaphoreCreateBinary`, `vSemaphoreDelete`.
pub data Call : Type 0 where
  configure_input add_handler remove_handler disable_interrupt reset_pin : ℕ → Call
  install_service create_signal delete_signal : Call

-- What was called, and the error it failed with, if it did; the last call first.
abbrev pub Calls : Type 0
Calls = List (Call × Option Error)

abbrev pub Gpio : Type 0
Gpio = Calls → Call → Option Error

-- What of the handle is used here, and `isr_service_ready`, which is the same for all handles.
pub record Line : Type 0 where
  pub drdy_gpio : Option ℕ
  pub has_signal : Bool
  pub isr_service_ready : Bool

-- What a call leaves; no error is ESP_OK.
pub record Turn : Type 0 where
  pub status : Option Error
  pub line : Line
  pub calls : Calls

abbrev pub turn : Option Error → Line → Calls → Turn
turn status line calls = record { status = status; line = line; calls = calls }

-- `if (err == ESP_ERR_INVALID_STATE) { err = ESP_OK; }`
abbrev pub already : Option Error → Option Error
already none = none
already (some invalid_state) = none
already (some e) = some e

module _ (gpio : Gpio) where
  abbrev pub called : Call → Calls → Calls
  called c calls = (c, gpio calls c) ∷ calls

  abbrev pub freed : ℕ → Calls → Calls
  freed pin calls = called (reset_pin pin) (called (disable_interrupt pin) calls)

  abbrev pub release : Option ℕ → Line → Calls → Line × Calls
  release none line calls = (line, calls)
  release (some pin) line calls =
      (record line { drdy_gpio = none }, freed pin (called (remove_handler pin) calls))

  -- `release_drdy`
  abbrev pub release_drdy : Line → Calls → Line × Calls
  release_drdy line calls = release line.drdy_gpio line calls

  -- By what `gpio_isr_handler_add` has answered.
  abbrev pub added : ℕ → Line → Option Error → Calls → Turn
  added pin line none calls = turn none (record line { drdy_gpio = some pin }) calls
  added pin line (some e) calls = turn (some e) line (freed pin calls)

  abbrev pub listen : ℕ → Line → Calls → Turn
  listen pin line calls =
      added pin line (gpio calls (add_handler pin)) (called (add_handler pin) calls)

  abbrev pub installed : ℕ → Line → Option Error → Calls → Turn
  installed pin line none calls = listen pin (record line { isr_service_ready = true }) calls
  installed pin line (some e) calls = turn (some e) line calls

  -- By what `gpio_config` has answered.
  abbrev pub configured : ℕ → Line → Option Error → Calls → Turn
  configured pin line (some e) calls = turn (some e) line calls
  configured pin line none calls =
      if line.isr_service_ready
      then listen pin line calls
      else installed pin line (already (gpio calls install_service)) (called install_service calls)

  abbrev pub take_pin : ℕ → Line × Calls → Turn
  take_pin pin (line, calls) =
      configured pin line (gpio calls (configure_input pin)) (called (configure_input pin) calls)

  abbrev pub claim : ℕ → Line → Calls → Turn
  claim pin line calls = take_pin pin (release_drdy line calls)

  -- By what `xSemaphoreCreateBinary` has answered.
  abbrev pub signalled : ℕ → Line → Option Error → Calls → Turn
  signalled pin line none calls = claim pin (record line { has_signal = true }) calls
  signalled pin line (some e) calls = turn (some no_mem) line calls

  -- `configure_drdy`; `is_gpio` is GPIO_IS_VALID_GPIO.
  unfoldable pub configure_drdy : (ℕ → Bool) → ℕ → Line → Calls → Turn
  configure_drdy is_gpio pin line calls =
      if not (is_gpio pin)
      then turn (some invalid_arg) line calls
      else if line.has_signal
      then claim pin line calls
      else signalled pin line (gpio calls create_signal) (called create_signal calls)

  abbrev pub released : Line × Calls → Turn
  released (line, calls) = turn none line calls

  -- `nau7802_set_drdy` of a handle that is not NULL; a negative pin is none.
  unfoldable pub set_drdy : (ℕ → Bool) → Option ℕ → Line → Calls → Turn
  unfolding configure_drdy
  set_drdy is_gpio none line calls = released (release_drdy line calls)
  set_drdy is_gpio (some pin) line calls = configure_drdy is_gpio pin line calls

  -- What `nau7802_create` leaves: the handle, if there is one, and `isr_service_ready`.
  abbrev pub drop_signal : Bool → Calls → Calls
  drop_signal false calls = calls
  drop_signal true calls = called delete_signal calls

  abbrev pub made : Turn → (Option Error × Option Line) × Bool × Calls
  made t = elim t.status [
    | none ↦ ((none, some t.line), t.line.isr_service_ready, t.calls)
    | some e ↦ ((some e, none), t.line.isr_service_ready, drop_signal t.line.has_signal t.calls)
  ]

  -- `nau7802_create`, with whether there is memory for the handle, and of a pin that is not negative if there is one.
  unfoldable pub create :
      (ℕ → Bool) → Bool → Option ℕ → Bool → Calls → (Option Error × Option Line) × Bool × Calls
  unfolding set_drdy
  create is_gpio allocated pin service calls =
      if not allocated
      then ((some no_mem, none), service, calls)
      else made (
          set_drdy is_gpio pin
            (record { drdy_gpio = none; has_signal = false; isr_service_ready = service }) calls)

  -- `nau7802_delete` of a handle that is not NULL.
  unfoldable pub delete : Line → Calls → Calls
  delete line calls = drop_signal line.has_signal (release_drdy line calls).1
