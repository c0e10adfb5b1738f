-- ===== src/Interrupts.antt =====
-- int_dispatch/src/int_dispatch.c: the dispatcher of an interrupt line that several parts share.
pub mod Armed
mod Tests
use esp_components.Base.{
  ℕ, zero, suc, ◌+◌, ◌%◌, ◌^◌, Bool, true, false, not, ◌&&◌, ◌||◌, List, [], ◌∷◌, ◌++◌, Option,
  none, some, ltb, ◌==◌, if◌then◌else◌, length, get_elem?,
}

-- The values of `esp_err_t` other than ESP_OK.
pub data Error : Type 0 where
  invalid_arg invalid_state no_mem : Error
  other : ℕ → Error

-- Where `dispatch_task` is: in `ulTaskNotifyTake`, or in the loop, by the index of the next handler.
pub data Phase : Type 0 where
  waiting : Phase
  serving : ℕ → Phase

-- The static variables, the task and its notification, and the level of the line. A handler is a number, for its
-- function and its context; those that have been called are listed, the last first.
pub record Dispatch : Type 0 where
  pub handlers : List ℕ
  pub task : Bool
  pub pin : Option ℕ
  pub unserviced : ℕ
  pub phase : Phase
  pub notified : Bool
  pub low : Bool
  pub called : List ℕ

-- How the calls of int_dispatch_start are answered: the error of `gpio_config`, whether the task is created, the errors of
-- `gpio_install_isr_service` and of `gpio_isr_handler_add`; whether the line falls between the latter and the check of its
-- level, and that level.
pub record Answers : Type 0 where
  pub configured : Option Error
  pub created : Bool
  pub installed : Option Error
  pub added : Option Error
  pub falls_meanwhile : Bool
  pub is_low : Bool

pub data Event : Type 0 where
  starts : Option ℕ → Answers → Event
  stops falls rises wakes calls_next samples : Event
  registers : Option ℕ → Event

-- `err != ESP_OK && err != ESP_ERR_INVALID_STATE`
abbrev pub already : Option Error → Option Error
already none = none
already (some invalid_state) = none
already (some e) = some e

-- The line is listened to, and its level is checked once.
abbrev pub listening : Answers → Dispatch → Dispatch
listening a d = record d {
  task = true;
  phase = waiting;
  notified = a.falls_meanwhile || a.is_low;
  low = a.is_low;
}

abbrev pub after_adding : Option Error → Answers → Dispatch → Option Error × Dispatch
after_adding none a d = (none, listening a d)
after_adding (some e) a d = (some e, d)

abbrev pub after_installing : Option Error → Answers → Dispatch → Option Error × Dispatch
after_installing none a d = after_adding a.added a d
after_installing (some e) a d = (some e, d)

abbrev pub after_configuring : Option Error → Answers → Dispatch → Option Error × Dispatch
after_configuring (some e) a d = (some e, d)
after_configuring none a d =
    if not a.created then (some no_mem, d) else after_installing (already a.installed) a d

module _ (is_gpio : ℕ → Bool) (max_handlers : ℕ) where
  -- `int_dispatch_start`; no pin stands for a configuration that is NULL.
  unfoldable pub start : Option ℕ → Answers → Dispatch → Option Error × Dispatch
  start none a d = (some invalid_arg, d)
  start (some pin) a d =
      if not (is_gpio pin)
      then (some invalid_arg, d)
      else if d.task
      then (some invalid_state, d)
      else after_configuring a.configured a (record d { pin = some pin })

  -- `int_dispatch_stop`
  unfoldable pub stop : Dispatch → Option Error × Dispatch
  stop d =
      if not d.task
      then (some invalid_state, d)
      else (none, record d { task = false; phase = waiting; notified = false })

  -- `int_dispatch_register`
  unfoldable pub register : Option ℕ → Dispatch → Option Error × Dispatch
  register none d = (some invalid_arg, d)
  register (some handler) d =
      if length d.handlers == max_handlers
      then (some no_mem, d)
      else (none, record d { handlers = d.handlers ++ handler ∷ [] })

  -- `gpio_isr`, at a falling edge of a line that is listened to.
  abbrev pub isr : Dispatch → Dispatch
  isr d = if d.task then record d { notified = true; low = true } else record d { low = true }

  -- `ulTaskNotifyTake` returns, and the notification is gone.
  abbrev pub wake : Phase → Dispatch → Dispatch
  wake waiting d =
      if d.task && d.notified then record d { phase = serving 0; notified = false } else d
  wake (serving i) d = d

  abbrev pub call : ℕ → Option ℕ → Dispatch → Dispatch
  call i none d = d
  call i (some handler) d = record d { phase = serving (i + 1); called = handler ∷ d.called }

  -- `s_handlers[i].cb(s_handlers[i].ctx)`; what that does to the line are events of their own.
  abbrev pub call_next : Phase → Dispatch → Dispatch
  call_next waiting d = d
  call_next (serving i) d = call i (get_elem? d.handlers i) d

  -- The check behind the loop, once it has ended.
  abbrev pub sample : Phase → Dispatch → Dispatch
  sample waiting d = d
  sample (serving i) d =
      if ltb i (length d.handlers)
      then d
      else if d.low
      then record d { phase = waiting; notified = true; unserviced = (d.unserviced + 1) % 2 ^ 32 }
      else record d { phase = waiting }

  unfoldable pub handle : Event → Dispatch → Dispatch
  unfolding start stop register
  handle (starts pin a) d = (start pin a d).1
  handle stops d = (stop d).1
  handle (registers handler) d = (register handler d).1
  handle falls d = isr d
  handle rises d = record d { low = false }
  handle wakes d = wake d.phase d
  handle calls_next d = call_next d.phase d
  handle samples d = sample d.phase d

  unfoldable pub run : List Event → Dispatch → Dispatch
  unfolding handle
  run [] d = d
  run (e ∷ es) d = run es (handle e d)
