-- ===== src/Interrupts/Armed.antt =====
-- An interrupt that is still asserted is never forgotten.
use esp_components.Base.{
  ℕ, Bool, true, false, not, ◌||◌, List, [], ◌∷◌, Option, none, some, if◌then◌else◌, get_elem?, ◌≡◌,
  refl, arith,
}
use esp_components.Interrupts.{
  Error, invalid_arg, invalid_state, no_mem, Phase, waiting, serving, Dispatch, Answers, Event,
  starts, stops, falls, rises, wakes, calls_next, samples, registers, already, listening,
  after_adding, after_installing, after_configuring, start, stop, register, isr, wake, call,
  call_next, sample, handle, run,
}

abbrev pub is_serving : Phase → Bool
is_serving waiting = false
is_serving (serving i) = true

-- While there is a task and the line is low, the task has been notified or has yet to check the line.
abbrev pub IsArmed : Dispatch → Type 0
IsArmed d = (not d.task || not d.low || d.notified || is_serving d.phase) ≡ true

listening-IsArmed : (a : Answers) (d : Dispatch) → IsArmed (listening a d)
listening-IsArmed a d = ground arith

after_adding-IsArmed :
    (reply : Option Error) (a : Answers) (d : Dispatch)
    → IsArmed d
    → IsArmed (after_adding reply a d).1
after_adding-IsArmed none a d h = listening-IsArmed a d
after_adding-IsArmed (some e) a d h = h

after_installing-IsArmed :
    (reply : Option Error) (a : Answers) (d : Dispatch)
    → IsArmed d
    → IsArmed (after_installing reply a d).1
after_installing-IsArmed none a d h = after_adding-IsArmed a.added a d h
after_installing-IsArmed (some e) a d h = h

after_configuring-IsArmed :
    (reply : Option Error) (a : Answers) (d : Dispatch)
    → IsArmed d
    → IsArmed (after_configuring reply a d).1
after_configuring-IsArmed (some e) a d h = h
after_configuring-IsArmed none a d h = by_task a.created
  where
    by_task :
        (created : Bool)
        → IsArmed
            (if◌then◌else◌ {A = Option Error × Dispatch}
              (not created)
              (some no_mem, d)
              (after_installing (already a.installed) a d)).1
    by_task false = h
    by_task true = after_installing-IsArmed (already a.installed) a d h

module _ (is_gpio : ℕ → Bool) (max_handlers : ℕ) where
  start-IsArmed :
      (pin : Option ℕ) (a : Answers) (d : Dispatch)
      → IsArmed d
      → IsArmed (start is_gpio max_handlers pin a d).1
  unfolding start
  start-IsArmed none a d h = h
  start-IsArmed (some pin) a d h = by_tests (is_gpio pin) d.task
    where
      by_tests :
          (valid up : Bool)
          → IsArmed
              (if◌then◌else◌ {A = Option Error × Dispatch}
                (not valid)
                (some invalid_arg, d)
                (if up
                  then (some invalid_state, d)
                  else after_configuring a.configured a (record d { pin = some pin }))).1
      by_tests false up = h
      by_tests true true = h
      by_tests true false = after_configuring-IsArmed a.configured a (record d { pin = some pin }) h

  stop-IsArmed : (d : Dispatch) → IsArmed d → IsArmed (stop is_gpio max_handlers d).1
  unfolding stop
  stop-IsArmed d h = ground arith

  isr-IsArmed : (d : Dispatch) → IsArmed d → IsArmed (isr is_gpio max_handlers d)
  isr-IsArmed d h = ground arith

  wake-IsArmed :
      (p : Phase) (d : Dispatch) → d.phase ≡ p → IsArmed d → IsArmed (wake is_gpio max_handlers p d)
  wake-IsArmed waiting d e h = ground arith
  wake-IsArmed (serving i) d e h = h

  call-IsArmed :
      (i : ℕ) (handler : Option ℕ) (d : Dispatch)
      → IsArmed d
      → IsArmed (call is_gpio max_handlers i handler d)
  call-IsArmed i none d h = h
  call-IsArmed i (some handler) d h = ground arith

  call_next-IsArmed :
      (p : Phase) (d : Dispatch) → IsArmed d → IsArmed (call_next is_gpio max_handlers p d)
  call_next-IsArmed waiting d h = h
  call_next-IsArmed (serving i) d h = call-IsArmed i (get_elem? d.handlers i) d h

  sample-IsArmed :
      (p : Phase) (d : Dispatch) → IsArmed d → IsArmed (sample is_gpio max_handlers p d)
  sample-IsArmed waiting d h = h
  sample-IsArmed (serving i) d h = ground arith

  register-IsArmed :
      (handler : Option ℕ) (d : Dispatch)
      → IsArmed d
      → IsArmed (register is_gpio max_handlers handler d).1
  unfolding register
  register-IsArmed none d h = h
  register-IsArmed (some handler) d h = ground arith

  handle-IsArmed :
      (e : Event) (d : Dispatch) → IsArmed d → IsArmed (handle is_gpio max_handlers e d)
  unfolding handle
  handle-IsArmed (starts pin a) d h = start-IsArmed pin a d h
  handle-IsArmed stops d h = stop-IsArmed d h
  handle-IsArmed (registers handler) d h = register-IsArmed handler d h
  handle-IsArmed falls d h = isr-IsArmed d h
  handle-IsArmed rises d h = ground arith
  handle-IsArmed wakes d h = wake-IsArmed d.phase d refl h
  handle-IsArmed calls_next d h = call_next-IsArmed d.phase d h
  handle-IsArmed samples d h = sample-IsArmed d.phase d h

-- Whatever the order of the calls, of the edges and of the task's steps: after them, if there is a task and the line is
-- low, the task has been notified or has yet to check the line, if that was so before.
pub run-IsArmed :
    (is_gpio : ℕ → Bool) (max_handlers : ℕ) (es : List Event) (d : Dispatch)
    → IsArmed d
    → IsArmed (run is_gpio max_handlers es d)
unfolding run
run-IsArmed is_gpio max_handlers [] d h = h
run-IsArmed is_gpio max_handlers (e ∷ es) d h =
    run-IsArmed is_gpio max_handlers es (handle is_gpio max_handlers e d)
      (handle-IsArmed is_gpio max_handlers e d h)
