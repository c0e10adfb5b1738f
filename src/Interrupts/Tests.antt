-- ===== src/Interrupts/Tests.antt =====
-- A line that is low before anyone listens to it, and a handler that leaves it low.
use esp_components.Base.{true, false, List, [], ◌∷◌, none, some, ltb, ◌≡◌, refl}
use esp_components.Interrupts.{
  waiting, Dispatch, Answers, Event, starts, wakes, calls_next, samples, registers, run,
}
use esp_components.Interrupts.Armed.{IsArmed, run-IsArmed}

abbrev idle : Dispatch
idle = record {
  handlers = [];
  task = false;
  pin = none;
  unserviced = 0;
  phase = waiting;
  notified = false;
  low = false;
  called = [];
}

abbrev low_already : Answers
low_already = record {
  configured = none;
  created = true;
  installed = none;
  added = none;
  falls_meanwhile = false;
  is_low = true;
}

abbrev one_round : List Event
one_round = registers (some 3) ∷ starts (some 4) low_already ∷ wakes ∷ calls_next ∷ samples ∷ []

run-IsArmed_example : IsArmed (run (λ pin. ltb pin 40) 8 one_round idle)
run-IsArmed_example = run-IsArmed (λ pin. ltb pin 40) 8 one_round idle refl

round_is_counted : (run (λ pin. ltb pin 40) 8 one_round idle).unserviced ≡ 1
unfolding run
round_is_counted = refl

round_is_repeated : (run (λ pin. ltb pin 40) 8 one_round idle).notified ≡ true
unfolding run
round_is_repeated = refl
