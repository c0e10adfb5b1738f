-- ===== src/Drivers/Nau7802/Drdy/Held.antt =====
-- Which pins the interrupt handlers of a history of calls are for.
use esp_components.Base.{
  ℕ, Bool, true, false, not, ◌&&◌, ◌||◌, [], ◌∷◌, Option, none, some, ◌==◌, if◌then◌else◌, ◌≡◌,
  refl, sym, ◌⊎◌, inl, inr, ◌∙◌, ap, arith,
}
use esp_components.Drivers.Nau7802.{Error, invalid_arg}
use esp_components.Drivers.Nau7802.Drdy.{
  configure_input, add_handler, remove_handler, disable_interrupt, reset_pin, install_service,
  create_signal, delete_signal, Calls, Gpio, Line, Turn, turn, already, called, freed, release,
  release_drdy, added, listen, installed, configured, claim, signalled, configure_drdy, set_drdy,
}

-- A handler is there once it has been added, until it is removed.
abbrev pub listening : ℕ → Calls → Bool
listening p [] = false
listening p ((add_handler q, none) ∷ calls) = p == q || listening p calls
listening p ((add_handler q, some e) ∷ calls) = listening p calls
listening p ((remove_handler q, reply) ∷ calls) = not (p == q) && listening p calls
listening p ((configure_input q, reply) ∷ calls) = listening p calls
listening p ((disable_interrupt q, reply) ∷ calls) = listening p calls
listening p ((reset_pin q, reply) ∷ calls) = listening p calls
listening p ((install_service, reply) ∷ calls) = listening p calls
listening p ((create_signal, reply) ∷ calls) = listening p calls
listening p ((delete_signal, reply) ∷ calls) = listening p calls

abbrev pub named : ℕ → Option ℕ → Bool
named p none = false
named p (some q) = p == q

-- Handlers are there for the handle's pin, and for no other.
abbrev pub IsHeld : Line → Calls → Type 0
IsHeld line calls = (p : ℕ) → listening p calls ≡ named p line.drdy_gpio

-- The pin that a call leaves: the one that was asked for, or, after an error, the one that was there, or none.
abbrev pub Kept : Option ℕ → Option ℕ → Option ℕ → Option Error → Type 0
Kept before wanted after none = after ≡ wanted
Kept before wanted after (some e) = (after ≡ before) ⊎ (after ≡ none)

abbrev pub Ends : Option ℕ → Option ℕ → Turn → Type 0
Ends before wanted t = IsHeld t.line t.calls × Kept before wanted t.line.drdy_gpio t.status

module _ (gpio : Gpio) where
  release-IsHeld :
      (pin : Option ℕ) (line : Line) (calls : Calls)
      → line.drdy_gpio ≡ pin
      → IsHeld line calls
      → IsHeld (release gpio pin line calls).0 (release gpio pin line calls).1
        × ((release gpio pin line calls).0.drdy_gpio ≡ none)
  release-IsHeld none line calls e h = (h, e)
  release-IsHeld (some pin) line calls e h = (λ p. rw (h p ∙ ap (named p) e) (ground arith), refl)

  module _ (before : Option ℕ) (pin : ℕ) where
    -- A line without a pin, and nothing listens.
    abbrev IsFree : Line → Calls → Type 0
    IsFree line calls = (line.drdy_gpio ≡ none) × ((p : ℕ) → listening p calls ≡ false)

    failed-Ends :
        (e : Error) (line : Line) (calls : Calls)
        → IsFree line calls
        → Ends before (some pin) (turn (some e) line calls)
    failed-Ends e line calls (n, f) = (λ p. f p ∙ ap (named p) (sym n), inr n)

    added-Ends :
        (line : Line) (reply : Option Error) (calls : Calls)
        → IsFree line calls
        → Ends before (some pin) (added gpio pin line reply ((add_handler pin, reply) ∷ calls))
    added-Ends line none calls (n, f) = (λ p. rw (f p) (ground arith), refl)
    added-Ends line (some e) calls (n, f) =
        failed-Ends e line (freed gpio pin ((add_handler pin, some e) ∷ calls)) (n, f)

    installed-Ends :
        (line : Line) (reply verdict : Option Error) (calls : Calls)
        → IsFree line calls
        → Ends before
            (some pin)
            (installed gpio pin line verdict ((install_service, reply) ∷ calls))
    installed-Ends line reply none calls (n, f) =
        added-Ends (record line { isr_service_ready = true }) _ ((install_service, reply) ∷ calls)
          (n, f)
    installed-Ends line reply (some e) calls (n, f) =
        failed-Ends e line ((install_service, reply) ∷ calls) (n, f)

    configured-Ends :
        (line : Line) (reply : Option Error) (calls : Calls)
        → IsFree line calls
        → Ends before
            (some pin)
            (configured gpio pin line reply ((configure_input pin, reply) ∷ calls))
    configured-Ends line (some e) calls (n, f) =
        failed-Ends e line ((configure_input pin, some e) ∷ calls) (n, f)
    configured-Ends line none calls (n, f) = by_service line.isr_service_ready
      where
        now : Calls
        now = (configure_input pin, none) ∷ calls

        by_service :
            (ready : Bool)
            → Ends before (some pin) (
                if ready
                then listen gpio pin line now
                else installed gpio pin line
                    (already (gpio now install_service))
                    (called gpio install_service now))
        by_service true = added-Ends line _ now (n, f)
        by_service false = installed-Ends line (gpio now install_service) _ now (n, f)

    claim-Ends :
        (line : Line) (calls : Calls)
        → IsHeld line calls
        → Ends before (some pin) (claim gpio pin line calls)
    claim-Ends line calls h =
        let (held, n) = release-IsHeld line.drdy_gpio line calls refl h in
        configured-Ends (release_drdy gpio line calls).0 _ (release_drdy gpio line calls).1
          (n, λ p. held p ∙ ap (named p) n)

    signalled-Ends :
        (line : Line) (reply : Option Error) (calls : Calls)
        → line.drdy_gpio ≡ before
        → IsHeld line calls
        → Ends before (some pin) (signalled gpio pin line reply ((create_signal, reply) ∷ calls))
    signalled-Ends line none calls e h =
        claim-Ends (record line { has_signal = true }) ((create_signal, none) ∷ calls) h
    signalled-Ends line (some _) calls e h = (h, inl e)

  configure_drdy-Ends :
      (is_gpio : ℕ → Bool) (pin : ℕ) (line : Line) (calls : Calls)
      → IsHeld line calls
      → Ends line.drdy_gpio (some pin) (configure_drdy gpio is_gpio pin line calls)
  unfolding configure_drdy
  configure_drdy-Ends is_gpio pin line calls h = by_tests (is_gpio pin) line.has_signal
    where
      by_tests :
          (valid signal : Bool)
          → Ends line.drdy_gpio (some pin) (
              if not valid
              then turn (some invalid_arg) line calls
              else if signal
              then claim gpio pin line calls
              else signalled gpio pin line
                  (gpio calls create_signal)
                  (called gpio create_signal calls))
      by_tests false signal = (h, inl refl)
      by_tests true true = claim-Ends line.drdy_gpio pin line calls h
      by_tests true false = signalled-Ends line.drdy_gpio pin line _ calls refl h

-- Where a handler is there for the handle's pin and for no other, that is so after nau7802_set_drdy too, whatever is
-- answered: its success leaves the handle with the pin that was asked for, or with none if none was, and an error leaves
-- it with the pin it had, or with none.
pub set_drdy-IsHeld :
    (gpio : Gpio) (is_gpio : ℕ → Bool) (pin : Option ℕ) (line : Line) (calls : Calls)
    → IsHeld line calls
    → Ends line.drdy_gpio pin (set_drdy gpio is_gpio pin line calls)
unfolding set_drdy
set_drdy-IsHeld gpio is_gpio none line calls h =
    release-IsHeld gpio line.drdy_gpio line calls refl h
set_drdy-IsHeld gpio is_gpio (some pin) line calls h =
    configure_drdy-Ends gpio is_gpio pin line calls h
