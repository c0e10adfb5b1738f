-- ===== src/Cli/Dispatch/Reaching.antt =====
-- The commands of a registered group are reached.
use esp_components.Base.{ℕ, true, false, List, [], ◌∷◌, ◌++◌, some, Bytes, ◌≡◌, refl, ap, ◌∙◌, All}
use esp_components.Cli.Compare.{strcasecmp, is_eq}
use esp_components.Cli.Registry.{Command, Group, Registry, ok, find_group, register_group}
use esp_components.Cli.Registry.Table.{IsValid, Registers, register_group-Registers}
use esp_components.Cli.Dispatch.{call, find_command, asks_help, execute_in, execute}

found-execute_in :
    (g : Group) (c : Command) (name : Bytes) (rest : List Bytes)
    → find_command g.commands name ≡ some c
    → execute_in g (name ∷ rest) ≡ call c.fn (name ∷ rest)
unfolding execute_in
found-execute_in g c name rest k = rw (k, execute_in) refl

found-execute :
    (r : Registry) (g : Group) (c : Command) (word name : Bytes) (rest : List Bytes)
    → asks_help word ≡ false
    → find_group r word ≡ some g
    → find_command g.commands name ≡ some c
    → execute r (word ∷ name ∷ rest) ≡ call c.fn (name ∷ rest)
unfolding execute
found-execute r g c word name rest h f k = rw (h, f) (found-execute_in g c name rest k)

-- The first command of that name is found.
find_command-append :
    (c : Command) (name : Bytes) (before behind : List Command)
    → All (λ (b : Command). is_eq (strcasecmp b.name name) ≡ false) before
    → is_eq (strcasecmp c.name name) ≡ true
    → find_command (before ++ c ∷ behind) name ≡ some c
unfolding find_command
find_command-append c name [] behind others named = rw named refl
find_command-append c name (b ∷ bs) behind (other, others) named =
    rw other (find_command-append c name bs behind others named)

-- When a group is registered with success in a valid table, a line whose first word is the group's name, in any
-- case of letters, and no call for help, and whose second word is the name of one of its commands, in any case of
-- letters, and of none before it in the group, runs that command with the words from that one on.
pub execute-register_group :
    (capacity : ℕ) (g : Group) (before behind : List Command) (c : Command) (r r' : Registry)
    (word name : Bytes) (rest : List Bytes)
    → IsValid capacity r
    → register_group capacity (some g) r ≡ (ok, r')
    → is_eq (strcasecmp g.name word) ≡ true
    → asks_help word ≡ false
    → g.commands ≡ before ++ c ∷ behind
    → All (λ (b : Command). is_eq (strcasecmp b.name name) ≡ false) before
    → is_eq (strcasecmp c.name name) ≡ true
    → execute r' (word ∷ name ∷ rest) ≡ call c.fn (name ∷ rest)
execute-register_group capacity g before behind c r r' word name rest v e q h split others named =
    let registers : Registers capacity g r word (ok, r') =
      rw e at (register_group-Registers capacity g r word v) in
    let (_, _, _, found) = registers in
    found-execute r' g c word name rest h (found ∙ rw q refl) (
      ap (λ (cs : List Command). find_command cs name) split
      ∙ find_command-append c name before behind others named)
