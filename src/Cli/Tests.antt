-- ===== src/Cli/Tests.antt =====
-- The registry of cli/src/cli_dispatch.c on a small table.
use esp_components.Base.{[], ◌∷◌, ◌++◌, some, Bytes, codes, ◌≡◌, refl, arith}
use esp_components.Cli.Compare.{order, lower}
use esp_components.Cli.Registry.{
  Command, Group, Registry, ok, registered, find, place, register_group,
}
use esp_components.Cli.Complete.{complete}
use esp_components.Cli.Complete.Lines.{blanks, complete-matching}
use esp_components.Cli.Dispatch.{call, execute, asks_help}
use esp_components.Cli.Dispatch.Reaching.{execute-register_group}
use esp_components.Cli.Compare.{strcasecmp, is_eq}
use esp_components.Base.{true, false, same_bytes}
use esp_components.Cli.Registry.Insertion.{rev_onto}
use esp_components.Cli.Registry.Table.{IsValid, Registers, register_group-Registers}

abbrev group : Bytes → Group
group name = record { name = name; commands = [] }

abbrev wifi : Group
wifi = group (codes "wifi")

abbrev mqtt : Group
mqtt = group (codes "MQTT")

abbrev two_groups : Registry
two_groups = record { slots = group (codes "config") ∷ wifi ∷ group (codes "") ∷ []; count = 2 }

registered-mqtt :
    registered (register_group 3 (some mqtt) two_groups).1
    ≡ group (codes "config") ∷ mqtt ∷ wifi ∷ []
unfolding register_group place find order lower
registered-mqtt = refl

two_groups-IsValid : IsValid 3 two_groups
unfolding rev_onto order lower
two_groups-IsValid = record { size = refl; counted = omega arith; sorted = ((refl, tt), (tt, tt)) }

register_group-Registers_example :
    Registers 3 mqtt two_groups (codes "mqtt") (register_group 3 (some mqtt) two_groups)
register_group-Registers_example =
    register_group-Registers 3 mqtt two_groups (codes "mqtt") two_groups-IsValid

-- A group with two commands, that set and show the time.
abbrev set : Command
set = record { name = codes "set"; fn = 6 }

abbrev show : Command
show = record { name = codes "show"; fn = 7 }

abbrev clock : Group
clock = record { name = codes "time"; commands = set ∷ show ∷ [] }

abbrev with_clock : Registry
with_clock = (register_group 3 (some clock) two_groups).1

clock_registers : register_group 3 (some clock) two_groups ≡ (ok, with_clock)
unfolding register_group place find order lower
clock_registers = refl

clock_is_named : is_eq (strcasecmp clock.name (codes "TIME")) ≡ true
unfolding order lower
clock_is_named = refl

no_help : asks_help (codes "TIME") ≡ false
unfolding asks_help order lower same_bytes
no_help = refl

set_is_other : is_eq (strcasecmp set.name (codes "Show")) ≡ false
unfolding order lower
set_is_other = refl

show_is_named : is_eq (strcasecmp show.name (codes "Show")) ≡ true
unfolding order lower
show_is_named = refl

execute-register_group_example :
    execute with_clock (codes "TIME" ∷ codes "Show" ∷ []) ≡ call 7 (codes "Show" ∷ [])
execute-register_group_example =
    execute-register_group 3 clock (set ∷ []) [] show two_groups with_clock (codes "TIME")
      (codes "Show") [] two_groups-IsValid clock_registers clock_is_named no_help refl
      (set_is_other, tt) show_is_named

-- The groups that are there for completion.
abbrev clock_only : Registry
clock_only = record { slots = clock ∷ []; count = 1 }

complete-matching_example :
    (complete clock_only (some (blanks 1 ++ codes "H")) 5 ≡ codes "help" ∷ [])
    × (complete clock_only (some (blanks 1 ++ (codes "TIME" ++ ([] ++ b' ' ∷ codes "H")))) 5 ≡ [])
unfolding find order lower
complete-matching_example =
    complete-matching clock_only 5 1 b'T' (codes "IME") [] (codes "H") refl refl refl
