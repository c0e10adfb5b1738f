-- ===== src/Cli/Registry.antt =====
-- cli/src/cli_dispatch.c: the table of command groups, kept sorted by name. Pointers to groups are
-- the groups; `capacity` is CONFIG_CLI_MAX_GROUPS. A function pointer is a number.
pub mod Insertion
pub mod Sorted
pub mod Table
use Prim.Native.Nat.{Ordering}
use esp_components.Base.{
  ℕ, zero, suc, ◌+◌, Bool, true, false, not, ◌&&◌, ◌||◌, List, [], ◌∷◌, ◌++◌, Option, none, some,
  ltb, ◌==◌, if◌then◌else◌, Bytes, length, get_elem?, set, take,
}
use esp_components.Cli.Compare.{strcasecmp, is_eq, is_gt}

-- `cli_command_t`, without its texts.
pub record Command : Type 0 where
  pub name : Bytes
  pub fn : ℕ

-- `cli_group_t`, without its texts.
pub record Group : Type 0 where
  pub name : Bytes
  pub commands : List Command

pub data Status : Type 0 where
  ok invalid_arg invalid_state no_mem : Status

-- `groups` and `group_count`. The slots behind the count hold what was there before.
pub record Registry : Type 0 where
  pub slots : List Group
  pub count : ℕ

-- The groups that are registered.
abbrev pub registered : Registry → List Group
registered r = take r.count r.slots

unfoldable pub find : Bytes → List Group → Option Group
find name [] = none
find name (g ∷ gs) = if is_eq (strcasecmp g.name name) then some g else find name gs

-- `cli_find_group`
abbrev pub find_group : Registry → Bytes → Option Group
find_group r name = find name (registered r)

-- `while (i > 0 && strcasecmp(groups[i - 1]->name, group->name) > 0) { groups[i] = groups[i - 1]; i--; }`
-- and the store behind it.
unfoldable pub place : Group → ℕ → List Group → List Group
place group zero slots = set slots zero group
place group (suc i) slots = elim (get_elem? slots i) [
  | none ↦ slots
  | some before ↦
      if is_gt (strcasecmp before.name group.name)
      then place group i (set slots (suc i) before)
      else set slots (suc i) group
]

-- `cli_register_group`, of a group that is not NULL and whose name and commands are not.
unfoldable pub register_group : ℕ → Option Group → Registry → Status × Registry
register_group capacity none r = (invalid_arg, r)
register_group capacity (some group) r = elim (find_group r group.name) [
  | some there ↦ (invalid_state, r)
  | none ↦
      if r.count == capacity
      then (no_mem, r)
      else (ok, record { slots = place group r.count r.slots; count = r.count + 1 })
]
