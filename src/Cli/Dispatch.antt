-- ===== src/Cli/Dispatch.antt =====
-- cli/src/cli_dispatch.c: which command a line of words runs, `cli_execute`.
pub mod Reaching
use esp_components.Base.{
  ℕ, Bool, true, false, not, ◌&&◌, ◌||◌, List, [], ◌∷◌, Option, none, some, if◌then◌else◌, Bytes,
  codes, same_bytes,
}
use esp_components.Cli.Compare.{strcasecmp, is_eq}
use esp_components.Cli.Registry.{Command, Group, Registry, find_group}

-- What `cli_execute` does, apart from its prints: nothing, a help text, an error, or the call of a
-- command's function with its arguments. The function's result is then that of `cli_execute`.
pub data Action : Type 0 where
  nothing list_groups : Action
  list_group : Group → Action
  no_group no_command : Action
  call : ℕ → List Bytes → Action

-- `find_command`
unfoldable pub find_command : List Command → Bytes → Option Command
find_command [] name = none
find_command (c ∷ cs) name = if is_eq (strcasecmp c.name name) then some c else find_command cs name

-- `strcasecmp(argv[0], "help") == 0 || strcmp(argv[0], "?") == 0`
unfoldable pub asks_help : Bytes → Bool
asks_help word = is_eq (strcasecmp word (codes "help")) || same_bytes word (codes "?")

-- `run_help`, of the words behind the first.
unfoldable pub run_help : Registry → List Bytes → Action
run_help r [] = list_groups
run_help r (name ∷ rest) = elim (find_group r name) [ none ↦ no_group | some g ↦ list_group g ]

-- `cli_execute` from the search for the command on.
unfoldable pub execute_in : Group → List Bytes → Action
execute_in g [] = list_group g
execute_in g (name ∷ rest) = elim (find_command g.commands name) [
  | none ↦ no_command
  | some c ↦ call c.fn (name ∷ rest)
]

-- `cli_execute`
unfoldable pub execute : Registry → List Bytes → Action
execute r [] = nothing
execute r (word ∷ rest) =
    if asks_help word
    then run_help r rest
    else elim (find_group r word) [ none ↦ no_group | some g ↦ execute_in g rest ]
