-- ===== src/Cli/Complete.antt =====
-- cli/src/cli_dispatch.c: `cli_complete`.
pub mod Offered
pub mod Lines
use Prim.Native.Nat.{Ordering}
use esp_components.Base.{
  ℕ, zero, suc, Bool, true, false, not, ◌&&◌, ◌||◌, List, [], ◌∷◌, ◌++◌, map, Option, none, some,
  ltb, ◌==◌, if◌then◌else◌, Bytes, length, take, codes,
}
use esp_components.Cli.Compare.{key, order, is_eq}
use esp_components.Cli.Registry.{Command, Group, Registry, registered, find_group}

-- `strncasecmp(name, token, strlen(token)) == 0`
abbrev pub starts_with : Bytes → Bytes → Bool
starts_with token name = is_eq (order (take (length token) (key name)) (key token))

-- `strrchr(line, ' ')`: the line up to its last space, that included, and what stands behind it.
abbrev pub prefixed : ℕ → Bytes × Bytes → Bytes × Bytes
prefixed c ([], token) = if c == b' ' then (c ∷ [], token) else ([], c ∷ token)
prefixed c (d ∷ ds, token) = (c ∷ d ∷ ds, token)

unfoldable pub last_token : Bytes → Bytes × Bytes
last_token [] = ([], [])
last_token (c ∷ cs) = prefixed c (last_token cs)

-- Whether nothing but spaces stands in front of the token.
abbrev pub all_spaces : Bytes → Bool
all_spaces [] = true
all_spaces (c ∷ cs) = c == b' ' && all_spaces cs

-- A loop over names that stops when there is no room left.
unfoldable pub offer : ℕ → Bytes → List Bytes → List Bytes
offer zero token names = []
offer (suc room) token [] = []
offer (suc room) token (n ∷ ns) =
    let taken = offer room token ns in
    let passed = offer (suc room) token ns in if starts_with token n then n ∷ taken else passed

abbrev pub group_names : List Group → List Bytes
group_names = map (λ (g : Group). g.name)

abbrev pub command_names : List Command → List Bytes
command_names = map (λ (c : Command). c.name)

abbrev pub help : Bytes
help = codes "help"

unfoldable pub complete_group : Registry → Bytes → ℕ → List Bytes
complete_group r token room =
    let offered = offer room token (group_names (registered r)) in
    if ltb (length offered) room && starts_with token help then offered ++ help ∷ [] else offered

-- `while (*start == ' ') start++;`
unfoldable pub skip_blanks : Bytes → Bytes
skip_blanks [] = []
skip_blanks (c ∷ cs) = if c == b' ' then skip_blanks cs else c ∷ cs

-- `strchr(start, ' ')`: what stands before a space, if there is one.
unfoldable pub first_word : Bytes → Option Bytes
first_word [] = none
first_word (c ∷ cs) =
    if c == b' '
    then some []
    else (elim (first_word cs) [ none ↦ none | some word ↦ some (c ∷ word) ])

abbrev pub name_size : ℕ
name_size = 48

abbrev pub offer_commands : Option Group → Bytes → ℕ → List Bytes
offer_commands none token room = []
offer_commands (some g) token room = offer room token (command_names g.commands)

abbrev pub complete_command : Registry → Option Bytes → Bytes → ℕ → List Bytes
complete_command r none token room = []
complete_command r (some name) token room =
    if length name == 0 || not (ltb (length name) name_size)
    then []
    else offer_commands (find_group r name) token room

-- `cli_complete`: what is written to `out`, which is not NULL and has `room` for so many.
unfoldable pub complete : Registry → Option Bytes → ℕ → List Bytes
unfolding complete_group
complete r none room = []
complete r (some line) room =
    let (front, token) = last_token line in
    if room == 0
    then []
    else if all_spaces front
    then complete_group r token room
    else complete_command r (first_word (skip_blanks line)) token room
