-- ===== src/Cli/Complete/Offered.antt =====
-- The names that are offered for a token.
use esp_components.Base.{
  ℕ, zero, suc, Bool, true, false, ◌&&◌, List, [], ◌∷◌, ◌++◌, Option, none, some, ltb,
  if◌then◌else◌, Bytes, length, take, ◌≡◌, refl, ap, ◌∙◌, sym, arith, Bool-cases, inl, inr,
}
use esp_components.Cli.Registry.{Group, Registry, registered}
use esp_components.Cli.Complete.{
  starts_with, offer, group_names, help, complete_group, offer_commands, command_names,
}

-- The names that start with the token, in any case of letters.
abbrev pub matching : Bytes → List Bytes → List Bytes
matching token [] = []
matching token (n ∷ ns) = if starts_with token n then n ∷ matching token ns else matching token ns

offer-matching :
    (room : ℕ) (token : Bytes) (ns : List Bytes)
    → offer room token ns ≡ take room (matching token ns)
unfolding offer
offer-matching zero token [] = refl
offer-matching zero token (n ∷ ns) = refl
offer-matching (suc room) token [] = refl
offer-matching (suc room) token (n ∷ ns) = elim (Bool-cases (starts_with token n)) [
  | inl q ↦ rw q (ap (λ (xs : List Bytes). n ∷ xs) (offer-matching room token ns))
  | inr q ↦ rw q (offer-matching (suc room) token ns)
]

matching-append :
    (token : Bytes) (a b : List Bytes)
    → matching token (a ++ b) ≡ matching token a ++ matching token b
matching-append token [] b = refl
matching-append token (n ∷ ns) b = elim (Bool-cases (starts_with token n)) [
  | inl q ↦ rw q (ap (λ (xs : List Bytes). n ∷ xs) (matching-append token ns b))
  | inr q ↦ rw q (matching-append token ns b)
]

take_one_more :
    (room : ℕ) (xs : List Bytes) (m : Bool) (x : Bytes)
    → (if ltb (length (take room xs)) room && m then take room xs ++ x ∷ [] else take room xs)
      ≡ take room (xs ++ (if m then x ∷ [] else []))
take_one_more zero xs m x = refl
take_one_more (suc zero) [] true x = ground arith
take_one_more (suc (suc room)) [] true x = ground arith
take_one_more (suc room) [] false x = ground arith
take_one_more (suc room) (y ∷ ys) m x =
    let t = take room ys in
    let shifted : ltb (length (y ∷ t)) (suc room) ≡ ltb (length t) room = ground arith in
    ap (λ (b : Bool). if b && m then y ∷ (t ++ x ∷ []) else y ∷ t) shifted
    ∙ behind (ltb (length t) room && m) (t ++ x ∷ []) t
    ∙ ap (λ (zs : List Bytes). y ∷ zs) (take_one_more room ys m x)
  where
    behind :
        (b : Bool) (xs zs : List Bytes)
        → (if b then y ∷ xs else y ∷ zs) ≡ y ∷ (if b then xs else zs)
    behind true xs zs = refl
    behind false xs zs = refl

-- "help" stands behind the groups.
pub complete_group-matching :
    (r : Registry) (token : Bytes) (room : ℕ)
    → complete_group r token room
      ≡ take room (matching token (group_names (registered r) ++ help ∷ []))
unfolding complete_group
complete_group-matching r token room =
    let names = group_names (registered r) in
    ap
      (λ (xs : List Bytes).
        if ltb (length xs) room && starts_with token help then xs ++ help ∷ [] else xs)
      (offer-matching room token names)
    ∙ take_one_more room (matching token names) (starts_with token help) help
    ∙ ap (take room) (sym (matching-append token names (help ∷ [])))

abbrev pub commands_of : Option Group → List Bytes
commands_of none = []
commands_of (some g) = command_names g.commands

pub offer_commands-matching :
    (g : Option Group) (token : Bytes) (room : ℕ)
    → offer_commands g token room ≡ take room (matching token (commands_of g))
offer_commands-matching none token zero = refl
offer_commands-matching none token (suc room) = refl
offer_commands-matching (some g) token room = offer-matching room token (command_names g.commands)
