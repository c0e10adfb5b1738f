-- ===== src/Cli/Complete/Lines.antt =====
-- The parts of a line, and what is offered for its last token.
use esp_components.Base.{
  ℕ, zero, suc, Bool, true, false, not, ◌&&◌, List, [], ◌∷◌, ◌++◌, Option, some, ltb, ◌==◌,
  if◌then◌else◌, Bytes, length, take, append_assoc, ◌≡◌, refl, ap, ◌∙◌, arith,
}
use esp_components.Cli.Registry.{Registry, registered, find_group}
use esp_components.Cli.Complete.{
  prefixed, last_token, all_spaces, group_names, help, complete_group, skip_blanks, first_word,
  name_size, complete_command, complete,
}
use esp_components.Cli.Complete.Offered.{
  matching, complete_group-matching, commands_of, offer_commands-matching,
}

abbrev pub no_space : Bytes → Bool
no_space [] = true
no_space (c ∷ cs) = not (c == b' ') && no_space cs

abbrev pub blanks : ℕ → Bytes
blanks zero = []
blanks (suc n) = b' ' ∷ blanks n

last_token_plain : (token : Bytes) → no_space token ≡ true → last_token token ≡ ([], token)
unfolding last_token
last_token_plain [] h = refl
last_token_plain (c ∷ cs) h =
    let first : (c == b' ') ≡ false = ground arith in
    ap (prefixed c) (last_token_plain cs (ground arith)) ∙ rw first refl

last_token_behind :
    (front token : Bytes)
    → no_space token ≡ true
    → last_token (front ++ b' ' ∷ token) ≡ (front ++ b' ' ∷ [], token)
unfolding last_token
last_token_behind [] token h = ap (prefixed b' ') (last_token_plain token h)
last_token_behind (c ∷ []) token h = ap (prefixed c) (last_token_behind [] token h)
last_token_behind (c ∷ d ∷ front) token h = ap (prefixed c) (last_token_behind (d ∷ front) token h)

blanks_shift : (i : ℕ) (rest : Bytes) → blanks (suc i) ++ rest ≡ blanks i ++ b' ' ∷ rest
blanks_shift zero rest = refl
blanks_shift (suc i) rest = ap (λ (xs : Bytes). b' ' ∷ xs) (blanks_shift i rest)

all_spaces-blanks : (i : ℕ) → all_spaces (blanks i ++ b' ' ∷ []) ≡ true
all_spaces-blanks zero = refl
all_spaces-blanks (suc i) = all_spaces-blanks i

-- A byte that is no space stands in front of the token.
all_spaces_word :
    (i c : ℕ) (rest : Bytes) → (c == b' ') ≡ false → all_spaces (blanks i ++ c ∷ rest) ≡ false
all_spaces_word zero c rest h = ground arith
all_spaces_word (suc i) c rest h = all_spaces_word i c rest h

skip_blanks_to :
    (i c : ℕ) (rest : Bytes) → (c == b' ') ≡ false → skip_blanks (blanks i ++ c ∷ rest) ≡ c ∷ rest
unfolding skip_blanks
skip_blanks_to zero c rest h = rw h refl
skip_blanks_to (suc i) c rest h = skip_blanks_to i c rest h

first_word-some :
    (name rest : Bytes) → no_space name ≡ true → first_word (name ++ b' ' ∷ rest) ≡ some name
unfolding first_word
first_word-some [] rest h = refl
first_word-some (c ∷ name) rest h =
    let first : (c == b' ') ≡ false = ground arith in
    rw (first_word-some name rest (ground arith), first_word) (rw first refl)

-- What is done with the line, by its parts.
by_parts : Registry → ℕ → Bytes → Bytes × Bytes → List Bytes
by_parts r room line (front, token) =
    if room == 0
    then []
    else if all_spaces front
    then complete_group r token room
    else complete_command r (first_word (skip_blanks line)) token room

complete-by_parts :
    (r : Registry) (room : ℕ) (line : Bytes) {front token : Bytes}
    → last_token line ≡ (front, token)
    → complete r (some line) room ≡ by_parts r room line (front, token)
unfolding complete by_parts
complete-by_parts r room line e = ap (by_parts r room line) e

by_parts_group :
    (r : Registry) (room : ℕ) (line front token : Bytes)
    → all_spaces front ≡ true
    → by_parts r room line (front, token)
      ≡ take room (matching token (group_names (registered r) ++ help ∷ []))
unfolding by_parts
by_parts_group r zero line front token h = refl
by_parts_group r (suc room) line front token h =
    let room_left : (suc room == 0) ≡ false = ground arith in
    rw (room_left, h) (complete_group-matching r token (suc room))

complete_command-matching :
    (r : Registry) (c : ℕ) (cs token : Bytes) (room : ℕ)
    → complete_command r (some (c ∷ cs)) token room ≡ (
        if ltb (length (c ∷ cs)) name_size
        then take room (matching token (commands_of (find_group r (c ∷ cs))))
        else [])
complete_command-matching r c cs token room =
    let named : (length (c ∷ cs) == 0) ≡ false = ground arith in
    rw named (
      by_size (ltb (length (c ∷ cs)) name_size)
        (offer_commands-matching (find_group r (c ∷ cs)) token room))
  where
    by_size :
        (b : Bool) {xs zs : List Bytes}
        → xs ≡ zs
        → (if not b then [] else xs) ≡ (if b then zs else [])
    by_size true e = e
    by_size false e = refl

by_parts_command :
    (r : Registry) (room : ℕ) (line front token : Bytes) (c : ℕ) (cs : Bytes)
    → all_spaces front ≡ false
    → first_word (skip_blanks line) ≡ some (c ∷ cs)
    → by_parts r room line (front, token) ≡ (
        if ltb (length (c ∷ cs)) name_size
        then take room (matching token (commands_of (find_group r (c ∷ cs))))
        else [])
unfolding by_parts
by_parts_command r zero line front token c cs h w = both (ltb (length (c ∷ cs)) name_size)
  where
    both : (b : Bool) → ◌≡◌ {A = List Bytes} [] (if b then [] else [])
    both true = refl
    both false = refl
by_parts_command r (suc room) line front token c cs h w =
    let room_left : (suc room == 0) ≡ false = ground arith in
    rw (room_left, h)
      (ap (λ (x : Option Bytes). complete_command r x token (suc room)) w
        ∙ complete_command-matching r c cs token (suc room))

last_token-blanks :
    (i : ℕ) (token : Bytes)
    → no_space token ≡ true
    → (front : Bytes) × (last_token (blanks i ++ token) ≡ (front, token))
      × (all_spaces front ≡ true)
last_token-blanks zero token h = ([], last_token_plain token h, refl)
last_token-blanks (suc i) token h = (
  blanks i ++ b' ' ∷ [],
  ap last_token (blanks_shift i token) ∙ last_token_behind (blanks i) token h,
  all_spaces-blanks i,
)

-- What stands between two words starts with a space, or is one.
abbrev pub is_gap : Bytes → Bool
is_gap [] = true
is_gap (c ∷ cs) = c == b' '

first_word_gap :
    (name gap token : Bytes)
    → no_space name ≡ true
    → is_gap gap ≡ true
    → first_word (name ++ (gap ++ b' ' ∷ token)) ≡ some name
first_word_gap name [] token h g = first_word-some name token h
first_word_gap name (d ∷ ds) token h g =
    let space : d ≡ b' ' = ground arith in
    ap (λ (x : ℕ). first_word (name ++ x ∷ (ds ++ b' ' ∷ token))) space
    ∙ first_word-some name (ds ++ b' ' ∷ token) h

-- For a token that is the first of its line, the offers are the names of the groups, then "help", that start with it
-- in any case of letters; for a later token they are the commands of the group that the line's first word names, if
-- there is one and the word is shorter than 48 bytes. In both cases they keep their order and are the first ones
-- that there is room for.
pub complete-matching :
    (r : Registry) (room i c : ℕ) (cs gap token : Bytes)
    → no_space token ≡ true
    → no_space (c ∷ cs) ≡ true
    → is_gap gap ≡ true
    → (complete r (some (blanks i ++ token)) room
        ≡ take room (matching token (group_names (registered r) ++ help ∷ [])))
      × (complete r (some (blanks i ++ (c ∷ cs ++ (gap ++ b' ' ∷ token)))) room ≡ (
          if ltb (length (c ∷ cs)) name_size
          then take room (matching token (commands_of (find_group r (c ∷ cs))))
          else []))
complete-matching r room i c cs gap token h k g =
    let (front, e, blank) = last_token-blanks i token h in
    let rest = gap ++ b' ' ∷ token in
    let line = blanks i ++ (c ∷ cs ++ rest) in
    let before = blanks i ++ (c ∷ cs ++ gap) in
    let first : (c == b' ') ≡ false = ground arith in
    let regroup : line ≡ before ++ b' ' ∷ token = simp append_assoc in
    let inner : before ++ b' ' ∷ [] ≡ blanks i ++ c ∷ (cs ++ (gap ++ b' ' ∷ [])) =
      simp append_assoc in
    (
      complete-by_parts r room (blanks i ++ token) e
          ∙ by_parts_group r room (blanks i ++ token) front token blank,
      complete-by_parts r room line (ap last_token regroup ∙ last_token_behind before token h)
          ∙ by_parts_command r room line (before ++ b' ' ∷ []) token c cs
              (ap all_spaces inner ∙ all_spaces_word i c (cs ++ (gap ++ b' ' ∷ [])) first)
              (ap first_word (skip_blanks_to i c (cs ++ rest) first)
                ∙ first_word_gap (c ∷ cs) gap token k g),
    )
