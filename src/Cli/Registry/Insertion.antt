-- ===== src/Cli/Registry/Insertion.antt =====
-- The insertion loop on the array, as insertion into the list of groups read from the end.
use esp_components.Base.{
  ℕ, suc, ◌+◌, List, [], ◌∷◌, ◌++◌, some, if◌then◌else◌, length, get_elem?, set, take, ◌≡◌, refl,
  ap, ◌∙◌, arith, Bool-cases, inl, inr,
}
use esp_components.Cli.Compare.{strcasecmp, is_gt}
use esp_components.Cli.Registry.{Group, place}

-- A list in front of another, in reverse.
unfoldable pub rev_onto {ℓ} : {A : Type ℓ} → List A → List A → List A
rev_onto [] ys = ys
rev_onto (x ∷ xs) ys = rev_onto xs (x ∷ ys)

module _ {ℓ} {A : Type ℓ} where
  get_elem?-rev_onto :
      (bs : List A) (k : ℕ) (ys : List A)
      → get_elem? (rev_onto bs ys) (k + length bs) ≡ get_elem? ys k
  unfolding rev_onto
  get_elem?-rev_onto [] k ys = ap (get_elem? ys) (omega arith)
  get_elem?-rev_onto (b ∷ bs) k ys =
      ap (get_elem? (rev_onto bs (b ∷ ys))) (omega arith) ∙ get_elem?-rev_onto bs (suc k) (b ∷ ys)

  set-rev_onto :
      (bs : List A) (k : ℕ) (ys : List A) (v : A)
      → set (rev_onto bs ys) (k + length bs) v ≡ rev_onto bs (set ys k v)
  unfolding rev_onto
  set-rev_onto [] k ys v = ap (λ (n : ℕ). set ys n v) (omega arith)
  set-rev_onto (b ∷ bs) k ys v =
      ap (λ (n : ℕ). set (rev_onto bs (b ∷ ys)) n v) (omega arith)
      ∙ set-rev_onto bs (suc k) (b ∷ ys) v

  pub rev_onto-rev_onto :
      (xs zs ys : List A) → rev_onto (rev_onto xs zs) ys ≡ rev_onto zs (xs ++ ys)
  unfolding rev_onto
  rev_onto-rev_onto [] zs ys = refl
  rev_onto-rev_onto (x ∷ xs) zs ys = rev_onto-rev_onto xs (x ∷ zs) ys

  pub length-rev_onto : (xs ys : List A) → length (rev_onto xs ys) ≡ length xs + length ys
  unfolding rev_onto
  length-rev_onto [] ys = omega arith
  length-rev_onto (x ∷ xs) ys = omega (arith, length-rev_onto xs (x ∷ ys))

  rev_onto-append : (bs zs ys : List A) → rev_onto bs (zs ++ ys) ≡ rev_onto bs zs ++ ys
  unfolding rev_onto
  rev_onto-append [] zs ys = refl
  rev_onto-append (b ∷ bs) zs ys = rev_onto-append bs (b ∷ zs) ys

  take-length : (xs ys : List A) → take (length xs) (xs ++ ys) ≡ xs
  take-length [] ys = refl
  take-length (x ∷ xs) ys = ap (◌∷◌ x) (take-length xs ys)

  pub take-rev_onto : (bs ys : List A) → take (length bs) (rev_onto bs ys) ≡ rev_onto bs []
  take-rev_onto bs ys =
      let size : length bs ≡ length (rev_onto bs []) = omega (arith, length-rev_onto bs []) in
      rw (rev_onto-append bs [] ys, size) (take-length (rev_onto bs []) ys)

-- Insertion into a list of groups whose greatest name stands first.
unfoldable pub insert_back : Group → List Group → List Group
insert_back g [] = g ∷ []
insert_back g (b ∷ bs) =
    if is_gt (strcasecmp b.name g.name) then b ∷ insert_back g bs else g ∷ b ∷ bs

pub length-insert_back : (g : Group) (bs : List Group) → length (insert_back g bs) ≡ suc (length bs)
unfolding insert_back
length-insert_back g [] = refl
length-insert_back g (b ∷ bs) = ground (arith, length-insert_back g bs)

pub place-rev_onto :
    (g j : Group) (bs ys : List Group)
    → place g (length bs) (rev_onto bs (j ∷ ys)) ≡ rev_onto (insert_back g bs) ys
unfolding place rev_onto insert_back
place-rev_onto g j [] ys = refl
place-rev_onto g j (b ∷ bs) ys =
    let found : get_elem? (rev_onto bs (b ∷ j ∷ ys)) (length bs) ≡ some b =
      ap (get_elem? (rev_onto bs (b ∷ j ∷ ys))) (omega arith)
      ∙ get_elem?-rev_onto bs 0 (b ∷ j ∷ ys) in
    let stored : (v : Group)
        → set (rev_onto bs (b ∷ j ∷ ys)) (suc (length bs)) v ≡ rev_onto bs (b ∷ v ∷ ys) =
      λ v.
        ap (λ (n : ℕ). set (rev_onto bs (b ∷ j ∷ ys)) n v) (omega arith)
        ∙ set-rev_onto bs 1 (b ∷ j ∷ ys) v in
    rw (found, place)
      (elim (Bool-cases (is_gt (strcasecmp b.name g.name))) [
        | inl e ↦ rw (e, stored b) (place-rev_onto g b bs (b ∷ ys))
        | inr e ↦ rw (e, stored g)
      ])
