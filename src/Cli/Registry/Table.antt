-- ===== src/Cli/Registry/Table.antt =====
-- The registry of cli/src/cli_dispatch.c as a whole: the outcomes of `cli_register_group`.
use esp_components.Base.{
  ℕ, suc, ◌+◌, ◌≤◌, ◌<◌, true, false, List, [], ◌∷◌, ◌++◌, Option, none, some, ◌==◌, if◌then◌else◌,
  Bytes, length, take, drop, take-append-drop, length-drop, length-take, ◌≡◌, ◌≢◌, refl, sym, ap,
  ◌∙◌, arith, Bool-cases, Option-cases, inl, inr, subst,
}
use esp_components.Cli.Compare.{strcasecmp, is_eq, key, order-eq}
use esp_components.Cli.Registry.Insertion.{
  rev_onto, insert_back, rev_onto-rev_onto, length-rev_onto, take-rev_onto, length-insert_back,
  place-rev_onto,
}
use esp_components.Cli.Registry.{
  Group, Registry, Status, ok, invalid_arg, invalid_state, no_mem, registered, find, find_group,
  place, register_group,
}
use esp_components.Cli.Registry.Sorted.{
  Descending, Absent, find-Absent, All-rev_onto, find_back, find-rev_onto, Absent-key,
  insert_back-Descending, find_back-insert_back_hit, find_back-insert_back_miss,
}

-- The table is as long as its capacity, counts no more groups than that, and is sorted.
pub record IsValid (capacity : ℕ) (r : Registry) : Type 0 where
  pub size : length r.slots ≡ capacity
  pub counted : r.count ≤ capacity
  pub sorted : Descending (rev_onto (registered r) [])

module _ (capacity : ℕ) (g : Group) (r : Registry) (v : IsValid capacity r)
    (room : r.count < capacity) where
  abbrev back : List Group
  back = rev_onto (registered r) []

  length-back : length back ≡ r.count
  length-back =
      omega
        (arith, length-rev_onto (registered r) [], length-take r.count r.slots, v.size, v.counted)

  -- The slots, split at the count: there is one to write to.
  slots-split : (j : Group) × (ys : List Group) × (r.slots ≡ rev_onto back (j ∷ ys))
  unfolding rev_onto
  slots-split = go (drop r.count r.slots) refl
    where
      go :
          (behind : List Group)
          → drop r.count r.slots ≡ behind
          → (j : Group) × (ys : List Group) × (r.slots ≡ rev_onto back (j ∷ ys))
      go [] e = absurd (omega (arith, ap length e, length-drop r.count r.slots, v.size))
      go (j ∷ ys) e = (
        j,
        ys,
        sym (take-append-drop r.count r.slots)
            ∙ ap (λ (t : List Group). registered r ++ t) e
            ∙ sym (rev_onto-rev_onto (registered r) [] (j ∷ ys)),
      )

  -- The array that the loop leaves: the groups with the new one inserted, and the slots behind.
  placed :
      (ys : List Group) × (place g r.count r.slots ≡ rev_onto (insert_back g back) ys)
      × (length r.slots ≡ suc (r.count + length ys))
  placed =
      let (j, ys, e) = slots-split in
      (
        ys,
        ap (place g r.count) e
            ∙ ap (λ (n : ℕ). place g n (rev_onto back (j ∷ ys))) (sym length-back)
            ∙ place-rev_onto g j back ys,
        ap length e ∙ length-rev_onto back (j ∷ ys) ∙ omega (arith, length-back),
      )

  append_nil : (xs : List Group) → xs ++ [] ≡ xs
  append_nil [] = refl
  append_nil (x ∷ xs) = ap (◌∷◌ x) (append_nil xs)

  registered-back : registered r ≡ rev_onto back []
  unfolding rev_onto
  registered-back = sym (rev_onto-rev_onto (registered r) [] [] ∙ append_nil (registered r))

  -- The registry that a successful registration leaves.
  abbrev pub after : Registry
  after = record { slots = place g r.count r.slots; count = r.count + 1 }

  registered-after : registered after ≡ rev_onto (insert_back g back) []
  registered-after =
      let (ys, e, n) = placed in
      let size : r.count + 1 ≡ length (insert_back g back) =
        omega (arith, length-insert_back g back, length-back) in
      ap (λ (k : ℕ). take k (place g r.count r.slots)) size
      ∙ ap (take (length (insert_back g back))) e
      ∙ take-rev_onto (insert_back g back) ys

  back-registered-after : rev_onto (registered after) [] ≡ insert_back g back
  unfolding rev_onto
  back-registered-after =
      ap (λ (t : List Group). rev_onto t []) registered-after
      ∙ rev_onto-rev_onto (insert_back g back) [] []
      ∙ append_nil (insert_back g back)

  pub after-IsValid : find_group r g.name ≡ none → IsValid capacity after
  after-IsValid h =
      let (ys, e, n) = placed in
      let absent : Absent g.name back =
        All-rev_onto _ (registered r) [] (find-Absent g.name (registered r) h) tt in
      record {
        size =
            ap length e
            ∙ length-rev_onto (insert_back g back) ys
            ∙ omega (arith, length-insert_back g back, length-back, n, v.size);
        counted = omega (arith, room);
        sorted =
            subst Descending (sym back-registered-after)
              (insert_back-Descending g back absent v.sorted);
      }

  pub find_group-after :
      (name : Bytes)
      → find_group r g.name ≡ none
      → find_group after name
        ≡ (if is_eq (strcasecmp g.name name) then some g else find_group r name)
  unfolding find
  find_group-after name h =
      let same : find_group after name ≡ find_back name none (insert_back g back) =
        ap (find name) registered-after ∙ find-rev_onto name (insert_back g back) [] in
      let old : find_group r name ≡ find_back name none back =
        ap (find name) registered-back ∙ find-rev_onto name back [] in
      elim (Bool-cases (is_eq (strcasecmp g.name name))) [
        | inl e ↦ rw e (
            same
            ∙ find_back-insert_back_hit name g none back e (
                Absent-key g.name name back (order-eq (key g.name) (key name) (ground arith))
                  (All-rev_onto _ (registered r) [] (find-Absent g.name (registered r) h) tt)))
        | inr e ↦ rw e (same ∙ find_back-insert_back_miss name g none back e ∙ sym old)
      ]

module _ (capacity : ℕ) (g : Group) (r : Registry) where
  register_taken :
      (there : Group)
      → find_group r g.name ≡ some there
      → register_group capacity (some g) r ≡ (invalid_state, r)
  unfolding register_group
  register_taken there e = rw (e, register_group) refl

  register_full :
      find_group r g.name ≡ none
      → (r.count == capacity) ≡ true
      → register_group capacity (some g) r ≡ (no_mem, r)
  unfolding register_group
  register_full e q = rw (e, register_group) (rw q refl)

  register_room :
      find_group r g.name ≡ none
      → (r.count == capacity) ≡ false
      → register_group capacity (some g) r
        ≡ (ok, record { slots = place g r.count r.slots; count = r.count + 1 })
  unfolding register_group
  register_room e q = rw (e, register_group) (rw q refl)

-- Registering any group, or NULL, keeps the table valid: sorted by name, as long as its capacity, and counting
-- no more groups than that.
register_group-IsValid :
    (capacity : ℕ) (group : Option Group) (r : Registry)
    → IsValid capacity r
    → IsValid capacity (register_group capacity group r).1
unfolding register_group
register_group-IsValid capacity none r v = v
register_group-IsValid capacity (some g) r v = elim (Option-cases (find_group r g.name)) [
  | inl e ↦ elim (Bool-cases (r.count == capacity)) [
    | inl q ↦ rw (register_full capacity g r e q) v
    | inr q ↦
        rw (register_room capacity g r e q)
          (after-IsValid capacity g r v (ground (arith, v.counted)) e)
  ]
  | inr (there, e) ↦ rw (register_taken capacity g r there e) v
]

-- What a status and the registry behind it say of a group and of the search for a name.
abbrev pub Registers : ℕ → Group → Registry → Bytes → Status × Registry → Type 0
Registers capacity g r name (ok, r') =
    (find_group r g.name ≡ none)
    × (r.count < capacity)
    × (r'.count ≡ r.count + 1)
    × (find_group r' name ≡ (if is_eq (strcasecmp g.name name) then some g else find_group r name))
Registers capacity g r name (invalid_state, r') = (find_group r g.name ≢ none) × (r' ≡ r)
Registers capacity g r name (no_mem, r') =
    (find_group r g.name ≡ none) × (r.count ≡ capacity) × (r' ≡ r)
Registers capacity g r name (invalid_arg, r') = ⊥

-- In a valid table, registering a group succeeds exactly when no registered group has its name, in any case of
-- letters, and a slot is free. Then one more is registered, and a search for any name finds the new group if it
-- has that name, and what it found before if not. The status says which of the two failed, the name being
-- tried first, and then the registry is unchanged.
pub register_group-Registers :
    (capacity : ℕ) (g : Group) (r : Registry) (name : Bytes)
    → IsValid capacity r
    → Registers capacity g r name (register_group capacity (some g) r)
register_group-Registers capacity g r name v = elim (Option-cases (find_group r g.name)) [
  | inl e ↦ elim (Bool-cases (r.count == capacity)) [
    | inl q ↦ rw (register_full capacity g r e q) (e, ground arith, refl)
    | inr q ↦
        let room : r.count < capacity = ground (arith, v.counted) in
        rw (register_room capacity g r e q)
          (e, room, refl, find_group-after capacity g r v room name e)
  ]
  | inr (there, e) ↦
      rw (register_taken capacity g r there e) ((λ h. absurd (ground (arith, h, e))), refl)
]
