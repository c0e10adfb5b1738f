-- ===== src/Cli/Registry/Sorted.antt =====
-- Lists of groups that are sorted from the end, and the search in them.
use Prim.Native.Nat.{Ordering}
use esp_components.Base.{
  true, false, List, [], ◌∷◌, Option, none, some, if◌then◌else◌, Bytes, All, ◌≡◌, refl, sym, ap,
  ◌∙◌, arith, Bool-cases, inl, inr,
}
use esp_components.Cli.Compare.{strcasecmp, is_gt, is_eq, order, key, order_flip, order_trans}
use esp_components.Cli.Registry.Insertion.{rev_onto, insert_back}
use esp_components.Cli.Registry.{Group, find}

-- The name of one group comes before that of another.
abbrev pub Before : Group → Group → Type 0
Before a b = strcasecmp a.name b.name ≡ Ordering.lt

-- Each group comes behind all those that follow: a sorted table, read from its end.
abbrev pub Descending : List Group → Type 0
Descending [] = Unit
Descending (b ∷ bs) = All (λ a. Before a b) bs × Descending bs

All-insert_back :
    (P : Group → Type 0) (g : Group) (bs : List Group) → P g → All P bs → All P (insert_back g bs)
unfolding insert_back
All-insert_back P g [] p h = (p, tt)
All-insert_back P g (b ∷ bs) p h = elim (Bool-cases (is_gt (strcasecmp b.name g.name))) [
  | inl e ↦ rw e (h.0, All-insert_back P g bs p h.1)
  | inr e ↦ rw e (p, h)
]

All-Before :
    (a b : Group) (bs : List Group)
    → Before a b
    → All (λ x. Before x a) bs
    → All (λ x. Before x b) bs
All-Before a b [] h k = tt
All-Before a b (x ∷ bs) h k =
    (order_trans (key x.name) (key a.name) (key b.name) k.0 h, All-Before a b bs h k.1)

-- No group of the list has the name.
abbrev pub Absent : Bytes → List Group → Type 0
Absent name = All (λ x. is_eq (strcasecmp x.name name) ≡ false)

pub insert_back-Descending :
    (g : Group) (bs : List Group) → Absent g.name bs → Descending bs → Descending (insert_back g bs)
unfolding insert_back
insert_back-Descending g [] a d = (tt, tt)
insert_back-Descending g (b ∷ bs) a d = elim (Bool-cases (is_gt (strcasecmp b.name g.name))) [
  | inl e ↦
      let behind : Before g b = order_flip (key b.name) (key g.name) (ground arith) in
      rw e (All-insert_back (λ x. Before x b) g bs behind d.0, insert_back-Descending g bs a.1 d.1)
  | inr e ↦ let front : Before b g = ground arith in rw e ((front, All-Before b g bs front d.0), d)
]

pub find-Absent : (name : Bytes) (gs : List Group) → find name gs ≡ none → Absent name gs
unfolding find
find-Absent name [] h = tt
find-Absent name (g ∷ gs) h = elim (Bool-cases (is_eq (strcasecmp g.name name))) [
  | inl e ↦ cc (rw e at h)
  | inr e ↦ (e, find-Absent name gs (rw e at h))
]

pub All-rev_onto :
    (P : Group → Type 0) (xs ys : List Group) → All P xs → All P ys → All P (rev_onto xs ys)
unfolding rev_onto
All-rev_onto P [] ys h k = k
All-rev_onto P (x ∷ xs) ys h k = All-rev_onto P xs (x ∷ ys) h.1 (h.0, k)

-- The search in a list that is read from its end.
abbrev pub find_back : Bytes → Option Group → List Group → Option Group
find_back name o [] = o
find_back name o (b ∷ bs) = find_back name (if is_eq (strcasecmp b.name name) then some b else o) bs

pub find-rev_onto :
    (name : Bytes) (bs ys : List Group)
    → find name (rev_onto bs ys) ≡ find_back name (find name ys) bs
unfolding rev_onto find
find-rev_onto name [] ys = refl
find-rev_onto name (b ∷ bs) ys = find-rev_onto name bs (b ∷ ys)

find_back-Absent :
    (name : Bytes) (o : Option Group) (bs : List Group) → Absent name bs → find_back name o bs ≡ o
find_back-Absent name o [] h = refl
find_back-Absent name o (b ∷ bs) h = rw h.0 (find_back-Absent name o bs h.1)

pub Absent-key : (a b : Bytes) (gs : List Group) → key a ≡ key b → Absent a gs → Absent b gs
Absent-key a b [] e h = tt
Absent-key a b (g ∷ gs) e h =
    (ap (λ (k : Bytes). is_eq (order (key g.name) k)) (sym e) ∙ h.0, Absent-key a b gs e h.1)

insert_back_stop :
    (g b : Group) (bs : List Group)
    → is_gt (strcasecmp b.name g.name) ≡ false
    → insert_back g (b ∷ bs) ≡ g ∷ b ∷ bs
unfolding insert_back
insert_back_stop g b bs q = rw q refl

module _ (name : Bytes) (g : Group) where
  pub find_back-insert_back_hit :
      (o : Option Group) (bs : List Group)
      → is_eq (strcasecmp g.name name) ≡ true
      → Absent name bs
      → find_back name o (insert_back g bs) ≡ some g
  unfolding insert_back
  find_back-insert_back_hit o [] e a = rw e
  find_back-insert_back_hit o (b ∷ bs) e a = elim (Bool-cases (is_gt (strcasecmp b.name g.name))) [
    | inl q ↦
        rw q (
          find_back-insert_back_hit (if is_eq (strcasecmp b.name name) then some b else o) bs e a.1)
    | inr q ↦
        ap (find_back name o) (insert_back_stop g b bs q)
        ∙ rw e (find_back-Absent name (some g) (b ∷ bs) a)
  ]

  pub find_back-insert_back_miss :
      (o : Option Group) (bs : List Group)
      → is_eq (strcasecmp g.name name) ≡ false
      → find_back name o (insert_back g bs) ≡ find_back name o bs
  unfolding insert_back
  find_back-insert_back_miss o [] e = rw e
  find_back-insert_back_miss o (b ∷ bs) e = elim (Bool-cases (is_gt (strcasecmp b.name g.name))) [
    | inl q ↦
        rw q
          (find_back-insert_back_miss (if is_eq (strcasecmp b.name name) then some b else o) bs e)
    | inr q ↦ ap (find_back name o) (insert_back_stop g b bs q) ∙ rw e refl
  ]
