-- ===== src/Config/Ram.antt =====
-- A file system in memory, where the calls that a list marks fail: the laws of `FileSystem` hold of
-- it, so what is proved from them is about something.
use esp_components.Base.{
  Bool, true, false, ◌&&◌, List, [], ◌∷◌, ◌++◌, Option, none, some, if◌then◌else◌, Bytes,
  same_bytes, same_bytes_iff, ◌≡◌, ◌≢◌, refl, sym, Bool-cases, inl, inr, ◌∙◌, ap,
}
use esp_components.Config.Files.{FileSystem}
use esp_components.Config.Store.{exists}

pub record Ram : Type 0 where
  pub files : Bytes → Option Bytes
  pub luck : List Bool

abbrev pub put : (Bytes → Option Bytes) → Bytes → Option Bytes → Bytes → Option Bytes
put files p v q = if same_bytes p q then v else files q

pub put_self : (files : Bytes → Option Bytes) (p : Bytes) (v : Option Bytes) → put files p v p ≡ v
put_self files p v = rw ((same_bytes_iff p p).1 refl)

pub put_other :
    (files : Bytes → Option Bytes) (p q : Bytes) (v : Option Bytes)
    → q ≢ p
    → put files p v q ≡ files q
put_other files p q v ne = elim (Bool-cases (same_bytes p q)) [
  | inl e ↦ absurd (ne (sym ((same_bytes_iff p q).0 e)))
  | inr e ↦ rw e
]

-- Whether the next call is lucky, and what is left of the list.
abbrev pub lucky : List Bool → Bool
lucky [] = true
lucky (b ∷ bs) = b

abbrev pub rest : List Bool → List Bool
rest [] = []
rest (b ∷ bs) = bs

-- A call that writes files where it is lucky and may be made, and fails without effect if not.
abbrev pub attempt : Bool → (Bytes → Option Bytes) → Ram → Bool × Ram
attempt allowed files m =
    let go = lucky m.luck && allowed in
    (go, record { files = if go then files else m.files; luck = rest m.luck })

pub attempt_other :
    (allowed : Bool) (files : Bytes → Option Bytes) (m : Ram) (q : Bytes)
    → files q ≡ m.files q
    → (attempt allowed files m).1.files q ≡ m.files q
attempt_other allowed files m q h = elim (Bool-cases (lucky m.luck && allowed)) [
  | inl e ↦ rw e h
  | inr e ↦ rw e
]

pub attempt_done :
    (allowed : Bool) (files : Bytes → Option Bytes) (m : Ram) (q : Bytes)
    → (attempt allowed files m).0 ≡ true
    → (attempt allowed files m).1.files q ≡ files q
attempt_done allowed files m q h = rw h

pub attempt_failed :
    (allowed : Bool) (files : Bytes → Option Bytes) (m : Ram) (q : Bytes)
    → (attempt allowed files m).0 ≡ false
    → (attempt allowed files m).1.files q ≡ m.files q
attempt_failed allowed files m q h = rw h

abbrev pub joined : Option Bytes → Bytes → Option Bytes
joined none bytes = none
joined (some old) bytes = some (old ++ bytes)

abbrev pub ram : FileSystem
ram = record {
  Fs = Ram;
  content = λ m p. m.files p;
  fetch = λ m p. m.files p;
  create = λ p m. attempt true (put m.files p (some [])) m;
  append = λ p b m. attempt (exists (m.files p)) (put m.files p (joined (m.files p) b)) m;
  flush = λ p m. attempt true m.files m;
  close = λ p m. attempt true m.files m;
  unlink = λ p m. attempt (exists (m.files p)) (put m.files p none) m;
  rename = λ p q m. attempt (exists (m.files p)) (put (put m.files q (m.files p)) p none) m;
  create_other = λ p q m ne. attempt_other _ _ m q (put_other m.files p q _ ne);
  create_done = λ p m h. attempt_done _ _ m p h ∙ put_self m.files p _;
  append_other = λ p b q m ne. attempt_other _ _ m q (put_other m.files p q _ ne);
  append_done = λ p b old m there h.
      attempt_done _ _ m p h ∙ put_self m.files p _ ∙ ap (λ (v : Option Bytes). joined v b) there;
  flush_other = λ p q m ne. attempt_other _ _ m q refl;
  flush_done = λ p m h. attempt_done _ _ m p h;
  close_other = λ p q m ne. attempt_other _ _ m q refl;
  close_done = λ p m h. attempt_done _ _ m p h;
  unlink_other = λ p q m ne. attempt_other _ _ m q (put_other m.files p q _ ne);
  unlink_done = λ p m h. attempt_done _ _ m p h ∙ put_self m.files p _;
  rename_other = λ p q r m np nq.
      attempt_other _ _ m r
        (put_other (put m.files q (m.files p)) p r none np ∙ put_other m.files q r (m.files p) nq);
  rename_done = λ p q m ne h. (
    attempt_done _ _ m q h
        ∙ put_other (put m.files q (m.files p)) p q none (λ e. ne (sym e))
        ∙ put_self m.files q (m.files p),
    attempt_done _ _ m p h ∙ put_self (put m.files q (m.files p)) p none,
  );
  rename_failed = λ p q r m h. attempt_failed _ _ m r h;
}
