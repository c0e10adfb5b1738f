-- ===== src/Config/Store/Rotation.antt =====
-- The replacement of a configuration never loses the one that was there.
use esp_components.Base.{
  Bool, true, false, not, ◌&&◌, List, [], ◌∷◌, Option, some, ◌==◌, if◌then◌else◌, Bytes, length,
  All, ◌≡◌, ◌≢◌, ◌⊎◌, inl, inr, sym, ◌∙◌, Bool-cases,
}
use esp_components.Config.Files.{FileSystem}
use esp_components.Config.Store.{ok, failed, Disk, step, write_temp, install, rotate, replace}

-- A property of the present state and of every state that the disk went through.
abbrev pub Always : {Fs : Type 0} → (Fs → Type 0) → Disk Fs → Type 0
Always P d = P d.now × All P d.seen

-- The configuration stands at its path or at that of the backup.
abbrev pub Survives : (F : FileSystem) → Bytes → Bytes → Bytes → F.Fs → Type 0
Survives F path backup old s = (F.content s path ≡ some old) ⊎ (F.content s backup ≡ some old)

module _ {Fs : Type 0} (P : Fs → Type 0) where
  step-Always :
      {A : Type 0} (op : Fs → A × Fs)
      → ((s : Fs) → P s → P (op s).1)
      → (d : Disk Fs) → Always P d
      → Always P (step op d).1
  step-Always op keeps d h = (keeps d.now h.0, (keeps d.now h.0, h.1))

  if-Always :
      {A : Type 0} (b : Bool) (x y : A × Disk Fs)
      → Always P x.1
      → Always P y.1
      → Always P (if b then x else y).1
  if-Always true x y h k = h
  if-Always false x y h k = k

module _ (F : FileSystem) where
  open F use {
    Fs, content, create, append, flush, close, unlink, rename, create_other, append_other,
    flush_other, close_other, unlink_other, rename_other, rename_done, rename_failed, create_done,
    append_done, flush_done, close_done, unlink_done,
  }

  module _ (temp r : Bytes) (v : Option Bytes) (apart : r ≢ temp) where
    abbrev Keeps : Fs → Type 0
    Keeps s = content s r ≡ v

    -- The temporary file is written beside all others.
    pub write_temp-Always :
        (bytes : Bytes) (d : Disk Fs) → Always Keeps d → Always Keeps (write_temp F temp bytes d).1
    unfolding write_temp
    write_temp-Always bytes d h =
        let o1 = step (create temp) d in
        let h1 = step-Always Keeps (create temp) (λ s k. create_other temp r s apart ∙ k) d h in
        let o2 = if length bytes == 0 then (true, o1.1) else step (append temp bytes) o1.1 in
        let h2 : Always Keeps o2.1 =
          if-Always Keeps (length bytes == 0) (true, o1.1) (step (append temp bytes) o1.1) h1
            (step-Always Keeps (append temp bytes) (λ s k. append_other temp bytes r s apart ∙ k)
              o1.1 h1) in
        let o3 = if o2.0 then step (flush temp) o2.1 else (false, o2.1) in
        let h3 : Always Keeps o3.1 =
          if-Always Keeps o2.0 (step (flush temp) o2.1) (false, o2.1)
            (step-Always Keeps (flush temp) (λ s k. flush_other temp r s apart ∙ k) o2.1 h2) h2 in
        let o4 = step (close temp) o3.1 in
        let h4 = step-Always Keeps (close temp) (λ s k. close_other temp r s apart ∙ k) o3.1 h3 in
        let h5 = step-Always Keeps (unlink temp) (λ s k. unlink_other temp r s apart ∙ k) o4.1 h4 in
        if-Always Keeps (not o1.0) _ _ h1 (if-Always Keeps (o3.0 && o4.0) _ _ h4 h5)

  module _ (path temp backup : Bytes) (old : Bytes) (path-ne-temp : path ≢ temp)
      (path-ne-backup : path ≢ backup) (backup-ne-temp : backup ≢ temp) where
    abbrev Here : Fs → Type 0
    Here = Survives F path backup old

    -- A rename leaves a file at one of its two paths.
    rename-lem :
        (p q : Bytes) (s : Fs)
        → p ≢ q
        → content s p ≡ some old
        → (content (rename p q s).1 p ≡ some old) ⊎ (content (rename p q s).1 q ≡ some old)
    rename-lem p q s ne h = elim (Bool-cases (rename p q s).0) [
      | inl done ↦ inr ((rename_done p q s ne done).0 ∙ h)
      | inr stuck ↦ inl (rename_failed p q p s stuck ∙ h)
    ]

    unlink_temp-Survives : (s : Fs) → Here s → Here (unlink temp s).1
    unlink_temp-Survives s (inl h) = inl (unlink_other temp path s path-ne-temp ∙ h)
    unlink_temp-Survives s (inr h) = inr (unlink_other temp backup s backup-ne-temp ∙ h)

    -- With the configuration in the backup, putting the new file in place keeps it.
    install-Always :
        (d : Disk Fs)
        → content d.now backup ≡ some old
        → Always Here d
        → Always Here (install F path temp backup d).1
    unfolding install
    install-Always d held h =
        let o1 = step (rename temp path) d in
        let kept : content o1.1.now backup ≡ some old =
          rename_other temp path backup d.now backup-ne-temp (λ e. path-ne-backup (sym e)) ∙ held in
        let h1 : Always Here o1.1 = (inr kept, (inr kept, h.1)) in
        let o2 = step (rename backup path) o1.1 in
        let back : Here o2.1.now =
          elim (rename-lem backup path o1.1.now (λ e. path-ne-backup (sym e)) kept) [
            | inl b ↦ inr b
            | inr p ↦ inl p
          ] in
        let h2 : Always Here o2.1 = (back, (back, h1.1)) in
        if-Always Here o1.0 (ok, o1.1) (failed, (step (unlink temp) o2.1).1) h1
          (step-Always Here (unlink temp) unlink_temp-Survives o2.1 h2)

    pub rotate-Always :
        (d : Disk Fs)
        → content d.now path ≡ some old
        → Always Here d
        → Always Here (rotate F path temp backup d).1
    unfolding rotate
    rotate-Always d held h =
        let o1 = step (unlink backup) d in
        let kept : content o1.1.now path ≡ some old =
          unlink_other backup path d.now path-ne-backup ∙ held in
        let h1 : Always Here o1.1 = (inl kept, (inl kept, h.1)) in
        let o2 = step (rename path backup) o1.1 in
        let moved : Here o2.1.now = rename-lem path backup o1.1.now path-ne-backup kept in
        let h2 : Always Here o2.1 = (moved, (moved, h1.1)) in
        let undone = step-Always Here (unlink temp) unlink_temp-Survives o2.1 h2 in
        rw held (elim (Bool-cases o2.0) [
          | inl m ↦ rw m (
              install-Always o2.1 ((rename_done path backup o1.1.now path-ne-backup m).0 ∙ kept) h2)
          | inr n ↦ rw n undone
        ])

    All-map : {P Q : Fs → Type 0} → ((s : Fs) → P s → Q s) → (l : List Fs) → All P l → All Q l
    All-map f [] h = tt
    All-map f (s ∷ l) h = (f s h.0, All-map f l h.1)

    -- From the first call to the last, a replacement keeps the configuration.
    pub replace-Always :
        (bytes : Bytes) (d : Disk Fs)
        → Always (λ s. content s path ≡ some old) d
        → Always Here (replace F path temp backup bytes d).1
    unfolding replace
    replace-Always bytes d h =
        let o1 = write_temp F temp bytes d in
        let kept = write_temp-Always temp path (some old) path-ne-temp bytes d h in
        let safe : Always Here o1.1 = (inl kept.0, All-map (λ s k. inl k) o1.1.seen kept.1) in
        if-Always Here o1.0 (rotate F path temp backup o1.1) (failed, o1.1)
          (rotate-Always o1.1 kept.0 safe) safe
