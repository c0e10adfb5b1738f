-- ===== src/Config/Store/Reading.antt =====
-- `config_store_read` and `config_store_restore_backup`.
use esp_components.Base.{
  ℕ, ◌≤◌, ◌<◌, false, [], Option, none, some, ltb, if◌then◌else◌, Bytes, length, length-take, ◌≡◌,
  ◌≢◌, ◌⊎◌, inl, inr, refl, sym, ◌∙◌, arith, Bool-cases, Option-cases,
}
use esp_components.Config.Files.{FileSystem}
use esp_components.Config.Store.Names.{path-ne-suffixed, suffixed-some}
use esp_components.Config.Store.Rotation.{Always, Survives}
use esp_components.Config.Store.Writing.{backup_of, write-ok}
use esp_components.Config.Store.{
  Status, ok, Source, source_primary, source_none, source_override, Config, Disk, fresh, exists,
  given, suffixed, backup_suffix, write, read, read_file, read_outcome, invalid_arg, tagged,
  restore, restore_backup,
}

-- A read of a file that reports success: a text that fits the buffer with its terminator and
-- the limit, got from that file, and as long as it.
pub record IsRead (buf_size max_size : ℕ) (file got : Option Bytes) (text : Bytes) : Type 0 where
  pub fits : length text < buf_size
  pub within : 0 < max_size → length text ≤ max_size
  pub fetched : got ≡ some text
  pub complete : (there : Bytes) → file ≡ some there → length text ≡ length there

read_outcome-IsRead :
    (buf_size max_size : ℕ) (file got : Option Bytes)
    → (read_outcome buf_size max_size file got).0 ≡ ok
    → IsRead buf_size max_size file got (read_outcome buf_size max_size file got).1
unfolding read_outcome
read_outcome-IsRead buf_size max_size none got h = cc
read_outcome-IsRead buf_size max_size (some file) none h = ground arith
read_outcome-IsRead buf_size max_size (some file) (some text) h = record {
  fits = ground arith;
  within = λ p. ground arith;
  fetched = ground arith;
  complete = λ there e. ground arith;
}

tagged-ok :
    (source : Source) (r : Status × Bytes)
    → (tagged source r).0 ≡ ok
    → (r.0 ≡ ok) × ((tagged source r).1 ≡ r.1) × ((tagged source r).2 ≡ source)
tagged-ok source (ok, text) h = (refl, refl, refl)
tagged-ok source (_, text) h = cc

module _ (F : FileSystem) where
  open F use {
    Fs, content, fetch, unlink, rename, unlink_other, unlink_done, rename_done, rename_failed,
  }

  -- The file that a read is about: the override wherever it exists.
  abbrev pub chosen : Config → Fs → Bytes × Source
  chosen cfg s = elim cfg.override_path [
    | none ↦ (cfg.path, source_primary)
    | some card ↦
        if exists (content s card) then (card, source_override) else (cfg.path, source_primary)
  ]

  -- The read turns down a buffer of less than two bytes, or is about the chosen file.
  read-cases :
      (cfg : Config) (buf_size : ℕ) (s : Fs)
      → (read F (some cfg) buf_size s ≡ (invalid_arg, [], source_none))
        ⊎ (read F (some cfg) buf_size s
            ≡ tagged (chosen cfg s).1 (read_file F s (chosen cfg s).0 buf_size cfg.max_size))
  unfolding read
  read-cases cfg buf_size s = elim (Bool-cases (ltb buf_size 2)) [
    | inl e ↦ inl (rw e)
    | inr e ↦ inr (
        rw e (elim (Option-cases cfg.override_path) [
          | inl none_set ↦ rw none_set
          | inr (card, set) ↦ elim (Bool-cases (exists (content s card))) [
            | inl there ↦ rw (set, there)
            | inr gone ↦ rw (set, gone)
          ]
        ]))
  ]

  -- A read that reports success took the override if it exists and the configuration's own path
  -- if not, says which, and hands out all of that file within the buffer and the limit.
  pub read-IsRead :
      (cfg : Config) (buf_size : ℕ) (s : Fs)
      → (read F (some cfg) buf_size s).0 ≡ ok
      → IsRead buf_size cfg.max_size
          (content s (chosen cfg s).0)
          (fetch s (chosen cfg s).0)
          (read F (some cfg) buf_size s).1
        × ((read F (some cfg) buf_size s).2 ≡ (chosen cfg s).1)
  read-IsRead cfg buf_size s h = elim (read-cases cfg buf_size s) [
    | inl e ↦ cc (rw e at h)
    | inr e ↦
        let file = content s (chosen cfg s).0 in
        let got = fetch s (chosen cfg s).0 in
        let (good, text, source) =
          tagged-ok (chosen cfg s).1 (read_file F s (chosen cfg s).0 buf_size cfg.max_size)
            (rw e at h) in
        rw (e, text)
          (unfold read_file in read_outcome-IsRead buf_size cfg.max_size file got good, source)
  ]

  write_limit :
      (cfg : Config) (source : Option Bytes) (len : ℕ) (d : Disk Fs)
      → (write F (some cfg) source len d).0 ≡ ok
      → 0 < cfg.max_size
      → len ≤ cfg.max_size
  unfolding write
  write_limit cfg source len d h p = elim (Bool-cases (ltb cfg.max_size len)) [
    | inl e ↦ ground arith
    | inr e ↦ ground arith
  ]

  length-given : (source : Option Bytes) (len : ℕ) → length (given source len) ≤ len
  length-given none len = omega arith
  length-given (some source) len = omega (arith, length-take len source)

  -- What a successful write stored is what a read gives back, if no override is configured, the
  -- medium returns what it holds, and the buffer has room.
  pub read-write :
      (cfg : Config) (source : Option Bytes) (len buf_size : ℕ) (s : Fs)
      → (write F (some cfg) source len (fresh s)).0 ≡ ok
      → cfg.override_path ≡ none
      → let after = (write F (some cfg) source len (fresh s)).1.now in
        fetch after cfg.path ≡ content after cfg.path
        → 2 ≤ buf_size
        → length (given source len) < buf_size
        → read F (some cfg) buf_size after ≡ (ok, given source len, source_primary)
  read-write cfg source len buf_size s h plain healthy two room =
      let bytes = given source len in
      let there = (write-ok F cfg source len s h).0 in
      let small : ltb buf_size 2 ≡ false = ground arith in
      let outcome : read_outcome buf_size cfg.max_size (some bytes) (some bytes) ≡ (ok, bytes) =
        unfold read_outcome in
        ground (arith, write_limit cfg source len (fresh s) h, length-given source len) in
      unfold read read_file in rw (small, plain, healthy, there, outcome)

  restore-ok :
      (path backup : Bytes) (s : Fs) (old : Bytes)
      → backup ≢ path
      → content s backup ≡ some old
      → Always (Survives F path backup old) (restore F path backup (fresh s)).1
        × ((restore F path backup (fresh s)).0 ≡ ok
            → content (restore F path backup (fresh s)).1.now path ≡ some old)
  unfolding restore
  restore-ok path backup s old ne h =
      let s1 = (unlink path s).1 in
      let kept : content s1 backup ≡ some old = unlink_other path backup s ne ∙ h in
      rw h (elim (Bool-cases (rename backup path s1).0) [
        | inl m ↦
            let moved = (rename_done backup path s1 ne m).0 ∙ kept in
            rw m ((inl moved, (inl moved, (inr kept, tt))), λ q. moved)
        | inr n ↦
            let stays = rename_failed backup path backup s1 n ∙ kept in
            rw n ((inr stays, (inr stays, (inr kept, tt))), λ q. cc)
      ])

  -- A restore keeps the backup's bytes, there or at the path, in every state of the disk from the
  -- first call to the last; where it reports success they stand at the path.
  pub restore_backup-ok :
      (cfg : Config) (s : Fs) (old : Bytes)
      → content s (backup_of F cfg) ≡ some old
      → Always (Survives F cfg.path (backup_of F cfg) old) (restore_backup F (some cfg) (fresh s)).1
        × ((restore_backup F (some cfg) (fresh s)).0 ≡ ok
            → content (restore_backup F (some cfg) (fresh s)).1.now cfg.path ≡ some old)
  restore_backup-ok cfg s old h = elim (Option-cases (suffixed cfg.path backup_suffix)) [
    | inl e ↦ unfold restore_backup in rw (e, restore_backup) ((inr h, tt), λ q. cc)
    | inr (b, e) ↦
        let ne = λ (q : backup_of F cfg ≡ cfg.path). path-ne-suffixed cfg.path _ _ (sym q) in
        let name = suffixed-some cfg.path backup_suffix e in
        unfold restore_backup in
        rw (e, name, restore_backup) (restore-ok cfg.path (backup_of F cfg) s old ne h)
  ]
