-- ===== src/Config/Store.antt =====
-- config_store/src/config_store.c: a configuration file that is replaced by rotation. The disk is
-- the state of the file system with the states that it went through, newest first: a reset may
-- come after any of them.
pub mod Rotation
pub mod Outcome
pub mod Writing
pub mod Reading
pub mod Names
use esp_components.Base.{
  ℕ, ◌+◌, ◌<◌, Bool, true, false, not, ◌&&◌, ◌||◌, List, [], ◌∷◌, ◌++◌, Option, none, some, ltb,
  leb, ◌==◌, if◌then◌else◌, Bytes, length, take, codes,
}
use esp_components.Config.Files.{FileSystem}

pub data Status : Type 0 where
  ok failed invalid_arg invalid_state invalid_size not_found too_large : Status

pub data Source : Type 0 where
  source_none source_primary source_override source_backup : Source

-- `config_store_config_t`
pub record Config : Type 0 where
  pub path : Bytes
  pub override_path : Option Bytes
  pub max_size : ℕ

abbrev pub max_path : ℕ
max_path = 128

abbrev pub backup_suffix : Bytes
backup_suffix = codes ".bak"

abbrev pub temp_suffix : Bytes
temp_suffix = codes ".new"

-- `suffixed`, into a buffer of MAX_PATH bytes.
unfoldable pub suffixed : Bytes → Bytes → Option Bytes
suffixed path suffix =
    if leb max_path (length path + length suffix) then none else some (path ++ suffix)

-- `config_store_init`, on a path that may be NULL: the new `s_cfg`, `none` while not `s_ready`.
unfoldable pub init : Option Bytes → Option Bytes → ℕ → Option Config → Status × Option Config
init none override_path max_size store = (invalid_arg, store)
init (some []) override_path max_size store = (invalid_arg, store)
init (some (c ∷ p)) override_path max_size store =
    let made : Config = record {
      path = c ∷ p;
      override_path = override_path;
      max_size = max_size;
    } in
    elim (suffixed (c ∷ p) backup_suffix) [
      | none ↦ (invalid_size, store)
      | some b ↦ elim (suffixed (c ∷ p) temp_suffix) [
        | none ↦ (invalid_size, store)
        | some t ↦ (ok, some made)
      ]
    ]

pub record Disk (Fs : Type 0) : Type 0 where
  pub now : Fs
  pub seen : List Fs

-- A disk whose history begins here.
abbrev pub fresh : {Fs : Type 0} → Fs → Disk Fs
fresh s = record { now = s; seen = [] }

-- One call to the file system.
abbrev pub step {κ} : {Fs : Type 0} {A : Type κ} → (Fs → A × Fs) → Disk Fs → A × Disk Fs
step op d = let after = op d.now in (after.0, record { now = after.1; seen = after.1 ∷ d.seen })

abbrev pub exists : Option Bytes → Bool
exists none = false
exists (some bytes) = true

-- `read_file`, on the file that `stat` finds and on what `fopen` and `fread` get of it: the status,
-- and the text left in the buffer.
unfoldable pub read_outcome : ℕ → ℕ → Option Bytes → Option Bytes → Status × Bytes
read_outcome buf_size max_size none got = (not_found, [])
read_outcome buf_size max_size (some file) got =
    let size = length file in
    if ltb 0 max_size && ltb max_size size
    then (too_large, [])
    else if ltb buf_size (size + 1)
    then (too_large, [])
    else elim got [
      | none ↦ (not_found, [])
      | some text ↦ if length text == size then (ok, text) else (failed, text)
    ]

-- The source that a read reports.
abbrev pub tagged : Source → Status × Bytes → Status × Bytes × Source
tagged source (ok, text) = (ok, text, source)
tagged source (status, text) = (status, text, source_none)

-- The bytes that `data` and `len` name.
abbrev pub given : Option Bytes → ℕ → Bytes
given none len = []
given (some source) len = take len source

module _ (F : FileSystem) where
  open F use {Fs, content, fetch, create, append, flush, close, unlink, rename}

  -- The temporary file, up to `fclose`, and its removal where that went wrong.
  unfoldable pub write_temp : Bytes → Bytes → Disk Fs → Bool × Disk Fs
  write_temp temp bytes d =
      let (opened, d1) = step (create temp) d in
      let (written, d2) = if length bytes == 0 then (true, d1) else step (append temp bytes) d1 in
      let (flushed, d3) = if written then step (flush temp) d2 else (false, d2) in
      let (closed, d4) = step (close temp) d3 in
      if not opened
      then (false, d1)
      else if flushed && closed
      then (true, d4)
      else (false, (step (unlink temp) d4).1)

  -- `rename(temp, path)`, or the previous configuration back in its place.
  unfoldable pub install : Bytes → Bytes → Bytes → Disk Fs → Status × Disk Fs
  install path temp backup d =
      let (renamed, d1) = step (rename temp path) d in
      let (_, d2) = step (rename backup path) d1 in
      if renamed then (ok, d1) else (failed, (step (unlink temp) d2).1)

  -- The rotation.
  unfoldable pub rotate : Bytes → Bytes → Bytes → Disk Fs → Status × Disk Fs
  rotate path temp backup d =
      let (_, d1) = step (unlink backup) d in
      let (moved, d2) = step (rename path backup) d1 in
      if exists (content d.now path)
      then (if moved then install path temp backup d2 else (failed, (step (unlink temp) d2).1))
      else install path temp backup d

  -- What `config_store_write` does once its arguments and the two names are checked.
  unfoldable pub replace : Bytes → Bytes → Bytes → Bytes → Disk Fs → Status × Disk Fs
  replace path temp backup bytes d =
      let (stored, d1) = write_temp temp bytes d in
      if stored then rotate path temp backup d1 else (failed, d1)

  -- `config_store_write`; `data` is NULL or points at `len` bytes at least.
  unfoldable pub write : Option Config → Option Bytes → ℕ → Disk Fs → Status × Disk Fs
  write none source len d = (invalid_state, d)
  write (some cfg) source len d =
      if not (exists source) && ltb 0 len
      then (invalid_arg, d)
      else if ltb 0 cfg.max_size && ltb cfg.max_size len
      then (too_large, d)
      else elim (suffixed cfg.path temp_suffix) [
        | none ↦ (invalid_size, d)
        | some temp ↦ elim (suffixed cfg.path backup_suffix) [
          | none ↦ (invalid_size, d)
          | some backup ↦ replace cfg.path temp backup (given source len) d
        ]
      ]

  -- `read_file` into a buffer of `buf_size` bytes.
  unfoldable pub read_file : Fs → Bytes → ℕ → ℕ → Status × Bytes
  read_file s path buf_size max_size =
      read_outcome buf_size max_size (content s path) (fetch s path)

  -- `config_store_read`, with a buffer that is not NULL.
  unfoldable pub read : Option Config → ℕ → Fs → Status × Bytes × Source
  read none buf_size s = (invalid_state, [], source_none)
  read (some cfg) buf_size s =
      let primary = tagged source_primary (read_file s cfg.path buf_size cfg.max_size) in
      if ltb buf_size 2 then (invalid_arg, [], source_none) else elim cfg.override_path [
        | none ↦ primary
        | some card ↦
            let other = tagged source_override (read_file s card buf_size cfg.max_size) in
            if exists (content s card) then other else primary
      ]

  -- `config_store_has_backup`
  unfoldable pub has_backup : Option Config → Fs → Bool
  has_backup none s = false
  has_backup (some cfg) s = elim (suffixed cfg.path backup_suffix) [
    | none ↦ false
    | some backup ↦ exists (content s backup)
  ]

  -- What `config_store_restore_backup` does with the name of the backup.
  unfoldable pub restore : Bytes → Bytes → Disk Fs → Status × Disk Fs
  restore path backup d =
      let (_, d1) = step (unlink path) d in
      let (renamed, d2) = step (rename backup path) d1 in
      if not (exists (content d.now backup))
      then (not_found, d)
      else if renamed
      then (ok, d2)
      else (failed, d2)

  -- `config_store_restore_backup`
  unfoldable pub restore_backup : Option Config → Disk Fs → Status × Disk Fs
  restore_backup none d = (invalid_state, d)
  restore_backup (some cfg) d = elim (suffixed cfg.path backup_suffix) [
    | none ↦ (invalid_size, d)
    | some backup ↦ restore cfg.path backup d
  ]
