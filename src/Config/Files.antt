-- ===== src/Config/Files.antt =====
-- What config_store takes from the C library and the file system under it. The operations may fail
-- at any call. The laws are those of POSIX: a call touches the paths it names and no other, one
-- that fails leaves both paths of a rename as they were, and one that succeeds does what it says.
use esp_components.Base.{Bool, true, false, [], ◌++◌, Option, none, some, Bytes, ◌≡◌, ◌≢◌}

pub record FileSystem : Type 1 where
  pub Fs : Type 0
  -- The regular file that `stat` finds at a path.
  pub content : Fs → Bytes → Option Bytes
  -- What `fopen(path, "rb")` and `fread` get of it.
  pub fetch : Fs → Bytes → Option Bytes
  -- `fopen(path, "wb")`, `fwrite`, `fflush`, `fclose`, `unlink` and `rename`, and whether they succeed.
  pub create : Bytes → Fs → Bool × Fs
  pub append : Bytes → Bytes → Fs → Bool × Fs
  pub flush : Bytes → Fs → Bool × Fs
  pub close : Bytes → Fs → Bool × Fs
  pub unlink : Bytes → Fs → Bool × Fs
  pub rename : Bytes → Bytes → Fs → Bool × Fs
  pub create_other : (p q : Bytes) (s : Fs) → q ≢ p → content (create p s).1 q ≡ content s q
  pub create_done :
      (p : Bytes) (s : Fs) → (create p s).0 ≡ true → content (create p s).1 p ≡ some []
  pub append_other : (p b q : Bytes) (s : Fs) → q ≢ p → content (append p b s).1 q ≡ content s q
  pub append_done :
      (p b old : Bytes) (s : Fs)
      → content s p ≡ some old
      → (append p b s).0 ≡ true
      → content (append p b s).1 p ≡ some (old ++ b)
  pub flush_other : (p q : Bytes) (s : Fs) → q ≢ p → content (flush p s).1 q ≡ content s q
  pub flush_done :
      (p : Bytes) (s : Fs) → (flush p s).0 ≡ true → content (flush p s).1 p ≡ content s p
  pub close_other : (p q : Bytes) (s : Fs) → q ≢ p → content (close p s).1 q ≡ content s q
  pub close_done :
      (p : Bytes) (s : Fs) → (close p s).0 ≡ true → content (close p s).1 p ≡ content s p
  pub unlink_other : (p q : Bytes) (s : Fs) → q ≢ p → content (unlink p s).1 q ≡ content s q
  pub unlink_done : (p : Bytes) (s : Fs) → (unlink p s).0 ≡ true → content (unlink p s).1 p ≡ none
  pub rename_other :
      (p q r : Bytes) (s : Fs) → r ≢ p → r ≢ q → content (rename p q s).1 r ≡ content s r
  pub rename_done :
      (p q : Bytes) (s : Fs)
      → p ≢ q
      → (rename p q s).0 ≡ true
      → (content (rename p q s).1 q ≡ content s p) × (content (rename p q s).1 p ≡ none)
  pub rename_failed :
      (p q r : Bytes) (s : Fs) → (rename p q s).0 ≡ false → content (rename p q s).1 r ≡ content s r
