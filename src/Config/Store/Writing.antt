-- ===== src/Config/Store/Writing.antt =====
-- `config_store_write` as a whole.
use esp_components.Base.{
  ℕ, not, ◌&&◌, ◌++◌, Option, some, ltb, Bytes, ◌≡◌, ◌≢◌, ◌⊎◌, inl, inr, Bool-cases, Option-cases,
}
use esp_components.Config.Files.{FileSystem}
use esp_components.Config.Store.Names.{path-ne-suffixed, backup-ne-temp, suffixed-some}
use esp_components.Config.Store.Outcome.{replace_done}
use esp_components.Config.Store.Rotation.{Always, Survives, replace-Always}
use esp_components.Config.Store.{
  ok, Config, Disk, fresh, exists, given, suffixed, temp_suffix, backup_suffix, replace, write,
}

module _ (F : FileSystem) where
  open F use {Fs, content, fetch}

  abbrev temp_of : Config → Bytes
  temp_of cfg = cfg.path ++ temp_suffix

  abbrev pub backup_of : Config → Bytes
  backup_of cfg = cfg.path ++ backup_suffix

  -- Either a guard stops the write before the disk is touched, or the rotation runs.
  write-cases :
      (cfg : Config) (source : Option Bytes) (len : ℕ) (d : Disk Fs)
      → ((write F (some cfg) source len d).1 ≡ d) × ((write F (some cfg) source len d).0 ≢ ok)
        ⊎ (write F (some cfg) source len d
            ≡ replace F cfg.path (temp_of cfg) (backup_of cfg) (given source len) d)
  unfolding write
  write-cases cfg source len d = elim (Bool-cases (not (exists source) && ltb 0 len)) [
    | inl e ↦ inl (rw e, rw e (λ q. cc))
    | inr e ↦ elim (Bool-cases (ltb 0 cfg.max_size && ltb cfg.max_size len)) [
      | inl g ↦ inl (rw (e, g), rw (e, g) (λ q. cc))
      | inr g ↦ elim (Option-cases (suffixed cfg.path temp_suffix)) [
        | inl a ↦ inl (rw (e, g, a), rw (e, g, a) (λ q. cc))
        | inr (t, a) ↦ elim (Option-cases (suffixed cfg.path backup_suffix)) [
          | inl b ↦ inl (rw (e, g, a, b), rw (e, g, a, b) (λ q. cc))
          | inr (k, b) ↦ inr (
              rw (
                e,
                g,
                a,
                b,
                suffixed-some cfg.path temp_suffix a,
                suffixed-some cfg.path backup_suffix b,
              ))
        ]
      ]
    ]
  ]

  -- A write that starts with a configuration in place keeps it, at its path or as the backup, in
  -- every state of the disk from the first call to the last, whether or not it succeeds.
  pub write-Always :
      (cfg : Config) (source : Option Bytes) (len : ℕ) (s : Fs) (old : Bytes)
      → content s cfg.path ≡ some old
      → Always (Survives F cfg.path (backup_of cfg) old) (write F (some cfg) source len (fresh s)).1
  write-Always cfg source len s old h = elim (write-cases cfg source len (fresh s)) [
    | inl (same, _) ↦ rw same (inl h, tt)
    | inr e ↦ rw e (
        replace-Always F cfg.path (temp_of cfg) (backup_of cfg) old (path-ne-suffixed cfg.path _ _)
          (path-ne-suffixed cfg.path _ _) (backup-ne-temp cfg.path) (given source len) (fresh s)
          (h, tt))
  ]

  -- A write that reports success leaves the bytes given at the path, and the configuration that
  -- stood there as the backup.
  pub write-ok :
      (cfg : Config) (source : Option Bytes) (len : ℕ) (s : Fs)
      → (write F (some cfg) source len (fresh s)).0 ≡ ok
      → (content (write F (some cfg) source len (fresh s)).1.now cfg.path ≡ some (given source len))
        × ((old : Bytes)
            → content s cfg.path ≡ some old
            → content (write F (some cfg) source len (fresh s)).1.now (backup_of cfg) ≡ some old)
  write-ok cfg source len s h = elim (write-cases cfg source len (fresh s)) [
    | inl (_, bad) ↦ absurd (bad h)
    | inr e ↦ rw e (
        replace_done F cfg.path (temp_of cfg) (backup_of cfg) (path-ne-suffixed cfg.path _ _)
          (path-ne-suffixed cfg.path _ _) (backup-ne-temp cfg.path) (given source len) s
          (rw e at h))
  ]
