-- ===== src/Config/Store/Outcome.antt =====
-- What a replacement that reports success has done.
use esp_components.Base.{
  true, [], ◌∷◌, some, Bytes, ◌≡◌, ◌≢◌, inl, inr, sym, ◌∙◌, arith, Bool-cases, Option-cases,
}
use esp_components.Config.Files.{FileSystem}
use esp_components.Config.Store.Rotation.{write_temp-Always}
use esp_components.Config.Store.{ok, Disk, fresh, step, write_temp, install, rotate, replace}

module _ (F : FileSystem) where
  open F use {
    Fs, content, create, append, flush, close, unlink, rename, create_done, append_done, flush_done,
    close_done, rename_done, rename_other, rename_failed, unlink_other,
  }

  -- A temporary file that was written without an error holds the bytes.
  write_temp_done :
      (temp bytes : Bytes) (d : Disk Fs)
      → (write_temp F temp bytes d).0 ≡ true
      → content (write_temp F temp bytes d).1.now temp ≡ some bytes
  unfolding write_temp
  write_temp_done temp [] d h =
      let s1 = (create temp d.now).1 in
      let s2 = (flush temp s1).1 in
      ground (arith, create_done temp d.now, flush_done temp s1, close_done temp s2)
  write_temp_done temp (b ∷ bytes) d h =
      let s1 = (create temp d.now).1 in
      let s2 = (append temp (b ∷ bytes) s1).1 in
      let s3 = (flush temp s2).1 in
      ground (
        arith,
        create_done temp d.now,
        append_done temp (b ∷ bytes) [] s1,
        flush_done temp s2,
        close_done temp s3,
      )

  module _ (path temp backup : Bytes) (path-ne-temp : path ≢ temp) (path-ne-backup : path ≢ backup)
      (backup-ne-temp : backup ≢ temp) where
    install_done :
        (d : Disk Fs)
        → (install F path temp backup d).0 ≡ ok
        → (content (install F path temp backup d).1.now path ≡ content d.now temp)
          × (content (install F path temp backup d).1.now backup ≡ content d.now backup)
    unfolding install
    install_done d h = elim (Bool-cases (rename temp path d.now).0) [
      | inl e ↦ rw e (
        (rename_done temp path d.now (λ q. path-ne-temp (sym q)) e).0,
        rename_other temp path backup d.now backup-ne-temp (λ q. path-ne-backup (sym q)),
      )
      | inr e ↦ ground arith
    ]

    rotate_done :
        (d : Disk Fs)
        → (rotate F path temp backup d).0 ≡ ok
        → (content (rotate F path temp backup d).1.now path ≡ content d.now temp)
          × ((old : Bytes)
              → content d.now path ≡ some old
              → content (rotate F path temp backup d).1.now backup ≡ some old)
    unfolding rotate
    rotate_done d h =
        let s1 = (unlink backup d.now).1 in
        let d2 = (step (rename path backup) (step (unlink backup) d).1).1 in
        elim (Option-cases (content d.now path)) [
          | inl e ↦ rw e ((install_done d (rw e at h)).0, λ old q. cc)
          | inr (now, e) ↦ elim (Bool-cases (rename path backup s1).0) [
            | inl m ↦
                let done = install_done d2 (rw (e, m) at h) in
                let kept =
                  rename_other path backup temp s1 (λ q. path-ne-temp (sym q))
                    (λ q. backup-ne-temp (sym q)) in
                let there = unlink_other backup temp d.now (λ q. backup-ne-temp (sym q)) in
                let held = unlink_other backup path d.now path-ne-backup in
                rw (e, m)
                  (
                    done.0 ∙ kept ∙ there,
                    λ old q.
                        done.1 ∙ (rename_done path backup s1 path-ne-backup m).0 ∙ held ∙ e ∙ q,
                  )
            | inr n ↦ cc (rw (e, n) at h)
          ]
        ]

    -- A replacement that reports success leaves the new bytes at the path, and what stood there
    -- at the path of the backup.
    pub replace_done :
        (bytes : Bytes) (s : Fs)
        → (replace F path temp backup bytes (fresh s)).0 ≡ ok
        → (content (replace F path temp backup bytes (fresh s)).1.now path ≡ some bytes)
          × ((old : Bytes)
              → content s path ≡ some old
              → content (replace F path temp backup bytes (fresh s)).1.now backup ≡ some old)
    unfolding replace
    replace_done bytes s h = elim (Bool-cases (write_temp F temp bytes (fresh s)).0) [
      | inl e ↦
          let d1 = (write_temp F temp bytes (fresh s)).1 in
          let rotated = rotate_done d1 (rw e at h) in
          rw e (
            rotated.0 ∙ write_temp_done temp bytes (fresh s) e,
            λ old q.
                rotated.1 old
                  (write_temp-Always F temp path (some old) path-ne-temp bytes (fresh s) (q, tt)).0,
          )
      | inr e ↦ cc (rw e at h)
    ]
