-- ===== src/Config/Store/Names.antt =====
-- The three names of a configuration differ.
use esp_components.Base.{
  ℕ, [], ◌∷◌, ◌++◌, some, Bytes, length, length-append, get_or, ◌≡◌, ◌≢◌, arith, ap,
}
use esp_components.Config.Store.{suffixed, temp_suffix, backup_suffix}

append-left_cancel : (xs ys zs : Bytes) → xs ++ ys ≡ xs ++ zs → ys ≡ zs
append-left_cancel [] ys zs e = e
append-left_cancel (x ∷ xs) ys zs e = append-left_cancel xs ys zs (cc)

pub path-ne-suffixed : (path : Bytes) (c : ℕ) (cs : Bytes) → path ≢ path ++ (c ∷ cs)
path-ne-suffixed path c cs e = absurd (omega (arith, ap length e, length-append path (c ∷ cs)))

pub backup-ne-temp : (path : Bytes) → path ++ backup_suffix ≢ path ++ temp_suffix
backup-ne-temp path e =
    let suffixes = append-left_cancel path backup_suffix temp_suffix e in
    absurd (omega (arith, ap (λ (s : Bytes). get_or s 1 0) suffixes))

pub suffixed-some :
    (path suffix : Bytes) {name : Bytes} → suffixed path suffix ≡ some name → name ≡ path ++ suffix
unfolding suffixed
suffixed-some path suffix h = ground arith
