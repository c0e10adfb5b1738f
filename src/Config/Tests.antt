-- ===== src/Config/Tests.antt =====
-- Runs of the store on the file system in memory.
use esp_components.Base.{
  true, false, [], ◌∷◌, Option, none, some, ◌≡◌, refl, arith, codes, same_bytes, Bytes,
}
use esp_components.Config.Ram.{Ram, ram, put}
use esp_components.Config.Store.Reading.{IsRead, read-IsRead, read-write, restore_backup-ok}
use esp_components.Config.Store.Rotation.{Always, Survives}
use esp_components.Config.Store.Writing.{write-Always, write-ok}
use esp_components.Config.Store.{
  ok, failed, Config, fresh, write, read, read_file, read_outcome, source_primary, source_override,
  restore_backup, suffixed, replace, write_temp, rotate, install,
}

abbrev cfg : Config
cfg = record { path = codes "/c"; override_path = none; max_size = 16 }

abbrev nothing : Bytes → Option Bytes
nothing p = none

-- One file, and calls that all succeed.
abbrev stored : Ram
stored = record { files = put nothing (codes "/c") (some (codes "old")); luck = [] }

-- The same, where the seventh call fails: the second rename.
abbrev unlucky : Ram
unlucky = record {
  files = put nothing (codes "/c") (some (codes "old"));
  luck = true ∷ true ∷ true ∷ true ∷ true ∷ true ∷ false ∷ [];
}

abbrev news : Option Bytes
news = some (codes "new!")

write_runs :
    ((write ram (some cfg) news 3 (fresh stored)).0 ≡ ok)
    × ((write ram (some cfg) news 3 (fresh stored)).1.now.files (codes "/c") ≡ some (codes "new"))
    × ((write ram (some cfg) news 3 (fresh stored)).1.now.files (codes "/c.bak")
        ≡ some (codes "old"))
    × ((write ram (some cfg) news 3 (fresh unlucky)).0 ≡ failed)
    × ((write ram (some cfg) news 3 (fresh unlucky)).1.now.files (codes "/c") ≡ some (codes "old"))
    × ((write ram (some cfg) news 3 (fresh unlucky)).1.now.files (codes "/c.new") ≡ none)
unfolding write suffixed replace write_temp rotate install same_bytes
write_runs = (refl, refl, refl, refl, refl, refl)

write-Always_example :
    Always
      (Survives ram (codes "/c") (codes "/c.bak") (codes "old"))
      (write ram (some cfg) news 3 (fresh unlucky)).1
unfolding same_bytes
write-Always_example = write-Always ram cfg news 3 unlucky (codes "old") refl

write-ok_example :
    ((write ram (some cfg) news 3 (fresh stored)).1.now.files (codes "/c") ≡ some (codes "new"))
    × ((old : Bytes)
        → stored.files (codes "/c") ≡ some old
        → (write ram (some cfg) news 3 (fresh stored)).1.now.files (codes "/c.bak") ≡ some old)
write-ok_example = write-ok ram cfg news 3 stored write_runs.0

abbrev with_card : Config
with_card = record cfg { override_path = some (codes "/sd") }

abbrev carded : Ram
carded = record { files = put stored.files (codes "/sd") (some (codes "card")); luck = [] }

read-IsRead_example :
    IsRead 8 16 (some (codes "card")) (some (codes "card")) (codes "card")
    × (source_override ≡ source_override)
unfolding read read_file read_outcome same_bytes
read-IsRead_example = read-IsRead ram with_card 8 carded refl

read-write_example :
    read ram (some cfg) 8 (write ram (some cfg) news 3 (fresh stored)).1.now
    ≡ (ok, codes "new", source_primary)
unfolding write suffixed replace write_temp rotate install same_bytes
read-write_example = read-write ram cfg news 3 8 stored refl refl refl (omega arith) (omega arith)

abbrev backed_up : Ram
backed_up = record {
  files =
      put (put nothing (codes "/c") (some (codes "bad"))) (codes "/c.bak") (some (codes "good"));
  luck = [];
}

restore_backup-ok_example :
    Always
      (Survives ram (codes "/c") (codes "/c.bak") (codes "good"))
      (restore_backup ram (some cfg) (fresh backed_up)).1
    × ((restore_backup ram (some cfg) (fresh backed_up)).0 ≡ ok
        → (restore_backup ram (some cfg) (fresh backed_up)).1.now.files (codes "/c")
          ≡ some (codes "good"))
unfolding same_bytes
restore_backup-ok_example = restore_backup-ok ram cfg backed_up (codes "good") refl
