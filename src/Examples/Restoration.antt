-- ===== src/Examples/Restoration.antt =====
-- A backup is restored: the theorems applied to a concrete disk, and runs on it.
use ez_open_pn.Prelude.{◌≡◌, ◌⊎◌, refl, true, none, some, [], ◌∷◌, codes, bytes_eq, ◌==◌, ◌||◌}
use ez_open_pn.Installer.Names.{starts_with, parts}
use ez_open_pn.Installer.Io.{Disk, Os, Place}
use ez_open_pn.Installer.Disk.{find}
use ez_open_pn.Installer.Restore.{copy_tree, is_tree}
use ez_open_pn.Installer.Cleanup.{cleanup_staging}
use ez_open_pn.Installer.Cleanup.Confined.{cleanup_is_confined}
use ez_open_pn.Installer.Apply.{payload, caddy, apply_payload}
use ez_open_pn.Installer.Restore.Installed.{Installed}
use ez_open_pn.Installer.Apply.Verified.{Verified, apply_payload-Verified}
use ez_open_pn.Examples.Outside.{repeat}
use ez_open_pn.Examples.Backup.{system, calm, whole, loads, staged_files, old_caddy, disk}

apply_payload-Verified_example :
    ((apply_payload calm loads disk).1.places ≡ disk.places) ⊎ Verified calm staged_files loads
apply_payload-Verified_example = apply_payload-Verified calm loads disk whole

-- Only the rename that puts the new directory in its place is refused.
abbrev once : Os
once = system (λ n. n == 20)

abbrev stage : Place
stage = record { dir = codes "backups"; name = codes ".stage.1" }

abbrev staging_disk : Disk
staging_disk = record {
  staged = [];
  places = (stage, old_caddy) ∷ (caddy, old_caddy) ∷ [];
  calls = 0;
}

cleanup_is_confined_example :
    (find caddy (cleanup_staging calm stage (codes "backups") staging_disk).1.places
      ≡ find caddy staging_disk.places)
    ⊎ ((caddy ≡ stage)
        × (stage.dir ≡ codes "backups")
        × (starts_with (codes ".stage.") stage.name ≡ true)
        × (is_tree (find stage staging_disk.places) ≡ true))
cleanup_is_confined_example = cleanup_is_confined calm stage (codes "backups") caddy staging_disk

stage_is_removed :
    find stage (cleanup_staging calm stage (codes "backups") staging_disk).1.places ≡ none
unfolding cleanup_staging bytes_eq
stage_is_removed = refl

-- With that call refused, the old directory is back.
old_is_back :
    find caddy (copy_tree once (payload (codes "caddy")) caddy 10004 11003 disk).1.places
    ≡ some old_caddy
unfolding copy_tree repeat bytes_eq parts
old_is_back = refl

-- With the rename back refused, too, there is nothing any more.
both_are_lost :
    (copy_tree
      (system (λ n. n == 20 || n == 23))
      (payload (codes "caddy"))
      caddy
      10004
      11003
      disk).1.places
    ≡ []
unfolding copy_tree repeat bytes_eq parts
both_are_lost = refl
