-- ===== src/Installer/Apply/Complete.antt =====
-- installer/backup_archive.py `apply_payload`: what is in place once it returns.
use ez_open_pn.Prelude.{◌≡◌, Bool, true, ◌&&◌, not, List, [], ◌∷◌, Bytes, codes, all, All}
use ez_open_pn.Installer.Json.{Json}
use ez_open_pn.Installer.Io.{Io, FilePath, Node, Place, Disk, Os, same_place}
use ez_open_pn.Installer.Disk.Yields.{Yields}
use ez_open_pn.Installer.Restore.{install_file}
use ez_open_pn.Installer.Restore.Chunks.{joined}
use ez_open_pn.Installer.Restore.OldOrNew.{Restored}
use ez_open_pn.Installer.Disk.Staged.{Staged}
use ez_open_pn.Installer.Restore.Others.{is_visible}
use ez_open_pn.Installer.Restore.Installed.{Installed}
use ez_open_pn.Installer.Apply.{payload, Destination, fixed_destinations, material, caddy}
use ez_open_pn.Installer.Apply.Looks.{Looks}

-- The place is visible and none of those that follow.
abbrev is_spread : List Destination → Bool
is_spread [] = true
is_spread (x ∷ xs) =
    is_visible x.target && (all (λ y. not (same_place x.target y.target)) xs && is_spread xs)

-- The places are visible and are not this one.
abbrev is_clear : Place → List Destination → Bool
is_clear q xs = all (λ x. is_visible x.target && not (same_place x.target q)) xs

module _ (os : Os) (s : List (FilePath × Node)) where
  abbrev Placed : Disk → Destination → Type 0
  Placed d x = Installed os s (payload x.source) x.target x.mode x.uid x.gid d

  abbrev install : Destination → Io (Unit {0})
  install x = install_file os (payload x.source) x.target x.mode x.uid x.gid

  module _ (whole_content : (b : Bytes) → joined (os.reads b) ≡ b) where
    -- What is in place in the end.
    Done : Disk → Type 0
    Done d =
        All (Placed d) fixed_destinations
        × Restored s (payload (codes "runtime/material")) material d
        × Restored s (payload (codes "caddy")) caddy d
