-- ===== src/Installer/Cleanup.antt =====
-- installer/backup_archive.py `cleanup_staging`.
pub mod Confined
use ez_open_pn.Prelude.{◌&&◌, Option, none, some, Text, codes, bytes_eq}
use ez_open_pn.Errors.{os_error}
use ez_open_pn.Installer.Names.{starts_with}
use ez_open_pn.Installer.Io.{Io, pure, raise, ◌>>=◌, ◌>>◌, demand, Entry, Place, Os}
use ez_open_pn.Installer.Disk.{find, call, rmtree}
use ez_open_pn.Installer.Restore.{is_tree}

-- What `lstat` finds.
abbrev pub found_entry : Option Entry → Io Entry
found_entry none = raise os_error
found_entry (some e) = pure e

-- The path is a place: its parent, and its name in it.
unfoldable pub cleanup_staging : Os → Place → Text → Io (Unit {0})
unfolding starts_with call find rmtree ◌>>=◌
cleanup_staging os path parent = do
  demand (bytes_eq path.dir parent && starts_with (codes ".stage.") path.name)
  call os
  entry ← (λ d. found_entry (find path d.places) d)
  demand (is_tree (some entry))
  rmtree os path
