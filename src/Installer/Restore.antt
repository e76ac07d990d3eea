-- ===== src/Installer/Restore.antt =====
-- installer/backup_archive.py: files are copied, installed and put in the place of others.
pub mod Chunks
pub mod Copied
pub mod Elsewhere
pub mod OldOrNew
pub mod Completed
pub mod Installed
pub mod Others
pub mod Staged
pub mod Swap
use ez_open_pn.Prelude.{
  ℕ, ◌+◌, Bool, true, false, ◌&&◌, not, Option, none, some, List, [], ◌∷◌, ◌++◌, map, Bytes, Text,
  codes, bytes_eq, length, leb, ◌==◌, if◌then◌else◌,
}
use ez_open_pn.Errors.{Exn, Result, ok, err, archive_error, os_error}
use ez_open_pn.Installer.Names.{parts, texts_eq}
use ez_open_pn.Installer.Json.{Json, Fields}
use ez_open_pn.Installer.Manifest.{max_file_size, FileRecord, parse_manifest, manifest_records}
use ez_open_pn.Installer.Io.{
  Io, pure, raise, lift, ◌>>=◌, ◌>>◌, on_error, finally, for_each, demand, Attributes, File,
  FilePath, Node, regular, other, Entry, file, tree, link, special, Place, Disk, Os,
}
use ez_open_pn.Installer.Disk.{
  find, put, staged_at, Target, whole, inside, call, create, change, write, chmod, chown,
  apply_owner, with_attributes, exists, replace, unlink, rmtree, set_place,
}

-- `archive_prefix / relative`, seen from the prefix.
unfoldable pub below : FilePath → FilePath → Option FilePath
below [] path = some path
below (d ∷ ds) [] = none
below (d ∷ ds) (p ∷ ps) = if bytes_eq d p then below ds ps else none

abbrev pub found_below :
    Option FilePath → FilePath → List (FilePath × FilePath) → List (FilePath × FilePath)
found_below none path found = found
found_below (some relative) path found = (relative, path) ∷ found

-- What `os.walk` finds below a directory of the staging directory, in the order of the model's list.
unfoldable pub walked : FilePath → List (FilePath × Node) → List (FilePath × FilePath)
unfolding below
walked prefix [] = []
walked prefix ((path, node) ∷ rest) = found_below (below prefix path) path (walked prefix rest)

abbrev pub regular_node : Option Node → Io File
regular_node none = raise os_error
regular_node (some other) = raise archive_error
regular_node (some (regular x)) = demand (leb (length x.content) max_file_size) >> pure x

-- The files of the temporary directory, as `os.walk` lists them.
abbrev pub names_in : Option Entry → List FilePath
names_in (some (tree a files)) = map (λ x. x.0) files
names_in _ = []

abbrev pub is_tree : Option Entry → Bool
is_tree (some (tree a files)) = true
is_tree _ = false

abbrev pub is_directory : Option Node → Bool
is_directory none = true
is_directory (some node) = false

module _ (os : Os) where
  -- `_regular_status`, with the content of the file.
  unfoldable pub regular_status : FilePath → Io File
  unfolding staged_at call ◌>>=◌
  regular_status path = call os >> (λ d. regular_node (staged_at path d.staged) d)

  -- The loop of `_safe_copy` over what `read` returns, until it returns nothing.
  unfoldable pub copy_chunks : Target → List Bytes → ℕ → Bytes → Io (Text × ℕ)
  unfolding call change ◌>>=◌
  copy_chunks target [] size seen = call os >> (call os >> pure (os.sha256 seen, size))
  copy_chunks target (chunk ∷ rest) size seen =
      let more = copy_chunks target rest (size + length chunk) (seen ++ chunk) in
      call os
      >> (demand (leb (size + length chunk) max_file_size) >> (write os target chunk >> more))

  -- `_safe_copy`. The calls are lstat, mkdir, the two opens and fstat.
  unfoldable pub safe_copy : FilePath → Target → Io (Text × ℕ)
  unfolding regular_status call create copy_chunks ◌>>=◌
  safe_copy source target = do
    x ← regular_status source
    call os
    call os
    create os target
    call os
    copy_chunks target (os.reads x.content) 0 []

  -- `_tree_files`: the relative paths, with the paths that they stand for.
  unfoldable pub tree_files : FilePath → Io (List (FilePath × FilePath))
  unfolding call regular_status walked for_each ◌>>=◌
  tree_files source = do
    call os
    found ← (λ d. (ok (walked source d.staged), d))
    for_each found (λ x. regular_status x.1 >> pure tt)
    pure found

  -- A name beside a place, `with_name`.
  abbrev pub beside : Place → Text → ℕ → Place
  beside p word n = record { dir = p.dir; name = codes "." ++ (p.name ++ (word ++ os.token n)) }

  -- `_install_file`.
  unfoldable pub install_file : FilePath → Place → ℕ → ℕ → ℕ → Io (Unit {0})
  unfolding regular_status call safe_copy change replace unlink finally ◌>>=◌
  install_file source destination mode uid gid = do
    regular_status source
    call os
    n ← (λ d. (ok d.calls, d))
    let temporary = beside destination (codes ".restore-") n
    finally
        (safe_copy source (whole temporary)
          >> (chmod os mode (whole temporary)
              >> (apply_owner os uid gid (whole temporary) >> replace os temporary destination)))
        (unlink os temporary)

  -- The walk through the temporary directory of `_copy_tree`.
  abbrev pub own_directories : Place → ℕ → ℕ → Io (Unit {0})
  own_directories p uid gid = do
    call os
    (if os.euid == 0 then call os else pure tt)
    (λ d.
        set_place p
          (with_attributes
            (record {
              mode = 448;
              uid = if os.euid == 0 then uid else os.euid;
              gid = if os.euid == 0 then gid else os.egid;
            })
            (find p d.places))
          d)

  unfoldable pub own_tree : Place → ℕ → ℕ → Io (Unit {0})
  unfolding call change for_each find put ◌>>=◌
  own_tree p uid gid = do
    own_directories p uid gid
    names ← (λ d. (ok (names_in (find p d.places)), d))
    for_each names (λ path. chmod os 384 (inside p path) >> apply_owner os uid gid (inside p path))

  -- `_copy_tree` up to the renames: the temporary directory with the copies. What `mkdtemp` makes is
  -- new, and only its owner may enter it.
  unfoldable pub fill_tree : FilePath → Place → ℕ → ℕ → Io (Unit {0})
  unfolding tree_files for_each safe_copy own_tree ◌>>=◌
  fill_tree source temporary uid gid = do
    found ← tree_files source
    for_each found (λ x. safe_copy x.1 (inside temporary x.0) >> pure tt)
    own_tree temporary uid gid

  -- The handler of `except BaseException` once the old directory was moved.
  unfoldable pub move_back : Place → Place → Io (Unit {0})
  unfolding exists replace ◌>>=◌
  move_back old destination = do
    there ← exists os destination
    kept ← (if not there then exists os old else pure false)
    (if kept then replace os old destination else pure tt)

  -- The renames of `_copy_tree`.
  unfoldable pub swap_trees : Place → Place → Place → Io (Unit {0})
  unfolding exists replace rmtree on_error move_back find ◌>>=◌
  swap_trees temporary old destination = do
    there ← exists os destination
    (if there
        then (do
          safe ← (λ d. (ok (is_tree (find destination d.places)), d))
          demand safe
          replace os destination old
          on_error (replace os temporary destination >> rmtree os old) (move_back old destination))
        else replace os temporary destination)

  -- The `finally` of `_copy_tree`.
  unfoldable pub remove_if_there : Place → Io (Unit {0})
  unfolding exists rmtree ◌>>=◌
  remove_if_there p = do there ← exists os p; (if there then rmtree os p else pure tt)

  -- `_copy_tree`.
  unfoldable pub copy_tree : FilePath → Place → ℕ → ℕ → Io (Unit {0})
  unfolding staged_at call put fill_tree swap_trees remove_if_there finally ◌>>=◌
  copy_tree source destination uid gid = do
    call os
    directory ← (λ d. (ok (is_directory (staged_at source d.staged)), d))
    demand directory
    call os
    n ← (λ d. (ok d.calls, d))
    call os
    let temporary = beside destination (codes ".restore-") n
    let old = beside destination (codes ".previous-") n
    (λ d. (
      ok tt,
      record d {
        places =
            put temporary (tree (record { mode = 448; uid = os.euid; gid = os.egid }) []) d.places;
      },
    ))
    finally (fill_tree source temporary uid gid >> swap_trees temporary old destination)
        (remove_if_there temporary >> remove_if_there old)
