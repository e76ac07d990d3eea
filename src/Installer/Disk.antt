-- ===== src/Installer/Disk.antt =====
-- The system calls of installer/backup_archive.py on the places of the installation, and lookups.
pub mod Ends
pub mod Laws
pub mod Staged
pub mod Yields
use ez_open_pn.Prelude.{
  ℕ, ◌+◌, Bool, true, false, ◌&&◌, not, Option, none, some, List, [], ◌∷◌, ◌++◌, Bytes, Text, codes,
  bytes_eq, length, select, leb, ◌==◌, if◌then◌else◌,
}
use ez_open_pn.Errors.{Exn, Result, ok, err, archive_error, os_error}
use ez_open_pn.Installer.Names.{texts_eq}
use ez_open_pn.Installer.Io.{
  Io, afterwards, continue, demand, finally, for_each, handle, lift, on_error, pure, raise,
  then_raise, ◌>>=◌, ◌>>◌, Attributes, Disk, Entry, File, FilePath, Node, Os, Place, file, link,
  other, regular, same_place, special, tree,
}

-- Look up, add or replace, and remove.
unfoldable pub find : Place → List (Place × Entry) → Option Entry
find p [] = none
find p ((q, e) ∷ rest) = if same_place p q then some e else find p rest

unfoldable pub put : Place → Entry → List (Place × Entry) → List (Place × Entry)
put p e [] = (p, e) ∷ []
put p e ((q, old) ∷ rest) = if same_place p q then (p, e) ∷ rest else (q, old) ∷ put p e rest

unfoldable pub remove : Place → List (Place × Entry) → List (Place × Entry)
remove p = select (λ x. not (same_place p x.0))

unfoldable pub staged_at : FilePath → List (FilePath × Node) → Option Node
unfolding texts_eq
staged_at path [] = none
staged_at path ((key, node) ∷ rest) = if texts_eq path key then some node else staged_at path rest

-- The file with a path below a tree is changed.
unfoldable pub update_file :
    FilePath → (File → File) → List (FilePath × File) → List (FilePath × File)
unfolding texts_eq
update_file path f [] = []
update_file path f ((key, x) ∷ rest) =
    if texts_eq path key then (key, f x) ∷ rest else (key, x) ∷ update_file path f rest

unfoldable pub has_file : FilePath → List (FilePath × File) → Bool
unfolding texts_eq
has_file path [] = false
has_file path ((key, x) ∷ rest) = if texts_eq path key then true else has_file path rest

-- A file to be written: at a place, or below a tree that stands there.
pub data Target : Type 0 where
  whole : Place → Target
  inside : Place → FilePath → Target

abbrev pub place_of : Target → Place
place_of (whole p) = p
place_of (inside p path) = p

-- A file that the program creates is its user's, with the mode 0o600.
abbrev pub new_file : Os → File
new_file os = record {
  content = [];
  attributes = record { mode = 384; uid = os.euid; gid = os.egid };
}

-- `open` with O_CREAT | O_EXCL.
abbrev pub created : Os → Target → Option Entry → Option Entry
created os (whole p) none = some (file (new_file os))
created os (whole p) (some e) = none
created os (inside p path) (some (tree a files)) =
    if has_file path files then none else some (tree a ((path, new_file os) ∷ files))
created os (inside p path) _ = none

abbrev pub changed : (File → File) → Target → Option Entry → Option Entry
changed f (whole p) (some (file x)) = some (file (f x))
changed f (inside p path) (some (tree a files)) = some (tree a (update_file path f files))
changed f _ _ = none

-- A call that changes the place to what it gets, or fails if there is nothing to get.
abbrev pub set_place : Place → Option Entry → Io (Unit {0})
set_place p none d = (err os_error, d)
set_place p (some e) d = (ok tt, record d { places = put p e d.places })

-- `rename`: a directory only takes the place of nothing or of an empty directory, and a file never
-- that of a directory.
abbrev pub may_replace : Entry → Option Entry → Bool
may_replace _ none = true
may_replace (tree a files) (some (tree b [])) = true
may_replace (tree a files) (some _) = false
may_replace _ (some (tree b files)) = false
may_replace _ (some _) = true

-- Whether something is found there, links followed.
abbrev pub leads : Option Entry → Bool
leads none = false
leads (some (link b)) = b
leads (some _) = true

-- `unlink(missing_ok=True)` does not remove a directory, and `rmtree` nothing else.
unfoldable pub unlinked : Place → Option Entry → Io (Unit {0})
unfolding remove
unlinked p (some (tree a files)) d = (err os_error, d)
unlinked p _ d = (ok tt, record d { places = remove p d.places })

unfoldable pub tree_removed : Place → Option Entry → Io (Unit {0})
unfolding remove
tree_removed p (some (tree a files)) d = (ok tt, record d { places = remove p d.places })
tree_removed p _ d = (err os_error, d)

-- chmod and chown of the directories of a tree.
abbrev pub with_attributes : Attributes → Option Entry → Option Entry
with_attributes a (some (tree b files)) = some (tree a files)
with_attributes a _ = none

abbrev pub rename_entry : Place → Place → Option Entry → Io (Unit {0})
rename_entry source destination none d = (err os_error, d)
rename_entry source destination (some e) d =
    if may_replace e (find destination d.places)
    then (ok tt, record d { places = put destination e (remove source d.places) })
    else (err os_error, d)

module _ (os : Os) where
  -- A system call that changes nothing that the model keeps.
  unfoldable pub call : Io (Unit {0})
  call d = ((if os.refuses d.calls then err os_error else ok tt), record d { calls = d.calls + 1 })

  unfoldable pub create : Target → Io (Unit {0})
  unfolding call ◌>>=◌ find has_file put
  create target =
      call
      >> (λ d. set_place (place_of target) (created os target (find (place_of target) d.places)) d)

  unfoldable pub change : (File → File) → Target → Io (Unit {0})
  unfolding call ◌>>=◌ find update_file put
  change f target =
      call
      >> (λ d. set_place (place_of target) (changed f target (find (place_of target) d.places)) d)

  -- `os.write`, until all of the chunk is written.
  abbrev pub write : Target → Bytes → Io (Unit {0})
  write target chunk = change (λ x. record x { content = x.content ++ chunk }) target

  abbrev pub chmod : ℕ → Target → Io (Unit {0})
  chmod mode = change (λ x. record x {
    attributes = record { mode = mode; uid = x.attributes.uid; gid = x.attributes.gid };
  })

  abbrev pub chown : ℕ → ℕ → Target → Io (Unit {0})
  chown uid gid =
      change
        (λ x. record x { attributes = record { mode = x.attributes.mode; uid = uid; gid = gid } })

  -- `_apply_owner`.
  abbrev pub apply_owner : ℕ → ℕ → Target → Io (Unit {0})
  apply_owner uid gid target = if os.euid == 0 then chown uid gid target else pure tt

  unfoldable pub exists : Place → Io Bool
  unfolding call ◌>>=◌ find
  exists p = call >> (λ d. (ok (leads (find p d.places)), d))

  -- `os.replace`.
  unfoldable pub replace : Place → Place → Io (Unit {0})
  unfolding call ◌>>=◌ find put remove
  replace source destination =
      call >> (λ d. rename_entry source destination (find source d.places) d)

  -- `Path.unlink(missing_ok=True)`.
  unfoldable pub unlink : Place → Io (Unit {0})
  unfolding call ◌>>=◌ find unlinked
  unlink p = call >> (λ d. unlinked p (find p d.places) d)

  -- `shutil.rmtree`; one that is refused half-way leaves the directory in its place.
  unfoldable pub rmtree : Place → Io (Unit {0})
  unfolding call ◌>>=◌ find tree_removed
  rmtree p = call >> (λ d. tree_removed p (find p d.places) d)
