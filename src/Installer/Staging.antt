-- ===== src/Installer/Staging.antt =====
-- A member is extracted to the staging directory: installer/backup_archive.py `_safe_extract_member`.
use ez_open_pn.Prelude.{
  ℕ, ◌+◌, Bool, true, false, ◌&&◌, ◌||◌, Option, none, some, List, [], ◌∷◌, ◌++◌, Bytes, Text,
  codes, bytes_eq, length, leb, ◌==◌, if◌then◌else◌,
}
use ez_open_pn.Errors.{ok, err, archive_error, os_error}
use ez_open_pn.Installer.Names.{texts_eq}
use ez_open_pn.Installer.Manifest.{max_file_size, FileRecord}
use ez_open_pn.Installer.Io.{
  Io, pure, raise, ◌>>=◌, ◌>>◌, demand, FilePath, Node, regular, other, Os,
}
use ez_open_pn.Installer.Disk.{call, new_file}
use ez_open_pn.Installer.Apply.{payload}
use ez_open_pn.Installer.Tar.{get_member, TarMember}

abbrev pub member_of : Text → Text
member_of name = codes "payload/" ++ name

-- `tar.extractfile` of a member of the name.
abbrev pub stream_of : Option TarMember → Io Bytes
stream_of none = raise archive_error
stream_of (some m) = if m.is_file then pure m.content else raise archive_error

-- One path leads through the other.
unfoldable pub is_above : FilePath → FilePath → Bool
is_above [] path = true
is_above (d ∷ ds) [] = false
is_above (d ∷ ds) (p ∷ ps) = bytes_eq d p && is_above ds ps

unfoldable pub is_blocked : FilePath → List (FilePath × Node) → Bool
unfolding is_above
is_blocked path [] = false
is_blocked path ((key, node) ∷ rest) =
    is_above key path || is_above path key || is_blocked path rest

abbrev pub grown : Bytes → Node → Node
grown chunk (regular x) = regular (record x { content = x.content ++ chunk })
grown chunk other = other

unfoldable pub grow : FilePath → Bytes → List (FilePath × Node) → List (FilePath × Node)
unfolding texts_eq
grow path chunk [] = []
grow path chunk ((key, node) ∷ rest) =
    if texts_eq path key then (key, grown chunk node) ∷ rest else (key, node) ∷ grow path chunk rest

abbrev pub new_staged : Os → FilePath → Bool → Io (Unit {0})
new_staged os path true d = (err os_error, d)
new_staged os path false d = (ok tt, record d { staged = (path, regular (new_file os)) ∷ d.staged })

module _ (os : Os) where
  -- `os.open` with O_CREAT | O_EXCL in the staging directory.
  unfoldable pub create_staged : FilePath → Io (Unit {0})
  unfolding call is_blocked ◌>>=◌
  create_staged path = call os >> (λ d. new_staged os path (is_blocked path d.staged) d)

  unfoldable pub write_staged : FilePath → Bytes → Io (Unit {0})
  unfolding call grow ◌>>=◌
  write_staged path chunk =
      call os >> (λ d. (ok tt, record d { staged = grow path chunk d.staged }))

  -- The loop of `_safe_extract_member` over what `read` returns, and its last test.
  unfoldable pub extract_chunks : FilePath → Text → ℕ → List Bytes → ℕ → Bytes → Io (Unit {0})
  unfolding call write_staged ◌>>=◌
  extract_chunks path digest expected [] size seen = do
    call os
    demand (size == expected && bytes_eq (os.sha256 seen) digest)
  extract_chunks path digest expected (chunk ∷ rest) size seen =
      let more = extract_chunks path digest expected rest (size + length chunk) (seen ++ chunk) in
      demand (leb (size + length chunk) expected && leb (size + length chunk) max_file_size)
      >> (write_staged path chunk >> more)

  -- `_safe_extract_member`.
  unfoldable pub extract_member : Bytes → FilePath → Text → ℕ → Io (Unit {0})
  unfolding call create_staged extract_chunks ◌>>=◌
  extract_member content path digest size = do
    call os
    create_staged path
    extract_chunks path digest size (os.reads content) 0 []

  unfoldable pub extract_record : List TarMember → FileRecord → Io (Unit {0})
  unfolding get_member extract_member ◌>>=◌
  extract_record members r = do
    content ← stream_of (get_member (member_of r.path) members)
    extract_member content (payload r.path) r.digest r.size

  abbrev pub set_manifest : Bytes → Io (Unit {0})
  set_manifest raw d = (
    ok tt,
    record d {
      staged =
          (
            codes "manifest.json" ∷ [],
            regular (record { content = raw; attributes = (new_file os).attributes }),
          )
          ∷ d.staged;
    },
  )

  -- `manifest_path.write_bytes` and `os.chmod`.
  unfoldable pub write_manifest : Bytes → Io (Unit {0})
  unfolding call ◌>>=◌
  write_manifest raw = call os >> (set_manifest raw >> call os)
