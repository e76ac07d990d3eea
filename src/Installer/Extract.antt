-- ===== src/Installer/Extract.antt =====
-- installer/backup_archive.py `validate_and_extract`.
pub mod Origin
pub mod Extracted
pub mod Trusted
use ez_open_pn.Prelude.{
  ℕ, ◌+◌, ◌*◌, Bool, true, false, ◌&&◌, ◌||◌, not, Option, none, some, List, [], ◌∷◌, ◌++◌, map,
  Bytes, Text, codes, bytes_eq, length, take, isascii, all, leb, ltb, ◌==◌, if◌then◌else◌,
}
use ez_open_pn.Errors.{Result, ok, err, require, archive_error, os_error, tar_error}
use ez_open_pn.Errors
use ez_open_pn.Installer.Names.{validated_member_name, texts_eq}
use ez_open_pn.Installer.Json.{Json, Fields, member, get}
use ez_open_pn.Installer.Manifest.{
  max_file_size, max_members, FileRecord, parse_manifest, manifest_records, equals_text,
  max_manifest_size,
}
use ez_open_pn.Installer.Metadata.{Answers, database_metadata, install_state}
use ez_open_pn.Installer.Io.{
  Io, pure, raise, ◌>>=◌, ◌>>◌, demand, lift, for_each, FilePath, Node, regular, other, Os,
}
use ez_open_pn.Installer.Disk.{call, new_file}
use ez_open_pn.Installer.Restore.{regular_status}
use ez_open_pn.Installer.Apply.{payload, sha256_chunks}
use ez_open_pn.Installer.Tar.{
  file_size, scan, later_or, get_member, same_set, Tar, TarMember, max_total_size,
}
use ez_open_pn.Installer.Staging.{
  create_staged, extract_chunks, extract_member, extract_record, grow, grown, is_above, is_blocked,
  member_of, new_staged, set_manifest, stream_of, write_manifest, write_staged,
}

-- What the program asks of others: `json.loads` of bytes and of what `read_text` makes of them as UTF-8
-- (`none` where either refuses), the archive format, and SQLite.
pub record Formats : Type 0 where
  pub loads : Bytes → Option Json
  pub loads_text : Bytes → Option Json
  pub manifest_bytes : Fields → Bytes
  pub read_tar : Bytes → Tar
  pub query : Bytes → Option Answers

-- A file outside of the staging directory: the archive, its checksum, the state of the installation.
pub record OutsideFile : Type 0 where
  pub is_regular : Bool
  pub owner : ℕ
  pub mode : ℕ
  pub content : Bytes

abbrev pub found_status : Option OutsideFile → Io OutsideFile
found_status none = raise os_error
found_status (some x) = demand (x.is_regular && leb (length x.content) max_file_size) >> pure x

-- What `validate_and_extract` is called with.
pub record Request : Type 0 where
  pub archive_name : Text
  pub archive : Option OutsideFile
  pub checksum : Option OutsideFile
  pub current_state : Option OutsideFile
  pub expected_owner : ℕ

-- The line that `_write_checksum` writes.
abbrev pub checksum_line : Text → Text → Text
checksum_line digest name = digest ++ (codes "  " ++ (name ++ 10 ∷ []))

-- The line ends as `read_text` translates them: a carriage return, with a newline that follows it, is
-- a newline. The flag says that the character before was a carriage return.
unfoldable pub newlines : Bool → Bytes → Text
newlines after [] = []
newlines after (c ∷ cs) = elim (c == 13) [
  | true ↦ 10 ∷ newlines true cs
  | false ↦ elim (after && c == 10) [ true ↦ newlines false cs | false ↦ c ∷ newlines false cs ]
]

-- `except (OSError, …)`, with `raise ArchiveError`.
abbrev pub as_archive_error : Result (Unit {0}) → Result (Unit {0})
as_archive_error (ok u) = ok u
as_archive_error (err e) = err archive_error

abbrev pub names : List TarMember → List Text
names = map (λ m. m.name)

abbrev pub expected_names : List FileRecord → List Text
expected_names records = codes "manifest.json" ∷ map (λ r. member_of r.path) records

module _ (os : Os) where
  -- `_regular_status` outside of the staging directory.
  unfoldable pub outside_status : Option OutsideFile → Io OutsideFile
  unfolding call ◌>>=◌
  outside_status x = call os >> found_status x

  -- The call of `read_text` in the `try`.
  unfoldable pub read_text : Io (Unit {0})
  unfolding call
  read_text d = (as_archive_error (call os d).0, (call os d).1)

  -- `_validate_archive_file`.
  unfoldable pub validate_archive_file : Request → Io (Unit {0})
  unfolding outside_status sha256_chunks read_text newlines call ◌>>=◌
  validate_archive_file request = do
    archive ← outside_status request.archive
    demand (archive.owner == request.expected_owner && archive.mode == 384)
    checksum ← outside_status request.checksum
    demand (
        checksum.owner == request.expected_owner
        && checksum.mode == 384
        && leb (length checksum.content) 1024)
    read_text
    demand (isascii checksum.content)
    call os
    digest ← sha256_chunks os (os.reads archive.content) 0 []
    demand (bytes_eq (newlines false checksum.content) (checksum_line digest request.archive_name))

  module _ (formats : Formats) where
    -- From the opened archive to the extracted files: the manifest and its records.
    unfoldable pub extract_archive : Tar → Io (Fields × List FileRecord)
    unfolding scan get_member parse_manifest manifest_records same_set for_each extract_record call
        ◌>>=◌
    extract_archive tar = do
      members ← lift (scan tar.broken [] 0 tar.members)
      stream ← stream_of (get_member (codes "manifest.json") members)
      manifest ← lift (parse_manifest formats.loads (take (max_manifest_size + 1) stream))
      records ← lift (manifest_records manifest)
      demand (same_set (names members) (expected_names records))
      for_each records (extract_record os members)
      call os
      call os
      pure (manifest, records)

    -- `_load_install_state` of a staged file, and of the installation's.
    unfoldable pub staged_state : Io (Text × Text)
    unfolding regular_status install_state read_text ◌>>=◌
    staged_state = do
      x ← regular_status os (payload (codes "state/install.json"))
      read_text
      lift (install_state (formats.loads_text x.content))

    unfoldable pub current_state : Option OutsideFile → Io (Text × Text)
    unfolding outside_status install_state read_text ◌>>=◌
    current_state file = do
      x ← outside_status file
      read_text
      lift (install_state (formats.loads_text x.content))

    -- The comparisons after the extraction.
    unfoldable pub check_origin : Fields → Option OutsideFile → Io (Unit {0})
    unfolding regular_status database_metadata get staged_state current_state ◌>>=◌
    check_origin manifest installed = do
      x ← regular_status os (payload (codes "database/ezopenpn.sqlite3"))
      metadata ← lift (database_metadata (formats.query x.content))
      quick ← lift (get (codes "quick_check") manifest)
      schema ← lift (get (codes "schema_version") manifest)
      demand (equals_text metadata.0 quick && equals_text metadata.1 schema)
      archived ← staged_state
      current ← current_state installed
      version ← lift (get (codes "version") manifest)
      address ← lift (get (codes "public_ipv4") manifest)
      demand (
          equals_text archived.0 version
          && equals_text archived.1 address
          && bytes_eq archived.0 current.0
          && bytes_eq archived.1 current.1)

    -- What the archive file holds, once `_validate_archive_file` has passed.
    abbrev pub content_of_archive : Option OutsideFile → Bytes
    content_of_archive none = []
    content_of_archive (some x) = x.content

    -- `validate_and_extract`. The staging directory is a directory, as the model has it.
    unfoldable pub validate_and_extract : Request → Io Fields
    unfolding validate_archive_file extract_archive write_manifest check_origin call ◌>>=◌
    validate_and_extract request = do
      validate_archive_file request
      call os
      call os
      empty ← (λ d. (ok (length d.staged == 0), d))
      demand empty
      call os
      extracted ← extract_archive (formats.read_tar (content_of_archive request.archive))
      write_manifest os (formats.manifest_bytes extracted.0)
      check_origin extracted.0 request.current_state
      pure extracted.0
