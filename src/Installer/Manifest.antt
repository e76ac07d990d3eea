-- ===== src/Installer/Manifest.antt =====
-- installer/backup_archive.py: the manifest of an archive.
pub mod Rounds
pub mod Accepted
pub mod Record
use ez_open_pn.Prelude.{
  pos, ℕ, ◌*◌, Bool, true, false, ◌&&◌, ◌||◌, not, Option, some, List, [], ◌∷◌, ◌++◌, map, Bytes,
  Text, codes, bytes_eq, length, all, any, leb, ◌==◌,
}
use ez_open_pn.Errors.{Result, ok, err, require, archive_error, type_error, ◌>>=◌, ◌>>◌}
use ez_open_pn.Installer.Names.{
  slash, as_posix, starts_with, validated_member_name, sorted, texts_eq,
}
use ez_open_pn.Installer.Json.{
  Json, boolean, integer, real, string, array, object, Fields, items_of, get, has_keys, member,
}

abbrev pub max_file_size : ℕ
max_file_size = 2 * 1024 * 1024 * 1024

abbrev pub max_members : ℕ
max_members = 10000

abbrev pub max_manifest_size : ℕ
max_manifest_size = 1024 * 1024

abbrev pub supported_schema_versions : List Text
supported_schema_versions = codes "0001_initial" ∷ []

-- `FIXED_SOURCES`, the names in the archive with the names of the files that they hold.
abbrev pub fixed_sources : List (Text × Text)
fixed_sources =
    (codes "database/ezopenpn.sqlite3", codes "snapshot")
    ∷ (codes "configuration/control.toml", codes "etc/ezopenpn/control.toml")
    ∷ (codes "configuration/Caddyfile", codes "etc/ezopenpn/Caddyfile")
    ∷ (codes "configuration/compose.yaml", codes "etc/ezopenpn/compose.yaml")
    ∷ (codes "configuration/stack.env", codes "etc/ezopenpn/stack.env")
    ∷ (codes "state/install.json", codes "var/lib/ezopenpn/install.json")
    ∷ (codes "secrets/master.key", codes "var/lib/ezopenpn/secrets/master.key")
    ∷ (codes "secrets/hysteria-api.key", codes "var/lib/ezopenpn/secrets/hysteria-api.key")
    ∷ (codes "secrets/hysteria-obfs.key", codes "var/lib/ezopenpn/secrets/hysteria-obfs.key")
    ∷ (codes "runtime/xray/config.json", codes "var/lib/ezopenpn/runtime/xray/config.json")
    ∷ (codes "runtime/hysteria/config.yaml", codes "var/lib/ezopenpn/runtime/hysteria/config.yaml")
    ∷ []

-- `TREE_SOURCES`, likewise for directories.
abbrev pub tree_sources : List (Text × Text)
tree_sources =
    (codes "runtime/material", codes "var/lib/ezopenpn/runtime/material")
    ∷ (codes "caddy", codes "var/lib/ezopenpn/caddy")
    ∷ []

abbrev pub required : List Text
required = map (λ s. s.0) fixed_sources

abbrev pub manifest_keys : List Text
manifest_keys =
    codes "application"
    ∷ codes "created_at"
    ∷ codes "files"
    ∷ codes "format"
    ∷ codes "public_ipv4"
    ∷ codes "quick_check"
    ∷ codes "schema_version"
    ∷ codes "version"
    ∷ []

abbrev pub is_string : Json → Bool
is_string (string t) = true
is_string _ = false

abbrev pub is_array : Json → Bool
is_array (array js) = true
is_array _ = false

-- `value == t` for a text.
abbrev pub equals_text : Text → Json → Bool
equals_text t (string s) = bytes_eq s t
equals_text t _ = false

-- `value == 1`, which is so of `true` and of 1.0, too.
abbrev pub equals_one : Json → Bool
equals_one (boolean b) = b
equals_one (integer (pos n)) = n == 1
equals_one (real (some (pos n))) = n == 1
equals_one _ = false

-- `value not in SUPPORTED_SCHEMA_VERSIONS` hashes the value first.
abbrev pub is_supported : Json → Result Bool
is_supported (string s) = ok (member s supported_schema_versions)
is_supported (array js) = err type_error
is_supported (object fs) = err type_error
is_supported _ = ok false

-- The chain of `or` in `_parse_manifest`, which stops at the first fault.
unfoldable pub check_values :
    (application format quick schema version address created files : Json) → Result (Unit {0})
check_values application format quick schema version address created files =
    require
      (equals_text (codes "EzOpenPN") application
        && equals_one format
        && equals_text (codes "ok") quick)
      archive_error
    >> (is_supported schema >>= λ supported.
        require
          (supported
            && is_string version
            && is_string address
            && is_string created
            && is_array files)
          archive_error)

unfoldable pub check_fields : Fields → Result Fields
unfolding check_values has_keys get
check_fields fields = do
  require (has_keys manifest_keys fields) archive_error
  application ← get (codes "application") fields
  format ← get (codes "format") fields
  quick ← get (codes "quick_check") fields
  schema ← get (codes "schema_version") fields
  version ← get (codes "version") fields
  address ← get (codes "public_ipv4") fields
  created ← get (codes "created_at") fields
  files ← get (codes "files") fields
  check_values application format quick schema version address created files
  ok fields

-- What `_parse_manifest` does with the value that `json.loads` returns, if it does.
abbrev pub check_loaded : Option Json → Result Fields
unfolding check_fields
check_loaded (some (object fields)) = check_fields fields
check_loaded _ = err archive_error

unfoldable pub parse_manifest : (Bytes → Option Json) → Bytes → Result Fields
unfolding check_fields check_loaded
parse_manifest loads raw =
    require (leb (length raw) max_manifest_size) archive_error >> check_loaded (loads raw)

-- A value of the dictionary that `_manifest_records` returns, with its key.
pub record FileRecord : Type 0 where
  pub path : Text
  pub digest : Text
  pub size : ℕ

abbrev pub is_hex_digit : ℕ → Bool
is_hex_digit c = (leb 48 c && leb c 57) || (leb 97 c && leb c 102)

abbrev pub record_keys : List Text
record_keys = codes "path" ∷ codes "sha256" ∷ codes "size" ∷ []

abbrev pub metadata : Json → Json → Json → Result FileRecord
metadata (string path) (string digest) (integer (pos size)) =
    require (length digest == 64 && all is_hex_digit digest && leb size max_file_size) archive_error
    >> ok (record { path = path; digest = digest; size = size })
metadata _ _ _ = err archive_error

-- One round of the loop, as far as the metadata.
unfoldable pub read_record : Json → Result FileRecord
unfolding has_keys get
read_record (object fields) = do
  require (has_keys record_keys fields) archive_error
  path ← get (codes "path") fields
  digest ← get (codes "sha256") fields
  size ← get (codes "size") fields
  metadata path digest size
read_record _ = err archive_error

unfoldable pub allowed_payload_path : List Text → Bool
unfolding as_posix starts_with
allowed_payload_path path =
    let value = as_posix path in
    member value required || any (λ s. starts_with (s.0 ++ slash ∷ []) value) tree_sources

abbrev pub has_path : Text → List FileRecord → Bool
has_path path records = any (λ r. bytes_eq path r.path) records

-- The loop of `_manifest_records`; `seen` is `records`, whose keys are `ordered`.
unfoldable pub collect : List FileRecord → List Json → Result (List FileRecord)
unfolding read_record validated_member_name allowed_payload_path
collect seen [] = ok seen
collect seen (raw ∷ raws) = do
  r ← read_record raw
  path ← validated_member_name r.path
  require (allowed_payload_path path && not (has_path r.path seen)) archive_error
  collect (seen ++ r ∷ []) raws

abbrev pub paths : List FileRecord → List Text
paths = map (λ r. r.path)

-- After the loop.
abbrev pub check_order : List FileRecord → Result (List FileRecord)
unfolding sorted texts_eq
check_order records =
    require (texts_eq (paths records) (sorted (paths records))) archive_error
    >> (require (all (λ name. has_path name records) required) archive_error >> ok records)

abbrev pub records_of : Json → Result (List FileRecord)
unfolding collect items_of check_order
records_of (array files) =
    require (leb (length (items_of files)) 9999) archive_error
    >> (collect [] (items_of files) >>= check_order)
records_of _ = err archive_error

unfoldable pub manifest_records : Fields → Result (List FileRecord)
unfolding get records_of
manifest_records manifest = get (codes "files") manifest >>= records_of
