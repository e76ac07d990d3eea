-- ===== src/Installer/Metadata.antt =====
-- installer/backup_archive.py: what the archive's database and installation state say.
use ez_open_pn.Prelude.{
  Bool, true, false, ◌&&◌, not, Option, none, some, List, [], ◌∷◌, Text, codes, bytes_eq,
}
use ez_open_pn.Errors.{Result, ok, err, require, archive_error, ◌>>=◌, ◌>>◌}
use ez_open_pn.Installer.Names.{starts_with}
use ez_open_pn.Installer.Json.{Json, null, string, object, Fields, end, field, member}
use ez_open_pn.Installer.Manifest.{supported_schema_versions}

-- A value that SQLite returns: a text, or anything else.
pub data Cell : Type 0 where
  text : Text → Cell
  other_cell : Cell

-- The rows of the three queries of `_database_metadata`; of the second one, whether there is one.
pub record Answers : Type 0 where
  pub quick : List (List Cell)
  pub foreign : Bool
  pub versions : List (List Cell)

-- `quick != [("ok",)]`, negated.
abbrev pub is_sane : List (List Cell) → Bool
is_sane ((text t ∷ []) ∷ []) = bytes_eq t (codes "ok")
is_sane _ = false

abbrev pub schema_of : List (List Cell) → Result Text
schema_of ((text schema ∷ []) ∷ []) = ok schema
schema_of _ = err archive_error

-- `_database_metadata`; the first of its results is always `ok`. `none` is a `DatabaseError`.
unfoldable pub database_metadata : Option Answers → Result (Text × Text)
database_metadata none = err archive_error
database_metadata (some answers) = do
  require (is_sane answers.quick && not answers.foreign) archive_error
  schema ← schema_of answers.versions
  require (member schema supported_schema_versions) archive_error
  ok (codes "ok", schema)

-- `value.get(key)`.
unfoldable pub get_or_null : Text → Fields → Json
get_or_null key end = null
get_or_null key (field k j rest) = elim (bytes_eq k key) [ true ↦ j | false ↦ get_or_null key rest ]

abbrev pub version_of : Json → Result Text
unfolding starts_with
version_of (string t) = require (starts_with (codes "v") t) archive_error >> ok t
version_of _ = err archive_error

abbrev pub address_of : Json → Result Text
address_of (string t) = require (not (bytes_eq t [])) archive_error >> ok t
address_of _ = err archive_error

-- `_load_install_state` of the parsed text.
unfoldable pub install_state : Option Json → Result (Text × Text)
unfolding get_or_null version_of
install_state (some (object fields)) = do
  version ← version_of (get_or_null (codes "version") fields)
  address ← address_of (get_or_null (codes "public_ipv4") fields)
  ok (version, address)
install_state _ = err archive_error
