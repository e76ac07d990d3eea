-- ===== src/Config.antt =====
-- config.py: the tests of the settings, and `_read_secret`.
pub mod Checks
use ez_open_pn.Prelude.{
  ℤ, is_positive, int_le, ℕ, ◌+◌, Bool, true, false, ◌&&◌, ◌||◌, not, Option, none, some, List, [],
  ◌∷◌, Bytes, Text, length, length_within, take, all, any, map, leb, ltb, ◌==◌, if◌then◌else◌,
}
use ez_open_pn.Errors.{Result, ok, err, require, ◌>>=◌, ◌>>◌, value_error}
use ez_open_pn.Encoding.{strip}
use ez_open_pn.Profiles.Links.{is_hex}

-- `SessionSettings`, in seconds.
pub record SessionSettings : Type 0 where
  pub idle_seconds : ℤ
  pub absolute_seconds : ℤ

unfoldable pub validate_deadlines : SessionSettings → Result SessionSettings
validate_deadlines s = do
  require (is_positive s.idle_seconds && is_positive s.absolute_seconds) value_error
  require (int_le s.idle_seconds s.absolute_seconds) value_error
  ok s

-- `Path.is_absolute`, of `DatabaseSettings` and `PathSettings`.
abbrev pub is_absolute : Text → Bool
is_absolute [] = false
is_absolute (c ∷ rest) = c == b'/'

unfoldable pub require_absolute_path : Text → Result Text
require_absolute_path value = if is_absolute value then ok value else err value_error

-- `require_named_hosts`.
abbrev pub is_empty : Text → Bool
is_empty [] = true
is_empty (c ∷ rest) = false

unfoldable pub require_named_hosts : (ℕ → Bool) → List Text → Result (List Text)
unfolding strip
require_named_hosts isspace hosts =
    let normalized = map (strip isspace) hosts in
    if (length normalized == 0) || any is_empty normalized then err value_error else ok normalized

-- `require_nonempty_values` and `require_short_id` of `XraySettings`.
unfoldable pub require_nonempty_value : (ℕ → Bool) → Text → Result Text
unfolding strip
require_nonempty_value isspace value =
    let normalized = strip isspace value in
    if is_empty normalized then err value_error else ok normalized

unfoldable pub require_short_id : Text → Result Text
require_short_id value =
    if length_within 2 16 value && all is_hex value then ok value else err value_error

-- A path of the file system: whether `lstat` sees a symbolic link, and what `os.open` opens; `none` is
-- an `OSError`.
pub record OpenedFile : Type 0 where
  pub is_regular : Bool
  pub mode : ℕ
  pub content : Bytes

pub record SecretPath : Type 0 where
  pub is_link : Option Bool
  pub opened : Option OpenedFile

abbrev pub secret_size : ℕ
secret_size = 32

-- `0o600`.
abbrev pub owner_only : ℕ
owner_only = 384

-- The tests of the descriptor, and the bytes that are read: one more than a secret has.
abbrev pub read_opened : Option OpenedFile → Result Bytes
read_opened none = err value_error
read_opened (some file) = do
  require file.is_regular value_error
  require (file.mode == owner_only) value_error
  let value = take (secret_size + 1) file.content
  if length value == secret_size then ok value else err value_error

abbrev pub read_listed : Option Bool → Option OpenedFile → Result Bytes
read_listed none file = err value_error
read_listed (some true) file = err value_error
read_listed (some false) file = read_opened file

unfoldable pub read_secret : SecretPath → Result Bytes
read_secret path = read_listed path.is_link path.opened

pub record SecretFiles : Type 0 where
  pub master_key : Bytes
  pub hysteria_api_secret : Bytes
  pub hysteria_obfs_secret : Bytes

-- `SecretFiles.load`.
unfoldable pub load_secrets : SecretPath → SecretPath → SecretPath → Result SecretFiles
unfolding read_secret
load_secrets master_path api_path obfs_path = do
  master_key ← read_secret master_path
  api_secret ← read_secret api_path
  obfs_secret ← read_secret obfs_path
  ok (record {
    master_key = master_key;
    hysteria_api_secret = api_secret;
    hysteria_obfs_secret = obfs_secret;
  })
