-- ===== src/Security/Secrets.antt =====
-- security/secrets.py: `SecretCipher` over PyNaCl's `Aead` and HMAC-SHA256, which are parameters.
pub mod RoundTrip
use ez_open_pn.Prelude.{
  ℕ, ◌+◌, Bool, not, Option, none, some, [], ◌∷◌, ◌++◌, Bytes, codes, bytes_eq, length, ltb, ◌==◌,
  if◌then◌else◌,
}
use ez_open_pn.Errors.{Result, ok, err, require, ◌>>=◌, ◌>>◌, value_error, crypto_error}
use ez_open_pn.World.{Crypto}

-- `_FORMAT_VERSION` and PyNaCl's `Aead` (XChaCha20-Poly1305).
abbrev pub format_version : ℕ
format_version = 1

abbrev pub key_size : ℕ
key_size = 32

abbrev pub nonce_size : ℕ
nonce_size = 24

abbrev pub mac_bytes : ℕ
mac_bytes = 16

-- `_require_key`.
unfoldable pub require_key : Bytes → Result (Unit {0})
require_key key = require (length key == key_size) value_error

-- What `Aead.decrypt` answers.
abbrev pub opened : Option Bytes → Result Bytes
opened none = err crypto_error
opened (some value) = ok value

-- The first byte is the format version.
abbrev pub versioned : Bytes → Result Bytes
versioned [] = err value_error
versioned (v ∷ rest) = if v == format_version then ok rest else err value_error

module _ (c : Crypto) where
  -- `_encrypt`, with the nonce that PyNaCl draws.
  unfoldable pub encrypt : Bytes → Bytes → Bytes → Bytes → Result Bytes
  unfolding require_key
  encrypt nonce key value context = do
    require_key key
    require (not (length context == 0)) value_error
    ok (format_version ∷ c.seal nonce key value context)

  -- `_decrypt`.
  unfoldable pub decrypt : Bytes → Bytes → Bytes → Result Bytes
  unfolding require_key
  decrypt key blob context = do
    require_key key
    require (not (length context == 0)) value_error
    require (not (ltb (length blob) (1 + nonce_size + mac_bytes))) value_error
    body ← versioned blob
    opened (c.decrypt key body context)

  -- `SecretCipher.__init__`: the two keys that the master key derives.
  unfoldable pub wrap_key : Bytes → Bytes
  wrap_key master_key = c.hmac_sha256 master_key (codes "ezopenpn/wrap/v1")

  unfoldable pub lookup_key : Bytes → Bytes
  lookup_key master_key = c.hmac_sha256 master_key (codes "ezopenpn/lookup/v1")

  abbrev key_context : Bytes → Bytes
  key_context profile_id = codes "ezopenpn/profile-key/v1:" ++ profile_id

  unfoldable pub wrap_profile_key : Bytes → Bytes → Bytes → Bytes → Result Bytes
  unfolding encrypt wrap_key
  wrap_profile_key master_key nonce profile_id key = do
    require_key key
    encrypt nonce (wrap_key master_key) key (key_context profile_id)

  unfoldable pub unwrap_profile_key : Bytes → Bytes → Bytes → Result Bytes
  unfolding decrypt wrap_key
  unwrap_profile_key master_key profile_id wrapped = do
    key ← decrypt (wrap_key master_key) wrapped (key_context profile_id)
    require_key key
    ok key

  unfoldable pub lookup_digest : Bytes → Bytes → Bytes
  unfolding lookup_key
  lookup_digest master_key value = c.hmac_sha256 (lookup_key master_key) value

  unfoldable pub matches_lookup_digest : Bytes → Bytes → Bytes → Bool
  unfolding lookup_digest
  matches_lookup_digest master_key value expected =
      bytes_eq (lookup_digest master_key value) expected
