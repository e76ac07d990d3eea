-- ===== src/Profiles/Service.antt =====
-- profiles/service.py: `ProfileService`.
pub mod RuntimeIds
use ez_open_pn.Prelude.{
  ℕ, Bool, not, Option, none, some, ◌++◌, Bytes, Text, codes, length, length_within, any, take,
  ◌==◌, if◌then◌else◌,
}
use ez_open_pn.Errors.{Exn, Result, ok, err, require, value_error, invalid_profile_name}
use ez_open_pn.Errors
use ez_open_pn.Models.{active, disabled, error}
use ez_open_pn.World.{Env}
use ez_open_pn.Exec.{Exec, pure, lift, ◌>>=◌, new_uuid, new_nonce, token_bytes}
use ez_open_pn.Encoding.{strip, url_token, b32_lower}
use ez_open_pn.Security.Secrets.{wrap_profile_key, encrypt, lookup_digest}
use ez_open_pn.Profiles.Types.{
  ProfileRecord, ProfileResult, LinkBundle, hysteria_lookup_value, profile_value_context,
}
use ez_open_pn.Profiles.Repository.{insert_pending, set_state}

-- `_normalize_name`.
unfoldable pub normalize_name : (ℕ → Bool) → (ℕ → Bool) → Text → Result Text
normalize_name isspace is_control name =
    let normalized = strip isspace name in
    Errors.◌>>◌ (require (length_within 1 64 normalized) invalid_profile_name)
      (Errors.◌>>◌ (require (not (any is_control normalized)) invalid_profile_name) (ok normalized))

-- `_runtime_id`.
unfoldable pub runtime_id : Bytes → Text
runtime_id value = codes "p_" ++ take 26 (b32_lower value)

-- `_result`.
abbrev pub result_of : ProfileRecord → Option Text → Option LinkBundle → ProfileResult
result_of r token links = record {
  profile_id = r.profile_id;
  name = r.name;
  state = r.state;
  runtime_id = r.runtime_id;
  subscription_token = token;
  link_bundle = links;
}

module _ (env : Env) where
  -- `_random_exact`.
  unfoldable pub random_exact : ℕ → Exec Bytes
  random_exact size = do
    value ← token_bytes env size
    lift (if length value == size then ok value else err value_error)

  -- `SecretCipher.encrypt_profile_value`, which draws a nonce.
  unfoldable pub encrypt_profile_value : Bytes → Bytes → Bytes → Exec Bytes
  encrypt_profile_value key value context = do
    nonce ← new_nonce env
    lift (encrypt env.crypto nonce key value context)

  unfoldable pub create : Text → Exec ProfileResult
  create name = do
    normalized_name ← lift (normalize_name env.unicode.isspace env.unicode.is_control name)
    profile_id ← new_uuid env
    user_id ← new_uuid env
    hysteria_secret ← random_exact 32
    token_value ← random_exact 32
    let subscription_token = url_token token_value
    let hysteria_auth = url_token hysteria_secret
    runtime_value ← random_exact 17
    profile_key ← token_bytes env 32
    nonce ← new_nonce env
    wrapped ←
        lift (wrap_profile_key env.crypto env.deployment.master_key nonce profile_id profile_key)
    user_ciphertext ←
        encrypt_profile_value profile_key user_id
          (profile_value_context profile_id (codes "user-id"))
    hysteria_ciphertext ←
        encrypt_profile_value profile_key hysteria_secret
          (profile_value_context profile_id (codes "hysteria-auth"))
    token_ciphertext ←
        encrypt_profile_value profile_key subscription_token
          (profile_value_context profile_id (codes "subscription-token"))
    lookup_value ← lift (hysteria_lookup_value hysteria_auth)
    inserted ← insert_pending env (record {
      profile_id = profile_id;
      name = normalized_name;
      runtime_id = runtime_id runtime_value;
      wrapped_profile_key = wrapped;
      user_id_ciphertext = user_ciphertext;
      hysteria_secret_ciphertext = hysteria_ciphertext;
      subscription_token_ciphertext = token_ciphertext;
      subscription_lookup_digest =
          lookup_digest env.crypto env.deployment.master_key subscription_token;
      hysteria_lookup_digest = lookup_digest env.crypto env.deployment.master_key lookup_value;
    })
    pure (result_of inserted (some subscription_token) none)

  unfoldable pub disable_local : Bytes → Exec ProfileResult
  disable_local id = do r ← set_state env id disabled none; pure (result_of r none none)

  unfoldable pub enable_local : Bytes → Exec ProfileResult
  enable_local id = do r ← set_state env id active none; pure (result_of r none none)

  unfoldable pub mark_active : Bytes → Exec ProfileResult
  mark_active id = do r ← set_state env id active none; pure (result_of r none none)

  unfoldable pub mark_error : Bytes → Text → Exec ProfileResult
  mark_error id code = do r ← set_state env id error (some code); pure (result_of r none none)
