-- ===== src/Profiles/Types.antt =====
-- profiles/types.py: what passes between the repository, the services and the coordinator.
use ez_open_pn.Prelude.{ℕ, ◌++◌, Option, Bytes, Text, codes, isascii, if◌then◌else◌}
use ez_open_pn.Encoding.{uuid_text}
use ez_open_pn.Errors.{Result, ok, err, value_error}
use ez_open_pn.Models.{ProfileState}

pub record NewProfileMaterial : Type 0 where
  pub profile_id : Bytes
  pub name : Text
  pub runtime_id : Text
  pub wrapped_profile_key : Bytes
  pub user_id_ciphertext : Bytes
  pub hysteria_secret_ciphertext : Bytes
  pub subscription_token_ciphertext : Bytes
  pub subscription_lookup_digest : Bytes
  pub hysteria_lookup_digest : Bytes

pub record ProfileRecord : Type 0 where
  pub profile_id : Bytes
  pub name : Text
  pub state : ProfileState
  pub runtime_id : Text
  pub wrapped_profile_key : Option Bytes
  pub user_id_ciphertext : Bytes
  pub hysteria_secret_ciphertext : Bytes
  pub subscription_token_ciphertext : Bytes
  pub subscription_lookup_digest : Bytes
  pub created_at : ℕ
  pub updated_at : ℕ
  pub disabled_at : Option ℕ
  pub last_error_code : Option Text

pub record LinkBundle : Type 0 where
  pub combined_url : Text
  pub vless_link : Text
  pub hysteria_link : Text

pub record ProfileResult : Type 0 where
  pub profile_id : Bytes
  pub name : Text
  pub state : ProfileState
  pub runtime_id : Text
  pub subscription_token : Option Text
  pub link_bundle : Option LinkBundle

-- `profile_value_context`.
unfoldable pub profile_value_context : Bytes → Text → Bytes
unfolding uuid_text
profile_value_context profile_id field_name =
    codes "ezopenpn/profile/"
    ++ (uuid_text profile_id ++ (codes "/" ++ (field_name ++ codes "/v1")))

-- `hysteria_lookup_value`.
unfoldable pub hysteria_lookup_value : Text → Result Bytes
hysteria_lookup_value value =
    if isascii value then ok (codes "ezopenpn/hysteria-auth/v1:" ++ value) else err value_error
