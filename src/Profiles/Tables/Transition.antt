-- ===== src/Profiles/Tables/Transition.antt =====
-- profiles/repository.py `set_state`: the life of a profile, and the row of it before and after.
pub mod Exact
use ez_open_pn.Prelude.{
  ℕ, ◌≡◌, ◌≢◌, refl, sym, ap, subst, some_inj, ◌∙◌, ◌⊎◌, inl, inr, Bool, true, false, ◌||◌, ◌&&◌,
  Option, none, some, List, [], ◌∷◌, Bytes, Text, bytes_eq, bytes_eq_iff, Some, Bool-cases,
  if◌then◌else◌, &&-true,
}
use ez_open_pn.Errors.{ok, err, profile_not_found, invalid_profile_transition}
use ez_open_pn.Models.{
  ProfileState, pending, active, disabled, error, Profile, LookupKind, subscription, hysteria_auth,
  ProfileLookup, Database,
}
use ez_open_pn.Profiles.Types.{ProfileRecord}
use ez_open_pn.Profiles.Tables.Query.{
  state_eq, kind_eq, legal_transition, record_of, digests, update_profile,
}
use ez_open_pn.Profiles.Tables.Statements.{stamped, set_state_row}
use ez_open_pn.Profiles.Tables.Rows.{find_profile, row_of-RowResult}
use ez_open_pn.Profiles.Tables.Consistent.{IsConsistent}

-- The life of a profile: what may follow a state.
pub data Legal : ProfileState → ProfileState → Type 0 where
  same_state : (s : ProfileState) → Legal s s
  provisioned : Legal pending active
  not_provisioned : Legal pending error
  retried : Legal error pending
  given_up : Legal error disabled
  revoked : Legal active disabled
  broken : Legal active error
  enabled : Legal disabled active
  not_enabled : Legal disabled error

-- The row after it got a state.
pub record Changed (state : ProfileState) (code : Option Text) (timestamp : ℕ) (p q : Profile)
    : Type 0 where
  pub id : q.id ≡ p.id
  pub name : q.name ≡ p.name
  pub runtime_id : q.runtime_id ≡ p.runtime_id
  pub key : q.wrapped_profile_key ≡ p.wrapped_profile_key
  pub user_id : q.user_id_ciphertext ≡ p.user_id_ciphertext
  pub secret : q.hysteria_secret_ciphertext ≡ p.hysteria_secret_ciphertext
  pub token : q.subscription_token_ciphertext ≡ p.subscription_token_ciphertext
  pub created_at : q.created_at ≡ p.created_at
  pub new_state : q.state ≡ state
  pub updated_at : q.updated_at ≡ timestamp
  pub faulty : state ≡ error → q.last_error_code ≡ code
  pub sound : state ≢ error → q.last_error_code ≡ none
  pub off : state ≡ disabled → q.disabled_at ≡ some timestamp
  pub on : state ≢ disabled → q.disabled_at ≡ none

-- Row by row, that of the profile is changed and every other one stays.
abbrev pub OnlyRow : Bytes → (Profile → Profile → Type 0) → List Profile → List Profile → Type 0
OnlyRow id P [] [] = Unit
OnlyRow id P (x ∷ xs) (y ∷ ys) =
    (((x.id ≡ id) × P x y) ⊎ ((x.id ≢ id) × (y ≡ x))) × OnlyRow id P xs ys
OnlyRow id P _ _ = ⊥

-- The digest is that of the profile's lookup by subscription.
abbrev pub LookedUp : Database → Bytes → Bytes → Type 0
LookedUp db id digest =
    Some
      (λ (l : ProfileLookup).
        (l.profile_id ≡ id) × (l.kind ≡ subscription) × (l.lookup_digest ≡ digest))
      db.profile_lookups

-- The record shows the row.
pub record Shows (r : ProfileRecord) (q : Profile) : Type 0 where
  pub profile_id : r.profile_id ≡ q.id
  pub name : r.name ≡ q.name
  pub state : r.state ≡ q.state
  pub runtime_id : r.runtime_id ≡ q.runtime_id
  pub key : r.wrapped_profile_key ≡ q.wrapped_profile_key
  pub user_id : r.user_id_ciphertext ≡ q.user_id_ciphertext
  pub secret : r.hysteria_secret_ciphertext ≡ q.hysteria_secret_ciphertext
  pub token : r.subscription_token_ciphertext ≡ q.subscription_token_ciphertext
  pub created_at : r.created_at ≡ q.created_at
  pub updated_at : r.updated_at ≡ q.updated_at
  pub disabled_at : r.disabled_at ≡ q.disabled_at
  pub last_error_code : r.last_error_code ≡ q.last_error_code

pub record Transition (id : Bytes) (state : ProfileState) (code : Option Text) (timestamp : ℕ)
    (db : Database) (p : Profile) (r : ProfileRecord) (after : Database) : Type 0 where
  pub q : Profile
  pub changed : Changed state code timestamp p q
  pub here : find_profile id after.profiles ≡ some q
  pub only : OnlyRow id (Changed state code timestamp) db.profiles after.profiles
  pub others : after ≡ record db { profiles = after.profiles }
  pub shows : Shows r q
  pub looked_up : LookedUp db id r.subscription_lookup_digest
