-- ===== src/Profiles/Tables/Statements.antt =====
-- The units of work of profiles/repository.py that change the tables.
use ez_open_pn.Prelude.{
  ℕ, Bool, ◌&&◌, ◌||◌, not, Option, none, some, ◌∷◌, Bytes, Text, codes, bytes_eq, length_within,
  length, select, any, ◌==◌, if◌then◌else◌,
}
use ez_open_pn.Errors.{
  Result, ok, require, ◌>>=◌, ◌>>◌, integrity_error, profile_not_found, invalid_profile_transition,
}
use ez_open_pn.Models.{
  ProfileState, pending, disabled, error, Profile, subscription, hysteria_auth, ProfileLookup,
  LookupKind, AuditEvent, Database,
}
use ez_open_pn.Profiles.Types.{NewProfileMaterial, ProfileRecord}
use ez_open_pn.Profiles.Tables.Query.{state_eq, legal_transition, record_of, row_of, update_profile}

-- The statements of `set_state`.
abbrev pub stamped : ProfileState → Option Text → ℕ → Profile → Profile
stamped state code timestamp p = record p {
  state = state;
  updated_at = timestamp;
  last_error_code = if state_eq state error then code else none;
  disabled_at = if state_eq state disabled then some timestamp else none;
}

unfoldable pub set_state_row :
    Bytes → ProfileState → Option Text → ℕ → Database → Result (ProfileRecord × Database)
unfolding update_profile
set_state_row id state code timestamp db = do
  row ← row_of id db
  require (state_eq row.0.state state || legal_transition row.0.state state)
      invalid_profile_transition
  ok (
    record_of (stamped state code timestamp row.0) row.1,
    record db { profiles = update_profile id (stamped state code timestamp) db.profiles },
  )

-- The statements of `set_runtime_error`.
abbrev pub marked : Text → ℕ → Profile → Profile
marked code timestamp p = record p { last_error_code = some code; updated_at = timestamp }

unfoldable pub set_runtime_error_row :
    Bytes → Text → ℕ → Database → Result (ProfileRecord × Database)
unfolding update_profile
set_runtime_error_row id code timestamp db = do
  row ← row_of id db
  ok (
    record_of (marked code timestamp row.0) row.1,
    record db { profiles = update_profile id (marked code timestamp) db.profiles },
  )

-- The statements of `delete_local`; the row's key is cleared first, then its lookups and the row go.
unfoldable pub delete_rows : Bytes → Bytes → ℕ → Database → Result (Unit {0} × Database)
delete_rows id event_id timestamp db = do
  require (any (λ p. bytes_eq p.id id) db.profiles) profile_not_found
  ok (
    tt,
    record db {
      profiles = select (λ p. not (bytes_eq p.id id)) db.profiles;
      profile_lookups = select (λ l. not (bytes_eq l.profile_id id)) db.profile_lookups;
      audit_events = audit_event ∷ db.audit_events;
    },
  )
  where
    audit_event : AuditEvent
    audit_event = record {
      id = event_id;
      event_type = codes "profile_deleted";
      actor_admin_id = none;
      subject_id = none;
      details_json = codes "{}";
      occurred_at = timestamp;
    }

-- The constraints of models.py on the rows that `insert_pending` adds.
unfoldable pub insertable : Profile → ProfileLookup → ProfileLookup → Database → Bool
insertable p l m db =
    not (any (λ q. bytes_eq q.id p.id || bytes_eq q.runtime_id p.runtime_id) db.profiles)
    && length_within 1 64 p.name
    && (length p.runtime_id == 28)
    && not (any (λ k. bytes_eq k.id l.id || bytes_eq k.id m.id) db.profile_lookups)
    && not (bytes_eq l.id m.id)
    && not (any (λ k. bytes_eq k.lookup_digest l.lookup_digest) db.profile_lookups)
    && not (any (λ k. bytes_eq k.lookup_digest m.lookup_digest) db.profile_lookups)
    && not (bytes_eq l.lookup_digest m.lookup_digest)
    && (length l.lookup_digest == 32)
    && (length m.lookup_digest == 32)

-- The rows that `insert_pending` builds.
abbrev pub new_profile : NewProfileMaterial → ℕ → Profile
new_profile material timestamp = record {
  id = material.profile_id;
  name = material.name;
  state = pending;
  runtime_id = material.runtime_id;
  wrapped_profile_key = some material.wrapped_profile_key;
  user_id_ciphertext = material.user_id_ciphertext;
  hysteria_secret_ciphertext = material.hysteria_secret_ciphertext;
  subscription_token_ciphertext = material.subscription_token_ciphertext;
  last_error_code = none;
  created_at = timestamp;
  updated_at = timestamp;
  disabled_at = none;
}

abbrev pub new_lookup : Bytes → Bytes → LookupKind → Bytes → ℕ → ProfileLookup
new_lookup id profile_id kind digest timestamp = record {
  id = id;
  profile_id = profile_id;
  kind = kind;
  lookup_digest = digest;
  created_at = timestamp;
}

unfoldable pub insert_rows :
    NewProfileMaterial → Bytes → Bytes → ℕ → Database → Result (ProfileRecord × Database)
insert_rows material subscription_id hysteria_id timestamp db =
    let profile = new_profile material timestamp in
    let subscription_lookup =
      new_lookup subscription_id profile.id subscription material.subscription_lookup_digest
        timestamp in
    let hysteria_lookup =
      new_lookup hysteria_id profile.id hysteria_auth material.hysteria_lookup_digest timestamp in
    do
      require (insertable profile subscription_lookup hysteria_lookup db) integrity_error
      ok (
        record_of profile subscription_lookup.lookup_digest,
        record db {
          profiles = profile ∷ db.profiles;
          profile_lookups = subscription_lookup ∷ hysteria_lookup ∷ db.profile_lookups;
        },
      )
