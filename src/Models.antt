-- ===== src/Models.antt =====
-- The tables of control/src/ezopenpn/models.py. A row is a record with a field for each column;
-- a timestamp column (`UTCDateTime`) holds microseconds of UTC, and a key column that holds
-- `str(uuid)` holds the sixteen bytes that the text spells.
use ez_open_pn.Prelude.{ℕ, Option, List, Bytes, Text}

pub data ProfileState : Type 0 where
  pending active disabled error : ProfileState

pub record Admin : Type 0 where
  pub id : Bytes
  pub login : Text
  pub password_hash : Text
  pub session_version : ℕ
  pub created_at : ℕ
  pub updated_at : ℕ
  pub last_login_at : Option ℕ

pub record AdminSession : Type 0 where
  pub id : Bytes
  pub admin_id : Bytes
  pub token_digest : Bytes
  pub csrf_digest : Bytes
  pub session_version : ℕ
  pub created_at : ℕ
  pub last_seen_at : ℕ
  pub idle_expires_at : ℕ
  pub absolute_expires_at : ℕ
  pub revoked_at : Option ℕ

pub data ThrottleScope : Type 0 where
  ip login : ThrottleScope

pub record LoginThrottle : Type 0 where
  pub id : Bytes
  pub scope : ThrottleScope
  pub key_digest : Bytes
  pub failure_count : ℕ
  pub window_started_at : ℕ
  pub last_failed_at : ℕ
  pub blocked_until : Option ℕ

pub record Profile : Type 0 where
  pub id : Bytes
  pub name : Text
  pub state : ProfileState
  pub runtime_id : Text
  pub wrapped_profile_key : Option Bytes
  pub user_id_ciphertext : Bytes
  pub hysteria_secret_ciphertext : Bytes
  pub subscription_token_ciphertext : Bytes
  pub last_error_code : Option Text
  pub created_at : ℕ
  pub updated_at : ℕ
  pub disabled_at : Option ℕ

-- The two kinds that profiles/repository.py writes.
pub data LookupKind : Type 0 where
  subscription hysteria_auth : LookupKind

pub record ProfileLookup : Type 0 where
  pub id : Bytes
  pub profile_id : Bytes
  pub kind : LookupKind
  pub lookup_digest : Bytes
  pub created_at : ℕ

pub record SystemState : Type 0 where
  pub key : Text
  pub value_json : Text
  pub updated_at : ℕ

pub record AuditEvent : Type 0 where
  pub id : Bytes
  pub event_type : Text
  pub actor_admin_id : Option Bytes
  pub subject_id : Option Text
  pub details_json : Text
  pub occurred_at : ℕ

pub record Database : Type 0 where
  pub admins : List Admin
  pub admin_sessions : List AdminSession
  pub login_throttles : List LoginThrottle
  pub profiles : List Profile
  pub profile_lookups : List ProfileLookup
  pub system_state : List SystemState
  pub audit_events : List AuditEvent
