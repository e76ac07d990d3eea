-- ===== src/Security/Sessions.antt =====
-- security/sessions.py: `SessionService`.
pub mod Operations
pub mod Ended
pub mod Logout
pub mod Live
pub mod Created
use ez_open_pn.Prelude.{
  ℤ, pos, negsuc, ℕ, ◌+◌, min, Bool, true, false, ◌&&◌, ◌||◌, not, Option, none, some, List, [],
  ◌∷◌, Bytes, Text, codes, bytes_eq, isascii, length, length_within, any, leb, ltb, ◌==◌,
  if◌then◌else◌,
}
use ez_open_pn.Errors.{
  Result, ok, err, require, value_error, integrity_error, session_admin_not_found,
}
use ez_open_pn.Errors
use ez_open_pn.Models.{Admin, AdminSession, Database}
use ez_open_pn.World.{Env, Datetime}
use ez_open_pn.Exec.{Exec, pure, lift, ◌>>=◌, ◌>>◌, session_scope, utc, new_uuid, token_bytes}
use ez_open_pn.Encoding.{url_token}
use ez_open_pn.Security.Secrets.{require_key}

pub record SessionGrant : Type 0 where
  pub session_id : Bytes
  pub raw_token : Text
  pub csrf_token : Text
  pub idle_expires_at : ℕ
  pub absolute_expires_at : ℕ

pub record SessionIdentity : Type 0 where
  pub session_id : Bytes
  pub admin_id : Bytes
  pub login : Text
  pub csrf_digest : Bytes

-- The fields that `__init__` sets, without the engine; durations are microseconds.
pub record SessionService : Type 0 where
  pub session_key : Bytes
  pub csrf_key : Bytes
  pub idle_duration : ℕ
  pub absolute_duration : ℕ

abbrev pub is_set : {A : Type 0} → Option A → Bool
is_set none = false
is_set (some a) = true

-- `session.get(Admin, id)`.
unfoldable pub get_admin : Bytes → List Admin → Option Admin
get_admin id [] = none
get_admin id (a ∷ rest) = if bytes_eq a.id id then some a else get_admin id rest

-- SELECT … WHERE token_digest = digest.
unfoldable pub session_of : Bytes → List AdminSession → Option AdminSession
session_of digest [] = none
session_of digest (s ∷ rest) =
    if bytes_eq s.token_digest digest then some s else session_of digest rest

-- UPDATE admin_sessions … WHERE id = id.
unfoldable pub update_session :
    Bytes → (AdminSession → AdminSession) → List AdminSession → List AdminSession
update_session id f [] = []
update_session id f (s ∷ rest) = (if bytes_eq s.id id then f s else s) ∷ update_session id f rest

-- `if stored.revoked_at is None: stored.revoked_at = timestamp`.
abbrev pub revoked : ℕ → AdminSession → AdminSession
revoked timestamp s = record s {
  revoked_at = if is_set s.revoked_at then s.revoked_at else some timestamp;
}

-- What `authenticate` changes in a session that is in force.
abbrev pub seen : ℕ → ℕ → AdminSession → AdminSession
seen idle_duration timestamp s = record s {
  last_seen_at = timestamp;
  idle_expires_at = min (timestamp + idle_duration) s.absolute_expires_at;
}

-- `expired`.
abbrev pub is_expired : ℕ → Admin → AdminSession → Bool
is_expired timestamp administrator stored =
    is_set stored.revoked_at
    || (leb stored.idle_expires_at timestamp
        || (leb stored.absolute_expires_at timestamp
            || not (stored.session_version == administrator.session_version)))

-- The test of a token's text.
abbrev pub is_token_text : Text → Bool
is_token_text raw_token = length_within 1 128 raw_token && isascii raw_token

-- The constraints of models.py on a new session.
abbrev pub session_insertable : AdminSession → List AdminSession → Bool
session_insertable s rows =
    not (any (λ r. bytes_eq r.id s.id || bytes_eq r.token_digest s.token_digest) rows)
    && leb 1 s.session_version

-- The unit of work of `revoke`; no such session changes nothing.
unfoldable pub revoke_row : Bytes → ℕ → Database → Database
unfolding update_session
revoke_row session_id timestamp db = record db {
  admin_sessions = update_session session_id (revoked timestamp) db.admin_sessions;
}

module _ (env : Env) where
  -- `SessionService.__init__`, with `_derive_key`.
  -- The durations are in microseconds.
  unfoldable pub new_service : Bytes → ℤ → ℤ → Result SessionService
  unfolding require_key
  new_service master_key (pos idle_duration) (pos absolute_duration) =
      Errors.◌>>◌ (require (ltb 0 idle_duration && ltb 0 absolute_duration) value_error) (
        Errors.◌>>◌ (require (leb idle_duration absolute_duration) value_error) (
          Errors.◌>>◌ (require_key master_key) (
            ok (record {
              session_key = env.crypto.hmac_sha256 master_key (codes "ezopenpn/session/v1");
              csrf_key = env.crypto.hmac_sha256 master_key (codes "ezopenpn/csrf/v1");
              idle_duration = idle_duration;
              absolute_duration = absolute_duration;
            }))))
  new_service master_key _ _ = err value_error

  -- `_token`.
  unfoldable pub new_token : Exec Text
  unfolding url_token
  new_token = do value ← token_bytes env 32; pure (url_token value)

  module _ (service : SessionService) where
    -- `_session_digest`, `_csrf_digest`.
    unfoldable pub session_digest : Text → Bytes
    session_digest raw_token = env.crypto.hmac_sha256 service.session_key raw_token

    unfoldable pub csrf_digest : Text → Bytes
    csrf_digest raw_token = env.crypto.hmac_sha256 service.csrf_key raw_token

    -- The row that `create` adds.
    unfoldable pub new_session : Bytes → Text → Text → ℕ → Admin → AdminSession
    unfolding session_digest csrf_digest
    new_session session_id raw_token csrf_token timestamp administrator = record {
      id = session_id;
      admin_id = administrator.id;
      token_digest = session_digest raw_token;
      csrf_digest = csrf_digest csrf_token;
      session_version = administrator.session_version;
      created_at = timestamp;
      last_seen_at = timestamp;
      idle_expires_at =
          min (timestamp + service.idle_duration) (timestamp + service.absolute_duration);
      absolute_expires_at = timestamp + service.absolute_duration;
      revoked_at = none;
    }

    abbrev pub insert_session : AdminSession → Database → Result (Unit {0} × Database)
    insert_session s db =
        if session_insertable s db.admin_sessions
        then ok (tt, record db { admin_sessions = s ∷ db.admin_sessions })
        else err integrity_error

    -- The unit of work of `create`.
    abbrev pub add_session :
        (Admin → AdminSession) → Database → Option Admin → Result (Unit {0} × Database)
    add_session row db none = err session_admin_not_found
    add_session row db (some administrator) = insert_session (row administrator) db

    unfoldable pub create : Bytes → Datetime → Exec SessionGrant
    unfolding new_token new_session get_admin
    create admin_id now = do
      timestamp ← lift (utc now)
      raw_token ← new_token
      csrf_token ← new_token
      session_id ← new_uuid env
      session_scope env λ db.
          add_session (new_session session_id raw_token csrf_token timestamp) db
            (get_admin admin_id db.admins)
      pure (record {
        session_id = session_id;
        raw_token = raw_token;
        csrf_token = csrf_token;
        idle_expires_at =
            min (timestamp + service.idle_duration) (timestamp + service.absolute_duration);
        absolute_expires_at = timestamp + service.absolute_duration;
      })

    abbrev pub identity_of : AdminSession → Admin → SessionIdentity
    identity_of stored administrator = record {
      session_id = stored.id;
      admin_id = administrator.id;
      login = administrator.login;
      csrf_digest = stored.csrf_digest;
    }

    abbrev pub change_session :
        {A : Type 0} → A → Bytes → (AdminSession → AdminSession) → Database → A × Database
    change_session a id f db =
        (a, record db { admin_sessions = update_session id f db.admin_sessions })

    -- `authenticate` with the session and its administrator.
    abbrev pub check_session :
        ℕ → Database → AdminSession → Option Admin → Option SessionIdentity × Database
    check_session timestamp db stored none = change_session none stored.id (revoked timestamp) db
    check_session timestamp db stored (some administrator) =
        if is_expired timestamp administrator stored
        then change_session none stored.id (revoked timestamp) db
        else change_session (some (identity_of stored administrator)) stored.id
            (seen service.idle_duration timestamp) db

    -- `authenticate` with what the query found.
    abbrev pub check_stored :
        ℕ → Bytes → Database → Option AdminSession → Option SessionIdentity × Database
    check_stored timestamp digest db none = (none, db)
    check_stored timestamp digest db (some stored) =
        if not (bytes_eq stored.token_digest digest)
        then (none, db)
        else check_session timestamp db stored (get_admin stored.admin_id db.admins)

    -- The unit of work of `authenticate`.
    unfoldable pub authenticate_row : ℕ → Bytes → Database → Option SessionIdentity × Database
    unfolding session_of get_admin update_session
    authenticate_row timestamp digest db =
        check_stored timestamp digest db (session_of digest db.admin_sessions)

    unfoldable pub authenticate : Text → Datetime → Exec (Option SessionIdentity)
    unfolding authenticate_row session_digest
    authenticate raw_token now = do
      timestamp ← lift (utc now)
      if not (is_token_text raw_token)
          then pure none
          else session_scope env
              (λ db. ok (authenticate_row timestamp (session_digest raw_token) db))

    unfoldable pub validate_csrf : SessionIdentity → Text → Bool
    unfolding csrf_digest
    validate_csrf identity raw_token =
        is_token_text raw_token && bytes_eq identity.csrf_digest (csrf_digest raw_token)

  unfoldable pub revoke : Bytes → Datetime → Exec (Unit {0})
  unfolding revoke_row
  revoke session_id now = do
    timestamp ← lift (utc now)
    session_scope env (λ db. ok (tt, revoke_row session_id timestamp db))
