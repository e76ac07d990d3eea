-- ===== src/Profiles/Repository.antt =====
-- profiles/repository.py: `ProfileRepository`. A method reads the clock and runs a unit of work of
-- Profiles/Tables in `session_scope`. Where a unit of work draws a UUID or a server default, the
-- method draws it just before.
pub mod Rules
use ez_open_pn.Prelude.{
  ℕ, Bool, ◌&&◌, ◌==◌, not, Option, none, List, Bytes, Text, isascii, length_within, length, all,
  select, if◌then◌else◌,
}
use ez_open_pn.Errors.{Exn, ok, value_error, integrity_error, profile_conflict}
use ez_open_pn.Models.{ProfileState}
use ez_open_pn.World.{Env}
use ez_open_pn.Exec.{
  Exec, pure, raise, lift, ◌>>=◌, try_except, session_scope, utc, now, new_uuid, database_time,
}
use ez_open_pn.Security.Secrets.{lookup_digest}
use ez_open_pn.Profiles.Types.{NewProfileMaterial, ProfileRecord, hysteria_lookup_value}
use ez_open_pn.Profiles.Tables.Query.{
  get_row, list_rows, subscription_rows, hysteria_rows, find_row,
}
use ez_open_pn.Profiles.Tables.Statements.{
  insert_rows, set_state_row, set_runtime_error_row, delete_rows,
}

-- `except IntegrityError`.
abbrev pub conflict : {A : Type 0} → Exn → Exec A
conflict integrity_error = raise profile_conflict
conflict e = raise e

-- The test of an error code: one to 64 characters, letters and digits once "_" is taken out.
abbrev pub is_error_code : (ℕ → Bool) → Text → Bool
is_error_code alnum code = length_within 1 64 code && isalnum (select (λ c. not (c == b'_')) code)
  where
    isalnum : Text → Bool
    isalnum text = not (length text == 0) && all alnum text

module _ (env : Env) where
  unfoldable pub insert_pending : NewProfileMaterial → Exec ProfileRecord
  insert_pending material = do
    subscription_id ← new_uuid env
    hysteria_id ← new_uuid env
    timestamp ← database_time env
    try_except (session_scope env (insert_rows material subscription_id hysteria_id timestamp))
        conflict

  unfoldable pub get : Bytes → Exec ProfileRecord
  get profile_id = session_scope env (get_row profile_id)

  unfoldable pub list : Exec (List ProfileRecord)
  list = session_scope env (λ db. ok (list_rows db, db))

  unfoldable pub find_by_subscription_token : Text → Exec (Option ProfileRecord)
  find_by_subscription_token token =
      if not (length_within 1 128 token && isascii token)
      then pure none
      else session_scope env λ db. find_row (digest token) (subscription_rows (digest token) db) db
    where
      digest : Bytes → Bytes
      digest = lookup_digest env.crypto env.deployment.master_key

  unfoldable pub find_by_hysteria_secret : Text → Exec (Option ProfileRecord)
  find_by_hysteria_secret presented =
      if not (length_within 1 512 presented && isascii presented) then pure none else do
        value ← lift (hysteria_lookup_value presented)
        session_scope env λ db. find_row (digest value) (hysteria_rows (digest value) db) db
    where
      digest : Bytes → Bytes
      digest = lookup_digest env.crypto env.deployment.master_key

  unfoldable pub set_state : Bytes → ProfileState → Option Text → Exec ProfileRecord
  set_state profile_id state error_code = do
    value ← now env
    timestamp ← lift (utc value)
    session_scope env (set_state_row profile_id state error_code timestamp)

  unfoldable pub set_runtime_error : Bytes → Text → Exec ProfileRecord
  set_runtime_error profile_id error_code =
      if not (is_error_code env.unicode.isalnum error_code) then raise value_error else do
        value ← now env
        timestamp ← lift (utc value)
        session_scope env (set_runtime_error_row profile_id error_code timestamp)

  unfoldable pub delete_local : Bytes → Exec (Unit {0})
  delete_local profile_id = do
    event_id ← new_uuid env
    timestamp ← database_time env
    session_scope env (delete_rows profile_id event_id timestamp)

  unfoldable pub checkpoint_wal : Exec (Unit {0})
  checkpoint_wal = session_scope env (λ db. ok (tt, db))
