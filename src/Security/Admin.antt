-- ===== src/Security/Admin.antt =====
-- security/admin.py: `AdminService`, over the hasher of security/passwords.py.
use ez_open_pn.Prelude.{
  ℕ, ◌+◌, Bool, true, false, ◌&&◌, not, Option, none, some, List, [], ◌∷◌, Bytes, Text, bytes_eq,
  length_within, any, leb, if◌then◌else◌,
}
use ez_open_pn.Errors.{
  Exn, Result, ok, err, require, value_error, integrity_error, admin_already_exists,
  admin_not_initialized, invalid_admin_input,
}
use ez_open_pn.Errors
use ez_open_pn.Models.{Admin, AdminSession, Database}
use ez_open_pn.World.{Env, Datetime}
use ez_open_pn.Exec.{
  Exec, pure, raise, lift, ◌>>=◌, ◌>>◌, try_except, session_scope, utc, now, new_uuid,
  hash_password, database_time,
}
use ez_open_pn.Encoding.{strip}
use ez_open_pn.Security.Sessions.{revoked}

-- security/passwords.py `PasswordCheck` and `PasswordHasher.verify`.
pub record PasswordCheck : Type 0 where
  pub valid : Bool
  pub needs_rehash : Bool

abbrev pub check_of : Bool → Option Bool → PasswordCheck
check_of needs_rehash (some true) = record { valid = true; needs_rehash = needs_rehash }
check_of needs_rehash _ = record { valid = false; needs_rehash = false }

-- SELECT … WHERE login = login.
unfoldable pub admin_of : Text → List Admin → Option Admin
admin_of login [] = none
admin_of login (a ∷ rest) = if bytes_eq a.login login then some a else admin_of login rest

-- UPDATE admins … WHERE id = id.
unfoldable pub update_admin : Bytes → (Admin → Admin) → List Admin → List Admin
update_admin id f [] = []
update_admin id f (a ∷ rest) = (if bytes_eq a.id id then f a else a) ∷ update_admin id f rest

-- The constraints of models.py on a new administrator: `singleton_key` is 1 in each row and unique,
-- so that a row excludes every other.
abbrev pub admin_insertable : Admin → List Admin → Bool
admin_insertable a [] = length_within 1 128 a.login && leb 1 a.session_version
admin_insertable a (b ∷ rest) = false

unfoldable pub insert_admin : Admin → Database → Result (Admin × Database)
insert_admin a db =
    if admin_insertable a db.admins
    then ok (a, record db { admins = a ∷ db.admins })
    else err integrity_error

-- `except IntegrityError`.
abbrev pub already_exists : Exn → Exec Admin
already_exists integrity_error = raise admin_already_exists
already_exists e = raise e

-- UPDATE admin_sessions SET revoked_at … WHERE admin_id = … AND revoked_at IS NULL.
unfoldable pub revoke_all : Bytes → ℕ → List AdminSession → List AdminSession
revoke_all admin_id timestamp [] = []
revoke_all admin_id timestamp (s ∷ rest) =
    (if bytes_eq s.admin_id admin_id then revoked timestamp s else s)
    ∷ revoke_all admin_id timestamp rest

-- What `verify_credentials` changes in the row, and `reset_password`.
abbrev pub logged_in : Bool → Text → ℕ → Admin → Admin
logged_in needs_rehash hashed timestamp a = record a {
  password_hash = if needs_rehash then hashed else a.password_hash;
  last_login_at = some timestamp;
  updated_at = timestamp;
}

abbrev pub with_password : Text → ℕ → Admin → Admin
with_password hashed timestamp a = record a {
  password_hash = hashed;
  session_version = a.session_version + 1;
  updated_at = timestamp;
}

-- What `reset_password` changes.
unfoldable pub reset_database : Text → ℕ → Database → Admin → Database
unfolding update_admin revoke_all
reset_database hashed timestamp db a = record db {
  admins = update_admin a.id (with_password hashed timestamp) db.admins;
  admin_sessions = revoke_all a.id timestamp db.admin_sessions;
}

module _ (env : Env) where
  unfoldable pub normalize_login : Text → Result Text
  unfolding strip
  normalize_login login =
      let normalized = env.unicode.casefold (strip env.unicode.isspace (env.unicode.nfkc login)) in
      Errors.◌>>◌ (require (length_within 1 64 normalized) invalid_admin_input) (
        Errors.◌>>◌ (require (not (any env.unicode.is_control normalized)) invalid_admin_input)
          (ok normalized))

  unfoldable pub validate_new_password : Text → Text → Result (Unit {0})
  validate_new_password value normalized_login =
      Errors.◌>>◌ (require (length_within 12 1024 value) invalid_admin_input) (
        Errors.◌>>◌ (require (not (any env.unicode.is_control value)) invalid_admin_input)
          (require (not (bytes_eq value normalized_login)) invalid_admin_input))

  unfoldable pub verify : Text → Text → PasswordCheck
  verify encoded password =
      check_of (env.argon2.check_needs_rehash encoded) (env.argon2.verify encoded password)

  unfoldable pub create_initial : Text → Text → Exec Admin
  unfolding normalize_login validate_new_password insert_admin
  create_initial login password = do
    normalized_login ← lift (normalize_login login)
    lift (validate_new_password password normalized_login)
    id ← new_uuid env
    hashed ← hash_password env password
    timestamp ← database_time env
    try_except
        (session_scope env (
          insert_admin (record {
            id = id;
            login = normalized_login;
            password_hash = hashed;
            session_version = 1;
            created_at = timestamp;
            updated_at = timestamp;
            last_login_at = none;
          })))
        already_exists

  -- The unit of work of `verify_credentials`; `hashed` is the new hash, if it is needed.
  abbrev pub check_admin : Text → Text → ℕ → Database → Option Admin → Option Admin × Database
  check_admin password hashed timestamp db none = (none, db)
  check_admin password hashed timestamp db (some a) =
      let check = verify a.password_hash password in
      if not check.valid then (none, db) else (
        some (logged_in check.needs_rehash hashed timestamp a),
        record db {
          admins = update_admin a.id (logged_in check.needs_rehash hashed timestamp) db.admins;
        },
      )

  abbrev pub check_login : Text → ℕ → Result Text → Exec (Option Admin)
  check_login password timestamp (err e) = pure none
  check_login password timestamp (ok login) = do
    hashed ← hash_password env password
    session_scope env λ db. ok (check_admin password hashed timestamp db (admin_of login db.admins))

  -- `normalize_login` raises nothing but `InvalidAdminInput`; the verification of the dummy hash,
  -- whose result is thrown away, only takes time.
  unfoldable pub verify_credentials : Text → Text → Datetime → Exec (Option Admin)
  unfolding verify normalize_login admin_of update_admin
  verify_credentials login password now = do
    timestamp ← lift (utc now)
    check_login password timestamp (normalize_login login)

  -- The unit of work of `reset_password`, for the first row of the table.
  unfoldable pub reset_rows : Text → Text → ℕ → Database → List Admin → Result (Unit {0} × Database)
  unfolding validate_new_password reset_database
  reset_rows password hashed timestamp db [] = err admin_not_initialized
  reset_rows password hashed timestamp db (a ∷ rest) =
      Errors.◌>>◌ (validate_new_password password a.login)
        (ok (tt, reset_database hashed timestamp db a))

  -- `now or datetime.now(UTC)`.
  abbrev pub time_or_now : Option Datetime → Exec Datetime
  time_or_now none = now env
  time_or_now (some value) = pure value

  unfoldable pub reset_password : Text → Option Datetime → Exec (Unit {0})
  unfolding reset_rows
  reset_password password at = do
    value ← time_or_now at
    timestamp ← lift (utc value)
    hashed ← hash_password env password
    session_scope env (λ db. reset_rows password hashed timestamp db db.admins)
