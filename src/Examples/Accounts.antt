-- ===== src/Examples/Accounts.antt =====
-- Logins and secrets: runs, and the theorems applied to them.
use ez_open_pn.Prelude.{◌<◌, ◌≡◌, ◌≢◌, refl, true, none, some, List, [], ◌∷◌, codes, length, arith}
unfoldable use ez_open_pn.Prelude.{bytes_eq}
use ez_open_pn.Errors.{ok}
use ez_open_pn.Models.{Admin, AdminSession}
use ez_open_pn.World.{Env, World, Event, status, aware}
use ez_open_pn.Security.Sessions
use ez_open_pn.Security.Sessions.{
  SessionService, SessionGrant, SessionIdentity, session_of, session_digest, new_session, get_admin,
  identity_of, validate_csrf, authenticate, revoke,
}
use ez_open_pn.Security.Sessions.Live.{Live, authenticate_accepts}
use ez_open_pn.Security.Sessions.Operations.{authenticates, revokes, perform_all}
use ez_open_pn.Security.Sessions.Logout.{
  revoked_never_authenticates, revoke_logs_out, reset_logs_out,
}
use ez_open_pn.Security.Sessions.Created.{created_session_authenticates}
use ez_open_pn.Security.Admin.{reset_password}
use ez_open_pn.Examples.Outside.{
  outside, start, repeat, empty_tables, value_or, toy_crypto, toy_opens, toy_sealed, toy_hmac,
  ticks,
}

abbrev calm : Env
calm = outside (status 200)

abbrev admin : Admin
admin = record {
  id = 9 ∷ [];
  login = codes "root";
  password_hash = codes "correct horse battery";
  session_version = 1;
  created_at = 0;
  updated_at = 0;
  last_login_at = none;
}

abbrev sessions : SessionService
sessions = record {
  session_key = 1 ∷ [];
  csrf_key = 2 ∷ [];
  idle_duration = 3600000000;
  absolute_duration = 86400000000;
}

abbrev home : World
home = record start { db = record empty_tables { admins = admin ∷ [] } }

abbrev no_grant : SessionGrant
no_grant = record {
  session_id = [];
  raw_token = [];
  csrf_token = [];
  idle_expires_at = 0;
  absolute_expires_at = 0;
}

abbrev grant : SessionGrant
grant = value_or no_grant (Sessions.create calm sessions admin.id (aware 5) home).0

abbrev logged_in : World
logged_in = (Sessions.create calm sessions admin.id (aware 5) home).1

create_run : (Sessions.create calm sessions admin.id (aware 5) home).0 ≡ ok grant
unfolding bytes_eq ez_open_pn.Exec.◌>>=◌ ez_open_pn.Exec.session_scope ez_open_pn.Exec.utc
    ez_open_pn.Exec.new_uuid ez_open_pn.Exec.token_bytes ez_open_pn.Examples.Outside.outside
    ez_open_pn.Security.Sessions.create
create_run = refl

drawn : (h : List Event) → length (calm.token_bytes h 32) ≡ 32
unfolding outside repeat
drawn h = refl

completed : (h : List Event) → calm.completes h ≡ true
unfolding outside
completed h = refl

early : 6 < grant.idle_expires_at
unfolding bytes_eq ez_open_pn.Exec.◌>>=◌ ez_open_pn.Exec.session_scope ez_open_pn.Exec.utc
    ez_open_pn.Exec.new_uuid ez_open_pn.Exec.token_bytes ez_open_pn.Examples.Outside.outside
    ez_open_pn.Security.Sessions.create
early = omega arith

created_session_authenticates_example :
    (i : SessionIdentity) × ((authenticate calm sessions grant.raw_token (aware 6) logged_in).0
      ≡ ok (some i))
    × (i.session_id ≡ grant.session_id)
    × (i.admin_id ≡ admin.id)
    × (validate_csrf calm sessions i grant.csrf_token ≡ true)
created_session_authenticates_example =
    created_session_authenticates calm sessions home admin.id 5 6 grant drawn create_run
      (completed logged_in.history) early

-- The session that `create` stored.
abbrev stored : AdminSession
stored = new_session calm sessions grant.session_id grant.raw_token grant.csrf_token 5 admin

stored_found :
    session_of (session_digest calm sessions grant.raw_token) logged_in.db.admin_sessions
    ≡ some stored
unfolding bytes_eq ez_open_pn.Exec.◌>>=◌ ez_open_pn.Exec.session_scope ez_open_pn.Exec.utc
    ez_open_pn.Exec.new_uuid ez_open_pn.Exec.token_bytes ez_open_pn.Examples.Outside.outside
    ez_open_pn.Security.Sessions.create ez_open_pn.Security.Sessions.authenticate_row
stored_found = refl

authenticate_run :
    (authenticate calm sessions grant.raw_token (aware 6) logged_in).0
    ≡ ok (some (identity_of calm sessions stored admin))
unfolding bytes_eq ez_open_pn.Exec.◌>>=◌ ez_open_pn.Exec.session_scope ez_open_pn.Exec.utc
    ez_open_pn.Exec.new_uuid ez_open_pn.Exec.token_bytes ez_open_pn.Examples.Outside.outside
    ez_open_pn.Security.Sessions.create ez_open_pn.Security.Sessions.authenticate
authenticate_run = refl

authenticate_accepts_example :
    (s : AdminSession) × (a : Admin) × (session_of
        (session_digest calm sessions grant.raw_token)
        logged_in.db.admin_sessions
      ≡ some s)
    × (s.token_digest ≡ session_digest calm sessions grant.raw_token)
    × (get_admin s.admin_id logged_in.db.admins ≡ some a)
    × Live 6 a s
    × (identity_of calm sessions stored admin ≡ identity_of calm sessions s a)
authenticate_accepts_example =
    authenticate_accepts calm sessions logged_in grant.raw_token 6
      (identity_of calm sessions stored admin) authenticate_run

revoke_run : (revoke calm stored.id (aware 7) logged_in).0 ≡ ok tt
unfolding ez_open_pn.Exec.◌>>=◌ ez_open_pn.Exec.session_scope ez_open_pn.Exec.utc
    ez_open_pn.Examples.Outside.outside ez_open_pn.Security.Sessions.revoke
revoke_run = refl

revoke_logs_out_example :
    (authenticate calm sessions grant.raw_token (aware 9) (
      perform_all calm sessions
        (revoke calm stored.id (aware 7) logged_in).1
        (authenticates grant.raw_token (aware 8) ∷ []))).0
    ≢ ok (some (identity_of calm sessions stored admin))
revoke_logs_out_example =
    revoke_logs_out calm sessions (authenticates grant.raw_token (aware 8) ∷ []) logged_in
      grant.raw_token (aware 7) (aware 9) stored (identity_of calm sessions stored admin)
      stored_found revoke_run

reset_run :
    (reset_password calm (codes "another horse battery") (some (aware 7)) logged_in).0 ≡ ok tt
unfolding bytes_eq ez_open_pn.Exec.◌>>=◌ ez_open_pn.Exec.session_scope ez_open_pn.Exec.utc
    ez_open_pn.Exec.new_uuid ez_open_pn.Exec.token_bytes ez_open_pn.Exec.hash_password
    ez_open_pn.Examples.Outside.outside ez_open_pn.Security.Sessions.create
    ez_open_pn.Security.Admin.reset_password
reset_run = refl

admins_run : logged_in.db.admins ≡ admin ∷ []
unfolding bytes_eq ez_open_pn.Exec.◌>>=◌ ez_open_pn.Exec.session_scope ez_open_pn.Exec.utc
    ez_open_pn.Exec.new_uuid ez_open_pn.Exec.token_bytes ez_open_pn.Examples.Outside.outside
    ez_open_pn.Security.Sessions.create
admins_run = refl

owner_run : stored.admin_id ≡ admin.id
unfolding new_session
owner_run = refl

reset_logs_out_example :
    (authenticate calm sessions grant.raw_token (aware 9) (
      perform_all calm sessions
        (reset_password calm (codes "another horse battery") (some (aware 7)) logged_in).1
        (revokes stored.id (aware 8) ∷ []))).0
    ≢ ok (some (identity_of calm sessions stored admin))
reset_logs_out_example =
    reset_logs_out calm sessions (revokes stored.id (aware 8) ∷ []) logged_in
      (codes "another horse battery") grant.raw_token (some (aware 7)) (aware 9) stored
      (identity_of calm sessions stored admin) admin [] admins_run stored_found owner_run reset_run

-- A session that is revoked in the table.
abbrev ended_session : AdminSession
ended_session = record stored { revoked_at = some 6 }

abbrev after_logout : World
after_logout = record home {
  db = record empty_tables { admins = admin ∷ []; admin_sessions = ended_session ∷ [] };
}

ended_found :
    session_of (session_digest calm sessions grant.raw_token) after_logout.db.admin_sessions
    ≡ some ended_session
unfolding bytes_eq ez_open_pn.Exec.◌>>=◌ ez_open_pn.Exec.session_scope ez_open_pn.Exec.utc
    ez_open_pn.Exec.new_uuid ez_open_pn.Exec.token_bytes ez_open_pn.Examples.Outside.outside
    ez_open_pn.Security.Sessions.create ez_open_pn.Security.Sessions.authenticate_row
ended_found = refl

revoked_never_authenticates_example :
    (authenticate calm sessions grant.raw_token
      (aware 9)
      (perform_all calm sessions after_logout (revokes stored.id (aware 8) ∷ []))).0
    ≢ ok (some (identity_of calm sessions stored admin))
revoked_never_authenticates_example =
    revoked_never_authenticates calm sessions (revokes stored.id (aware 8) ∷ []) after_logout
      grant.raw_token (aware 9) ended_session (identity_of calm sessions stored admin) ended_found
      refl
