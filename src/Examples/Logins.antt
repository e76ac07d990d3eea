-- ===== src/Examples/Logins.antt =====
-- A login with the form that the panel showed, run and explained.
use ez_open_pn.Prelude.{◌≡◌, refl, true, none, [], ◌∷◌, codes, take}
unfoldable use ez_open_pn.Prelude.{bytes_eq}
use ez_open_pn.Errors.{ok}
use ez_open_pn.Models.{Admin}
use ez_open_pn.World.{Env, World, status}
use ez_open_pn.Security.Sessions.{SessionGrant}
use ez_open_pn.Web.Preauth.{PreAuthChallenge, issue, consume}
use ez_open_pn.Web.Browser.{
  Services, Request, Response, request_expired, signed_in, form_values, login,
}
use ez_open_pn.Web.Browser.Credentials.{Verified}
use ez_open_pn.Web.Browser.Guard.{login_is_guarded}
use ez_open_pn.Examples.Outside.{outside, start, empty_tables, value_or}

abbrev calm : Env
calm = outside (status 200)

abbrev services : Services
services = record {
  sessions = record {
    session_key = 1 ∷ [];
    csrf_key = 2 ∷ [];
    idle_duration = 3600000000;
    absolute_duration = 86400000000;
  };
  throttle = record { ip_key = 3 ∷ []; login_key = 4 ∷ [] };
  preauth = record { form_key = 5 ∷ []; store_key = 6 ∷ []; lifetime = 300000000 };
}

abbrev admin : Admin
admin = record {
  id = 9 ∷ [];
  login = codes "root";
  password_hash = codes "correct horse battery";
  session_version = 1;
  created_at = 0;
  updated_at = 0;
  last_login_at = none;
}

abbrev home : World
home = record start { db = record empty_tables { admins = admin ∷ [] } }

abbrev no_challenge : PreAuthChallenge
no_challenge = record { cookie_nonce = []; form_token = []; expires_at = 0 }

abbrev challenge : PreAuthChallenge
challenge = value_or no_challenge (issue calm services.preauth home).0

abbrev shown : World
shown = (issue calm services.preauth home).1

abbrev request : Request
request = record {
  session_cookie = [];
  csrf_cookie = [];
  preauth_cookie = challenge.cookie_nonce;
  client_ip = codes "192.0.2.9";
  body_length = 200;
  login_field = codes "root";
  password_field = codes "correct horse battery";
  csrf_field = challenge.form_token;
}

abbrev no_grant : SessionGrant
no_grant = record {
  session_id = [];
  raw_token = [];
  csrf_token = [];
  idle_expires_at = 0;
  absolute_expires_at = 0;
}

abbrev grant_of : Response → SessionGrant
grant_of (signed_in grant) = grant
grant_of _ = no_grant

abbrev grant : SessionGrant
grant = grant_of (value_or request_expired (login calm services request shown).0)

login_run : (login calm services request shown).0 ≡ ok (signed_in grant)
unfolding bytes_eq ez_open_pn.Exec.◌>>=◌ ez_open_pn.Exec.session_scope ez_open_pn.Exec.utc
    ez_open_pn.Exec.now ez_open_pn.Exec.new_uuid ez_open_pn.Exec.token_bytes
    ez_open_pn.Exec.hash_password ez_open_pn.Examples.Outside.outside
    ez_open_pn.Security.Sessions.create ez_open_pn.Security.Throttle.retry_after
    ez_open_pn.Security.Throttle.clear ez_open_pn.Security.Admin.verify_credentials
    ez_open_pn.Web.Preauth.issue ez_open_pn.Web.Preauth.consume ez_open_pn.Web.Browser.login
login_run = refl

login_is_guarded_example :
    ((consume calm services.preauth request.preauth_cookie (form_values request).csrf shown).0
      ≡ ok true)
    × Verified calm shown.db.admins
        (take 1024 (form_values request).login)
        (take 1024 (form_values request).password)
login_is_guarded_example = login_is_guarded calm services request shown grant login_run
