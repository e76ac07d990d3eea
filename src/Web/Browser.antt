-- ===== src/Web/Browser.antt =====
-- web/dependencies.py, and the handlers of web/routes/auth.py and web/routes/subscriptions.py. A
-- request holds what the handlers read of it, a response what decides its status and its cookies.
pub mod Credentials
pub mod Guard
use ez_open_pn.Prelude.{
  ℕ, ◌+◌, ◌/◌, Bool, ◌&&◌, not, Option, none, some, [], Text, bytes_eq, isascii, take, ltb,
  if◌then◌else◌,
}
use ez_open_pn.Models.{Admin}
use ez_open_pn.World.{Env, Datetime}
use ez_open_pn.Exec.{Exec, pure, ◌>>=◌, ◌>>◌, now}
use ez_open_pn.Security.Sessions
use ez_open_pn.Security.Sessions.{
  SessionService, SessionGrant, SessionIdentity, authenticate, validate_csrf, revoke,
}
use ez_open_pn.Security.Throttle.{
  LoginThrottleService, second, retry_after, register_failure, clear,
}
use ez_open_pn.Security.Admin.{verify_credentials}
use ez_open_pn.Web.Preauth.{PreAuthService, PreAuthChallenge, issue, consume}
use ez_open_pn.Profiles.Links.{subscription_for_token}

-- The services of web/app.py that keep a state of their own.
pub record Services : Type 0 where
  pub sessions : SessionService
  pub throttle : LoginThrottleService
  pub preauth : PreAuthService

-- A cookie or a field that is missing is the empty text; the form is Starlette's, with the length of
-- the body.
pub record Request : Type 0 where
  pub session_cookie : Text
  pub csrf_cookie : Text
  pub preauth_cookie : Text
  pub client_ip : Text
  pub body_length : ℕ
  pub login_field : Text
  pub password_field : Text
  pub csrf_field : Text

pub record FormValues : Type 0 where
  pub login : Text
  pub password : Text
  pub csrf : Text

pub record AuthenticatedBrowser : Type 0 where
  pub identity : SessionIdentity
  pub csrf_token : Text

-- The answers: a redirect with status 303, the login page with its status and the seconds of
-- `Retry-After`, and the two refusals with status 403.
pub data Response : Type 0 where
  to_panel : Response
  login_form : ℕ → Option ℕ → PreAuthChallenge → Response
  request_expired : Response
  signed_in : SessionGrant → Response
  action_refused : Response
  signed_out : Response

-- `_MAX_FORM_BYTES`.
abbrev pub max_form_bytes : ℕ
max_form_bytes = 16384

-- `_form`.
abbrev pub form_values : Request → FormValues
form_values request =
    if ltb max_form_bytes request.body_length
    then record { login = []; password = []; csrf = [] }
    else record {
      login = request.login_field;
      password = request.password_field;
      csrf = request.csrf_field;
    }

-- `math.ceil(delay.total_seconds())`.
abbrev pub whole_seconds : ℕ → ℕ
whole_seconds delay = (delay + 999999) / second

module _ (env : Env) (services : Services) where
  -- `authenticated_browser`, with what `authenticate` found.
  abbrev pub browser_of : Request → Option SessionIdentity → Option AuthenticatedBrowser
  browser_of request none = none
  browser_of request (some identity) =
      if validate_csrf env services.sessions identity request.csrf_cookie
      then some (record { identity = identity; csrf_token = request.csrf_cookie })
      else none

  unfoldable pub authenticated_browser : Request → Exec (Option AuthenticatedBrowser)
  authenticated_browser request = do
    at ← now env
    identity ← authenticate env services.sessions request.session_cookie at
    pure (browser_of request identity)

  -- `_login_page`.
  unfoldable pub show_login : ℕ → Option ℕ → Exec Response
  show_login status_code delay = do
    challenge ← issue env services.preauth
    pure (login_form status_code delay challenge)

  -- `login_page`.
  abbrev pub page_for : Option AuthenticatedBrowser → Exec Response
  page_for none = show_login 200 none
  page_for (some browser) = pure to_panel

  unfoldable pub login_page : Request → Exec Response
  unfolding authenticated_browser show_login
  login_page request = do browser ← authenticated_browser request; page_for browser

  -- The end of `login`, with what the verification of the credentials found.
  unfoldable pub finish_login : Text → Text → Datetime → Option Admin → Exec Response
  unfolding show_login
  finish_login client_ip login_value at none = do
    delay ← register_failure env services.throttle client_ip login_value at
    show_login 401 (some (whole_seconds delay))
  finish_login client_ip login_value at (some administrator) = do
    clear env services.throttle client_ip login_value
    grant ← Sessions.create env services.sessions administrator.id at
    pure (signed_in grant)

  -- `login` once the challenge is consumed.
  unfoldable pub check_login : Text → Text → Text → Exec Response
  unfolding show_login finish_login
  check_login client_ip login_value password_value = do
    at ← now env
    waiting ← retry_after env services.throttle client_ip login_value at
    if ltb 0 waiting then show_login 429 (some (whole_seconds waiting)) else do
      administrator ← verify_credentials env login_value password_value at
      finish_login client_ip login_value at administrator

  unfoldable pub login : Request → Exec Response
  unfolding check_login
  login request = do
    accepted ← consume env services.preauth request.preauth_cookie (form_values request).csrf
    if not accepted
        then pure request_expired
        else check_login request.client_ip (take 1024 (form_values request).login)
            (take 1024 (form_values request).password)

  -- The test of `logout`.
  abbrev pub may_log_out : Request → AuthenticatedBrowser → Bool
  may_log_out request browser =
      isascii (form_values request).csrf
      && (bytes_eq (form_values request).csrf browser.csrf_token
          && validate_csrf env services.sessions browser.identity (form_values request).csrf)

  abbrev pub log_out_browser : Request → Option AuthenticatedBrowser → Exec Response
  log_out_browser request none = pure action_refused
  log_out_browser request (some browser) =
      if not (may_log_out request browser)
      then pure action_refused
      else do at ← now env; revoke env browser.identity.session_id at; pure signed_out

  unfoldable pub logout : Request → Exec Response
  unfolding authenticated_browser
  logout request = do browser ← authenticated_browser request; log_out_browser request browser

  -- web/routes/subscriptions.py `subscription`: `none` is the answer 404.
  unfoldable pub subscription : Text → Exec (Option Text)
  subscription token = subscription_for_token env token
