-- ===== src/Web/Browser/Guard.antt =====
-- `login` of web/routes/auth.py: what a browser that is logged in has shown.
use ez_open_pn.Prelude.{
  ℕ, ◌≡◌, refl, ap, subst, Bool, true, false, not, Option, none, some, List, Text, take, ltb,
  if◌then◌else◌,
}
use ez_open_pn.Errors.{ok}
use ez_open_pn.Models.{Admin}
use ez_open_pn.World.{Env, World, Datetime}
use ez_open_pn.Exec.{pure, ◌>>=◌, now}
use ez_open_pn.Exec.Keeps.{
  Keeps, Ensures, Ensures-bind, Ensures-ok, Ensures-by, Ensures-weaken, Ensures-session_scope,
  keeps_at,
}
use ez_open_pn.Profiles.Reconcile.Frame.{Keeps-lift}
use ez_open_pn.Security.Throttle.{retry_after}
use ez_open_pn.Security.Admin.{verify_credentials}
use ez_open_pn.Web.Preauth.{consume}
use ez_open_pn.Web.Browser
use ez_open_pn.Web.Browser.{
  Services, Request, Response, login_form, signed_in, request_expired, form_values, show_login,
  finish_login, login,
}
use ez_open_pn.Security.Sessions.{SessionGrant}
use ez_open_pn.Web.Browser.Credentials.{Admins, consume-Admins, Verified, credentials-Verified}

module _ (env : Env) (rows : List Admin) where
  module _ (services : Services) where
    -- A response that logs in, with what that takes.
    abbrev Guards : Type 0 → Response → Type 0
    Guards F r = (grant : SessionGrant) → r ≡ signed_in grant → F

    form-Guards :
        {F : Type 0} {P : World → Type 0} (status : ℕ) (delay : Option ℕ)
        → Ensures P (show_login env services status delay) (λ r _. Guards F r) (λ _ _. Unit {0})
    unfolding show_login
    form-Guards status delay =
        Ensures-bind {Q = λ _ _. Unit {0}} _ _ (Ensures-by _ (λ w h a e. tt) (λ w h e p. tt))
          λ challenge. record { at = λ w h grant e. absurd cc }

    finish-Guards :
        (F : Type 0) (ip login : Text) (at : Datetime) (o : Option Admin)
        → Ensures
            (λ w. (a : Admin) → o ≡ some a → F)
            (finish_login env services ip login at o)
            (λ r _. Guards F r)
            (λ _ _. Unit {0})
    unfolding finish_login
    finish-Guards F ip login at none =
        Ensures-bind {Q = λ _ _. Unit {0}} _ _ (Ensures-by _ (λ w h a e. tt) (λ w h e p. tt))
          λ delay. form-Guards _ _
    finish-Guards F ip login at (some a) =
        Ensures-by _ (λ w h r e grant k. h a refl) (λ w h e p. tt)

    retry-Admins :
        (ip login : Text) (at : Datetime)
        → Keeps (λ w. Admins rows w.db) (retry_after env services.throttle ip login at)
    unfolding retry_after
    retry-Admins ip login at = Ensures-bind _ _ (Keeps-lift env (Admins rows) _) λ t.
        Ensures-session_scope env (Admins rows) (λ _. Admins rows) (λ _. Admins rows) _ (λ db h. h)
          (λ db h. h)

    check-Guards :
        (ip login password : Text)
        → Ensures
            (λ w. Admins rows w.db)
            (Browser.check_login env services ip login password)
            (λ r _. Guards (Verified env rows login password) r)
            (λ _ _. Unit {0})
    unfolding Browser.check_login now
    check-Guards ip login password =
        Ensures-bind {Q = λ _ w. Admins rows w.db} _ _ (record { at = λ w h. h })
          λ at.
            Ensures-bind _ _
              (Ensures-weaken _ (retry-Admins ip login at) (λ w h. h) (λ a w h. h) (λ e w h. tt))
              λ waiting. go at waiting (ltb 0 waiting)
      where
        go :
            (at : Datetime) (waiting : ℕ) (b : Bool)
            → Ensures
                (λ w. Admins rows w.db)
                (if b
                  then show_login env services 429 (some (Browser.whole_seconds waiting))
                  else (verify_credentials env login password at
                      >>= finish_login env services ip login at))
                (λ r _. Guards (Verified env rows login password) r)
                (λ _ _. Unit {0})
        go at waiting true = form-Guards _ _
        go at waiting false =
            Ensures-bind _ _ (credentials-Verified env rows login password at)
              (finish-Guards (Verified env rows login password) ip login at)

module _ (env : Env) (services : Services) (request : Request) (w0 : World) where
  abbrev Accepted : Bool → Type 0
  Accepted b =
      (consume env services.preauth request.preauth_cookie (form_values request).csrf w0).0 ≡ ok b

  abbrev Shown : Type 0
  Shown =
      Accepted true
      × Verified env w0.db.admins (take 1024 (form_values request).login)
          (take 1024 (form_values request).password)

  consume-Accepts :
      Ensures
        (λ w. w ≡ w0)
        (consume env services.preauth request.preauth_cookie (form_values request).csrf)
        (λ b w. Accepted b × Admins w0.db.admins w.db)
        (λ _ _. Unit {0})
  consume-Accepts =
      Ensures-by _
        (λ w h b e. (
          subst
              (λ v.
                (consume env services.preauth request.preauth_cookie (form_values request).csrf v).0
                ≡ ok b)
              h e,
          keeps_at
              (consume-Admins env w0.db.admins services.preauth request.preauth_cookie
                (form_values request).csrf)
              w (ap (λ (v : World). v.db.admins) h),
        ))
        (λ w h e p. tt)

  login-Guards :
      Ensures
        (λ w. w ≡ w0)
        (login env services request)
        (λ r _. Guards env w0.db.admins services Shown r)
        (λ _ _. Unit {0})
  unfolding login
  login-Guards = Ensures-bind _ _ consume-Accepts λ b. go b
    where
      go :
          (b : Bool)
          → Ensures
              (λ w. Accepted b × Admins w0.db.admins w.db)
              (if not b
                then pure request_expired
                else Browser.check_login env services request.client_ip
                    (take 1024 (form_values request).login)
                    (take 1024 (form_values request).password))
              (λ r _. Guards env w0.db.admins services Shown r)
              (λ _ _. Unit {0})
      go false = record { at = λ w h grant e. absurd cc }
      go true =
          Ensures-by _
            (λ w h r e grant k.
              (h.0, Ensures-ok (check-Guards env w0.db.admins services _ _ _) w h.1 e grant k))
            (λ w h e p. tt)

-- When `login` answers with a session, the request consumed a live challenge of the login form, and
-- the password that was sent verifies against the stored hash of the administrator whose login, when
-- normalized, was sent.
pub login_is_guarded :
    (env : Env) (services : Services) (request : Request) (w : World) (grant : SessionGrant)
    → (login env services request w).0 ≡ ok (signed_in grant)
    → ((consume env services.preauth request.preauth_cookie (form_values request).csrf w).0
        ≡ ok true)
      × Verified env w.db.admins
          (take 1024 (form_values request).login)
          (take 1024 (form_values request).password)
login_is_guarded env services request w grant h =
    Ensures-ok (login-Guards env services request w) w refl h grant refl
