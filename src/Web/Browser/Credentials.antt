-- ===== src/Web/Browser/Credentials.antt =====
-- The steps of `login` of web/routes/auth.py: the challenge, and the verification of the credentials.
use ez_open_pn.Prelude.{
  ℕ, ◌≡◌, refl, subst, Bool, true, false, ◌&&◌, bytes_eq, not, Option, none, some, List, Text,
  if◌then◌else◌, Bool-cases, Option-cases, inl, inr,
}
use ez_open_pn.Errors.{Exn, Result, ok, err}
use ez_open_pn.Errors
use ez_open_pn.Models.{Admin, SystemState, Database}
use ez_open_pn.World.{Env, Datetime}
use ez_open_pn.Exec.{pure, lift, ◌>>=◌, now, utc, session_scope, hash_password}
use ez_open_pn.Exec.Keeps.{
  Keeps, Ensures, Ensures-bind, Ensures-weaken, Ensures-session_scope, Work,
}
use ez_open_pn.Profiles.Reconcile.Frame.{Keeps-frame, Keeps-lift, Keeps-pure}
use ez_open_pn.Security.Sessions.{is_token_text}
use ez_open_pn.Security.Admin.{
  normalize_login, admin_of, verify, check_admin, check_login, verify_credentials,
}
use ez_open_pn.Web.Preauth.{
  PreAuthService, form_token, state_key, is_alive, consume_state, consume_rows, consume,
}
use ez_open_pn.Web.Preauth
use ez_open_pn.Web.Browser.{login}

abbrev pub Admins : List Admin → Database → Type 0
Admins rows db = db.admins ≡ rows

module _ (env : Env) (rows : List Admin) where
  state-Admins :
      (key : Text) (t : ℕ) (db : Database) (o : Option SystemState) (service : PreAuthService)
      → Admins rows db
      → Work (λ _. Admins rows) (λ _. Admins rows) db (consume_state env service key t db o)
  state-Admins key t db none service h = h
  state-Admins key t db (some s) service h =
      go (is_alive env t (env.texts.load_expiry s.value_json))
    where
      go :
          (r : Result Bool)
          → Work
              (λ _. Admins rows)
              (λ _. Admins rows)
              db
              (Errors.◌>>=◌ r (λ alive.
                ok (alive, record db { system_state = Preauth.delete_state key db.system_state })))
      go (ok b) = h
      go (err e) = h

  pub consume-Admins :
      (service : PreAuthService) (nonce form : Text)
      → Keeps (λ w. Admins rows w.db) (consume env service nonce form)
  unfolding consume consume_rows now
  consume-Admins service nonce form =
      go (not (is_token_text nonce && is_token_text form))
        (not (bytes_eq (form_token env service nonce) form))
    where
      go :
          (a b : Bool)
          → Keeps
              (λ w. Admins rows w.db)
              (if a
                then pure false
                else if b
                then pure false
                else (now env >>= λ value. lift (utc value) >>= λ t.
                    session_scope env (consume_rows env service (state_key env service nonce) t)))
      go true b = Keeps-pure env (Admins rows) _
      go false true = Keeps-pure env (Admins rows) _
      go false false = Ensures-bind _ _ (Keeps-frame env (Admins rows) _ (λ w. refl)) λ value.
          Ensures-bind _ _ (Keeps-lift env (Admins rows) _) λ t.
            Ensures-session_scope env (Admins rows) (λ _. Admins rows) (λ _. Admins rows) _
              (λ db h. state-Admins _ t db _ service h) (λ db h. h)

  -- An administrator with the login has the password.
  pub record Verified (login password : Text) : Type 0 where
    pub normalized : Text
    pub stored : Admin
    pub normal : normalize_login env login ≡ ok normalized
    pub found : admin_of normalized rows ≡ some stored
    pub valid : (verify env stored.password_hash password).valid ≡ true

  admin-Verified :
      (login password normalized hashed : Text) (t : ℕ) (db : Database) (a : Admin)
      → normalize_login env login ≡ ok normalized
      → (check_admin env password hashed t db (admin_of normalized rows)).0 ≡ some a
      → Verified login password
  admin-Verified login password normalized hashed t db a n h =
      elim (Option-cases (admin_of normalized rows)) [
        | inl e ↦ absurd (nobody e (rw e at h))
        | inr (s, e) ↦ elim (Bool-cases ((verify env s.password_hash password).valid)) [
          | inl v ↦ record { normalized = normalized; stored = s; normal = n; found = e; valid = v }
          | inr v ↦ absurd (wrong v (rw (e, v) at h))
        ]
      ]
    where
      nobody : {o : Option Admin} → o ≡ none → none ≡ some a → ⊥
      nobody e k = cc

      wrong : {b : Bool} → b ≡ false → none ≡ some a → ⊥
      wrong e k = cc

  login-Verified :
      (login password : Text) (t : ℕ) (r : Result Text)
      → normalize_login env login ≡ r
      → Ensures
          (λ w. Admins rows w.db)
          (check_login env password t r)
          (λ o _. (a : Admin) → o ≡ some a → Verified login password)
          (λ _ _. Unit {0})
  unfolding hash_password
  login-Verified login password t (err e) n = record { at = λ w h a k. absurd cc }
  login-Verified login password t (ok normalized) n =
      Ensures-bind {Q = λ _ w. Admins rows w.db} _ _ (record { at = λ w h. h })
        λ hashed.
          Ensures-session_scope env (Admins rows)
            (λ o _. (a : Admin) → o ≡ some a → Verified login password) (λ _ _. Unit {0}) _
            (λ db h a k. admin-Verified login password normalized hashed t db a n (
              subst
                (λ xs. (check_admin env password hashed t db (admin_of normalized xs)).0 ≡ some a) h
                k))
            (λ db h. tt)

  pub credentials-Verified :
      (login password : Text) (at : Datetime)
      → Ensures
          (λ w. Admins rows w.db)
          (verify_credentials env login password at)
          (λ o _. (a : Admin) → o ≡ some a → Verified login password)
          (λ _ _. Unit {0})
  unfolding verify_credentials
  credentials-Verified login password at =
      Ensures-bind _ _
        (Ensures-weaken _ (Keeps-lift env (Admins rows) (utc at)) (λ w h. h) (λ a w h. h)
          (λ e w h. tt))
        λ t. login-Verified login password t (normalize_login env login) refl
