-- ===== src/Security/Sessions/Logout.antt =====
-- The operations of security/sessions.py, with `reset_password` of security/admin.py, in any order:
-- a session that was ended does not come back.
use ez_open_pn.Prelude.{
  ℕ, ◌≡◌, ◌≢◌, refl, sym, ◌∙◌, subst, true, Option, none, some, List, ◌∷◌, Bytes, Text,
}
use ez_open_pn.Errors.{Exn, Result, ok, err, operational_error, session_admin_not_found}
use ez_open_pn.Errors
use ez_open_pn.Models.{Admin, AdminSession, Database}
use ez_open_pn.World.{Env, World, Datetime}
use ez_open_pn.Exec.{Exec, now, hash_password}
use ez_open_pn.Exec.Keeps.{
  Keeps, Ensures, Ensures-bind, Ensures-session_scope, Ensures-ok, Ensures-weaken, Work,
}
use ez_open_pn.Profiles.Reconcile.Frame.{Keeps-frame, Keeps-lift, Keeps-pure}
use ez_open_pn.Security.Sessions.{
  SessionService, SessionIdentity, is_set, session_of, revoke_row, session_digest, authenticate,
  revoke,
}
use ez_open_pn.Security.Admin.{
  reset_rows, reset_database, reset_password, time_or_now, validate_new_password,
}
use ez_open_pn.Security.Sessions.Ended.{ended-found, ended-revoke, ended-revoke_admin}
use ez_open_pn.Security.Sessions.Operations.{
  Ended, SessionOperation, perform_all, never_authenticates,
}

module _ (env : Env) (service : SessionService) where
  -- A session that was revoked never authenticates again: whatever sessions are created, presented,
  -- revoked, and whatever passwords are reset in between, whether these calls succeed or fail.
  pub revoked_never_authenticates :
      (ops : List SessionOperation) (w : World) (raw_token : Text) (at : Datetime)
      (s : AdminSession) (i : SessionIdentity)
      → session_of (session_digest env service raw_token) w.db.admin_sessions ≡ some s
      → is_set s.revoked_at ≡ true
      → (authenticate env service raw_token at (perform_all env service w ops)).0 ≢ ok (some i)
  revoked_never_authenticates ops w raw at s i found set =
      never_authenticates env service ops w raw at i
        (ended-found _ w.db.admin_sessions s found ∙ set)

  revoke-Ended :
      (d : Bytes) (s : AdminSession) (at : Datetime)
      → Ensures
          (λ w. session_of d w.db.admin_sessions ≡ some s)
          (revoke env s.id at)
          (λ _ w. Ended d w.db)
          (λ _ _. Unit {0})
  unfolding revoke revoke_row
  revoke-Ended d s at =
      Ensures-bind _ _
        (Ensures-weaken _ (Keeps-lift env (λ db. session_of d db.admin_sessions ≡ some s) _)
          (λ w h. h) (λ a w h. h) (λ e w h. tt))
        λ t.
          Ensures-session_scope env (λ db. session_of d db.admin_sessions ≡ some s) (λ _. Ended d)
            (λ _ _. Unit {0}) _ (λ db h. ended-revoke d t db.admin_sessions s h) (λ db h. tt)

  -- Once `revoke` has returned for the session of a token, the token never authenticates again,
  -- whatever operations follow.
  pub revoke_logs_out :
      (ops : List SessionOperation) (w : World) (raw_token : Text) (at later : Datetime)
      (s : AdminSession) (i : SessionIdentity)
      → session_of (session_digest env service raw_token) w.db.admin_sessions ≡ some s
      → (revoke env s.id at w).0 ≡ ok tt
      → (authenticate env service raw_token later
          (perform_all env service (revoke env s.id at w).1 ops)).0
        ≢ ok (some i)
  revoke_logs_out ops w raw at later s i found done =
      never_authenticates env service ops (revoke env s.id at w).1 raw later i
        (Ensures-ok (revoke-Ended _ s at) w found done)

  module _ (d : Bytes) (s : AdminSession) (a : Admin) (rest : List Admin)
      (owner : s.admin_id ≡ a.id) where
    abbrev Open : Database → Type 0
    Open db = (session_of d db.admin_sessions ≡ some s) × (db.admins ≡ a ∷ rest)

    rows-Ended :
        (password hashed : Text) (t : ℕ) (db : Database)
        → Open db
        → Work (λ _. Ended d) (λ _ _. Unit {0}) db (reset_rows env password hashed t db db.admins)
    unfolding reset_rows reset_database
    rows-Ended password hashed t db h =
        subst
          (λ admins.
            Work (λ _. Ended d) (λ _ _. Unit {0}) db (reset_rows env password hashed t db admins))
          (sym h.1) (go (validate_new_password env password a.login))
      where
        go :
            (r : Result (Unit {0}))
            → Work
                (λ _. Ended d)
                (λ _ _. Unit {0})
                db
                (Errors.◌>>◌ r (ok (tt, reset_database hashed t db a)))
        go (ok x) = rw (← owner) (ended-revoke_admin d t db.admin_sessions s h.0)
        go (err e) = tt

    opened :
        {A : Type 0} (m : Exec A)
        → Keeps (λ w. Open w.db) m
        → Ensures (λ w. Open w.db) m (λ _ w. Open w.db) (λ _ _. Unit {0})
    opened m k = Ensures-weaken _ k (λ w h. h) (λ a w h. h) (λ e w h. tt)

    time-Open : (at : Option Datetime) → Keeps (λ w. Open w.db) (time_or_now env at)
    unfolding now
    time-Open none = Keeps-frame env Open _ (λ w. refl)
    time-Open (some t) = Keeps-pure env Open _

    reset-Ended :
        (password : Text) (at : Option Datetime)
        → Ensures
            (λ w. Open w.db)
            (reset_password env password at)
            (λ _ w. Ended d w.db)
            (λ _ _. Unit {0})
    unfolding reset_password hash_password
    reset-Ended password at = Ensures-bind _ _ (opened _ (time-Open at)) λ value.
        Ensures-bind _ _ (opened _ (Keeps-lift env Open _)) λ t.
          Ensures-bind _ _ (opened _ (Keeps-frame env Open _ (λ w. refl))) λ hashed.
            Ensures-session_scope env Open (λ _. Ended d) (λ _ _. Unit {0}) _
              (λ db h. rows-Ended password hashed t db h) (λ db h. tt)

  -- Once `reset_password` has returned, no session that the administrator had before authenticates
  -- again, whatever operations follow.
  pub reset_logs_out :
      (ops : List SessionOperation) (w : World) (password raw_token : Text) (at : Option Datetime)
      (later : Datetime) (s : AdminSession) (i : SessionIdentity) (a : Admin) (rest : List Admin)
      → w.db.admins ≡ a ∷ rest
      → session_of (session_digest env service raw_token) w.db.admin_sessions ≡ some s
      → s.admin_id ≡ a.id
      → (reset_password env password at w).0 ≡ ok tt
      → (authenticate env service raw_token later
          (perform_all env service (reset_password env password at w).1 ops)).0
        ≢ ok (some i)
  reset_logs_out ops w password raw at later s i a rest admins found owner done =
      never_authenticates env service ops (reset_password env password at w).1 raw later i
        (Ensures-ok (reset-Ended _ s a rest owner password at) w (found, admins) done)
