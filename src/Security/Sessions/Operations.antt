-- ===== src/Security/Sessions/Operations.antt =====
-- The operations of security/sessions.py, with `reset_password` of security/admin.py, in any order: an
-- ended session does not come back.
use ez_open_pn.Prelude.{
  ℕ, ◌≡◌, ◌≢◌, refl, Bool, true, false, not, Option, none, some, List, [], ◌∷◌, Bytes, Text,
  if◌then◌else◌, Bool-cases, inl, inr,
}
use ez_open_pn.Errors.{Exn, Result, ok, err, operational_error, session_admin_not_found}
use ez_open_pn.Errors
use ez_open_pn.Models.{Admin, AdminSession, Database}
use ez_open_pn.World.{Env, World, Datetime}
use ez_open_pn.Exec.{Exec, pure, ◌>>=◌, session_scope, new_uuid, token_bytes, now, hash_password}
use ez_open_pn.Exec.Keeps.{
  Keeps, Ensures, Ensures-bind, Ensures-session_scope, Ensures-ok, Ensures-weaken, keeps_at, Work,
}
use ez_open_pn.Profiles.Reconcile.Frame.{Keeps-frame, Keeps-lift, Keeps-pure}
use ez_open_pn.Security.Sessions.{
  SessionService, SessionIdentity, revoked, authenticate_row, revoke_row, session_insertable,
  session_digest, new_token, add_session, is_token_text, create, authenticate, revoke,
}
use ez_open_pn.Security.Admin.{
  reset_rows, reset_database, reset_password, time_or_now, validate_new_password,
}
use ez_open_pn.Security.Sessions.Ended.{
  ended, ended-update, ended-revoke_all, ended-insert, revoked-is_set, authenticate-ended,
  authenticate-refused,
}

abbrev pub Ended : Bytes → Database → Type 0
Ended d db = ended d db.admin_sessions ≡ true

abbrev KeepsEnded : {A : Type 0} → Bytes → Exec A → Type 0
KeepsEnded d m = Keeps (λ w. Ended d w.db) m

-- The operations that change sessions.
pub data SessionOperation : Type 0 where
  creates : Bytes → Datetime → SessionOperation
  authenticates : Text → Datetime → SessionOperation
  revokes : Bytes → Datetime → SessionOperation
  resets : Text → Option Datetime → SessionOperation

module _ (env : Env) (service : SessionService) where
  unfoldable pub perform : World → SessionOperation → World
  perform w (creates admin_id at) = (create env service admin_id at w).1
  perform w (authenticates raw_token at) = (authenticate env service raw_token at w).1
  perform w (revokes session_id at) = (revoke env session_id at w).1
  perform w (resets password at) = (reset_password env password at w).1

  unfoldable pub perform_all : World → List SessionOperation → World
  unfolding perform
  perform_all w [] = w
  perform_all w (o ∷ rest) = perform_all (perform w o) rest

  module _ (d : Bytes) where
    token-KeepsEnded : KeepsEnded d (new_token env)
    unfolding new_token token_bytes ◌>>=◌
    token-KeepsEnded = Keeps-frame env (Ended d) _ (λ w. refl)

    add-KeepsEnded :
        (row : Admin → AdminSession) (db : Database) (o : Option Admin)
        → Ended d db
        → Work (λ _. Ended d) (λ _. Ended d) db (add_session env service row db o)
    add-KeepsEnded row db none h = h
    add-KeepsEnded row db (some a) h =
        elim (Bool-cases (session_insertable (row a) db.admin_sessions)) [
          | inl e ↦ rw e (ended-insert d (row a) db.admin_sessions h e)
          | inr e ↦ rw e h
        ]

    create-KeepsEnded : (id : Bytes) (at : Datetime) → KeepsEnded d (create env service id at)
    unfolding create new_uuid
    create-KeepsEnded id at = Ensures-bind _ _ (Keeps-lift env (Ended d) _) λ t.
        Ensures-bind _ _ token-KeepsEnded λ raw. Ensures-bind _ _ token-KeepsEnded λ csrf.
          Ensures-bind _ _ (Keeps-frame env (Ended d) _ (λ w. refl)) λ session_id.
            Ensures-bind _ _
              (Ensures-session_scope env (Ended d) (λ _. Ended d) (λ _. Ended d) _
                (λ db h. add-KeepsEnded _ db _ h) (λ db h. h))
              λ _. Keeps-pure env (Ended d) _

    authenticate-KeepsEnded :
        (raw : Text) (at : Datetime) → KeepsEnded d (authenticate env service raw at)
    unfolding authenticate
    authenticate-KeepsEnded raw at =
        Ensures-bind _ _ (Keeps-lift env (Ended d) _) λ t. go t (not (is_token_text raw))
      where
        go :
            (t : ℕ) (b : Bool)
            → KeepsEnded d (
                if b
                then pure none
                else session_scope env
                    (λ db. ok (authenticate_row env service t (session_digest env service raw) db)))
        go t true = Keeps-pure env (Ended d) _
        go t false =
            Ensures-session_scope env (Ended d) (λ _. Ended d) (λ _. Ended d) _
              (λ db h. authenticate-ended env service d _ t db h) (λ db h. h)

    revoke-KeepsEnded : (id : Bytes) (at : Datetime) → KeepsEnded d (revoke env id at)
    unfolding revoke revoke_row
    revoke-KeepsEnded id at = Ensures-bind _ _ (Keeps-lift env (Ended d) _) λ t.
        Ensures-session_scope env (Ended d) (λ _. Ended d) (λ _. Ended d) _
          (λ db h.
            ended-update d id (revoked t) (λ s. refl) (λ s k. revoked-is_set t s) db.admin_sessions
              h)
          (λ db h. h)

    time-KeepsEnded : (at : Option Datetime) → KeepsEnded d (time_or_now env at)
    unfolding now
    time-KeepsEnded none = Keeps-frame env (Ended d) _ (λ w. refl)
    time-KeepsEnded (some t) = Keeps-pure env (Ended d) _

    rows-KeepsEnded :
        (password hashed : Text) (t : ℕ) (db : Database) (admins : List Admin)
        → Ended d db
        → Work (λ _. Ended d) (λ _. Ended d) db (reset_rows env password hashed t db admins)
    unfolding reset_rows reset_database
    rows-KeepsEnded password hashed t db [] h = h
    rows-KeepsEnded password hashed t db (a ∷ rest) h =
        go (validate_new_password env password a.login)
      where
        go :
            (r : Result (Unit {0}))
            → Work
                (λ _. Ended d)
                (λ _. Ended d)
                db
                (Errors.◌>>◌ r (ok (tt, reset_database hashed t db a)))
        go (ok x) = ended-revoke_all d a.id t db.admin_sessions h
        go (err e) = h

    hash-KeepsEnded : (password : Text) → KeepsEnded d (hash_password env password)
    unfolding hash_password
    hash-KeepsEnded password = Keeps-frame env (Ended d) _ (λ w. refl)

    reset-KeepsEnded :
        (password : Text) (at : Option Datetime) → KeepsEnded d (reset_password env password at)
    unfolding reset_password
    reset-KeepsEnded password at = Ensures-bind _ _ (time-KeepsEnded at) λ value.
        Ensures-bind _ _ (Keeps-lift env (Ended d) _) λ t.
          Ensures-bind _ _ (hash-KeepsEnded password) λ hashed.
            Ensures-session_scope env (Ended d) (λ _. Ended d) (λ _. Ended d) _
              (λ db h. rows-KeepsEnded password hashed t db db.admins h) (λ db h. h)

    all-KeepsEnded :
        (ops : List SessionOperation) (w : World) → Ended d w.db → Ended d (perform_all w ops).db
    unfolding perform_all perform
    all-KeepsEnded [] w h = h
    all-KeepsEnded (creates id at ∷ rest) w h =
        all-KeepsEnded rest _ (keeps_at (create-KeepsEnded id at) w h)
    all-KeepsEnded (authenticates raw at ∷ rest) w h =
        all-KeepsEnded rest _ (keeps_at (authenticate-KeepsEnded raw at) w h)
    all-KeepsEnded (revokes id at ∷ rest) w h =
        all-KeepsEnded rest _ (keeps_at (revoke-KeepsEnded id at) w h)
    all-KeepsEnded (resets password at ∷ rest) w h =
        all-KeepsEnded rest _ (keeps_at (reset-KeepsEnded password at) w h)

  refused :
      (raw : Text) (at : Datetime)
      → Ensures
          (λ w. Ended (session_digest env service raw) w.db)
          (authenticate env service raw at)
          (λ o _. o ≡ none)
          (λ _ _. Unit {0})
  unfolding authenticate
  refused raw at =
      Ensures-bind _ _
        (Ensures-weaken _ (Keeps-lift env (Ended _) _) (λ w h. h) (λ a w h. h) (λ e w h. tt))
        λ t. go t (not (is_token_text raw))
    where
      go :
          (t : ℕ) (b : Bool)
          → Ensures
              (λ w. Ended (session_digest env service raw) w.db)
              (if b
                then pure none
                else session_scope env
                    (λ db. ok (authenticate_row env service t (session_digest env service raw) db)))
              (λ o _. o ≡ none)
              (λ _ _. Unit {0})
      go t true = record { at = λ w h. refl }
      go t false =
          Ensures-session_scope env (Ended _) (λ o _. o ≡ none) (λ _ _. Unit {0}) _
            (λ db h. authenticate-refused env service _ t db h) (λ db h. tt)

  pub never_authenticates :
      (ops : List SessionOperation) (w : World) (raw : Text) (at : Datetime) (i : SessionIdentity)
      → Ended (session_digest env service raw) w.db
      → (authenticate env service raw at (perform_all w ops)).0 ≢ ok (some i)
  never_authenticates ops w raw at i h e =
      let k = Ensures-ok (refused raw at) (perform_all w ops) (all-KeepsEnded _ ops w h) e in cc
