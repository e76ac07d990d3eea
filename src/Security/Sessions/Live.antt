-- ===== src/Security/Sessions/Live.antt =====
-- security/sessions.py: which tokens `authenticate` accepts, and that those of `create` are accepted.
use ez_open_pn.Prelude.{
  ℕ, ◌<◌, ◌≡◌, refl, sym, subst, Bool, true, false, not, Option, none, some, List, [], ◌∷◌, Bytes,
  Text, bytes_eq, bytes_eq_iff, bytes_eq_refl, some_inj, arith, if◌then◌else◌, Bool-cases,
  Option-cases, inl, inr,
}
use ez_open_pn.Errors.{ok}
use ez_open_pn.Models.{Admin, AdminSession, Database}
use ez_open_pn.World.{Env, World, aware}
use ez_open_pn.Exec.{pure, ◌>>=◌, session_scope, utc}
use ez_open_pn.Exec.Keeps.{Ensures, Ensures-session_scope, Ensures-ok}
use ez_open_pn.Security.Sessions.{
  SessionService, SessionIdentity, is_set, session_of, get_admin, authenticate_row, is_expired,
  identity_of, session_digest, is_token_text, authenticate,
}

-- A session that is in force at a time.
pub record Live (t : ℕ) (a : Admin) (s : AdminSession) : Type 0 where
  pub not_revoked : s.revoked_at ≡ none
  pub not_idle : t < s.idle_expires_at
  pub not_over : t < s.absolute_expires_at
  pub version : s.session_version ≡ a.session_version

unset : {A : Type 0} (o : Option A) → is_set o ≡ false → o ≡ none
unset none h = refl
unset (some a) h = cc

pub Live-of : (t : ℕ) (a : Admin) (s : AdminSession) → is_expired t a s ≡ false → Live t a s
Live-of t a s h = record {
  not_revoked = unset s.revoked_at (ground arith);
  not_idle = ground arith;
  not_over = ground arith;
  version = ground arith;
}

pub Live-is_expired : (t : ℕ) (a : Admin) (s : AdminSession) → Live t a s → is_expired t a s ≡ false
Live-is_expired t a s l = rw (l.not_revoked, l.version) (ground (arith, l.not_idle, l.not_over))

pub get_admin-id :
    (id : Bytes) (rows : List Admin) (a : Admin) → get_admin id rows ≡ some a → a.id ≡ id
unfolding get_admin
get_admin-id id [] a h = cc
get_admin-id id (b ∷ rows) a h = ground (arith, bytes_eq_iff b.id id, get_admin-id id rows a)

module _ (env : Env) (service : SessionService) where
  -- What the unit of work of `authenticate` answers for a session that is in force.
  pub row_accepts :
      (t : ℕ) (d : Bytes) (db : Database) (s : AdminSession) (a : Admin)
      → session_of d db.admin_sessions ≡ some s
      → s.token_digest ≡ d
      → get_admin s.admin_id db.admins ≡ some a
      → Live t a s
      → (authenticate_row env service t d db).0 ≡ some (identity_of env service s a)
  unfolding authenticate_row
  row_accepts t d db s a found same admin live =
      rw (found, same, bytes_eq_refl d, admin, Live-is_expired t a s live) refl

  -- The session behind an identity.
  abbrev Behind : ℕ → Bytes → Database → SessionIdentity → Type 0
  Behind t d db i =
      (s : AdminSession) × (a : Admin) × (session_of d db.admin_sessions ≡ some s)
      × (s.token_digest ≡ d)
      × (get_admin s.admin_id db.admins ≡ some a)
      × Live t a s
      × (i ≡ identity_of env service s a)

  row_sound :
      (t : ℕ) (d : Bytes) (db : Database) (i : SessionIdentity)
      → (authenticate_row env service t d db).0 ≡ some i
      → Behind t d db i
  unfolding authenticate_row
  row_sound t d db i h = elim (Option-cases (session_of d db.admin_sessions)) [
    | inl e ↦ cc
    | inr (s, e) ↦ elim (Bool-cases (bytes_eq s.token_digest d)) [
      | inr x ↦ absurd (refuses s e x)
      | inl x ↦ elim (Option-cases (get_admin s.admin_id db.admins)) [
        | inl y ↦ absurd (ownerless s e x y)
        | inr (a, y) ↦ elim (Bool-cases (is_expired t a s)) [
          | inl z ↦ absurd (expires s a e x y z)
          | inr z ↦ (
            s,
            a,
            e,
            (bytes_eq_iff s.token_digest d).0 x,
            y,
            Live-of t a s z,
            sym (some_inj (rw (e, x, y, z) at h)),
          )
        ]
      ]
    ]
  ]
    where
      refuses :
          (s : AdminSession)
          → session_of d db.admin_sessions ≡ some s
          → bytes_eq s.token_digest d ≡ false
          → ⊥
      refuses s e x = let k = (rw (e, x) at h) in cc

      ownerless :
          (s : AdminSession)
          → session_of d db.admin_sessions ≡ some s
          → bytes_eq s.token_digest d ≡ true
          → get_admin s.admin_id db.admins ≡ none
          → ⊥
      ownerless s e x y = let k = (rw (e, x, y) at h) in cc

      expires :
          (s : AdminSession) (a : Admin)
          → session_of d db.admin_sessions ≡ some s
          → bytes_eq s.token_digest d ≡ true
          → get_admin s.admin_id db.admins ≡ some a
          → is_expired t a s ≡ true
          → ⊥
      expires s a e x y z = let k = (rw (e, x, y, z) at h) in cc

  accepts-Ensures :
      (db : Database) (raw : Text) (t : ℕ)
      → Ensures
          (λ w. w.db ≡ db)
          (authenticate env service raw (aware t))
          (λ o _.
            (i : SessionIdentity) → o ≡ some i → Behind t (session_digest env service raw) db i)
          (λ _ _. Unit {0})
  unfolding authenticate utc ◌>>=◌
  accepts-Ensures db raw t = go (not (is_token_text raw))
    where
      go :
          (b : Bool)
          → Ensures
              (λ w. w.db ≡ db)
              (if b
                then pure none
                else session_scope env
                    (λ db. ok (authenticate_row env service t (session_digest env service raw) db)))
              (λ o _.
                (i : SessionIdentity) → o ≡ some i → Behind t (session_digest env service raw) db i)
              (λ _ _. Unit {0})
      go true = record { at = λ w h i e. absurd cc }
      go false =
          Ensures-session_scope env (λ d. d ≡ db)
            (λ o _.
              (i : SessionIdentity) → o ≡ some i → Behind t (session_digest env service raw) db i)
            (λ _ _. Unit {0}) _
            (λ d h i e. row_sound t _ db i (
              subst
                (λ x.
                  (authenticate_row env service t (session_digest env service raw) x).0 ≡ some i)
                h e))
            (λ d h. tt)

  -- When `authenticate` returns an identity, it is that of a stored session with the token's digest,
  -- which was not revoked, whose two deadlines are later than the time, whose version is that of its
  -- administrator, and the identity names that administrator.
  pub authenticate_accepts :
      (w : World) (raw_token : Text) (t : ℕ) (i : SessionIdentity)
      → (authenticate env service raw_token (aware t) w).0 ≡ ok (some i)
      → (s : AdminSession) × (a : Admin) × (session_of
            (session_digest env service raw_token)
            w.db.admin_sessions
          ≡ some s)
        × (s.token_digest ≡ session_digest env service raw_token)
        × (get_admin s.admin_id w.db.admins ≡ some a)
        × Live t a s
        × (i ≡ identity_of env service s a)
  authenticate_accepts w raw t i h = Ensures-ok (accepts-Ensures w.db raw t) w refl h i refl
