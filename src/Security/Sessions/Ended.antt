-- ===== src/Security/Sessions/Ended.antt =====
-- security/sessions.py and security/admin.py: a session that is revoked stays revoked.
use ez_open_pn.Prelude.{
  ℕ, ◌≡◌, refl, sym, ◌∙◌, ap, Bool, true, false, Option, none, some, List, [], ◌∷◌, Bytes, bytes_eq,
  bytes_eq_iff, bytes_eq_refl, some_inj, arith, if◌then◌else◌, Bool-cases, Option-cases, inl, inr,
}
use ez_open_pn.Models.{Admin, AdminSession, Database}
use ez_open_pn.World.{Env}
use ez_open_pn.Security.Sessions.{
  SessionService, is_set, session_of, get_admin, update_session, revoked, seen, is_expired,
  authenticate_row, check_session, check_stored, session_insertable,
}
use ez_open_pn.Security.Admin.{revoke_all}

-- The session with this token digest is there, and it is revoked.
unfoldable pub ended : Bytes → List AdminSession → Bool
ended digest [] = false
ended digest (s ∷ rest) =
    if bytes_eq s.token_digest digest then is_set s.revoked_at else ended digest rest

pub ended-found :
    (d : Bytes) (rows : List AdminSession) (s : AdminSession)
    → session_of d rows ≡ some s
    → ended d rows ≡ is_set s.revoked_at
unfolding session_of ended
ended-found d [] s h = cc
ended-found d (r ∷ rows) s h = elim (Bool-cases (bytes_eq r.token_digest d)) [
  | inl e ↦
      rw e
        (ap (λ o. elim o [ none ↦ is_set r.revoked_at | some x ↦ is_set x.revoked_at ]) (rw e at h))
  | inr e ↦ rw e (ended-found d rows s (rw e at h))
]

-- A change of rows that leaves their digests and revives none.
pub ended-update :
    (d id : Bytes) (f : AdminSession → AdminSession)
    → ((s : AdminSession) → (f s).token_digest ≡ s.token_digest)
    → ((s : AdminSession) → is_set s.revoked_at ≡ true → is_set (f s).revoked_at ≡ true)
    → (rows : List AdminSession) → ended d rows ≡ true
    → ended d (update_session id f rows) ≡ true
unfolding ended update_session
ended-update d id f same keep [] h = cc
ended-update d id f same keep (s ∷ rest) h =
    ground (arith, same s, keep s, ended-update d id f same keep rest)

pub revoked-is_set : (t : ℕ) (s : AdminSession) → is_set (revoked t s).revoked_at ≡ true
revoked-is_set t s = elim (Bool-cases (is_set s.revoked_at)) [
  | inl e ↦ rw (e, e) refl
  | inr e ↦ rw e refl
]

pub ended-revoke_all :
    (d id : Bytes) (t : ℕ) (rows : List AdminSession)
    → ended d rows ≡ true
    → ended d (revoke_all id t rows) ≡ true
unfolding ended revoke_all
ended-revoke_all d id t [] h = cc
ended-revoke_all d id t (s ∷ rest) h =
    ground (arith, revoked-is_set t s, ended-revoke_all d id t rest)

-- Revoking the session of a digest ends it, and so does revoking all sessions of its administrator.
pub ended-revoke :
    (d : Bytes) (t : ℕ) (rows : List AdminSession) (s : AdminSession)
    → session_of d rows ≡ some s
    → ended d (update_session s.id (revoked t) rows) ≡ true
unfolding session_of ended update_session
ended-revoke d t [] s h = cc
ended-revoke d t (r ∷ rows) s h = elim (Bool-cases (bytes_eq r.token_digest d)) [
  | inl e ↦ here (some_inj (rw e at h)) e
  | inr e ↦ elim (Bool-cases (bytes_eq r.id s.id)) [
    | inl x ↦ rw (x, e) (ended-revoke d t rows s (rw e at h))
    | inr x ↦ rw (x, e) (ended-revoke d t rows s (rw e at h))
  ]
]
  where
    here :
        r ≡ s
        → bytes_eq r.token_digest d ≡ true
        → ended d
            ((if bytes_eq r.id s.id then revoked t r else r) ∷ update_session s.id (revoked t) rows)
          ≡ true
    here x e = rw (← x, bytes_eq_refl r.id, e) (revoked-is_set t r)

pub ended-revoke_admin :
    (d : Bytes) (t : ℕ) (rows : List AdminSession) (s : AdminSession)
    → session_of d rows ≡ some s
    → ended d (revoke_all s.admin_id t rows) ≡ true
unfolding session_of ended revoke_all
ended-revoke_admin d t [] s h = cc
ended-revoke_admin d t (r ∷ rows) s h = elim (Bool-cases (bytes_eq r.token_digest d)) [
  | inl e ↦ here (some_inj (rw e at h)) e
  | inr e ↦ elim (Bool-cases (bytes_eq r.admin_id s.admin_id)) [
    | inl x ↦ rw (x, e) (ended-revoke_admin d t rows s (rw e at h))
    | inr x ↦ rw (x, e) (ended-revoke_admin d t rows s (rw e at h))
  ]
]
  where
    here :
        r ≡ s
        → bytes_eq r.token_digest d ≡ true
        → ended d (
            (if bytes_eq r.admin_id s.admin_id then revoked t r else r)
            ∷ revoke_all s.admin_id t rows)
          ≡ true
    here x e = rw (← x, bytes_eq_refl r.admin_id, e) (revoked-is_set t r)

-- A new session has a digest of its own.
ended-other :
    (d : Bytes) (s : AdminSession) (rows : List AdminSession)
    → ended d rows ≡ true
    → session_insertable s rows ≡ true
    → bytes_eq s.token_digest d ≡ false
unfolding ended
ended-other d s [] h free = cc
ended-other d s (r ∷ rest) h free = elim (Bool-cases (bytes_eq r.token_digest d)) [
  | inl e ↦ ground (
    arith,
    bytes_eq_iff r.token_digest d,
    bytes_eq_iff s.token_digest d,
    bytes_eq_iff r.token_digest s.token_digest,
  )
  | inr e ↦ ended-other d s rest (rw e at h) (ground arith)
]

pub ended-insert :
    (d : Bytes) (s : AdminSession) (rows : List AdminSession)
    → ended d rows ≡ true
    → session_insertable s rows ≡ true
    → ended d (s ∷ rows) ≡ true
unfolding ended
ended-insert d s rows h free = rw (ended-other d s rows h free) h

module _ (env : Env) (service : SessionService) where
  -- `authenticate` keeps a session ended, whichever session it is asked about.
  pub authenticate-ended :
      (d e : Bytes) (t : ℕ) (db : Database)
      → ended d db.admin_sessions ≡ true
      → ended d (authenticate_row env service t e db).1.admin_sessions ≡ true
  unfolding authenticate_row
  authenticate-ended d e t db h = stored (session_of e db.admin_sessions)
    where
      change :
          (s : AdminSession) (f : AdminSession → AdminSession)
          → ((r : AdminSession) → (f r).token_digest ≡ r.token_digest)
          → ((r : AdminSession) → is_set r.revoked_at ≡ true → is_set (f r).revoked_at ≡ true)
          → ended d (update_session s.id f db.admin_sessions) ≡ true
      change s f same keep = ended-update d s.id f same keep db.admin_sessions h

      checked :
          (s : AdminSession) (b : Bool) (a : Admin)
          → ended d (
              if b
              then update_session s.id (revoked t) db.admin_sessions
              else update_session s.id (seen service.idle_duration t) db.admin_sessions)
            ≡ true
      checked s true a = change s (revoked t) (λ r. refl) (λ r k. revoked-is_set t r)
      checked s false a = change s (seen service.idle_duration t) (λ r. refl) (λ r k. k)

      session :
          (s : AdminSession) (o : Option Admin)
          → ended d (check_session env service t db s o).1.admin_sessions ≡ true
      session s none = change s (revoked t) (λ r. refl) (λ r k. revoked-is_set t r)
      session s (some a) = elim (Bool-cases (is_expired t a s)) [
        | inl x ↦ rw x (checked s true a)
        | inr x ↦ rw x (checked s false a)
      ]

      stored :
          (o : Option AdminSession)
          → ended d (check_stored env service t e db o).1.admin_sessions ≡ true
      stored none = h
      stored (some s) = elim (Bool-cases (bytes_eq s.token_digest e)) [
        | inl x ↦ rw x (session s (get_admin s.admin_id db.admins))
        | inr x ↦ rw x h
      ]

  -- An ended session does not authenticate.
  pub authenticate-refused :
      (d : Bytes) (t : ℕ) (db : Database)
      → ended d db.admin_sessions ≡ true
      → (authenticate_row env service t d db).0 ≡ none
  unfolding authenticate_row
  authenticate-refused d t db h = elim (Option-cases (session_of d db.admin_sessions)) [
    | inl e ↦ rw e refl
    | inr (s, e) ↦ rw e (stored s (sym (ended-found d db.admin_sessions s e) ∙ h))
  ]
    where
      session :
          (s : AdminSession) (o : Option Admin)
          → is_set s.revoked_at ≡ true
          → (check_session env service t db s o).0 ≡ none
      session s none r = refl
      session s (some a) r = rw r refl

      stored :
          (s : AdminSession)
          → is_set s.revoked_at ≡ true
          → (check_stored env service t d db (some s)).0 ≡ none
      stored s r = elim (Bool-cases (bytes_eq s.token_digest d)) [
        | inl x ↦ rw x (session s (get_admin s.admin_id db.admins) r)
        | inr x ↦ rw x refl
      ]
