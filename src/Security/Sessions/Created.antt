-- ===== src/Security/Sessions/Created.antt =====
-- security/sessions.py: the token that `create` hands out authenticates.
use ez_open_pn.Prelude.{
  ℕ, ◌+◌, min, ◌<◌, ◌≡◌, refl, sym, ◌∙◌, ap, subst, true, some, List, ◌∷◌, Bytes, Text,
  bytes_eq_refl, length, arith, Bool-cases, Option-cases, inl, inr,
}
use ez_open_pn.Errors.{ok}
use ez_open_pn.Models.{Admin, AdminSession, Database}
use ez_open_pn.World.{Env, World, Event, aware}
use ez_open_pn.Exec.{lift, ◌>>=◌, session_scope, utc, new_uuid, token_bytes}
use ez_open_pn.Exec.Keeps.{Ensures, Ensures-bind, Ensures-session_scope, Ensures-ok, Work}
use ez_open_pn.Encoding.Tokens.{url_token-IsTokenText}
use ez_open_pn.Security.Sessions.{
  SessionService, SessionIdentity, SessionGrant, session_of, get_admin, authenticate_row,
  identity_of, session_insertable, session_digest, csrf_digest, new_session, new_token, add_session,
  is_token_text, create, authenticate, validate_csrf,
}
use ez_open_pn.Security.Sessions.Live.{Live, get_admin-id, row_accepts}

module _ (env : Env) (service : SessionService) (db : Database) (admin_id : Bytes) (t : ℕ) where
  -- What `create` leaves.
  record Created (grant : SessionGrant) (after : Database) : Type 0 where
    a : Admin
    found : get_admin admin_id db.admins ≡ some a
    sessions :
        after.admin_sessions
        ≡ new_session env service grant.session_id grant.raw_token grant.csrf_token t a
          ∷ db.admin_sessions
    admins : after.admins ≡ db.admins
    raw_text : is_token_text grant.raw_token ≡ true
    csrf_text : is_token_text grant.csrf_token ≡ true
    idle : grant.idle_expires_at ≡ min (t + service.idle_duration) (t + service.absolute_duration)

  module _ (drawn : (h : List Event) → length (env.token_bytes h 32) ≡ 32) where
    token-Ensures :
        {P : Type 0}
        → Ensures
            (λ w. P × (w.db ≡ db))
            (new_token env)
            (λ raw w. (P × (is_token_text raw ≡ true)) × (w.db ≡ db))
            (λ _ _. Unit {0})
    unfolding new_token token_bytes ◌>>=◌
    token-Ensures = record {
      at = λ w h. (
        (
          h.0,
          url_token-IsTokenText (env.token_bytes w.history 32) (omega (arith, drawn w.history))
              (omega (arith, drawn w.history)),
        ),
        h.1,
      );
    }

    -- What the unit of work of `create` leaves.
    Added : Bytes → Text → Text → Database → Type 0
    Added id raw csrf after =
        (a : Admin) × (get_admin admin_id db.admins ≡ some a)
        × (after.admin_sessions ≡ new_session env service id raw csrf t a ∷ db.admin_sessions)
        × (after.admins ≡ db.admins)

    add-Added :
        {P : Type 0} (id : Bytes) (raw csrf : Text)
        → P
        → Work
            (λ _ after. P × Added id raw csrf after)
            (λ _ _. Unit {0})
            db
            (add_session env service
              (new_session env service id raw csrf t)
              db
              (get_admin admin_id db.admins))
    unfolding Added
    add-Added id raw csrf h = elim (Option-cases (get_admin admin_id db.admins)) [
      | inl e ↦ rw e tt
      | inr (a, e) ↦
          rw e
            (elim (Bool-cases
              (session_insertable (new_session env service id raw csrf t a) db.admin_sessions)) [
                | inl x ↦ rw x (h, (a, refl, refl, refl))
                | inr x ↦ rw x tt
              ])
    ]

    insert-Ensures :
        {P : Type 0} (id : Bytes) (raw csrf : Text) (s : ℕ)
        → (P → s ≡ t)
        → Ensures
            (λ w. P × (w.db ≡ db))
            (session_scope env λ d.
              add_session env service
                (new_session env service id raw csrf s)
                d
                (get_admin admin_id d.admins))
            (λ _ w. P × Added id raw csrf w.db)
            (λ _ _. Unit {0})
    insert-Ensures {P} id raw csrf s same =
        Ensures-session_scope env (λ d. P × (d ≡ db)) (λ _ after. P × Added id raw csrf after)
          (λ _ _. Unit {0}) _
          (λ d h.
            subst
              (λ x.
                Work (λ _ after. P × Added id raw csrf after) (λ _ _. Unit {0}) x
                  (add_session env service (new_session env service id raw csrf s) x
                    (get_admin admin_id x.admins)))
              (sym h.1)
              (subst
                (λ y.
                  Work (λ _ after. P × Added id raw csrf after) (λ _ _. Unit {0}) db
                    (add_session env service (new_session env service id raw csrf y) db
                      (get_admin admin_id db.admins)))
                (sym (same h.0)) (add-Added id raw csrf h.0)))
          (λ d h. tt)

    time-Ensures :
        Ensures (λ w. w.db ≡ db) (lift (ok t)) (λ s w. (s ≡ t) × (w.db ≡ db)) (λ _ _. Unit {0})
    time-Ensures = record { at = λ w h. (refl, h) }

    uuid-Ensures :
        {P : Type 0}
        → Ensures (λ w. P × (w.db ≡ db)) (new_uuid env) (λ _ w. P × (w.db ≡ db)) (λ _ _. Unit {0})
    unfolding new_uuid
    uuid-Ensures = record { at = λ w h. h }

    create-Created :
        Ensures
          (λ w. w.db ≡ db)
          (create env service admin_id (aware t))
          (λ grant w. Created grant w.db)
          (λ _ _. Unit {0})
    unfolding create utc Added
    create-Created = Ensures-bind _ _ time-Ensures λ s. Ensures-bind _ _ token-Ensures λ raw.
        Ensures-bind _ _ token-Ensures λ csrf. Ensures-bind _ _ uuid-Ensures λ id.
          Ensures-bind _ _ (insert-Ensures id raw csrf s (λ h. h.0.0)) λ _. record {
            at = λ w h. record {
              a = h.1.0;
              found = h.1.1;
              sessions = h.1.2;
              admins = h.1.3;
              raw_text = h.0.0.1;
              csrf_text = h.0.1;
              idle = rw (h.0.0.0) refl;
            };
          }

module _ (env : Env) (service : SessionService) where
  completed :
      {A : Type 0} (body : Database → A × Database) (w : World)
      → env.completes w.history ≡ true
      → (session_scope env (λ db. ok (body db)) w).0 ≡ ok (body w.db).0
  unfolding session_scope
  completed body w h = rw h refl

  answered :
      (w : World) (raw : Text) (t : ℕ)
      → env.completes w.history ≡ true
      → is_token_text raw ≡ true
      → (authenticate env service raw (aware t) w).0
        ≡ ok (authenticate_row env service t (session_digest env service raw) w.db).0
  unfolding authenticate utc ◌>>=◌
  answered w raw t done text = rw text (completed _ w done)

  new_session-Live :
      (id : Bytes) (raw csrf : Text) (t later : ℕ) (a : Admin)
      → later < min (t + service.idle_duration) (t + service.absolute_duration)
      → Live later a (new_session env service id raw csrf t a)
  unfolding new_session
  new_session-Live id raw csrf t later a h = record {
    not_revoked = refl;
    not_idle = h;
    not_over = omega arith;
    version = refl;
  }

  found_row :
      (id : Bytes) (raw csrf : Text) (t : ℕ) (a : Admin) (rows : List AdminSession)
      → session_of (session_digest env service raw) (new_session env service id raw csrf t a ∷ rows)
        ≡ some (new_session env service id raw csrf t a)
  unfolding session_of new_session
  found_row id raw csrf t a rows = rw (bytes_eq_refl (session_digest env service raw)) refl

  csrf_valid :
      (id : Bytes) (raw csrf : Text) (t : ℕ) (a : Admin)
      → is_token_text csrf ≡ true
      → validate_csrf env service
          (identity_of env service (new_session env service id raw csrf t a) a)
          csrf
        ≡ true
  unfolding validate_csrf new_session
  csrf_valid id raw csrf t a h = rw (h, bytes_eq_refl (csrf_digest env service csrf)) refl

  -- When `create` has returned a grant, and `token_bytes` draws as many bytes as it is asked for, then
  -- the raw token authenticates at every time before the idle deadline of the grant, if SQLite
  -- completes the lookup. The identity is that of the session and of its administrator, and it
  -- validates the CSRF token of the grant.
  pub created_session_authenticates :
      (w : World) (admin_id : Bytes) (t later : ℕ) (grant : SessionGrant)
      → ((h : List Event) → length (env.token_bytes h 32) ≡ 32)
      → (create env service admin_id (aware t) w).0 ≡ ok grant
      → env.completes (create env service admin_id (aware t) w).1.history ≡ true
      → later < grant.idle_expires_at
      → (i : SessionIdentity) × ((authenticate env service grant.raw_token
            (aware later)
            (create env service admin_id (aware t) w).1).0
          ≡ ok (some i))
        × (i.session_id ≡ grant.session_id)
        × (i.admin_id ≡ admin_id)
        × (validate_csrf env service i grant.csrf_token ≡ true)
  unfolding new_session
  created_session_authenticates w admin_id t later grant drawn created done before =
      let k = Ensures-ok (create-Created env service w.db admin_id t drawn) w refl created in
      let row = new_session env service grant.session_id grant.raw_token grant.csrf_token t k.a in
      let same = get_admin-id admin_id w.db.admins k.a k.found in
      (
        identity_of env service row k.a,
        answered _ grant.raw_token later done k.raw_text
            ∙ ap ok (
                row_accepts env service later _ _ row k.a
                  (ap (session_of _) k.sessions ∙ found_row _ _ _ t k.a w.db.admin_sessions) refl
                  (rw (k.admins, same) k.found)
                  (new_session-Live _ _ _ t later k.a (rw (← k.idle) before))),
        refl,
        same,
        csrf_valid grant.session_id grant.raw_token grant.csrf_token t k.a k.csrf_text,
      )
