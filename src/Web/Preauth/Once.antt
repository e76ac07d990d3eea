-- ===== src/Web/Preauth/Once.antt =====
-- web/preauth.py: a challenge is accepted at most once.
use ez_open_pn.Prelude.{
  ℕ, ◌<◌, ◌≡◌, ◌≢◌, refl, sym, ◌∙◌, ap, subst, Bool, true, false, ◌&&◌, not, Option, none, some,
  List, [], ◌∷◌, Text, bytes_eq, bytes_eq_iff, arith, if◌then◌else◌, ltb→lt, Option-cases, inl, inr,
}
use ez_open_pn.Errors.{Exn, Result, ok, err}
use ez_open_pn.Errors
use ez_open_pn.Models.{SystemState, Database}
use ez_open_pn.World.{Env, World, Datetime, aware, naive}
use ez_open_pn.Exec.{pure, lift, ◌>>=◌, session_scope, utc, now}
use ez_open_pn.Exec.Keeps.{
  Keeps, Ensures, Ensures-bind, Ensures-session_scope, Ensures-ok, keeps_at, Work,
}
use ez_open_pn.Profiles.Reconcile.Frame.{Keeps-frame, Keeps-lift, Keeps-pure}
use ez_open_pn.Security.Sessions.{is_token_text}
use ez_open_pn.Web.Preauth.{
  PreAuthService, state_of, delete_state, is_alive, form_token, state_key, consume_state,
  consume_rows, consume,
}

deleted-none : (key : Text) (rows : List SystemState) → state_of key (delete_state key rows) ≡ none
unfolding state_of delete_state
deleted-none key [] = refl
deleted-none key (s ∷ rows) = ground (arith, deleted-none key rows)

delete-none :
    (key other : Text) (rows : List SystemState)
    → state_of key rows ≡ none
    → state_of key (delete_state other rows) ≡ none
unfolding state_of delete_state
delete-none key other [] h = refl
delete-none key other (s ∷ rows) h = ground (arith, delete-none key other rows)

abbrev Absent : Text → Database → Type 0
Absent key db = state_of key db.system_state ≡ none

module _ (env : Env) (service : PreAuthService) where
  -- Attempts to consume a challenge, with the world that they leave.
  unfoldable pub attempt_all : World → List (Text × Text) → World
  attempt_all w [] = w
  attempt_all w (a ∷ rest) = attempt_all (consume env service a.0 a.1 w).1 rest

  state-Absent :
      (key other : Text) (t : ℕ) (db : Database) (o : Option SystemState)
      → Absent key db
      → Work (λ _. Absent key) (λ _. Absent key) db (consume_state env service other t db o)
  state-Absent key other t db none h = h
  state-Absent key other t db (some s) h = go (is_alive env t (env.texts.load_expiry s.value_json))
    where
      go :
          (r : Result Bool)
          → Work
              (λ _. Absent key)
              (λ _. Absent key)
              db
              (Errors.◌>>=◌ r (λ alive.
                ok (alive, record db { system_state = delete_state other db.system_state })))
      go (ok b) = delete-none key other db.system_state h
      go (err e) = h

  consume-Absent :
      (key nonce form : Text) → Keeps (λ w. Absent key w.db) (consume env service nonce form)
  unfolding consume consume_rows now
  consume-Absent key nonce form =
      go (not (is_token_text nonce && is_token_text form))
        (not (bytes_eq (form_token env service nonce) form))
    where
      go :
          (a b : Bool)
          → Keeps
              (λ w. Absent key w.db)
              (if a
                then pure false
                else if b
                then pure false
                else (now env >>= λ value. lift (utc value) >>= λ t.
                    session_scope env (consume_rows env service (state_key env service nonce) t)))
      go true b = Keeps-pure env (Absent key) _
      go false true = Keeps-pure env (Absent key) _
      go false false = Ensures-bind _ _ (Keeps-frame env (Absent key) _ (λ w. refl)) λ value.
          Ensures-bind _ _ (Keeps-lift env (Absent key) _) λ t.
            Ensures-session_scope env (Absent key) (λ _. Absent key) (λ _. Absent key) _
              (λ db h. state-Absent key _ t db _ h) (λ db h. h)

  all-Absent :
      (key : Text) (attempts : List (Text × Text)) (w : World)
      → Absent key w.db
      → Absent key (attempt_all w attempts).db
  unfolding attempt_all
  all-Absent key [] w h = h
  all-Absent key (a ∷ rest) w h = all-Absent key rest _ (keeps_at (consume-Absent key a.0 a.1) w h)

  -- The stored challenge that `consume` accepts.
  pub record Accepted (nonce : Text) (t : ℕ) (db : Database) : Type 0 where
    pub stored : SystemState
    pub until : ℕ
    pub found : state_of (state_key env service nonce) db.system_state ≡ some stored
    pub dated : env.texts.load_expiry stored.value_json ≡ some (aware until)
    pub alive : t < until

  alive-until :
      (t : ℕ) (o : Option Datetime)
      → is_alive env t o ≡ ok true
      → (until : ℕ) × (o ≡ some (aware until)) × (t < until)
  unfolding utc
  alive-until t none h = absurd cc
  alive-until t (some (naive u)) h = absurd cc
  alive-until t (some (aware u)) h = (u, refl, ltb→lt t u cc)

  rows-Accepted :
      (nonce : Text) (t : ℕ) (db : Database)
      → Work
          (λ b after. b ≡ true → Accepted nonce t db × Absent (state_key env service nonce) after)
          (λ _ _. Unit {0})
          db
          (consume_rows env service (state_key env service nonce) t db)
  unfolding consume_rows
  rows-Accepted nonce t db =
      elim (Option-cases (state_of (state_key env service nonce) db.system_state)) [
        | inl e ↦ rw e (λ h. absurd cc)
        | inr (s, e) ↦ rw e (go s e (is_alive env t (env.texts.load_expiry s.value_json)) refl)
      ]
    where
      go :
          (s : SystemState)
          → state_of (state_key env service nonce) db.system_state ≡ some s
          → (r : Result Bool) → is_alive env t (env.texts.load_expiry s.value_json) ≡ r
          → Work
              (λ b after.
                b ≡ true → Accepted nonce t db × Absent (state_key env service nonce) after)
              (λ _ _. Unit {0})
              db
              (Errors.◌>>=◌ r (λ alive. ok (
                alive,
                record db {
                  system_state = delete_state (state_key env service nonce) db.system_state;
                },
              )))
      go s e (err x) k = tt
      go s e (ok b) k = λ h.
          let u = alive-until t (env.texts.load_expiry s.value_json) (k ∙ ap ok h) in
          (
            record { stored = s; until = u.0; found = e; dated = u.1; alive = u.2 },
            deleted-none (state_key env service nonce) db.system_state,
          )

  -- What `consume` answers, with the time that the clock reads.
  consume-Accepted :
      (nonce form : Text) (w0 : World)
      → Ensures
          (λ w. w ≡ w0)
          (consume env service nonce form)
          (λ b w.
            b ≡ true
            → (form_token env service nonce ≡ form)
              × ((t : ℕ) × (env.clock w0.history ≡ aware t) × Accepted nonce t w0.db)
              × Absent (state_key env service nonce) w.db)
          (λ _ _. Unit {0})
  unfolding consume now utc
  consume-Accepted nonce form w0 =
      go (not (is_token_text nonce && is_token_text form))
        (bytes_eq (form_token env service nonce) form) refl
    where
      timed :
          (value : Datetime) (D : World → Type 0)
          → Ensures
              (λ w. (value ≡ env.clock w0.history) × D w)
              (lift (utc value))
              (λ t w. (env.clock w0.history ≡ aware t) × D w)
              (λ _ _. Unit {0})
      timed (aware t) D = record { at = λ w h. (sym h.0, h.1) }
      timed (naive t) D = record { at = λ w h. tt }

      go :
          (a b : Bool)
          → bytes_eq (form_token env service nonce) form ≡ b
          → Ensures
              (λ w. w ≡ w0)
              (if a
                then pure false
                else if not b
                then pure false
                else (now env >>= λ value. lift (utc value) >>= λ t.
                    session_scope env (consume_rows env service (state_key env service nonce) t)))
              (λ b w.
                b ≡ true
                → (form_token env service nonce ≡ form)
                  × ((t : ℕ) × (env.clock w0.history ≡ aware t) × Accepted nonce t w0.db)
                  × Absent (state_key env service nonce) w.db)
              (λ _ _. Unit {0})
      go true b e = record { at = λ w h k. absurd cc }
      go false false e = record { at = λ w h k. absurd cc }
      go false true e =
          Ensures-bind {Q = λ value w. (value ≡ env.clock w0.history) × (w.db ≡ w0.db)} _ _
            (record {
              at = λ w h. (ap (λ (x : World). env.clock x.history) h, ap (λ (x : World). x.db) h);
            })
            λ value. Ensures-bind _ _ (timed value (λ w. w.db ≡ w0.db)) λ t.
              Ensures-session_scope env (λ db. (env.clock w0.history ≡ aware t) × (db ≡ w0.db))
                (λ b after.
                  b ≡ true
                  → (form_token env service nonce ≡ form)
                    × ((u : ℕ) × (env.clock w0.history ≡ aware u) × Accepted nonce u w0.db)
                    × Absent (state_key env service nonce) after)
                (λ _ _. Unit {0}) _
                (λ db h. widen db t h.0 _ (
                  subst
                    (λ x.
                      Work
                        (λ b after.
                          b ≡ true
                          → Accepted nonce t x × Absent (state_key env service nonce) after)
                        (λ _ _. Unit {0}) db
                        (consume_rows env service (state_key env service nonce) t db))
                    h.1 (rows-Accepted nonce t db)))
                (λ db h. tt)
        where
          widen :
              (db : Database) (t : ℕ)
              → env.clock w0.history ≡ aware t
              → (r : Result (Bool × Database))
              → Work
                  (λ b after.
                    b ≡ true → Accepted nonce t w0.db × Absent (state_key env service nonce) after)
                  (λ _ _. Unit {0})
                  db
                  r
              → Work
                  (λ b after.
                    b ≡ true
                    → (form_token env service nonce ≡ form)
                      × ((u : ℕ) × (env.clock w0.history ≡ aware u) × Accepted nonce u w0.db)
                      × Absent (state_key env service nonce) after)
                  (λ _ _. Unit {0})
                  db
                  r
          widen db t c (err x) h = tt
          widen db t c (ok (b, after)) h =
              λ k. ((bytes_eq_iff _ form).0 e, (t, c, (h k).0), (h k).1)

  -- When `consume` accepts, the form token is the one that belongs to the nonce, the nonce has a stored
  -- challenge, and the time that the clock reads is earlier than the challenge's expiry.
  pub consume_accepts :
      (w : World) (cookie_nonce presented : Text)
      → (consume env service cookie_nonce presented w).0 ≡ ok true
      → (form_token env service cookie_nonce ≡ presented)
        × ((t : ℕ) × (env.clock w.history ≡ aware t) × Accepted cookie_nonce t w.db)
  consume_accepts w nonce form h =
      let k = Ensures-ok (consume-Accepted nonce form w) w refl h refl in (k.0, k.1)

  -- A challenge that `consume` has accepted is not accepted again, with whatever form token, and
  -- whatever attempts to consume challenges are made in between.
  pub consumed_once :
      (attempts : List (Text × Text)) (w : World) (cookie_nonce presented again : Text)
      → (consume env service cookie_nonce presented w).0 ≡ ok true
      → (consume env service cookie_nonce again
          (attempt_all (consume env service cookie_nonce presented w).1 attempts)).0
        ≢ ok true
  consumed_once attempts w nonce form again h e =
      let first = (Ensures-ok (consume-Accepted nonce form w) w refl h refl).2 in
      let w' = attempt_all (consume env service nonce form w).1 attempts in
      let second = ((Ensures-ok (consume-Accepted nonce again w') w' refl e refl).1).2 in
      let absent =
        all-Absent (state_key env service nonce) attempts (consume env service nonce form w).1
          first in
      let found = second.found in none_some (sym absent ∙ found)
    where
      none_some : {s : SystemState} → none ≡ some s → ⊥
      none_some x = cc
