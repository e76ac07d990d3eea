-- ===== src/Web/Preauth/Challenges/Refines.antt =====
-- The table of web/preauth.py's challenges implements the map.
use ez_open_pn.Prelude.{
  ℕ, ◌≡◌, refl, sym, ap, ◌∙◌, Bool, true, false, ◌&&◌, not, Option, none, some, List, [], ◌∷◌, Text,
  bytes_eq, bytes_eq_iff, any, select, length_within, if◌then◌else◌, arith, Bool-cases, inl, inr,
}
use ez_open_pn.Errors.{Exn, Result, ok, err, integrity_error}
use ez_open_pn.Errors
use ez_open_pn.Models.{SystemState, Database}
use ez_open_pn.World.{Env}
use ez_open_pn.Web.Preauth.{
  is_stale, is_alive, state_of, delete_state, issue_rows, consume_rows, consume_state,
  PreAuthService,
}
use ez_open_pn.Web.Preauth.Challenges.{
  Challenges, kept, is_none, fresh, with_challenge, without, add, take_stored, take_out, Operation,
  issuing, consuming, answer, on_map, on_table, answers_of,
}

-- No key stands twice.
abbrev pub IsUnique : List SystemState → Type 0
IsUnique [] = Unit
IsUnique (s ∷ rest) = (state_of s.key rest ≡ none) × IsUnique rest

state_of-select :
    (p : SystemState → Bool) (key : Text) (rows : List SystemState)
    → IsUnique rows
    → state_of key (select p rows) ≡ kept p (state_of key rows)
unfolding state_of
state_of-select p key [] u = refl
state_of-select p key (s ∷ rest) u = elim (Bool-cases (bytes_eq s.key key)) [
  | inl e ↦ elim (Bool-cases (p s)) [
    | inl k ↦ rw (k, e, k) refl
    | inr k ↦
        rw (k, e, k)
          (state_of-select p key rest u.1
            ∙ ap (kept p) (ap (λ x. state_of x rest) (sym ((bytes_eq_iff s.key key).0 e)) ∙ u.0))
  ]
  | inr e ↦ elim (Bool-cases (p s)) [
    | inl k ↦ rw (k, e) (state_of-select p key rest u.1)
    | inr k ↦ rw (k, e) (state_of-select p key rest u.1)
  ]
]

select-IsUnique :
    (p : SystemState → Bool) (rows : List SystemState) → IsUnique rows → IsUnique (select p rows)
select-IsUnique p [] u = tt
select-IsUnique p (s ∷ rest) u = elim (Bool-cases (p s)) [
  | inl k ↦ rw k (state_of-select p s.key rest u.1 ∙ ap (kept p) u.0, select-IsUnique p rest u.1)
  | inr k ↦ rw k (select-IsUnique p rest u.1)
]

state_of-delete :
    (key other : Text) (rows : List SystemState)
    → state_of other (delete_state key rows)
      ≡ (if bytes_eq key other then none else state_of other rows)
unfolding state_of delete_state
state_of-delete key other [] = ground arith
state_of-delete key other (s ∷ rest) = ground (
  arith,
  state_of-delete key other rest,
  bytes_eq_iff s.key key,
  bytes_eq_iff s.key other,
  bytes_eq_iff key other,
)

any-state_of :
    (key : Text) (rows : List SystemState)
    → not (any (λ r. bytes_eq r.key key) rows) ≡ is_none (state_of key rows)
unfolding state_of
any-state_of key [] = refl
any-state_of key (s ∷ rest) = ground (arith, any-state_of key rest)

-- The map says what is found in the table.
pub record Represents (c : Challenges) (db : Database) : Type 0 where
  pub unique : IsUnique db.system_state
  pub same : (key : Text) → c key ≡ state_of key db.system_state

-- A unit of work on the map and the same one on the table.
Agree : {A : Type 0} → Result (A × Challenges) → Result (A × Database) → Type 0
Agree (ok (a, c)) (ok (b, db)) = (a ≡ b) × Represents c db
Agree (err e) (err x) = e ≡ x
Agree _ _ = ⊥

module _ (env : Env) (service : PreAuthService) (c : Challenges) (db : Database)
    (r : Represents c db) where
  issue_rows-Agree :
      (lifetime timestamp : ℕ) (s : SystemState)
      → Agree (add lifetime timestamp s c) (issue_rows lifetime timestamp s db)
  unfolding add issue_rows Agree state_of
  issue_rows-Agree lifetime timestamp s =
      let stays : SystemState → Bool = λ x. not (is_stale lifetime timestamp x) in
      let rest = select stays db.system_state in
      let left : (key : Text) → fresh lifetime timestamp c key ≡ state_of key rest = λ key.
        ap (kept stays) (r.same key) ∙ sym (state_of-select stays key db.system_state r.unique) in
      rw (left s.key, any-state_of s.key rest)
        (go rest left (select-IsUnique stays db.system_state r.unique) (state_of s.key rest) refl
          (length_within 1 128 s.key))
    where
      go :
          (rest : List SystemState)
          → ((key : Text) → fresh lifetime timestamp c key ≡ state_of key rest)
          → IsUnique rest
          → (o : Option SystemState) → state_of s.key rest ≡ o
          → (b : Bool)
          → Agree
              (if is_none o && b
                then ok (tt, with_challenge s (fresh lifetime timestamp c))
                else err integrity_error)
              (if is_none o && b
                then ok (tt, record db { system_state = s ∷ rest })
                else err integrity_error)
      go rest left u none e true = (
        refl,
        record {
          unique = (e, u);
          same = λ key. ap (λ x. if bytes_eq s.key key then some s else x) (left key);
        },
      )
      go rest left u none e false = refl
      go rest left u (some x) e b = refl

  consume_rows-Agree :
      (key : Text) (timestamp : ℕ)
      → Agree (take_out env key timestamp c) (consume_rows env service key timestamp db)
  unfolding take_out consume_rows Agree
  consume_rows-Agree key timestamp = rw (r.same key) (go (state_of key db.system_state))
    where
      removed :
          Represents (without key c) (record db { system_state = delete_state key db.system_state })
      removed = record {
        unique = select-IsUnique (λ s. not (bytes_eq s.key key)) db.system_state r.unique;
        same = λ other.
            ap (λ x. if bytes_eq key other then none else x) (r.same other)
            ∙ sym (state_of-delete key other db.system_state);
      }

      checked :
          (a : Result Bool)
          → Agree (Errors.◌>>=◌ a (λ alive. ok (alive, without key c))) (
              Errors.◌>>=◌ a (λ alive.
                ok (alive, record db { system_state = delete_state key db.system_state })))
      checked (ok b) = (refl, removed)
      checked (err e) = refl

      go :
          (o : Option SystemState)
          → Agree (take_stored env key timestamp c o) (consume_state env service key timestamp db o)
      go none = (refl, r)
      go (some s) = checked (is_alive env timestamp (env.texts.load_expiry s.value_json))

  answer-Agree :
      {A : Type 0} (f : A → Bool) (x : Result (A × Challenges)) (y : Result (A × Database))
      → Agree x y
      → ((answer f c x).0 ≡ (answer f db y).0) × Represents (answer f c x).1 (answer f db y).1
  unfolding Agree
  answer-Agree f (ok (a, c')) (ok (b, db')) h = (ap (λ z. ok (f z)) h.0, h.1)
  answer-Agree f (err e) (err x) h = (ap err h, r)
  answer-Agree f (ok (a, c')) (err x) h = absurd h
  answer-Agree f (err e) (ok (b, db')) h = absurd h

  step-Represents :
      (operation : Operation)
      → ((on_map env operation c).0 ≡ (on_table env service operation db).0)
        × Represents (on_map env operation c).1 (on_table env service operation db).1
  unfolding on_map on_table
  step-Represents (issuing lifetime timestamp s) =
      answer-Agree (λ u. true) _ _ (issue_rows-Agree lifetime timestamp s)
  step-Represents (consuming key timestamp) =
      answer-Agree (λ b. b) _ _ (consume_rows-Agree key timestamp)

module _ (env : Env) (service : PreAuthService) where
  -- The units of work of `issue` and `consume`, in any order, answer from the table what they answer
  -- from a map of one-time challenges by their keys, if the map says what is found in the table, in
  -- which no key stands twice.
  pub table_refines_map :
      (operations : List Operation) (c : Challenges) (db : Database)
      → Represents c db
      → answers_of (on_table env service) db operations ≡ answers_of (on_map env) c operations
  unfolding answers_of
  table_refines_map [] c db r = refl
  table_refines_map (operation ∷ rest) c db r =
      let k = step-Represents env service c db r operation in
      cc (k.0, table_refines_map rest _ _ k.1)
