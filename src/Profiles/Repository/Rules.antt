-- ===== src/Profiles/Repository/Rules.antt =====
-- Rules for the methods of profiles/repository.py: what a unit of work promises of the tables, the
-- method promises of the world.
use ez_open_pn.Prelude.{
  ℕ, ◌≡◌, ◌⊎◌, inl, inr, Bool, true, false, not, Option, none, some, [], ◌∷◌, Bytes, Text,
  if◌then◌else◌,
}
use ez_open_pn.Errors.{
  Exn, Result, ok, err, operational_error, value_error, profile_not_found, integrity_error,
}
use ez_open_pn.Models.{ProfileState, Profile, Database, subscription}
use ez_open_pn.World.{Env, World, Datetime, aware, naive}
use ez_open_pn.Exec.{raise, lift, ◌>>=◌, session_scope, now, utc, new_uuid, database_time}
use ez_open_pn.Exec.Keeps.{Ensures, Ensures-bind, Ensures-session_scope, Ensures-try, Work}
use ez_open_pn.Profiles.Types.{ProfileRecord, NewProfileMaterial}
use ez_open_pn.Profiles.Tables.Query.{get_row, record_of, digests}
use ez_open_pn.Profiles.Tables.Statements.{set_state_row, set_runtime_error_row, insert_rows}
use ez_open_pn.Profiles.Tables.Rows.{find_profile, row_of-RowResult}
use ez_open_pn.Profiles.Tables.Consistent.{IsConsistent}
use ez_open_pn.Profiles.Tables.Works.{insert_rows-IsConsistent, delete_rows-IsConsistent}
use ez_open_pn.Profiles.Repository.{
  set_state, set_runtime_error, delete_local, insert_pending, is_error_code, conflict,
}

module _ (env : Env) (I : Database → Type 0) where
  pub Ensures-now : {E : Exn → World → Type 0} → Ensures (λ w. I w.db) (now env) (λ _ w. I w.db) E
  unfolding now
  Ensures-now = record { at = λ w h. h }

  pub Ensures-uuid :
      {E : Exn → World → Type 0} → Ensures (λ w. I w.db) (new_uuid env) (λ _ w. I w.db) E
  unfolding new_uuid
  Ensures-uuid = record { at = λ w h. h }

  pub Ensures-time :
      {E : Exn → World → Type 0} → Ensures (λ w. I w.db) (database_time env) (λ _ w. I w.db) E
  unfolding database_time
  Ensures-time = record { at = λ w h. h }

  pub Ensures-utc :
      (d : Datetime) (E : Exn → Database → Type 0)
      → ((db : Database) → I db → E value_error db)
      → Ensures (λ w. I w.db) (lift (utc d)) (λ _ w. I w.db) (λ e w. E e w.db)
  unfolding utc
  Ensures-utc (aware t) E f = record { at = λ w h. h }
  Ensures-utc (naive t) E f = record { at = λ w h. f w.db h }

module _ (env : Env) (I : Database → Type 0) {A : Type 0} (Q : A → Database → Type 0)
    (E : Exn → Database → Type 0) where
  -- The clock, and a unit of work that takes the time.
  pub Ensures-timed :
      (body : ℕ → Database → Result (A × Database))
      → ((t : ℕ) (db : Database) → I db → Work Q E db (body t db))
      → ((db : Database) → I db → E value_error db)
      → ((db : Database) → I db → E operational_error db)
      → Ensures
          (λ w. I w.db)
          (now env >>= λ d. lift (utc d) >>= λ t. session_scope env (body t))
          (λ a w. Q a w.db)
          (λ e w. E e w.db)
  Ensures-timed body step bad_clock fail = Ensures-bind _ _ (Ensures-now env I) λ d.
      Ensures-bind _ _ (Ensures-utc env I d E bad_clock)
        λ t. Ensures-session_scope env I Q E (body t) (step t) fail

module _ (env : Env) (I : Database → Type 0) (Q : ProfileRecord → Database → Type 0)
    (E : Exn → Database → Type 0) (bad_clock : (db : Database) → I db → E value_error db)
    (fail : (db : Database) → I db → E operational_error db) where
  pub Ensures-set_state :
      (id : Bytes) (s : ProfileState) (code : Option Text)
      → ((t : ℕ) (db : Database) → I db → Work Q E db (set_state_row id s code t db))
      → Ensures (λ w. I w.db) (set_state env id s code) (λ a w. Q a w.db) (λ e w. E e w.db)
  unfolding set_state
  Ensures-set_state id s code step =
      Ensures-timed env I Q E (set_state_row id s code) step bad_clock fail

  pub Ensures-set_runtime_error :
      (id : Bytes) (code : Text)
      → ((t : ℕ) (db : Database) → I db → Work Q E db (set_runtime_error_row id code t db))
      → Ensures (λ w. I w.db) (set_runtime_error env id code) (λ a w. Q a w.db) (λ e w. E e w.db)
  unfolding set_runtime_error
  Ensures-set_runtime_error id code step = go (not (is_error_code env.unicode.isalnum code))
    where
      go :
          (b : Bool)
          → Ensures
              (λ w. I w.db)
              (if b
                then raise value_error
                else (now env >>= λ d.
                    lift (utc d) >>= λ t. session_scope env (set_runtime_error_row id code t)))
              (λ a w. Q a w.db)
              (λ e w. E e w.db)
      go true = record { at = λ w h. bad_clock w.db h }
      go false = Ensures-timed env I Q E (set_runtime_error_row id code) step bad_clock fail

-- What `get` answers: the record of the profile, or one of two exceptions.
abbrev pub GetResult : Bytes → Database → Result (ProfileRecord × Database) → Type 0
GetResult id db r =
    ((find_profile id db.profiles ≡ none) × (r ≡ err profile_not_found))
    ⊎ ((p : Profile) × (d : Bytes) × (find_profile id db.profiles ≡ some p)
        × (digests subscription p.id db.profile_lookups ≡ d ∷ [])
        × (r ≡ ok (record_of p d, db)))

pub get_row-GetResult :
    (id : Bytes) (db : Database) → IsConsistent db → GetResult id db (get_row id db)
unfolding get_row
get_row-GetResult id db c = elim (row_of-RowResult id db c.ids c.looked_up) [
  | inl (absent, e) ↦ inl (absent, rw e)
  | inr (p, d, at, l, e) ↦ inr (p, d, at, l, rw e)
]

module _ (env : Env) where
  conflict-Keeps :
      {A : Type 0} (e : Exn) (I : Database → Type 0)
      → Ensures {A = A} (λ w. I w.db) (conflict e) (λ _ w. I w.db) (λ _ w. I w.db)
  conflict-Keeps integrity_error I = record { at = λ w h. h }
  conflict-Keeps _ I = record { at = λ w h. h }

  pub insert_pending-Keeps :
      (material : NewProfileMaterial)
      → Ensures
          (λ w. IsConsistent w.db)
          (insert_pending env material)
          (λ _ w. IsConsistent w.db)
          (λ _ w. IsConsistent w.db)
  unfolding insert_pending
  insert_pending-Keeps material = Ensures-bind _ _ (Ensures-uuid env IsConsistent) λ a.
      Ensures-bind _ _ (Ensures-uuid env IsConsistent) λ b.
        Ensures-bind _ _ (Ensures-time env IsConsistent) λ t.
          Ensures-try _ _
            (Ensures-session_scope env IsConsistent (λ _. IsConsistent) (λ _. IsConsistent) _
              (λ db c.
                kept db (insert_rows material a b t db)
                  (insert_rows-IsConsistent material a b t db c))
              (λ db c. c))
            (λ e. conflict-Keeps e IsConsistent)
    where
      kept :
          (db : Database) (r : Result (ProfileRecord × Database))
          → Work (λ _. IsConsistent) (λ e db'. (e ≡ integrity_error) × IsConsistent db') db r
          → Work (λ _. IsConsistent) (λ _. IsConsistent) db r
      kept db (ok a) h = h
      kept db (err e) h = h.1

  pub delete_local-Keeps :
      (id : Bytes)
      → Ensures
          (λ w. IsConsistent w.db)
          (delete_local env id)
          (λ _ w. IsConsistent w.db)
          (λ _ w. IsConsistent w.db)
  unfolding delete_local
  delete_local-Keeps id = Ensures-bind _ _ (Ensures-uuid env IsConsistent) λ event.
      Ensures-bind _ _ (Ensures-time env IsConsistent) λ t.
        Ensures-session_scope env IsConsistent (λ _. IsConsistent) (λ _. IsConsistent) _
          (λ db c. delete_rows-IsConsistent id event t db c) (λ db c. c)
