-- ===== src/Profiles/Coordinator/States.antt =====
-- The steps by which profiles/coordinator.py reads and changes the state of a profile, over
-- consistent tables.
use mathlib.Core.Option
use ez_open_pn.Prelude.{
  ℕ, ◌≡◌, refl, sym, ap, ◌∙◌, ◌≢◌, inl, inr, Option, some, List, [], ◌∷◌, Bytes, Text, bytes_eq_iff,
  bytes_eq_refl, arith,
}
use ez_open_pn.Errors.{Exn, Result, profile_revocation_failed}
use ez_open_pn.Models.{ProfileState, Profile, Database}
use ez_open_pn.World.{Env, World}
use ez_open_pn.Exec.Keeps.{
  Ensures, Ensures-bind, Ensures-session_scope, Ensures-attempt, Keeps, Work,
}
use ez_open_pn.Profiles.Types.{ProfileRecord}
use ez_open_pn.Profiles.Tables.Query.{get_row, row_of, update_profile}
use ez_open_pn.Profiles.Tables.Statements.{stamped, marked, set_state_row, set_runtime_error_row}
use ez_open_pn.Profiles.Tables.Rows.{find_profile, RowResult, row_of-RowResult}
use ez_open_pn.Profiles.Tables.Consistent.{IsConsistent, find-update}
use ez_open_pn.Profiles.Tables.Works.{
  state_of, SetState, set_state_row-SetState, set_state_row-IsConsistent,
  set_runtime_error_row-IsConsistent,
}
use ez_open_pn.Profiles.Repository
use ez_open_pn.Profiles.Repository.Rules.{
  Ensures-set_state, Ensures-set_runtime_error, get_row-GetResult,
}
use ez_open_pn.Profiles.Reconcile.Frame.{run-Keeps, Keeps-update_health, Keeps-pure}
use ez_open_pn.Profiles.Coordinator.{reconcile, reconcile_after_error}

pub find_profile-id :
    (id : Bytes) (ps : List Profile) (p : Profile) → find_profile id ps ≡ some p → p.id ≡ id
unfolding find_profile
find_profile-id id [] p h = cc
find_profile-id id (q ∷ ps) p h = ground (arith, bytes_eq_iff q.id id, find_profile-id id ps p)

-- Consistent tables in which the profile has the state.
pub record InState (id : Bytes) (s : ProfileState) (db : Database) : Type 0 where
  pub consistent : IsConsistent db
  pub state : state_of db id ≡ some s

-- The runtime identifier of a profile, if there is one.
abbrev pub runtime_of : Database → Bytes → Option Text
runtime_of db id = Option.map (λ (p : Profile). p.runtime_id) (find_profile id db.profiles)

-- The record of a profile, in consistent tables.
pub record Shows (id : Bytes) (r : ProfileRecord) (db : Database) : Type 0 where
  pub at : InState id r.state db
  pub profile_id : r.profile_id ≡ id
  pub runtime : runtime_of db id ≡ some r.runtime_id

-- An exception that says nothing of a revocation, and consistent tables.
pub record Plain (e : Exn) (db : Database) : Type 0 where
  pub consistent : IsConsistent db
  pub other : e ≢ profile_revocation_failed

module _ (env : Env) (id : Bytes) where
  pub get-Shows :
      Ensures
        (λ w. IsConsistent w.db)
        (Repository.get env id)
        (λ r w. Shows id r w.db)
        (λ e w. Plain e w.db)
  unfolding Repository.get
  get-Shows =
      Ensures-session_scope env IsConsistent (Shows id) Plain _ step
        (λ db c. record { consistent = c; other = λ e. cc })
    where
      step : (db : Database) → IsConsistent db → Work (Shows id) Plain db (get_row id db)
      step db c = elim (get_row-GetResult id db c) [
        | inl (absent, e) ↦ rw e (record { consistent = c; other = λ x. cc })
        | inr (p, d, found, _, e) ↦ rw e (record {
          at = record { consistent = c; state = rw found };
          profile_id = find_profile-id id db.profiles p found;
          runtime = rw found;
        })
      ]

  pub state_after :
      (f : Profile → Profile) (db : Database) {p : Profile}
      → ((q : Profile) → (f q).id ≡ q.id)
      → ((q : Profile) → (f q).runtime_id ≡ q.runtime_id)
      → find_profile id db.profiles ≡ some p
      → state_of (record db { profiles = update_profile id f db.profiles }) id ≡ some (f p).state
  state_after f db k l found = rw (find-update id f k l id db.profiles, bytes_eq_refl id, found)

  pub runtime_after :
      (f : Profile → Profile) (db : Database) {p : Profile}
      → ((q : Profile) → (f q).id ≡ q.id)
      → ((q : Profile) → (f q).runtime_id ≡ q.runtime_id)
      → find_profile id db.profiles ≡ some p
      → runtime_of (record db { profiles = update_profile id f db.profiles }) id
        ≡ some (f p).runtime_id
  runtime_after f db k l found = rw (find-update id f k l id db.profiles, bytes_eq_refl id, found)

  set_state-step :
      (s : ProfileState) (code : Option Text) (t : ℕ) (db : Database)
      → IsConsistent db
      → Work (λ r db'. Shows id r db' × (r.state ≡ s)) Plain db (set_state_row id s code t db)
  set_state-step s code t db c =
      go (set_state_row id s code t db) (set_state_row-IsConsistent id s code t db c)
        (set_state_row-SetState id s code t db c)
    where
      go :
          (r : Result (ProfileRecord × Database))
          → Work (λ _. IsConsistent) (λ _. IsConsistent) db r
          → SetState id s code t db r
          → Work (λ r' db'. Shows id r' db' × (r'.state ≡ s)) Plain db r
      go r k (inl (absent, e)) = rw e (record { consistent = c; other = λ x. cc })
      go r k (inr (p, found, inl (_, e))) = rw e (record { consistent = c; other = λ x. cc })
      go r k (inr (p, found, inr (d, _, e))) = rw e (
        record {
          at = record {
            consistent = rw e at k;
            state = state_after (stamped s code t) db (λ q. refl) (λ q. refl) found;
          };
          profile_id = find_profile-id id db.profiles p found;
          runtime = runtime_after (stamped s code t) db (λ q. refl) (λ q. refl) found;
        },
        refl,
      )

  -- A change of state that is accepted.
  pub set_state-Shows :
      (s : ProfileState) (code : Option Text)
      → Ensures
          (λ w. IsConsistent w.db)
          (Repository.set_state env id s code)
          (λ r w. Shows id r w.db × (r.state ≡ s))
          (λ e w. Plain e w.db)
  set_state-Shows s code =
      Ensures-set_state env IsConsistent (λ r db. Shows id r db × (r.state ≡ s)) Plain
        (λ db c. record { consistent = c; other = λ e. cc })
        (λ db c. record { consistent = c; other = λ e. cc }) id s code (set_state-step s code)

  runtime_error-step :
      (s : ProfileState) (code : Text) (t : ℕ) (db : Database)
      → InState id s db
      → Work
          (λ _. InState id s)
          (λ e db'. InState id s db' × (e ≢ profile_revocation_failed))
          db
          (set_runtime_error_row id code t db)
  unfolding set_runtime_error_row
  runtime_error-step s code t db h =
      go (row_of-RowResult id db h.consistent.ids h.consistent.looked_up)
        (set_runtime_error_row-IsConsistent id code t db h.consistent)
    where
      go :
          RowResult id db (row_of id db)
          → Work (λ _. IsConsistent) (λ _. IsConsistent) db (set_runtime_error_row id code t db)
          → Work
              (λ _. InState id s)
              (λ e db'. InState id s db' × (e ≢ profile_revocation_failed))
              db
              (set_runtime_error_row id code t db)
      go (inl (absent, e)) k = rw e (h, λ x. cc)
      go (inr (p, d, found, _, e)) k = rw e (record {
        consistent = rw e at k;
        state =
            state_after (marked code t) db (λ q. refl) (λ q. refl) found
            ∙ (sym (ap (Option.map (λ (q : Profile). q.state)) found) ∙ h.state);
      })

  -- A runtime error is noted and the state stays.
  pub set_runtime_error-InState :
      (s : ProfileState) (code : Text)
      → Ensures
          (λ w. InState id s w.db)
          (Repository.set_runtime_error env id code)
          (λ _ w. InState id s w.db)
          (λ e w. InState id s w.db × (e ≢ profile_revocation_failed))
  set_runtime_error-InState s code =
      Ensures-set_runtime_error env (InState id s) (λ _. InState id s)
        (λ e db. InState id s db × (e ≢ profile_revocation_failed)) (λ db h. (h, λ e. cc))
        (λ db h. (h, λ e. cc)) id code (runtime_error-step s code)

module _ (env : Env) (I : Database → Type 0) where
  pub reconcile-Keeps : Keeps (λ w. I w.db) (reconcile env)
  unfolding reconcile
  reconcile-Keeps =
      Ensures-bind _ _ (run-Keeps env I)
        λ r. Ensures-bind _ _ (Keeps-update_health env I r) λ _. Keeps-pure env I r

  pub reconcile_after_error-Ensures :
      {E : Exn → World → Type 0}
      → Ensures (λ w. I w.db) (reconcile_after_error env) (λ _ w. I w.db) E
  unfolding reconcile_after_error
  reconcile_after_error-Ensures =
      Ensures-bind _ _ (Ensures-attempt _ reconcile-Keeps) λ b. record { at = λ w h. h }
