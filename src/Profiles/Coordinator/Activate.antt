-- ===== src/Profiles/Coordinator/Activate.antt =====
-- `create` and `enable` of profiles/coordinator.py: what a profile that was activated has.
use mathlib.Core.Option
use ez_open_pn.Prelude.{
  some_inj, ℕ, ◌≡◌, refl, sym, ap, ◌∙◌, subst, Bool, true, false, ◌||◌, not, Option, none, some,
  Bytes, Text, if◌then◌else◌, inl, inr,
}
use ez_open_pn.Errors.{Exn, ok, invalid_profile_transition}
use ez_open_pn.Models.{ProfileState, pending, active, disabled, error, Profile, Database}
use ez_open_pn.World.{Env, World}
use ez_open_pn.Exec.{Exec, pure, raise, lift, succeeded, try_except}
use ez_open_pn.Exec.Keeps.{
  Ensures, Ensures-bind, Ensures-weaken, Ensures-by, Ensures-ok, Ensures-try, keeps_at, Keeps, Work,
}
use ez_open_pn.Served.{must_serve}
use ez_open_pn.Frames.{SameUsers, SameUsers-session_scope, SameUsers-now, SameUsers-lift}
use ez_open_pn.Profiles.Types.{ProfileRecord, ProfileResult, LinkBundle}
use ez_open_pn.Profiles.Tables.Query.{state_eq}
use ez_open_pn.Profiles.Tables.Consistent.{IsConsistent}
use ez_open_pn.Profiles.Tables.Works.{state_of, SetState, set_state_row-SetState}
use ez_open_pn.Profiles.Tables.Statements.{stamped, set_state_row}
use ez_open_pn.Profiles.Repository.Rules.{Ensures-set_state}
use ez_open_pn.Profiles.Repository
use ez_open_pn.Profiles.Service.{result_of}
use ez_open_pn.Profiles.Links.{bundle_for_record}
use ez_open_pn.Profiles.Coordinator.{add_record, activate, roll_back, enable, enable_current}
use ez_open_pn.Profiles.Coordinator.Restore.{add_record-Adds}
use ez_open_pn.Profiles.Coordinator.States.{
  InState, Shows, runtime_of, runtime_after, get-Shows, set_state-Shows,
}

-- The profile with this runtime identifier, in consistent tables, is served.
pub record Serves (id : Bytes) (runtime : Text) (w : World) : Type 0 where
  pub consistent : IsConsistent w.db
  pub runtime_id : runtime_of w.db id ≡ some runtime
  pub served : must_serve runtime w.history ≡ true

-- What `activate` leaves when it returns.
pub record Activated (id : Bytes) (env : Env) (o : ProfileRecord × LinkBundle) (w : World)
    : Type 0 where
  pub shown : Shows id o.0 w.db
  pub state : o.0.state ≡ active
  pub served : must_serve o.0.runtime_id w.history ≡ true
  pub links : bundle_for_record env o.0 ≡ ok o.1

module _ (env : Env) (id : Bytes) where
  set_state-SameUsers :
      (s : ProfileState) (code : Option Text) (w : World)
      → Keeps (SameUsers w) (Repository.set_state env id s code)
  unfolding Repository.set_state
  set_state-SameUsers s code w =
      Ensures-bind _ _ (SameUsers-now env w)
        λ d. Ensures-bind _ _ (SameUsers-lift env w _) λ t. SameUsers-session_scope env w _

  add-Serves :
      (r : ProfileRecord)
      → Ensures
          (λ w. Shows id r w.db)
          (add_record env r)
          (λ _ w. Serves id r.runtime_id w)
          (λ _ _. Unit {0})
  add-Serves r =
      Ensures-by _
        (λ w h a e.
          let k = add_record-Adds env r w in
          record {
            consistent = subst IsConsistent (sym k.db) h.at.consistent;
            runtime_id = subst (λ db. runtime_of db id ≡ some r.runtime_id) (sym k.db) h.runtime;
            served = k.must_self (ap succeeded e);
          })
        (λ w h e _. tt)

  -- The change of state keeps the runtime identifier.
  set_state-runtime :
      (s : ProfileState) (code : Option Text) (runtime : Text)
      → Ensures
          (λ w. IsConsistent w.db × (runtime_of w.db id ≡ some runtime))
          (Repository.set_state env id s code)
          (λ _ w. runtime_of w.db id ≡ some runtime)
          (λ _ _. Unit {0})
  set_state-runtime s code runtime =
      Ensures-set_state env (λ db. IsConsistent db × (runtime_of db id ≡ some runtime))
        (λ _ db. runtime_of db id ≡ some runtime) (λ _ _. Unit {0}) (λ db h. tt) (λ db h. tt) id s
        code (λ t db h. step t db h.1 (set_state_row-SetState id s code t db h.0))
    where
      step :
          (t : ℕ) (db : Database)
          → runtime_of db id ≡ some runtime
          → SetState id s code t db (set_state_row id s code t db)
          → Work
              (λ _ db'. runtime_of db' id ≡ some runtime)
              (λ _ _. Unit {0})
              db
              (set_state_row id s code t db)
      step t db h (inl (_, e)) = rw e tt
      step t db h (inr (p, found, inl (_, e))) = rw e tt
      step t db h (inr (p, found, inr (d, _, e))) = rw e (
          runtime_after env id (stamped s code t) db (λ q. refl) (λ q. refl) found
          ∙ (sym (ap (Option.map (λ (q : Profile). q.runtime_id)) found) ∙ h))

  -- The change to `active` of a profile that is served.
  activate_state :
      (runtime : Text)
      → Ensures
          (Serves id runtime)
          (Repository.set_state env id active none)
          (λ a w. Shows id a w.db × (a.state ≡ active) × (must_serve a.runtime_id w.history ≡ true))
          (λ _ _. Unit {0})
  activate_state runtime =
      Ensures-by _
        (λ w h a e.
          let shown = Ensures-ok (set_state-Shows env id active none) w h.consistent e in
          let kept =
            Ensures-ok (set_state-runtime active none runtime) w (h.consistent, h.runtime_id) e in
          let users =
            keeps_at (set_state-SameUsers active none w) w
              (record { may = λ i j. refl; must = λ j. refl }) in
          let same : a.runtime_id ≡ runtime = some_inj (sym shown.0.runtime ∙ kept) in
          (shown.0, shown.1, rw same (users.must runtime ∙ h.served)))
        (λ w h e _. tt)

  links-Ensures :
      {P : World → Type 0} (a : ProfileRecord)
      → Ensures P
          (lift (bundle_for_record env a))
          (λ l w. P w × (bundle_for_record env a ≡ ok l))
          (λ _ _. Unit {0})
  links-Ensures a = Ensures-by _ (λ w h l e. (h, e)) (λ w h e _. tt)

  pub activate-Activated :
      (r : ProfileRecord)
      → Ensures (λ w. Shows id r w.db) (activate env r id) (Activated id env) (λ _ _. Unit {0})
  unfolding activate
  activate-Activated r = Ensures-bind _ _ (add-Serves r) λ _.
      Ensures-bind _ _ (activate_state r.runtime_id) λ a. Ensures-bind _ _ (links-Ensures a) λ l.
        record { at = λ w h. record { shown = h.0.0; state = h.0.1; served = h.0.2; links = h.1 } }

  -- The handler raises, so a value comes from `activate` itself.
  roll_back-raises :
      {A : Type 0} (r : ProfileRecord) (e : Exn)
      → Ensures {A = A} (λ _. Unit {0}) (roll_back env r id e) (λ _ _. ⊥) (λ _ _. Unit {0})
  unfolding roll_back
  roll_back-raises r e =
      Ensures-bind _ _ anything
        λ b. Ensures-bind _ _ anything λ _. Ensures-bind _ _ anything λ _. record { at = λ w h. tt }
    where
      anything :
          {A : Type 0} {m : Exec A} → Ensures (λ _. Unit {0}) m (λ _ _. Unit {0}) (λ _ _. Unit {0})
      anything {m} = Ensures-by m (λ w h a e. tt) (λ w h e p. tt)

  provisioned :
      (r : ProfileRecord) (e : Exn)
      → Ensures
          (λ w. Shows id r w.db)
          (try_except (activate env r id) (λ _. roll_back env r id e))
          (Activated id env)
          (λ _ _. Unit {0})
  provisioned r e =
      Ensures-try _ _ (activate-Activated r)
        λ x. Ensures-weaken _ (roll_back-raises r e) (λ w h. tt) (λ a w h. absurd h) (λ y w h. tt)

-- What `create` and `enable` promise of the profile that they return.
pub record Enabled (id : Bytes) (env : Env) (r : ProfileResult) (w : World) : Type 0 where
  pub at : InState id active w.db
  pub result_state : r.state ≡ active
  pub served : must_serve r.runtime_id w.history ≡ true
  pub runtime_id : runtime_of w.db id ≡ some r.runtime_id

module _ (env : Env) where
  Enabled-of :
      (id : Bytes) (token : Option Text) (o : ProfileRecord × LinkBundle) (w : World)
      → Activated id env o w
      → Enabled id env (result_of o.0 token (some o.1)) w
  Enabled-of id token o w h = record {
    at = record { consistent = h.shown.at.consistent; state = h.shown.at.state ∙ ap some h.state };
    result_state = h.state;
    served = h.served;
    runtime_id = h.shown.runtime;
  }

  enable_current-Enabled :
      (id : Bytes) (r : ProfileRecord)
      → Ensures (λ w. Shows id r w.db) (enable_current env id r) (Enabled id env) (λ _ _. Unit {0})
  unfolding enable_current
  enable_current-Enabled id r =
      Ensures-bind _ _ (provisioned env id r _) λ o. record { at = λ w h. Enabled-of id none o w h }

  enable-Enabled :
      (id : Bytes)
      → Ensures (λ w. IsConsistent w.db) (enable env id) (Enabled id env) (λ _ _. Unit {0})
  unfolding enable
  enable-Enabled id =
      Ensures-bind _ _ (Ensures-weaken _ (get-Shows env id) (λ w h. h) (λ r w h. h) (λ e w h. tt))
        λ found.
          Ensures-bind _ _ (current found (state_eq found.state error))
            λ r. allowed r (not (state_eq r.state pending || state_eq r.state disabled))
    where
      current :
          (found : ProfileRecord) (b : Bool)
          → Ensures
              (λ w. Shows id found w.db)
              (if b then Repository.set_state env id pending none else pure found)
              (λ r w. Shows id r w.db)
              (λ _ _. Unit {0})
      current found true =
          Ensures-weaken _ (set_state-Shows env id pending none) (λ w h. h.at.consistent)
            (λ r w h. h.0) (λ e w h. tt)
      current found false = record { at = λ w h. h }

      allowed :
          (r : ProfileRecord) (b : Bool)
          → Ensures
              (λ w. Shows id r w.db)
              (if b then raise invalid_profile_transition else enable_current env id r)
              (Enabled id env)
              (λ _ _. Unit {0})
      allowed r true = record { at = λ w h. tt }
      allowed r false = enable_current-Enabled id r

-- When `enable` returns, from consistent tables, the profile is active, the result says so, and Xray
-- serves the runtime identifier of the result, which is that of the profile.
pub enable_activates :
    (env : Env) (id : Bytes) (w : World) (r : ProfileResult)
    → IsConsistent w.db
    → (enable env id w).0 ≡ ok r
    → (state_of (enable env id w).1.db id ≡ some active)
      × (r.state ≡ active)
      × (runtime_of (enable env id w).1.db id ≡ some r.runtime_id)
      × (must_serve r.runtime_id (enable env id w).1.history ≡ true)
enable_activates env id w r c e =
    let k = Ensures-ok (enable-Enabled env id) w c e in
    (k.at.state, k.result_state, k.runtime_id, k.served)
