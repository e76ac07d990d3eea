-- ===== src/Profiles/Coordinator/Restore.antt =====
-- The runtime calls of `disable` in profiles/coordinator.py: what Xray serves after the loop that
-- adds the active profiles again.
use ez_open_pn.Prelude.{
  ◌≡◌, refl, ◌∙◌, inl, inr, Bool, true, false, ◌&&◌, ◌||◌, not, List, [], ◌∷◌, Text, Bytes,
  bytes_eq, bytes_eq_iff, any, arith, Bool-cases,
}
use ez_open_pn.Errors.{Result, ok, err, profile_material_unavailable}
use ez_open_pn.Models.{active}
use ez_open_pn.World.{Env, World}
use ez_open_pn.Exec
use ez_open_pn.Integrations.Xray.{add_user}
use ez_open_pn.Exec.{Exec, ◌>>=◌, attempt, succeeded}
use ez_open_pn.Served.{may_serve, must_serve}
use ez_open_pn.Effects.{Adds, add_user-Adds, or_intro}
use ez_open_pn.Profiles.Types.{ProfileRecord}
use ez_open_pn.Profiles.Tables.Query.{state_eq}
use ez_open_pn.Profiles.Reconcile.{user_id}
use ez_open_pn.Profiles.Coordinator.{add_record, restore}

-- A record with this runtime identifier is active.
abbrev pub is_active : Text → List ProfileRecord → Bool
is_active id = any (λ r. state_eq r.state active && bytes_eq r.runtime_id id)

-- The loop `restore` went from `w` to `w'` with the result `r`: it adds no client but an active one,
-- and if no call failed, all of these are served.
pub record Restored (records : List ProfileRecord) (flag : Bool) (r : Result Bool) (w w' : World)
    : Type 0 where
  pub db : w'.db ≡ w.db
  pub may :
      (initial : Text → Bool) (j : Text)
      → may_serve initial j w'.history ≡ true
      → may_serve initial j w.history || is_active j records ≡ true
  pub kept : (j : Text) → must_serve j w.history ≡ true → must_serve j w'.history ≡ true
  pub complete : r ≡ ok false → flag ≡ false
  pub must : (j : Text) → r ≡ ok false → is_active j records ≡ true → must_serve j w'.history ≡ true

-- One active record, and the rest.
module _ (r : ProfileRecord) (rest : List ProfileRecord) (flag b : Bool) (o : Result Bool)
    (w v u : World) (e : state_eq r.state active ≡ true) (a : Adds r.runtime_id b w v)
    (k : Restored rest (flag || not b) o v u) where
  may_cons :
      (initial : Text → Bool) (j : Text)
      → may_serve initial j u.history ≡ true
      → may_serve initial j w.history || is_active j (r ∷ rest) ≡ true
  may_cons i j h = ground (arith, k.may i j h, a.may i j)

  complete_cons : o ≡ ok false → (flag ≡ false) × (b ≡ true)
  complete_cons h = ground (arith, k.complete h)

  must_cons :
      (j : Text) → o ≡ ok false → is_active j (r ∷ rest) ≡ true → must_serve j u.history ≡ true
  must_cons j h active_j = elim (Bool-cases (bytes_eq r.runtime_id j)) [
    | inl same ↦
        k.kept j (rw (← ((bytes_eq_iff r.runtime_id j).0 same)) (a.must_self (complete_cons h).1))
    | inr other ↦ k.must j h (ground arith)
  ]

  Restored-cons : Restored (r ∷ rest) flag o w u
  Restored-cons = record {
    db = k.db ∙ a.db;
    may = may_cons;
    kept = λ j h. k.kept j (a.must j h);
    complete = λ h. (complete_cons h).0;
    must = must_cons;
  }

module _ (env : Env) where
  add_with : ProfileRecord → Result Bytes → Exec (Unit {0})
  add_with r u = Exec.lift u >>= add_user env r.runtime_id

  add_with-Adds :
      (r : ProfileRecord) (u : Result Bytes) (w : World)
      → Adds r.runtime_id (succeeded (add_with r u w).0) w (add_with r u w).1
  unfolding add_with ◌>>=◌
  add_with-Adds r (ok id) w = add_user-Adds env r.runtime_id w id
  add_with-Adds r (err e) w = record {
    db = refl;
    may = λ i j h. or_intro _ _ h;
    must = λ j h. h;
    must_self = λ h. cc;
  }

  pub add_record-Adds :
      (r : ProfileRecord) (w : World)
      → Adds r.runtime_id (succeeded (add_record env r w).0) w (add_record env r w).1
  unfolding add_record add_with
  add_record-Adds r w = add_with-Adds r (user_id env profile_material_unavailable r) w

  pub restore-Restored :
      (records : List ProfileRecord) (flag : Bool) (w : World)
      → Restored records flag (restore env records flag w).0 w (restore env records flag w).1
  unfolding restore attempt ◌>>=◌
  restore-Restored [] flag w = record {
    db = refl;
    may = λ i j h. rw h;
    kept = λ j h. h;
    complete = λ h. cc;
    must = λ j h a. cc;
  }
  restore-Restored (r ∷ rest) flag w = elim (Bool-cases (state_eq r.state active)) [
    | inl e ↦ rw e (
        Restored-cons r rest flag _ _ w _ _ e (add_record-Adds r w) (
          restore-Restored rest (flag || not (succeeded (add_record env r w).0))
            (add_record env r w).1))
    | inr e ↦ rw e (inactive e (restore-Restored rest flag w))
  ]
    where
      inactive :
          {o : Result Bool} {u : World}
          → state_eq r.state active ≡ false
          → Restored rest flag o w u
          → Restored (r ∷ rest) flag o w u
      inactive e k = record {
        db = k.db;
        may = λ i j h. rw e (k.may i j h);
        kept = k.kept;
        complete = k.complete;
        must = λ j h a. k.must j h (rw e at a);
      }
