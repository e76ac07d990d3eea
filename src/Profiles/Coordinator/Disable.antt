-- ===== src/Profiles/Coordinator/Disable.antt =====
-- `disable` of profiles/coordinator.py, whatever the database and the runtime answer.
use ez_open_pn.Prelude.{
  some_inj, ◌≡◌, refl, sym, ap, ◌∙◌, subst, Bool, true, false, none, some, Bytes, if◌then◌else◌,
}
use ez_open_pn.Errors
use ez_open_pn.Errors.{Exn, Result, ok, err, profile_revocation_failed}
use ez_open_pn.Models.{pending, disabled, error, Profile, Database}
use ez_open_pn.World.{Env, World}
use ez_open_pn.Exec.{Exec, ◌>>=◌, pure}
use ez_open_pn.Exec.Keeps.{
  Ensures, Ensures-bind, Ensures-weaken, Ensures-by, Ensures-ok, Ensures-err, keeps_at, Work,
}
use ez_open_pn.Frames.{Same, Same-refl, Quiet-read}
use ez_open_pn.Profiles.Types.{ProfileRecord, ProfileResult}
use ez_open_pn.Profiles.Tables.Query.{state_eq, get_row, row_of, record_of, list_rows}
use ez_open_pn.Profiles.Tables.Consistent.{IsConsistent}
use ez_open_pn.Profiles.Tables.Works.{state_of}
use ez_open_pn.Profiles.Repository
use ez_open_pn.Profiles.Service.{result_of}
use ez_open_pn.Profiles.Coordinator.{prepare_disabled, revoke, report_incomplete, disable}
use ez_open_pn.Profiles.Coordinator.Restore.{is_active}
use ez_open_pn.Profiles.Coordinator.Revoke.{Exact, revoke-Revoked}
use ez_open_pn.Profiles.Coordinator.States.{
  InState, Shows, Plain, get-Shows, set_state-Shows, set_runtime_error-InState,
  reconcile_after_error-Ensures,
}

-- A world that differs in what is not observed serves the same clients.
Exact-Same : {w v : World} → Same w v → Exact w → Exact v
Exact-Same {w} {v} s x = record {
  only_active = λ i j h.
      subst (λ db. is_active j (list_rows db) ≡ true) (sym s.db)
        (x.only_active i j (sym (s.may i j) ∙ h));
  every_active =
      λ j h. s.must j ∙ x.every_active j (subst (λ db. is_active j (list_rows db) ≡ true) s.db h);
}

-- What a failure of `disable` leaves: if it is reported as a revocation, the profile is disabled.
pub record Failed (id : Bytes) (e : Exn) (w : World) : Type 0 where
  pub consistent : IsConsistent w.db
  pub closed : e ≡ profile_revocation_failed → state_of w.db id ≡ some disabled

-- What a success leaves.
pub record Disabled (id : Bytes) (r : ProfileResult) (w : World) : Type 0 where
  pub at : InState id disabled w.db
  pub result_state : r.state ≡ disabled
  pub exact : Exact w

module _ (env : Env) (id : Bytes) where
  pub prepare-Shows :
      Ensures
        (λ w. IsConsistent w.db)
        (prepare_disabled env id)
        (λ r w. Shows id r w.db × (r.state ≡ disabled))
        (λ e w. Plain e w.db)
  unfolding prepare_disabled
  prepare-Shows =
      Ensures-bind _ _ (get-Shows env id)
        λ found. Ensures-bind _ _ (current found (state_eq found.state pending)) λ r. again r
    where
      current :
          (found : ProfileRecord) (b : Bool)
          → Ensures
              (λ w. Shows id found w.db)
              (if b then Repository.set_state env id error none else pure found)
              (λ r w. Shows id r w.db)
              (λ e w. Plain e w.db)
      current found true =
          Ensures-weaken _ (set_state-Shows env id error none) (λ w h. h.at.consistent)
            (λ r w h. h.0) (λ e w h. h)
      current found false = record { at = λ w h. h }

      again :
          (r : ProfileRecord)
          → Ensures
              (λ w. Shows id r w.db)
              (Repository.set_state env r.profile_id disabled none)
              (λ q w. Shows id q w.db × (q.state ≡ disabled))
              (λ e w. Plain e w.db)
      again r = record {
        at = λ w h. rw h.profile_id ((set_state-Shows env id disabled none).at w h.at.consistent);
      }

  report-Failed :
      {A : Type 0}
      → Ensures
          (λ w. InState id disabled w.db)
          (report_incomplete env {A = A} id)
          (λ _ _. ⊥)
          (Failed id)
  unfolding report_incomplete
  report-Failed =
      Ensures-bind _ _
        (Ensures-weaken _ (set_runtime_error-InState env id disabled _) (λ w h. h) (λ _ w h. h)
          (λ e w h. record { consistent = h.0.consistent; closed = λ _. h.0.state }))
        λ _.
          Ensures-bind _ _ (reconcile_after_error-Ensures env (InState id disabled))
            λ _. record { at = λ w h. record { consistent = h.consistent; closed = λ _. h.state } }

  revoke-Exact :
      (r : ProfileRecord)
      → Ensures
          (λ w. InState id disabled w.db)
          (revoke env r)
          (λ incomplete w. InState id disabled w.db × (incomplete ≡ false → Exact w))
          (λ _ w. InState id disabled w.db)
  revoke-Exact r =
      Ensures-by _
        (λ w h b e.
          let k = revoke-Revoked env r w in
          (subst (InState id disabled) (sym k.db) h, λ complete. k.exact (e ∙ ap ok complete)))
        (λ w h _ _. subst (InState id disabled) (sym (revoke-Revoked env r w).db) h)

  row_read :
      (db : Database) (r : Result (Profile × Bytes))
      → Work
          (λ _ db'. db' ≡ db)
          (λ _ _. Unit {0})
          db
          (Errors.◌>>=◌ r (λ row. ok (record_of row.0 row.1, db)))
  row_read db (ok row) = refl
  row_read db (err e) = tt

  -- Reading a profile changes nothing that is observed.
  pub get-Same : (w : World) → Same w (Repository.get env id w).1
  unfolding Repository.get get_row
  get-Same w = keeps_at (Quiet-read env w _ (λ db. row_read db (row_of id db))) w (Same-refl w)

  final-Disabled :
      Ensures
        (λ w. InState id disabled w.db × Exact w)
        (Repository.get env id)
        (λ r w. InState id disabled w.db × Exact w × (r.state ≡ disabled))
        (λ e w. Failed id e w)
  final-Disabled =
      Ensures-by _
        (λ w h r e.
          let s = get-Same w in
          let shown = Ensures-ok (get-Shows env id) w h.0.consistent e in
          (
            subst (InState id disabled) (sym s.db) h.0,
            Exact-Same s h.1,
            some_inj (sym shown.at.state ∙ (ap (λ db. state_of db id) s.db ∙ h.0.state)),
          ))
        (λ w h e p.
          let k = Ensures-err (get-Shows env id) w h.0.consistent p in
          record { consistent = k.consistent; closed = λ q. absurd (k.other q) })

  finish : Bool → ProfileRecord → Exec ProfileResult
  finish incomplete r =
      if incomplete
      then report_incomplete env r.profile_id
      else Repository.get env r.profile_id >>= λ final. pure (result_of final none none)

  finish-Ensures :
      (incomplete : Bool) (r : ProfileRecord)
      → r.profile_id ≡ id
      → Ensures
          (λ w. InState id disabled w.db × (incomplete ≡ false → Exact w))
          (finish incomplete r)
          (Disabled id)
          (Failed id)
  unfolding finish
  finish-Ensures true r same =
      rw same (Ensures-weaken _ report-Failed (λ w h. h.0) (λ _ w h. absurd h) (λ e w h. h))
  finish-Ensures false r same = rw same (
      Ensures-bind _ _
        (Ensures-weaken _ final-Disabled (λ w h. (h.0, h.1 refl)) (λ r w h. h) (λ e w h. h))
        λ q. record { at = λ w h. record { at = h.0; result_state = h.2; exact = h.1 } })

  revoked_then : ProfileRecord → Exec ProfileResult
  revoked_then r = revoke env r >>= λ incomplete. finish incomplete r

  revoked_then-Ensures :
      (r : ProfileRecord)
      → Ensures
          (λ w. Shows id r w.db × (r.state ≡ disabled))
          (revoked_then r)
          (Disabled id)
          (Failed id)
  unfolding revoked_then
  revoked_then-Ensures r = record {
    at = λ w h.
        (Ensures-bind _ _ (revoke-weak r) (λ b. finish-Ensures b r h.0.profile_id)).at w
          (record { consistent = h.0.at.consistent; state = h.0.at.state ∙ ap some h.1 });
  }
    where
      revoke-weak :
          (r : ProfileRecord)
          → Ensures
              (λ w. InState id disabled w.db)
              (revoke env r)
              (λ incomplete w. InState id disabled w.db × (incomplete ≡ false → Exact w))
              (Failed id)
      revoke-weak r =
          Ensures-weaken _ (revoke-Exact r) (λ w h. h) (λ b w h. h)
            (λ e w h. record { consistent = h.consistent; closed = λ _. h.state })

  -- `disable` from consistent tables, whatever SQLite, Xray, Hysteria and the supervisor answer. If it
  -- returns, the profile is disabled, the result says so, and Xray serves exactly the active profiles;
  -- if it raises `ProfileRevocationFailed`, the profile is disabled all the same. The tables stay
  -- consistent in every case.
  pub disable_lem : Ensures (λ w. IsConsistent w.db) (disable env id) (Disabled id) (Failed id)
  unfolding disable revoked_then finish
  disable_lem =
      Ensures-bind _ _
        (Ensures-weaken _ prepare-Shows (λ w h. h) (λ r w h. h)
          (λ e w h. record { consistent = h.consistent; closed = λ q. absurd (h.other q) }))
        revoked_then-Ensures
