-- ===== src/Profiles/Coordinator/Revoke.antt =====
-- `revoke`, the runtime calls of `disable` in profiles/coordinator.py: kick, remove, restart, wait,
-- and the loop that adds the active profiles again.
use ez_open_pn.Prelude.{
  ◌≡◌, ◌∙◌, ◌⊎◌, inl, inr, Bool, true, false, ◌||◌, not, Text, arith, Bool-cases,
}
use ez_open_pn.Errors.{Result, ok, err, operational_error}
use ez_open_pn.World.{Env, World, transaction}
use ez_open_pn.Exec.{◌>>=◌, attempt, succeeded, session_scope, record_event}
use ez_open_pn.Exec.Keeps.{keeps_at}
use ez_open_pn.Served.{may_serve, must_serve}
use ez_open_pn.Frames.{Same, Same-refl, Quiet-wait_ready}
use ez_open_pn.Effects.{Removes, remove_user-Removes, kick-Same, Restarts, restart-Restarts}
use ez_open_pn.Integrations.Xray.{remove_user, wait_ready}
use ez_open_pn.Integrations.Hysteria.{kick}
use ez_open_pn.Integrations.Supervisor.{restart}
use ez_open_pn.Profiles.Types.{ProfileRecord}
use ez_open_pn.Profiles.Tables.Query.{list_rows}
use ez_open_pn.Profiles.Repository
use ez_open_pn.Profiles.Coordinator.{revoke}
use ez_open_pn.Profiles.Coordinator.Restore.{is_active, Restored, restore-Restored}

-- Xray serves exactly the active profiles of the tables.
pub record Exact (w : World) : Type 0 where
  pub only_active :
      (initial : Text → Bool) (j : Text)
      → may_serve initial j w.history ≡ true
      → is_active j (list_rows w.db) ≡ true
  pub every_active :
      (j : Text) → is_active j (list_rows w.db) ≡ true → must_serve j w.history ≡ true

pub record Revoked (o : Result Bool) (w w' : World) : Type 0 where
  pub db : w'.db ≡ w.db
  pub exact : o ≡ ok false → Exact w'

module _ (env : Env) where
  pub list-cases :
      (w : World)
      → (Repository.list env w ≡ (err operational_error, record_event w (transaction false)))
        ⊎ (Repository.list env w ≡ (ok (list_rows w.db), record_event w (transaction true)))
  unfolding Repository.list session_scope
  list-cases w = elim (Bool-cases (env.completes w.history)) [
    | inl e ↦ inr (rw e)
    | inr e ↦ inl (rw e)
  ]

-- The worlds between the calls.
module _ (a b c d : World) (kicked removed restarted ready : Bool) (id : Text) (ab : Same a b)
    (bc : Removes id removed b c) (restarts : Restarts restarted c d) where
  none_left :
      (u v : World) (o : Result Bool)
      → Same d u
      → Restored
          (list_rows u.db)
          (not kicked || (not removed || (not restarted || not ready)))
          o
          (record_event u (transaction true))
          v
      → Revoked o a v
  unfolding may_serve must_serve
  none_left u v o du k = record {
    db = k.db ∙ (du.db ∙ (restarts.db ∙ (bc.db ∙ ab.db)));
    exact = λ h. record {
      only_active = λ i j m.
          let empty : may_serve i j u.history ≡ false =
            du.may i j ∙ restarts.empty i j (ground (arith, k.complete h)) in
          rw (k.db) (ground (arith, k.may i j m));
      every_active = λ j m. k.must j h (rw (k.db) at m);
    };
  }

module _ (env : Env) where
  pub revoke-Revoked :
      (r : ProfileRecord) (w : World) → Revoked (revoke env r w).0 w (revoke env r w).1
  unfolding revoke attempt ◌>>=◌
  revoke-Revoked r w = elim (list-cases env w4) [
    | inl e ↦ rw e (record { db = s.db ∙ (rs.db ∙ (rm.db ∙ k.db)); exact = λ h. cc })
    | inr e ↦ rw e (
        none_left w w1 w2 w3 _ _ _ _ r.runtime_id k rm rs w4 _ _ s
          (restore-Restored env (list_rows w4.db) _ (record_event w4 (transaction true))))
  ]
    where
      w1 : World
      w1 = (kick env r.runtime_id w).1

      w2 : World
      w2 = (remove_user env r.runtime_id w1).1

      w3 : World
      w3 = (restart env w2).1

      w4 : World
      w4 = (wait_ready env 6000000 w3).1

      k : Same w w1
      k = kick-Same env r.runtime_id w

      rm : Removes r.runtime_id (succeeded (remove_user env r.runtime_id w1).0) w1 w2
      rm = remove_user-Removes env r.runtime_id w1

      rs : Restarts (succeeded (restart env w2).0) w2 w3
      rs = restart-Restarts env w2

      s : Same w3 w4
      s = keeps_at (Quiet-wait_ready env w3 6000000) w3 (Same-refl w3)
