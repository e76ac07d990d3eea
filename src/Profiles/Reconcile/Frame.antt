-- ===== src/Profiles/Reconcile/Frame.antt =====
-- Neither reconciliation (profiles/reconcile.py) nor a runtime client changes the tables.
use ez_open_pn.Prelude.{ℕ, ◌≡◌, sym, subst, List, [], ◌∷◌, Bytes, Text}
use ez_open_pn.Errors.{Result, ok, err}
use ez_open_pn.Models.{Database}
use ez_open_pn.World.{Env, World}
use ez_open_pn.Exec.{Exec, pure, lift}
use ez_open_pn.Exec.Keeps.{
  Keeps, Ensures-bind, Ensures-try, Ensures-for_each, Ensures-session_scope, keeps_at, Ensures-by,
}
use ez_open_pn.Frames.{Same-refl, Quiet-wait_ready, Quiet-get_users}
use ez_open_pn.Effects.{add_user-Adds, remove_user-Removes, restart-Restarts}
use ez_open_pn.Integrations.Xray.{add_user, remove_user, wait_ready, list_users}
use ez_open_pn.Integrations.Supervisor.{restart}
use ez_open_pn.Profiles.Types.{ProfileRecord}
use ez_open_pn.Profiles.Repository
use ez_open_pn.Profiles.Runtime.{ReconcileResult}
use ez_open_pn.Profiles.Reconcile.{add_desired, apply_changes, run_steps, run, update_health}

module _ (env : Env) (I : Database → Type 0) where
  -- What the tables satisfy they satisfy after an action that leaves them alone.
  pub Keeps-frame :
      {A : Type 0} (m : Exec A) → ((w : World) → (m w).1.db ≡ w.db) → Keeps (λ w. I w.db) m
  Keeps-frame m f =
      Ensures-by m (λ w h _ _. subst I (sym (f w)) h) (λ w h _ _. subst I (sym (f w)) h)

  pub Keeps-add_user : (id : Text) (user : Bytes) → Keeps (λ w. I w.db) (add_user env id user)
  Keeps-add_user id user = Keeps-frame _ (λ w. (add_user-Adds env id w user).db)

  pub Keeps-remove_user : (id : Text) → Keeps (λ w. I w.db) (remove_user env id)
  Keeps-remove_user id = Keeps-frame _ (λ w. (remove_user-Removes env id w).db)

  pub Keeps-restart : Keeps (λ w. I w.db) (restart env)
  Keeps-restart = Keeps-frame _ (λ w. (restart-Restarts env w).db)

  pub Keeps-wait_ready : (t : ℕ) → Keeps (λ w. I w.db) (wait_ready env t)
  Keeps-wait_ready t = Keeps-frame _ (λ w. (keeps_at (Quiet-wait_ready env w t) w (Same-refl w)).db)

  pub Keeps-lift : {A : Type 0} (r : Result A) → Keeps (λ w. I w.db) (lift r)
  Keeps-lift (ok a) = record { at = λ w h. h }
  Keeps-lift (err e) = record { at = λ w h. h }

  pub Keeps-pure : {A : Type 0} (a : A) → Keeps (λ w. I w.db) (pure a)
  Keeps-pure a = record { at = λ w h. h }

  pub Keeps-list : Keeps (λ w. I w.db) (Repository.list env)
  unfolding Repository.list
  Keeps-list = Ensures-session_scope env I (λ _. I) (λ _. I) _ (λ db h. h) (λ db h. h)

  pub Keeps-list_users : Keeps (λ w. I w.db) (list_users env)
  unfolding list_users
  Keeps-list_users =
      Ensures-bind _ _
        (Keeps-frame _
          (λ w. (keeps_at (Quiet-get_users env w env.deployment.inbound_tag) w (Same-refl w)).db))
        (λ reply. Keeps-lift _)

  add_desired-Keeps :
      (desired : List (Text × Bytes)) (id : Text) → Keeps (λ w. I w.db) (add_desired env desired id)
  unfolding add_desired
  add_desired-Keeps desired id = Ensures-bind _ _ (Keeps-lift _) (λ user. Keeps-add_user id user)

  changes-Keeps :
      (records : List ProfileRecord) (desired : List (Text × Bytes)) (missing extra : List Text)
      → Keeps (λ w. I w.db) (apply_changes env records desired missing extra)
  unfolding apply_changes
  changes-Keeps records desired missing [] =
      Ensures-bind _ _ (Ensures-for_each missing _ (add_desired-Keeps desired)) (λ _. Keeps-pure _)
  changes-Keeps records desired missing (x ∷ extra) =
      Ensures-bind _ _
        (Ensures-bind _ _
          (Ensures-bind _ _
            (Ensures-bind _ _ (Ensures-for_each (x ∷ extra) _ Keeps-remove_user)
              (λ _. Keeps-restart))
            (λ _. Keeps-wait_ready _))
          (λ _. Ensures-for_each records _ (λ r. add_desired-Keeps desired r.runtime_id)))
        (λ _. Keeps-pure _)

  steps-Keeps : Keeps (λ w. I w.db) (run_steps env)
  unfolding run_steps
  steps-Keeps = Ensures-bind _ _ Keeps-list λ records.
      Ensures-bind _ _ (Keeps-lift _)
        λ desired. Ensures-bind _ _ Keeps-list_users λ current. changes-Keeps _ _ _ _

  pub run-Keeps : Keeps (λ w. I w.db) (run env)
  unfolding run
  run-Keeps = Ensures-try _ _ steps-Keeps (λ e. Keeps-pure _)

  pub Keeps-update_health : (r : ReconcileResult) → Keeps (λ w. I w.db) (update_health r)
  unfolding update_health
  Keeps-update_health r = record { at = λ w h. h }
