-- ===== src/Profiles/Coordinator/Invariant.antt =====
-- Every operation of profiles/coordinator.py keeps the tables consistent, whatever the outside answers.
use ez_open_pn.Prelude.{
  ℕ, Bool, true, false, not, ◌||◌, Option, none, some, List, [], ◌∷◌, Bytes, Text, if◌then◌else◌,
}
use ez_open_pn.Errors.{
  Exn, profile_revocation_failed, profile_not_found, invalid_profile_transition,
}
use ez_open_pn.Models.{ProfileState, pending, active, disabled, error}
use ez_open_pn.World.{Env, World}
use ez_open_pn.Exec.{Exec, pure, raise, new_nonce, token_bytes}
use ez_open_pn.Exec.Keeps.{
  Keeps, Ensures-bind, Ensures-try, Ensures-weaken, Ensures-attempt, Ensures-session_scope,
  keeps_at,
}
use ez_open_pn.Profiles.Types.{ProfileRecord}
use ez_open_pn.Profiles.Tables.Consistent.{IsConsistent}
use ez_open_pn.Profiles.Tables.Works.{set_runtime_error_row-IsConsistent}
use ez_open_pn.Profiles.Tables.Query.{state_eq}
use ez_open_pn.Profiles.Repository
use ez_open_pn.Profiles.Repository.Rules.{
  Ensures-uuid, Ensures-set_runtime_error, insert_pending-Keeps, delete_local-Keeps,
}
use ez_open_pn.Profiles.Reconcile.Frame.{Keeps-frame, Keeps-lift, Keeps-pure, Keeps-remove_user}
use ez_open_pn.Profiles.Service
use ez_open_pn.Profiles.Service.{random_exact, encrypt_profile_value}
use ez_open_pn.Profiles.Coordinator.{
  add_record, mark_current, mark_error, activate, roll_back, create, enable, enable_current,
  disable, delete, deletion_failed, reconcile,
}
use ez_open_pn.Profiles.Coordinator.States.{
  get-Shows, set_state-Shows, reconcile-Keeps, reconcile_after_error-Ensures,
}
use ez_open_pn.Profiles.Coordinator.Disable.{disable_lem}
use ez_open_pn.Profiles.Coordinator.Restore.{add_record-Adds}

abbrev KeepsTables : {A : Type 0} → Exec A → Type 0
KeepsTables m = Keeps (λ w. IsConsistent w.db) m

module _ (env : Env) where
  get-KeepsTables : (id : Bytes) → KeepsTables (Repository.get env id)
  get-KeepsTables id =
      Ensures-weaken _ (get-Shows env id) (λ w h. h) (λ r w h. h.at.consistent)
        (λ e w h. h.consistent)

  set_state-KeepsTables :
      (id : Bytes) (s : ProfileState) (code : Option Text)
      → KeepsTables (Repository.set_state env id s code)
  set_state-KeepsTables id s code =
      Ensures-weaken _ (set_state-Shows env id s code) (λ w h. h) (λ r w h. h.0.at.consistent)
        (λ e w h. h.consistent)

  bytes-KeepsTables : (n : ℕ) → KeepsTables (token_bytes env n)
  unfolding token_bytes
  bytes-KeepsTables n = record { at = λ w h. h }

  nonce-KeepsTables : KeepsTables (new_nonce env)
  unfolding new_nonce
  nonce-KeepsTables = record { at = λ w h. h }

  random-KeepsTables : (n : ℕ) → KeepsTables (random_exact env n)
  unfolding random_exact
  random-KeepsTables n = Ensures-bind _ _ (bytes-KeepsTables n) λ v. Keeps-lift env IsConsistent _

  encrypt-KeepsTables :
      (key value context : Bytes) → KeepsTables (encrypt_profile_value env key value context)
  unfolding encrypt_profile_value
  encrypt-KeepsTables key value context =
      Ensures-bind _ _ nonce-KeepsTables λ v. Keeps-lift env IsConsistent _

  service-KeepsTables : (name : Text) → KeepsTables (Service.create env name)
  unfolding Service.create
  service-KeepsTables name = Ensures-bind _ _ (Keeps-lift env IsConsistent _) λ normalized.
      Ensures-bind _ _ (Ensures-uuid env IsConsistent) λ id.
        Ensures-bind _ _ (Ensures-uuid env IsConsistent) λ user.
          Ensures-bind _ _ (random-KeepsTables 32) λ secret.
            Ensures-bind _ _ (random-KeepsTables 32) λ token.
              Ensures-bind _ _ (random-KeepsTables 17) λ runtime.
                Ensures-bind _ _ (bytes-KeepsTables 32) λ key.
                  Ensures-bind _ _ nonce-KeepsTables λ nonce.
                    Ensures-bind _ _ (Keeps-lift env IsConsistent _) λ wrapped.
                      Ensures-bind _ _ (encrypt-KeepsTables _ _ _) λ a.
                        Ensures-bind _ _ (encrypt-KeepsTables _ _ _) λ b.
                          Ensures-bind _ _ (encrypt-KeepsTables _ _ _) λ c.
                            Ensures-bind _ _ (Keeps-lift env IsConsistent _) λ value.
                              Ensures-bind _ _ (insert_pending-Keeps env _)
                                λ r. Keeps-pure env IsConsistent _

  add_record-KeepsTables : (r : ProfileRecord) → KeepsTables (add_record env r)
  add_record-KeepsTables r = Keeps-frame env IsConsistent _ (λ w. (add_record-Adds env r w).db)

  activate-KeepsTables : (r : ProfileRecord) (id : Bytes) → KeepsTables (activate env r id)
  unfolding activate
  activate-KeepsTables r id = Ensures-bind _ _ (add_record-KeepsTables r) λ _.
      Ensures-bind _ _ (set_state-KeepsTables id active none)
        λ a. Ensures-bind _ _ (Keeps-lift env IsConsistent _) λ links. Keeps-pure env IsConsistent _

  runtime_error-KeepsTables :
      (id : Bytes) (code : Text) → KeepsTables (Repository.set_runtime_error env id code)
  runtime_error-KeepsTables id code =
      Ensures-set_runtime_error env IsConsistent (λ _. IsConsistent) (λ _. IsConsistent) (λ db c. c)
        (λ db c. c) id code (λ t db c. set_runtime_error_row-IsConsistent id code t db c)

  mark_current-KeepsTables :
      (id : Bytes) (code : Text) (r : ProfileRecord) → KeepsTables (mark_current env id code r)
  unfolding mark_current
  mark_current-KeepsTables id code r = go (state_eq r.state disabled)
    where
      go :
          (b : Bool)
          → KeepsTables (
              if b
              then Repository.set_runtime_error env id code
              else Repository.set_state env id error (some code))
      go true = runtime_error-KeepsTables id code
      go false = set_state-KeepsTables id error (some code)

  mark_error-KeepsTables : (id : Bytes) (code : Text) → KeepsTables (mark_error env id code)
  unfolding mark_error
  mark_error-KeepsTables id code =
      Ensures-bind _ _
        (Ensures-attempt _
          (Ensures-bind _ _ (get-KeepsTables id) (mark_current-KeepsTables id code)))
        λ b. record { at = λ w h. h }

  roll_back-KeepsTables :
      {A : Type 0} (r : ProfileRecord) (id : Bytes) (e : Exn)
      → KeepsTables {A = A} (roll_back env r id e)
  unfolding roll_back
  roll_back-KeepsTables r id e =
      Ensures-bind _ _ (Ensures-attempt _ (Keeps-remove_user env IsConsistent r.runtime_id)) λ b.
        Ensures-bind _ _ (mark_error-KeepsTables id _) λ _.
          Ensures-bind _ _ (reconcile_after_error-Ensures env IsConsistent)
            λ _. record { at = λ w h. h }

  create-KeepsTables : (name : Text) → KeepsTables (create env name)
  unfolding create
  create-KeepsTables name = Ensures-bind _ _ (service-KeepsTables name) λ p.
      Ensures-bind _ _ (get-KeepsTables _) λ r.
        Ensures-bind _ _
          (Ensures-try _ _ (activate-KeepsTables r _) (λ e. roll_back-KeepsTables r _ _))
          λ a. Keeps-pure env IsConsistent _

  enable_current-KeepsTables :
      (id : Bytes) (r : ProfileRecord) → KeepsTables (enable_current env id r)
  unfolding enable_current
  enable_current-KeepsTables id r =
      Ensures-bind _ _
        (Ensures-try _ _ (activate-KeepsTables r id) (λ e. roll_back-KeepsTables r id _))
        λ a. Keeps-pure env IsConsistent _

  enable-KeepsTables : (id : Bytes) → KeepsTables (enable env id)
  unfolding enable
  enable-KeepsTables id = Ensures-bind _ _ (get-KeepsTables id) λ found.
      Ensures-bind _ _ (current found (state_eq found.state error))
        λ r. allowed r (not (state_eq r.state pending || state_eq r.state disabled))
    where
      current :
          (found : ProfileRecord) (b : Bool)
          → KeepsTables (if b then Repository.set_state env id pending none else pure found)
      current found true = set_state-KeepsTables id pending none
      current found false = Keeps-pure env IsConsistent found

      allowed :
          (r : ProfileRecord) (b : Bool)
          → KeepsTables (if b then raise invalid_profile_transition else enable_current env id r)
      allowed r true = record { at = λ w h. h }
      allowed r false = enable_current-KeepsTables id r

  disable-KeepsTables : (id : Bytes) → KeepsTables (disable env id)
  disable-KeepsTables id =
      Ensures-weaken _ (disable_lem env id) (λ w h. h) (λ r w h. h.at.consistent)
        (λ e w h. h.consistent)

  deletion_failed-KeepsTables : (id : Bytes) (e : Exn) → KeepsTables (deletion_failed env id e)
  unfolding deletion_failed
  deletion_failed-KeepsTables id profile_revocation_failed = record { at = λ w h. h }
  deletion_failed-KeepsTables id profile_not_found = record { at = λ w h. h }
  deletion_failed-KeepsTables id _ = Ensures-bind _ _ (mark_error-KeepsTables id _) λ _.
      Ensures-bind _ _ (reconcile_after_error-Ensures env IsConsistent)
        λ _. record { at = λ w h. h }

  checkpoint-KeepsTables : KeepsTables (Repository.checkpoint_wal env)
  unfolding Repository.checkpoint_wal
  checkpoint-KeepsTables =
      Ensures-session_scope env IsConsistent (λ _. IsConsistent) (λ _. IsConsistent) _ (λ db h. h)
        (λ db h. h)

  delete-KeepsTables : (id : Bytes) → KeepsTables (delete env id)
  unfolding delete
  delete-KeepsTables id =
      Ensures-try _ _
        (Ensures-bind _ _ (disable-KeepsTables id)
          λ _. Ensures-bind _ _ (delete_local-Keeps env id) λ _. checkpoint-KeepsTables)
        (deletion_failed-KeepsTables id)

-- The operations of the coordinator, and what one of them leaves.
pub data Operation : Type 0 where
  creates : Text → Operation
  enables disables deletes : Bytes → Operation
  reconciles : Operation

unfoldable pub perform : Env → World → Operation → World
perform env w (creates name) = (create env name w).1
perform env w (enables id) = (enable env id w).1
perform env w (disables id) = (disable env id w).1
perform env w (deletes id) = (delete env id w).1
perform env w reconciles = (reconcile env w).1

unfoldable pub perform_all : Env → World → List Operation → World
unfolding perform
perform_all env w [] = w
perform_all env w (o ∷ rest) = perform_all env (perform env w o) rest

perform-IsConsistent :
    (env : Env) (w : World) (o : Operation) → IsConsistent w.db → IsConsistent (perform env w o).db
unfolding perform
perform-IsConsistent env w (creates name) h = keeps_at (create-KeepsTables env name) w h
perform-IsConsistent env w (enables id) h = keeps_at (enable-KeepsTables env id) w h
perform-IsConsistent env w (disables id) h = keeps_at (disable-KeepsTables env id) w h
perform-IsConsistent env w (deletes id) h = keeps_at (delete-KeepsTables env id) w h
perform-IsConsistent env w reconciles h = keeps_at (reconcile-Keeps env IsConsistent) w h

-- From consistent tables every sequence of operations, whichever of them raise and whatever SQLite,
-- Xray, Hysteria and the supervisor answer, ends in consistent tables: identifiers, runtime
-- identifiers and digests are unique, each profile has exactly one lookup of each kind, each lookup
-- has its profile, and a profile has a time of disabling exactly if it is disabled.
pub perform_all-IsConsistent :
    (env : Env) (operations : List Operation) (w : World)
    → IsConsistent w.db
    → IsConsistent (perform_all env w operations).db
unfolding perform_all
perform_all-IsConsistent env [] w h = h
perform_all-IsConsistent env (o ∷ rest) w h =
    perform_all-IsConsistent env rest (perform env w o) (perform-IsConsistent env w o h)
