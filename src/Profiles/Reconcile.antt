-- ===== src/Profiles/Reconcile.antt =====
-- profiles/reconcile.py: `RuntimeReconciler` and `RuntimeHealth`.
pub mod Frame
use ez_open_pn.Prelude.{
  Bool, true, false, not, Option, none, some, List, [], ◌∷◌, map, Bytes, Text, codes, bytes_eq,
  bytes_le, select, any, if◌then◌else◌,
}
use ez_open_pn.Errors.{Exn, Result, ok, err, ◌>>=◌, catch, value_error, key_error, crypto_error}
use ez_open_pn.Models.{active}
use ez_open_pn.World.{Env}
use ez_open_pn.Exec.{Exec, pure, lift, ◌>>◌, try_except, for_each}
use ez_open_pn.Exec
use ez_open_pn.Integrations.Xray.{add_user, remove_user, list_users, wait_ready}
use ez_open_pn.Integrations.Supervisor.{restart}
use ez_open_pn.Security.Secrets.{unwrap_profile_key, decrypt}
use ez_open_pn.Profiles.Types.{ProfileRecord, profile_value_context}
use ez_open_pn.Profiles.Tables.Query.{state_eq}
use ez_open_pn.Profiles.Links.{uuid_of, wrapped_of}
use ez_open_pn.Profiles.Repository
use ez_open_pn.Profiles.Runtime.{ReconcileResult}

-- `_RECONCILE_FAILED`.
abbrev pub reconcile_failed : Text
reconcile_failed = codes "runtime_reconcile_failed"

-- `RuntimeHealth.update`.
unfoldable pub update_health : ReconcileResult → Exec (Unit {0})
update_health result w = (
  ok tt,
  record w {
    health = record { ready = is_none result.error_code; error_code = result.error_code };
  },
)
  where
    is_none : Option Text → Bool
    is_none none = true
    is_none (some code) = false

-- The `try` of `_user_id`: an exception that the handler names becomes `unavailable`.
abbrev pub unavailable_material : {A : Type 0} → Exn → Exn → Result A
unavailable_material unavailable crypto_error = err unavailable
unavailable_material unavailable value_error = err unavailable
unavailable_material unavailable e = err e

-- A dictionary of users: a key is put once, a later value replaces an earlier one.
unfoldable pub dict_put : Text → Bytes → List (Text × Bytes) → List (Text × Bytes)
dict_put key value [] = (key, value) ∷ []
dict_put key value ((k, v) ∷ rest) =
    if bytes_eq k key then (k, value) ∷ rest else (k, v) ∷ dict_put key value rest

-- `desired[runtime_id]`.
unfoldable pub dict_get : Text → List (Text × Bytes) → Result Bytes
dict_get key [] = err key_error
dict_get key ((k, v) ∷ rest) = if bytes_eq k key then ok v else dict_get key rest

-- `sorted` of a set: no value twice, in the order of the code points.
unfoldable pub insert_sorted : Text → List Text → List Text
insert_sorted t [] = t ∷ []
insert_sorted t (s ∷ rest) =
    if bytes_eq t s
    then s ∷ rest
    else if bytes_le t s
    then t ∷ s ∷ rest
    else s ∷ insert_sorted t rest

unfoldable pub sorted_set : List Text → List Text
unfolding insert_sorted
sorted_set [] = []
sorted_set (t ∷ rest) = insert_sorted t (sorted_set rest)

-- `xs - ys` on sets.
unfoldable pub difference : List Text → List Text → List Text
difference xs ys = select (λ x. not (any (bytes_eq x) ys)) xs

unfoldable pub active_records : List ProfileRecord → List ProfileRecord
active_records = select (λ r. state_eq r.state active)

module _ (env : Env) where
  -- `_user_id`, which profiles/coordinator.py has too, with an exception of its own.
  unfoldable pub user_id : Exn → ProfileRecord → Result Bytes
  unfolding unwrap_profile_key decrypt profile_value_context
  user_id unavailable r = wrapped_of unavailable r.wrapped_profile_key >>= λ wrapped.
      catch
        (unwrap_profile_key env.crypto env.deployment.master_key r.profile_id wrapped >>= λ key.
          decrypt env.crypto key r.user_id_ciphertext
            (profile_value_context r.profile_id (codes "user-id"))
          >>= uuid_of)
        (unavailable_material unavailable)

  -- The dictionary comprehension over the active records.
  unfoldable pub desired_onto :
      List (Text × Bytes) → List ProfileRecord → Result (List (Text × Bytes))
  unfolding user_id dict_put
  desired_onto users [] = ok users
  desired_onto users (r ∷ rest) =
      user_id value_error r >>= λ value. desired_onto (dict_put r.runtime_id value users) rest

  -- `self._xray.add_user(runtime_id, desired[runtime_id])`.
  unfoldable pub add_desired : List (Text × Bytes) → Text → Exec (Unit {0})
  unfolding dict_get
  add_desired desired id = Exec.◌>>=◌ (lift (dict_get id desired)) (add_user env id)

  -- The runtime calls of `run`, once the sets are known.
  unfoldable pub apply_changes :
      List ProfileRecord → List (Text × Bytes) → List Text → List Text → Exec ReconcileResult
  unfolding add_desired
  apply_changes records desired missing [] =
      for_each missing (add_desired desired)
      >> pure (record { added = missing; removed = []; restarted = false; error_code = none })
  apply_changes records desired missing (x ∷ extra) =
      for_each (x ∷ extra) (remove_user env)
      >> restart env
      >> wait_ready env 6000000
      >> for_each records (λ r. add_desired desired r.runtime_id)
      >> pure (record { added = missing; removed = x ∷ extra; restarted = true; error_code = none })

  -- The `try` of `run`.
  unfoldable pub run_steps : Exec ReconcileResult
  unfolding active_records desired_onto sorted_set difference apply_changes
  run_steps = Exec.◌>>=◌ (Repository.list env) λ records.
      Exec.◌>>=◌ (lift (desired_onto [] (active_records records))) λ desired.
        Exec.◌>>=◌ (list_users env) λ current.
          apply_changes (active_records records) desired
            (sorted_set (difference (map (λ u. u.0) desired) current))
            (sorted_set (difference current (map (λ u. u.0) desired)))

  abbrev failed_result : ReconcileResult
  failed_result = record {
    added = [];
    removed = [];
    restarted = false;
    error_code = some reconcile_failed;
  }

  -- `RuntimeReconciler.run`.
  unfoldable pub run : Exec ReconcileResult
  unfolding run_steps
  run = try_except run_steps (λ _. pure failed_result)
