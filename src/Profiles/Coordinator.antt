-- ===== src/Profiles/Coordinator.antt =====
-- profiles/coordinator.py: `ProfileCoordinator`, with the reconciler and the health that
-- web/app.py `create_runtime_app` gives it. `_serialized` runs one operation at a time.
pub mod Restore
pub mod Revoke
pub mod States
pub mod Disable
pub mod Invariant
pub mod Activate
pub mod Promises
pub mod Delete
use ez_open_pn.Prelude.{
  Bool, not, ◌||◌, none, some, List, [], ◌∷◌, Bytes, Text, codes, if◌then◌else◌,
}
use ez_open_pn.Errors.{
  Exn, profile_not_found, invalid_profile_transition, profile_provisioning_failed,
  profile_revocation_failed, profile_enable_failed, profile_delete_failed,
  profile_material_unavailable,
}
use ez_open_pn.Models.{pending, active, disabled, error}
use ez_open_pn.World.{Env}
use ez_open_pn.Exec.{Exec, pure, raise, lift, ◌>>=◌, ◌>>◌, try_except, attempt}
use ez_open_pn.Integrations.Xray.{add_user, remove_user, wait_ready}
use ez_open_pn.Integrations.Hysteria.{kick}
use ez_open_pn.Integrations.Supervisor.{restart}
use ez_open_pn.Profiles.Types.{LinkBundle, ProfileRecord, ProfileResult}
use ez_open_pn.Profiles.Tables.Query.{state_eq}
use ez_open_pn.Profiles.Repository
use ez_open_pn.Profiles.Service
use ez_open_pn.Profiles.Service.{result_of}
use ez_open_pn.Profiles.Links.{bundle_for_record}
use ez_open_pn.Profiles.Reconcile.{user_id, run, update_health}
use ez_open_pn.Profiles.Runtime.{ReconcileResult}

abbrev pub xray_add_failed : Text
xray_add_failed = codes "xray_add_failed"

abbrev pub runtime_revoke_incomplete : Text
runtime_revoke_incomplete = codes "runtime_revoke_incomplete"

abbrev pub profile_material_invalid : Text
profile_material_invalid = codes "profile_material_invalid"

module _ (env : Env) where
  -- `self._xray.add_user(record.runtime_id, self._user_id(record))`.
  unfoldable pub add_record : ProfileRecord → Exec (Unit {0})
  add_record r = do
    id ← lift (user_id env profile_material_unavailable r)
    add_user env r.runtime_id id

  -- `reconcile`.
  unfoldable pub reconcile : Exec ReconcileResult
  reconcile = do result ← run env; update_health result; pure result

  -- The `try` of `_mark_error`.
  unfoldable pub mark_current : Bytes → Text → ProfileRecord → Exec ProfileRecord
  mark_current profile_id code current =
      if state_eq current.state disabled
      then Repository.set_runtime_error env profile_id code
      else Repository.set_state env profile_id error (some code)

  -- `_mark_error` and `_reconcile_after_error`, which let no exception out.
  unfoldable pub mark_error : Bytes → Text → Exec (Unit {0})
  unfolding mark_current
  mark_error profile_id code =
      attempt (Repository.get env profile_id >>= mark_current profile_id code) >> pure tt

  unfoldable pub reconcile_after_error : Exec (Unit {0})
  unfolding reconcile
  reconcile_after_error = attempt reconcile >> pure tt

  -- The `try` that `create` and `enable` share: the user is added, then the state, then the links.
  unfoldable pub activate : ProfileRecord → Bytes → Exec (ProfileRecord × LinkBundle)
  unfolding add_record
  activate r profile_id = do
    add_record r
    activated ← Repository.set_state env profile_id active none
    links ← lift (bundle_for_record env activated)
    pure (activated, links)

  -- Its `except Exception`, which raises `failure` in the end.
  unfoldable pub roll_back : {A : Type 0} → ProfileRecord → Bytes → Exn → Exec A
  unfolding mark_error reconcile_after_error
  roll_back r profile_id failure = do
    attempt (remove_user env r.runtime_id)
    mark_error profile_id xray_add_failed
    reconcile_after_error
    raise failure

  unfoldable pub create : Text → Exec ProfileResult
  unfolding activate roll_back
  create name = do
    pending_result ← Service.create env name
    r ← Repository.get env pending_result.profile_id
    provisioned ←
        try_except (activate r r.profile_id)
          (λ _. roll_back r r.profile_id profile_provisioning_failed)
    pure (result_of provisioned.0 pending_result.subscription_token (some provisioned.1))

  -- `_prepare_disabled`.
  unfoldable pub prepare_disabled : Bytes → Exec ProfileRecord
  prepare_disabled profile_id = do
    found ← Repository.get env profile_id
    current ←
        if state_eq found.state pending
        then Repository.set_state env profile_id error none
        else pure found
    Repository.set_state env current.profile_id disabled none

  -- The loop of `disable` over the records: each active one is added again. The result tells
  -- whether a call has failed, here or before.
  unfoldable pub restore : List ProfileRecord → Bool → Exec Bool
  unfolding add_record
  restore [] incomplete = pure incomplete
  restore (r ∷ rest) incomplete =
      if not (state_eq r.state active)
      then restore rest incomplete
      else attempt (add_record r) >>= λ added. restore rest (incomplete || not added)

  -- The runtime calls of `disable`: each is made, whether or not one before it failed.
  unfoldable pub revoke : ProfileRecord → Exec Bool
  unfolding restore
  revoke r = do
    kicked ← attempt (kick env r.runtime_id)
    removed ← attempt (remove_user env r.runtime_id)
    restarted ← attempt (restart env)
    ready ← attempt (wait_ready env 6000000)
    records ← Repository.list env
    restore records (not kicked || (not removed || (not restarted || not ready)))

  unfoldable pub report_incomplete : {A : Type 0} → Bytes → Exec A
  unfolding reconcile_after_error
  report_incomplete profile_id = do
    Repository.set_runtime_error env profile_id runtime_revoke_incomplete
    reconcile_after_error
    raise profile_revocation_failed

  unfoldable pub disable : Bytes → Exec ProfileResult
  unfolding prepare_disabled revoke report_incomplete
  disable profile_id = do
    disabled_record ← prepare_disabled profile_id
    incomplete ← revoke disabled_record
    if incomplete then report_incomplete disabled_record.profile_id else do
      final ← Repository.get env disabled_record.profile_id
      pure (result_of final none none)

  -- What `enable` does with a record that is pending or disabled.
  unfoldable pub enable_current : Bytes → ProfileRecord → Exec ProfileResult
  unfolding activate roll_back
  enable_current profile_id current = do
    enabled ←
        try_except (activate current profile_id)
          (λ _. roll_back current profile_id profile_enable_failed)
    pure (result_of enabled.0 none (some enabled.1))

  unfoldable pub enable : Bytes → Exec ProfileResult
  unfolding enable_current
  enable profile_id = do
    found ← Repository.get env profile_id
    current ←
        if state_eq found.state error
        then Repository.set_state env profile_id pending none
        else pure found
    if not (state_eq current.state pending || state_eq current.state disabled)
        then raise invalid_profile_transition
        else enable_current profile_id current

  -- `except (ProfileRevocationFailed, ProfileNotFound): raise`, and `except Exception`.
  unfoldable pub deletion_failed : Bytes → Exn → Exec (Unit {0})
  unfolding mark_error reconcile_after_error
  deletion_failed profile_id profile_revocation_failed = raise profile_revocation_failed
  deletion_failed profile_id profile_not_found = raise profile_not_found
  deletion_failed profile_id e = do
    mark_error profile_id profile_material_invalid
    reconcile_after_error
    raise profile_delete_failed

  unfoldable pub delete : Bytes → Exec (Unit {0})
  unfolding disable deletion_failed
  delete profile_id =
      try_except
        (do
          disable profile_id
          Repository.delete_local env profile_id
          Repository.checkpoint_wal env)
        (deletion_failed profile_id)
