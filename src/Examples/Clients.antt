-- ===== src/Examples/Clients.antt =====
-- Profiles: the life of one, run and applied.
use ez_open_pn.Prelude.{
  ℕ, ◌≡◌, refl, Bool, true, false, none, some, [], ◌∷◌, Bytes, Text, codes, ◌++◌, if◌then◌else◌,
  any, ◌⊎◌,
}
unfoldable use ez_open_pn.Prelude.{bytes_eq}
use ez_open_pn.Errors.{
  ok, err, profile_revocation_failed, profile_not_found, invalid_profile_transition,
}
use ez_open_pn.Models.{
  ProfileState, active, disabled, LookupKind, subscription, hysteria_auth, Profile, ProfileLookup,
  Database,
}
use ez_open_pn.World.{Env, World, status, http_error}
use ez_open_pn.Served.{may_serve, must_serve}
use ez_open_pn.Profiles.Types.{ProfileResult, ProfileRecord}
use ez_open_pn.Profiles.Tables.Query.{list_rows, state_eq}
use ez_open_pn.Profiles.Tables.Consistent.{IsConsistent, IsShaped}
use ez_open_pn.Profiles.Tables.Works.{state_of}
use ez_open_pn.Profiles.Tables.Rows.{find_profile}
use ez_open_pn.Profiles.Tables.Transition.{Legal, Transition}
use ez_open_pn.Profiles.Tables.Transition.Exact.{set_state_row-Transition}
use ez_open_pn.Profiles.Tables.Statements.{set_state_row}
use ez_open_pn.Profiles.Coordinator.States.{runtime_of}
use ez_open_pn.Profiles.Coordinator.Activate.{enable_activates}
use ez_open_pn.Profiles.Coordinator.Promises.{disable_serves, disable_fails_closed}
use ez_open_pn.Profiles.Coordinator.Delete.{delete_removes}
use ez_open_pn.Profiles.Coordinator.{create, disable, enable, delete}
use ez_open_pn.Profiles.Coordinator.Restore.{is_active}
use ez_open_pn.Profiles.Coordinator.Invariant.{
  creates, disables, perform_all, perform_all-IsConsistent,
}
use ez_open_pn.Examples.Outside.{outside, start, repeat, empty_tables, value_or}

abbrev calm : Env
calm = outside (status 200)

-- Hysteria is away.
abbrev failing : Env
failing = outside http_error

abbrev profile : ℕ → Text → ProfileState → Profile
unfolding repeat
profile n runtime_id state = record {
  id = n ∷ repeat 15 0;
  name = codes "client";
  state = state;
  runtime_id = runtime_id;
  wrapped_profile_key = some (1 ∷ (repeat 40 0 ++ repeat 32 5));
  user_id_ciphertext = 1 ∷ (repeat 40 0 ++ repeat 16 n);
  hysteria_secret_ciphertext = 1 ∷ (repeat 40 0 ++ repeat 32 n);
  subscription_token_ciphertext = 1 ∷ (repeat 40 0 ++ codes "token");
  last_error_code = none;
  created_at = n;
  updated_at = n;
  disabled_at = if state_eq state disabled then some 0 else none;
}

abbrev lookup : ℕ → ℕ → LookupKind → ProfileLookup
unfolding repeat
lookup n profile_id kind = record {
  id = n ∷ repeat 15 0;
  profile_id = profile_id ∷ repeat 15 0;
  kind = kind;
  lookup_digest = n ∷ repeat 31 0;
  created_at = 0;
}

abbrev alice_id : Bytes
alice_id = 1 ∷ 0 ∷ 0 ∷ 0 ∷ 0 ∷ 0 ∷ 0 ∷ 0 ∷ 0 ∷ 0 ∷ 0 ∷ 0 ∷ 0 ∷ 0 ∷ 0 ∷ 0 ∷ []

-- Alice, in a state, and Bob, who is active.
abbrev tables : ProfileState → Database
tables state = record empty_tables {
  profiles =
      profile 1 (codes "p_aaaaaaaaaaaaaaaaaaaaaaaaaa") state
      ∷ profile 2 (codes "p_bbbbbbbbbbbbbbbbbbbbbbbbbb") active
      ∷ [];
  profile_lookups =
      lookup 1 1 subscription
      ∷ lookup 2 1 hysteria_auth
      ∷ lookup 3 2 subscription
      ∷ lookup 4 2 hysteria_auth
      ∷ [];
}

abbrev world : ProfileState → World
world state = record start { db = tables state }

tables_with :
    (s : ProfileState)
    → IsShaped (profile 1 (codes "p_aaaaaaaaaaaaaaaaaaaaaaaaaa") s)
    → IsConsistent (tables s)
unfolding bytes_eq profile lookup repeat ez_open_pn.Profiles.Tables.Query.digests
tables_with s shape = record {
  ids = (refl, (refl, tt));
  runtime_ids = (refl, (refl, tt));
  looked_up = (((_, refl), (_, refl)), (((_, refl), (_, refl)), tt));
  owned = (refl, (refl, (refl, (refl, tt))));
  digests_differ = (refl, (refl, (refl, (refl, tt))));
  shaped = (shape, (record { runtime_id_length = refl; disabled_since = refl }, tt));
}

active_tables : IsConsistent (tables active)
unfolding profile
active_tables = tables_with active (record { runtime_id_length = refl; disabled_since = refl })

disabled_tables : IsConsistent (tables disabled)
unfolding profile
disabled_tables = tables_with disabled (record { runtime_id_length = refl; disabled_since = refl })

abbrev blank : ProfileResult
blank = record {
  profile_id = [];
  name = [];
  state = disabled;
  runtime_id = [];
  subscription_token = none;
  link_bundle = none;
}

abbrev disabled_result : ProfileResult
disabled_result = value_or blank (disable calm alice_id (world active)).0

disabled_run : (disable calm alice_id (world active)).0 ≡ ok disabled_result
unfolding bytes_eq ez_open_pn.Exec.attempt ez_open_pn.Exec.for_each ez_open_pn.Exec.session_scope
    ez_open_pn.Exec.utc ez_open_pn.Exec.now ez_open_pn.Exec.call_rpc ez_open_pn.Exec.call_http
    ez_open_pn.Exec.monotonic ez_open_pn.Integrations.Xray.add_user
    ez_open_pn.Integrations.Xray.remove_user ez_open_pn.Integrations.Xray.wait_ready
    ez_open_pn.Integrations.Hysteria.kick ez_open_pn.Integrations.Supervisor.restart
    ez_open_pn.Profiles.Tables.Query.row_of ez_open_pn.Profiles.Tables.Query.get_row
    ez_open_pn.Profiles.Tables.Query.list_rows ez_open_pn.Profiles.Tables.Statements.set_state_row
    ez_open_pn.Profiles.Repository.get ez_open_pn.Profiles.Repository.list
    ez_open_pn.Profiles.Repository.set_state ez_open_pn.Profiles.Reconcile.desired_onto
    ez_open_pn.Profiles.Coordinator.disable ez_open_pn.Examples.Outside.outside
disabled_run = refl

disable_serves_example :
    (state_of (disable calm alice_id (world active)).1.db alice_id ≡ some disabled)
    × (disabled_result.state ≡ disabled)
    × ((initial : Text → Bool) (j : Text)
        → may_serve initial j (disable calm alice_id (world active)).1.history
          ≡ is_active j (list_rows (disable calm alice_id (world active)).1.db))
    × ((j : Text)
        → must_serve j (disable calm alice_id (world active)).1.history
          ≡ is_active j (list_rows (disable calm alice_id (world active)).1.db))
disable_serves_example =
    disable_serves calm alice_id (world active) disabled_result active_tables disabled_run

failed_run : (disable failing alice_id (world active)).0 ≡ err profile_revocation_failed
unfolding bytes_eq ez_open_pn.Exec.attempt ez_open_pn.Exec.for_each ez_open_pn.Exec.session_scope
    ez_open_pn.Exec.utc ez_open_pn.Exec.now ez_open_pn.Exec.call_rpc ez_open_pn.Exec.call_http
    ez_open_pn.Exec.monotonic ez_open_pn.Integrations.Xray.add_user
    ez_open_pn.Integrations.Xray.remove_user ez_open_pn.Integrations.Xray.wait_ready
    ez_open_pn.Integrations.Hysteria.kick ez_open_pn.Integrations.Supervisor.restart
    ez_open_pn.Profiles.Tables.Query.row_of ez_open_pn.Profiles.Tables.Query.get_row
    ez_open_pn.Profiles.Tables.Query.list_rows ez_open_pn.Profiles.Tables.Statements.set_state_row
    ez_open_pn.Profiles.Repository.get ez_open_pn.Profiles.Repository.list
    ez_open_pn.Profiles.Repository.set_state ez_open_pn.Profiles.Coordinator.delete
    ez_open_pn.Examples.Outside.outside ez_open_pn.Profiles.Reconcile.run
    ez_open_pn.Profiles.Repository.set_runtime_error
    ez_open_pn.Profiles.Tables.Statements.set_runtime_error_row
failed_run = refl

disable_fails_closed_example :
    (state_of (disable failing alice_id (world active)).1.db alice_id ≡ some disabled)
    × IsConsistent (disable failing alice_id (world active)).1.db
disable_fails_closed_example =
    disable_fails_closed failing alice_id (world active) active_tables failed_run

perform_all-IsConsistent_example :
    IsConsistent
      (perform_all calm (world active) (disables alice_id ∷ creates (codes "carol") ∷ [])).db
perform_all-IsConsistent_example =
    perform_all-IsConsistent calm (disables alice_id ∷ creates (codes "carol") ∷ []) (world active)
      active_tables

abbrev enabled_result : ProfileResult
enabled_result = value_or blank (enable calm alice_id (world disabled)).0

enabled_run : (enable calm alice_id (world disabled)).0 ≡ ok enabled_result
unfolding bytes_eq ez_open_pn.Exec.try_except ez_open_pn.Exec.for_each ez_open_pn.Exec.session_scope
    ez_open_pn.Exec.utc ez_open_pn.Exec.now ez_open_pn.Exec.call_rpc
    ez_open_pn.Integrations.Xray.add_user ez_open_pn.Profiles.Tables.Query.row_of
    ez_open_pn.Profiles.Tables.Query.get_row ez_open_pn.Profiles.Tables.Statements.set_state_row
    ez_open_pn.Profiles.Repository.get ez_open_pn.Profiles.Repository.set_state
    ez_open_pn.Profiles.Reconcile.desired_onto ez_open_pn.Profiles.Coordinator.enable
    ez_open_pn.Profiles.Links.bundle_for_record ez_open_pn.Examples.Outside.outside
enabled_run = refl

enable_activates_example :
    (state_of (enable calm alice_id (world disabled)).1.db alice_id ≡ some active)
    × (enabled_result.state ≡ active)
    × (runtime_of (enable calm alice_id (world disabled)).1.db alice_id
        ≡ some enabled_result.runtime_id)
    × (must_serve enabled_result.runtime_id (enable calm alice_id (world disabled)).1.history
        ≡ true)
enable_activates_example =
    enable_activates calm alice_id (world disabled) enabled_result disabled_tables enabled_run

deleted_run : (delete calm alice_id (world active)).0 ≡ ok tt
unfolding bytes_eq ez_open_pn.Exec.try_except ez_open_pn.Exec.attempt ez_open_pn.Exec.for_each
    ez_open_pn.Exec.session_scope ez_open_pn.Exec.utc ez_open_pn.Exec.now ez_open_pn.Exec.new_uuid
    ez_open_pn.Exec.call_rpc ez_open_pn.Exec.call_http ez_open_pn.Exec.monotonic
    ez_open_pn.Exec.database_time ez_open_pn.Integrations.Xray.add_user
    ez_open_pn.Integrations.Xray.remove_user ez_open_pn.Integrations.Xray.wait_ready
    ez_open_pn.Integrations.Hysteria.kick ez_open_pn.Integrations.Supervisor.restart
    ez_open_pn.Profiles.Tables.Query.row_of ez_open_pn.Profiles.Tables.Query.get_row
    ez_open_pn.Profiles.Tables.Query.list_rows ez_open_pn.Profiles.Tables.Statements.set_state_row
    ez_open_pn.Profiles.Tables.Statements.delete_rows ez_open_pn.Profiles.Repository.get
    ez_open_pn.Profiles.Repository.list ez_open_pn.Profiles.Repository.set_state
    ez_open_pn.Profiles.Repository.delete_local ez_open_pn.Profiles.Repository.checkpoint_wal
    ez_open_pn.Profiles.Reconcile.user_id ez_open_pn.Profiles.Coordinator.delete
    ez_open_pn.Examples.Outside.outside
deleted_run = refl

delete_removes_example :
    (any
        (λ (p : Profile). bytes_eq p.id alice_id)
        (delete calm alice_id (world active)).1.db.profiles
      ≡ false)
    × (any
          (λ (l : ProfileLookup). bytes_eq l.profile_id alice_id)
          (delete calm alice_id (world active)).1.db.profile_lookups
        ≡ false)
delete_removes_example = delete_removes calm alice_id (world active) deleted_run

set_state_row-Transition_example :
    ((find_profile alice_id (tables active).profiles ≡ none)
      × (set_state_row alice_id disabled none 5 (tables active) ≡ err profile_not_found))
    ⊎ ((p : Profile) × (find_profile alice_id (tables active).profiles ≡ some p)
        × ((¬ Legal p.state disabled
              × (set_state_row alice_id disabled none 5 (tables active)
                  ≡ err invalid_profile_transition))
            ⊎ (Legal p.state disabled
                × ((r : ProfileRecord) × (after : Database) × (set_state_row alice_id disabled none
                        5
                        (tables active)
                      ≡ ok (r, after))
                    × Transition alice_id disabled none 5 (tables active) p r after))))
set_state_row-Transition_example =
    set_state_row-Transition alice_id disabled none 5 (tables active) active_tables
