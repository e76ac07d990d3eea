-- ===== src/Profiles/Coordinator/Promises.antt =====
-- `disable` of profiles/coordinator.py: what its callers may rely on.
use ez_open_pn.Prelude.{◌≡◌, refl, sym, Bool, true, false, some, List, [], ◌∷◌, Bytes, Text, arith}
use ez_open_pn.Errors.{ok, err, profile_revocation_failed}
use ez_open_pn.Models.{disabled}
use ez_open_pn.World.{
  Env, World, Event, rpc, http, transaction, sleep, response, rpc_error, status, http_error,
  RpcRequest, HttpRequest, read_clock, read_monotonic, draw_uuid, draw_nonce, draw_bytes,
}
use ez_open_pn.Exec.Keeps.{Ensures-ok, Ensures-err}
use ez_open_pn.Served.{may_serve, must_serve, may_after, must_after}
use ez_open_pn.Profiles.Types.{ProfileResult}
use ez_open_pn.Profiles.Tables.Query.{list_rows}
use ez_open_pn.Profiles.Tables.Consistent.{IsConsistent}
use ez_open_pn.Profiles.Tables.Works.{state_of}
use ez_open_pn.Profiles.Coordinator.{disable}
use ez_open_pn.Profiles.Coordinator.Restore.{is_active}
use ez_open_pn.Profiles.Coordinator.Revoke.{Exact}
use ez_open_pn.Profiles.Coordinator.Disable.{disable_lem}

-- An event keeps the lower bound below the upper one.
step :
    (j : Text) (e : Event) (m s : Bool)
    → (m ≡ true → s ≡ true)
    → must_after j e m ≡ true
    → may_after j e s ≡ true
step j (rpc (RpcRequest.add_user tag email user flow) (response users)) m s k h = ground arith
step j (rpc (RpcRequest.add_user tag email user flow) (rpc_error code)) m s k h = ground arith
step j (rpc (RpcRequest.remove_user tag email) (response users)) m s k h = ground arith
step j (rpc (RpcRequest.remove_user tag email) (rpc_error code)) m s k h = ground arith
step j (rpc (RpcRequest.get_users tag) reply) m s k h = k h
step j (rpc (RpcRequest.get_users_count tag timeout) reply) m s k h = k h
step j (http (HttpRequest.kick ids) reply) m s k h = k h
step j (http HttpRequest.restart (status code)) m s k h = ground arith
step j (http HttpRequest.restart http_error) m s k h = ground arith
step j (transaction b) m s k h = k h
step j (sleep t) m s k h = k h
step j read_clock m s k h = k h
step j read_monotonic m s k h = k h
step j draw_uuid m s k h = k h
step j draw_nonce m s k h = k h
step j (draw_bytes n) m s k h = k h

-- What is served for certain may be served.
must-may :
    (initial : Text → Bool) (j : Text) (h : List Event)
    → must_serve j h ≡ true
    → may_serve initial j h ≡ true
unfolding must_serve may_serve
must-may initial j [] e = ground arith
must-may initial j (x ∷ h) e = step j x _ _ (must-may initial j h) e

Bool-eq : (a b : Bool) → (a ≡ true → b ≡ true) → (b ≡ true → a ≡ true) → a ≡ b
Bool-eq true b f g = sym (f refl)
Bool-eq false true f g = g refl
Bool-eq false false f g = refl

Exact-may :
    (w : World)
    → Exact w
    → (initial : Text → Bool) (j : Text)
    → may_serve initial j w.history ≡ is_active j (list_rows w.db)
Exact-may w x i j =
    Bool-eq _ _ (x.only_active i j) (λ h. must-may i j w.history (x.every_active j h))

Exact-must :
    (w : World) → Exact w → (j : Text) → must_serve j w.history ≡ is_active j (list_rows w.db)
Exact-must w x j =
    Bool-eq _ _ (λ h. x.only_active (λ _. false) j (must-may _ j w.history h)) (x.every_active j)

-- When `disable` returns, from consistent tables, the profile is disabled and the result says so, and
-- the clients of Xray are known: whatever clients it had at the beginning, it serves a runtime
-- identifier exactly if an active profile has it.
pub disable_serves :
    (env : Env) (id : Bytes) (w : World) (r : ProfileResult)
    → IsConsistent w.db
    → (disable env id w).0 ≡ ok r
    → (state_of (disable env id w).1.db id ≡ some disabled)
      × (r.state ≡ disabled)
      × ((initial : Text → Bool) (j : Text)
          → may_serve initial j (disable env id w).1.history
            ≡ is_active j (list_rows (disable env id w).1.db))
      × ((j : Text)
          → must_serve j (disable env id w).1.history
            ≡ is_active j (list_rows (disable env id w).1.db))
disable_serves env id w r c e =
    let k = Ensures-ok (disable_lem env id) w c e in
    (k.at.state, k.result_state, Exact-may _ k.exact, Exact-must _ k.exact)

-- When `disable` raises `ProfileRevocationFailed`, from consistent tables, the profile is disabled
-- all the same, and the tables are consistent.
pub disable_fails_closed :
    (env : Env) (id : Bytes) (w : World)
    → IsConsistent w.db
    → (disable env id w).0 ≡ err profile_revocation_failed
    → (state_of (disable env id w).1.db id ≡ some disabled) × IsConsistent (disable env id w).1.db
disable_fails_closed env id w c e =
    let k = Ensures-err (disable_lem env id) w c e in (k.closed refl, k.consistent)
