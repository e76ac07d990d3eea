-- ===== src/Integrations/Xray.antt =====
-- integrations/xray.py: `GrpcXrayClient`, over the calls of the handler service. Times of the
-- readiness loop are microseconds.
pub mod Ready
use ez_open_pn.Prelude.{
  ℕ, zero, suc, ◌+◌, ◌-◌, ◌*◌, min, Bool, true, false, ◌&&◌, ◌||◌, List, [], ◌∷◌, Bytes, Text,
  codes, length, all, leb, ◌==◌, if◌then◌else◌,
}
use ez_open_pn.Errors.{
  Exn, Result, ok, err, value_error, runtime_unavailable, runtime_rejected,
  invalid_runtime_identifier, out_of_fuel,
}
use ez_open_pn.World.{Env, StatusCode, RpcRequest, RpcReply, response, rpc_error}
use ez_open_pn.Exec.{Exec, pure, raise, lift, ◌>>=◌, ◌>>◌, call_rpc, monotonic, pause_for}

abbrev pub vision_flow : Text
vision_flow = codes "xtls-rprx-vision"

-- `[a-z2-7]`.
abbrev pub is_base32 : ℕ → Bool
is_base32 c = (leb b'a' c && leb c b'z') || (leb b'2' c && leb c b'7')

-- `p_[a-z2-7]{26}`, matched in full.
unfoldable pub is_runtime_id : Text → Bool
is_runtime_id [] = false
is_runtime_id (p ∷ []) = false
is_runtime_id (p ∷ u ∷ rest) =
    (p == b'p') && ((u == b'_') && ((length rest == 26) && all is_base32 rest))

-- `_runtime_id`.
unfoldable pub runtime_id : Text → Result Text
unfolding is_runtime_id
runtime_id value = if is_runtime_id value then ok value else err invalid_runtime_identifier

-- `_UNAVAILABLE_CODES`.
abbrev pub is_unavailable : StatusCode → Bool
is_unavailable StatusCode.cancelled = true
is_unavailable StatusCode.deadline_exceeded = true
is_unavailable StatusCode.resource_exhausted = true
is_unavailable StatusCode.unavailable = true
is_unavailable _ = false

-- `_raise_rpc`.
abbrev pub rpc_exn : StatusCode → Exn
rpc_exn code = if is_unavailable code then runtime_unavailable else runtime_rejected

abbrev pub answered : RpcReply → Result (Unit {0})
answered (response users) = ok tt
answered (rpc_error code) = err (rpc_exn code)

abbrev pub listed : RpcReply → Result (List Text)
listed (response users) = ok users
listed (rpc_error code) = err (rpc_exn code)

-- `_LIST_TIMEOUT_SECONDS`, `_INITIAL_READY_DELAY_SECONDS`, `_MAX_READY_DELAY_SECONDS`.
abbrev pub list_timeout : ℕ
list_timeout = 2000000

abbrev pub initial_ready_delay : ℕ
initial_ready_delay = 50000

abbrev pub max_ready_delay : ℕ
max_ready_delay = 250000

module _ (env : Env) where
  unfoldable pub add_user : Text → Bytes → Exec (Unit {0})
  unfolding runtime_id
  add_user id user_id = do
    email ← lift (runtime_id id)
    reply ← call_rpc env (RpcRequest.add_user env.deployment.inbound_tag email user_id vision_flow)
    lift (answered reply)

  unfoldable pub remove_user : Text → Exec (Unit {0})
  unfolding runtime_id
  remove_user id = do
    email ← lift (runtime_id id)
    reply ← call_rpc env (RpcRequest.remove_user env.deployment.inbound_tag email)
    lift (answered reply)

  unfoldable pub list_users : Exec (List Text)
  list_users = do
    reply ← call_rpc env (RpcRequest.get_users env.deployment.inbound_tag)
    lift (listed reply)

  -- One round of the loop of `wait_ready`, and `again` for the next with the delay that is due.
  abbrev pub retry : ℕ → ℕ → (ℕ → Exec (Unit {0})) → RpcReply → Exec (Unit {0})
  retry deadline delay again (response users) = pure tt
  retry deadline delay again (rpc_error code) =
      if is_unavailable code
      then (do
        current ← monotonic env
        if leb deadline current then raise runtime_unavailable else do
          pause_for env (min delay (min max_ready_delay (deadline - current)))
          again (min (delay * 2) max_ready_delay))
      else raise runtime_rejected

  unfoldable pub ready_round : ℕ → ℕ → (ℕ → Exec (Unit {0})) → Exec (Unit {0})
  ready_round deadline delay again = do
    current ← monotonic env
    if leb deadline current then raise runtime_unavailable else do
      reply ← call_rpc env (
          RpcRequest.get_users_count env.deployment.inbound_tag
            (min list_timeout (deadline - current)))
      retry deadline delay again reply

  unfoldable pub ready_loop : ℕ → ℕ → ℕ → Exec (Unit {0})
  unfolding ready_round
  ready_loop zero deadline delay = raise out_of_fuel
  ready_loop (suc fuel) deadline delay = ready_round deadline delay (ready_loop fuel deadline)

  unfoldable pub wait_ready : ℕ → Exec (Unit {0})
  unfolding ready_loop
  wait_ready timeout =
      if timeout == 0
      then raise value_error
      else do start ← monotonic env; ready_loop (timeout + 1) (start + timeout) initial_ready_delay
