-- ===== src/Integrations/Xray/Ready.antt =====
-- integrations/xray.py: `wait_ready` ends.
use ez_open_pn.Prelude.{
  ℕ, zero, suc, ◌+◌, ◌-◌, ◌*◌, min, ◌≤◌, ◌<◌, ◌≡◌, ◌≢◌, refl, Bool, true, false, List, ◌∷◌, arith,
  if◌then◌else◌, leb, ◌==◌,
}
use ez_open_pn.Errors.{err, out_of_fuel, value_error, runtime_unavailable, runtime_rejected}
use ez_open_pn.World.{Env, World, Event, sleep, RpcReply, RpcRequest, response, rpc_error}
use ez_open_pn.Exec.{Exec, ◌>>=◌, ◌>>◌, raise, monotonic, pause_for, call_rpc}
use ez_open_pn.Exec.Keeps.{Ensures, Ensures-bind, Ensures-err}
use ez_open_pn.Integrations.Xray.{
  is_unavailable, initial_ready_delay, max_ready_delay, list_timeout, retry, ready_round,
  ready_loop, wait_ready,
}

module _ (env : Env)
    (forward : (e : Event) (h : List Event) → env.monotonic h ≤ env.monotonic (e ∷ h))
    (slept : (t : ℕ) (h : List Event) → env.monotonic h + t ≤ env.monotonic (sleep t ∷ h)) where
  abbrev Within : ℕ → ℕ → World → Type 0
  Within fuel deadline w = (deadline < env.monotonic w.history + fuel) × (1 ≤ fuel)

  abbrev Ends : {A : Type 0} → (World → Type 0) → Exec A → Type 0
  Ends P m = Ensures P m (λ _ _. Unit {0}) (λ e _. e ≢ out_of_fuel)

  -- A reading of the clock, with what is left of the fuel.
  abbrev Read : ℕ → ℕ → ℕ → World → Type 0
  Read fuel deadline t w = (deadline ≤ t + fuel) × (t ≤ env.monotonic w.history)

  clock-Ends :
      (fuel deadline : ℕ)
      → Ensures
          (Within (suc fuel) deadline)
          (monotonic env)
          (Read fuel deadline)
          (λ e _. e ≢ out_of_fuel)
  unfolding monotonic
  clock-Ends fuel deadline = record { at = λ w h. (omega (arith, h.0), forward _ w.history) }

  again-Ends :
      (fuel deadline delay t : ℕ) (again : ℕ → Exec (Unit {0}))
      → 1 ≤ delay
      → ((d : ℕ) → 1 ≤ d → Ends (Within fuel deadline) (again d))
      → t < deadline
      → Ends (Read fuel deadline t) (
          pause_for env (min delay (min max_ready_delay (deadline - t)))
          >> again (min (delay * 2) max_ready_delay))
  unfolding pause_for
  again-Ends fuel deadline delay t again positive rest before =
      Ensures-bind {Q = λ _ w. Within fuel deadline w} _ _
        (record {
          at = λ w h. (
            omega (arith, h.0, h.1, slept (min delay (min 250000 (deadline - t))) w.history),
            omega (arith, h.0),
          );
        })
        λ _. rest (min (delay * 2) max_ready_delay) (omega arith)

  retry-Ends :
      (fuel deadline delay : ℕ) (again : ℕ → Exec (Unit {0}))
      → 1 ≤ delay
      → ((d : ℕ) → 1 ≤ d → Ends (Within fuel deadline) (again d))
      → (reply : RpcReply)
      → Ends (Within (suc fuel) deadline) (retry env deadline delay again reply)
  retry-Ends fuel deadline delay again positive rest (response users) = record { at = λ w h. tt }
  retry-Ends fuel deadline delay again positive rest (rpc_error code) = go (is_unavailable code)
    where
      pause :
          (t : ℕ) (b : Bool)
          → leb deadline t ≡ b
          → Ends (Read fuel deadline t) (
              if b
              then raise runtime_unavailable
              else (pause_for env (min delay (min max_ready_delay (deadline - t)))
                  >> again (min (delay * 2) max_ready_delay)))
      pause t true e = record { at = λ w h. λ k. cc }
      pause t false e = record {
        at = λ w h. (again-Ends fuel deadline delay t again positive rest (ground arith)).at w h;
      }

      go :
          (b : Bool)
          → Ends (Within (suc fuel) deadline) (
              if b
              then (monotonic env >>= λ t.
                  if leb deadline t
                  then raise runtime_unavailable
                  else (pause_for env (min delay (min max_ready_delay (deadline - t)))
                      >> again (min (delay * 2) max_ready_delay)))
              else raise runtime_rejected)
      go true = Ensures-bind _ _ (clock-Ends fuel deadline) λ t. pause t (leb deadline t) refl
      go false = record { at = λ w h. λ k. cc }

  round-Ends :
      (fuel deadline delay : ℕ) (again : ℕ → Exec (Unit {0}))
      → 1 ≤ delay
      → ((d : ℕ) → 1 ≤ d → Ends (Within fuel deadline) (again d))
      → Ends (Within (suc fuel) deadline) (ready_round env deadline delay again)
  unfolding ready_round call_rpc
  round-Ends fuel deadline delay again positive rest =
      Ensures-bind _ _ (clock-Ends fuel deadline) λ t. go t (leb deadline t)
    where
      go :
          (t : ℕ) (b : Bool)
          → Ends (Read fuel deadline t) (
              if b
              then raise runtime_unavailable
              else (call_rpc env (
                    RpcRequest.get_users_count env.deployment.inbound_tag
                      (min list_timeout (deadline - t)))
                  >>= λ reply. retry env deadline delay again reply))
      go t true = record { at = λ w h. λ k. cc }
      go t false =
          Ensures-bind {Q = λ _ w. Within (suc fuel) deadline w} _ _
            (record { at = λ w h. (omega (arith, h.0, h.1, forward _ w.history), omega arith) })
            λ reply. retry-Ends fuel deadline delay again positive rest reply

  loop-Ends :
      (fuel deadline delay : ℕ)
      → 1 ≤ delay
      → Ends (Within fuel deadline) (ready_loop env fuel deadline delay)
  unfolding ready_loop
  loop-Ends zero deadline delay positive = record { at = λ w h. absurd (omega (arith, h.1)) }
  loop-Ends (suc fuel) deadline delay positive =
      round-Ends fuel deadline delay (ready_loop env fuel deadline) positive
        (loop-Ends fuel deadline)

  wait-Ends : (timeout : ℕ) → Ends (λ _. Unit {0}) (wait_ready env timeout)
  unfolding wait_ready monotonic
  wait-Ends timeout = go (timeout == 0)
    where
      go :
          (b : Bool)
          → Ends
              (λ _. Unit {0})
              (if b
                then raise value_error
                else (monotonic env >>= λ start.
                    ready_loop env (timeout + 1) (start + timeout) initial_ready_delay))
      go true = record { at = λ w h. λ k. cc }
      go false =
          Ensures-bind {Q = λ start w. start ≤ env.monotonic w.history} _ _
            (record { at = λ w h. forward _ w.history })
            λ start. record {
              at = λ w h.
                  (loop-Ends (timeout + 1) (start + timeout) 50000 (omega arith)).at w
                    (omega (arith, h), omega arith);
            }

-- `wait_ready` ends, whatever Xray answers, if the monotonic clock never goes back and a pause takes
-- at least its time: as many rounds as the timeout has microseconds, and one, are enough fuel.
pub wait_ready_ends :
    (env : Env) (timeout : ℕ) (w : World)
    → ((e : Event) (h : List Event) → env.monotonic h ≤ env.monotonic (e ∷ h))
    → ((t : ℕ) (h : List Event) → env.monotonic h + t ≤ env.monotonic (sleep t ∷ h))
    → (wait_ready env timeout w).0 ≢ err out_of_fuel
wait_ready_ends env timeout w forward slept h =
    Ensures-err (wait-Ends env forward slept timeout) w tt h refl
