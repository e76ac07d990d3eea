-- ===== src/Frames.antt =====
-- Actions that leave the tables and Xray's users alone.
use ez_open_pn.Prelude.{
  ℕ, zero, suc, ◌≡◌, refl, ◌∙◌, Bool, true, false, Text, if◌then◌else◌, leb, ◌==◌,
}
use ez_open_pn.Errors
use ez_open_pn.Errors.{Exn, Result, ok, err}
use ez_open_pn.Models.{Database}
use ez_open_pn.World.{Env, World, RpcRequest, RpcReply, response, rpc_error, transaction}
use ez_open_pn.Exec.{
  Exec, pure, raise, lift, call_rpc, monotonic, pause_for, session_scope, committed, record_event,
  now,
}
use ez_open_pn.Exec.Keeps.{Keeps, Ensures-bind, Outcome, Work}
use ez_open_pn.Served.{may_serve, must_serve}
use ez_open_pn.Integrations.Xray.{wait_ready, ready_loop, ready_round, retry, is_unavailable}

-- The tables are the same, and so is all that is known of Xray's users.
pub record Same (w w' : World) : Type 0 where
  pub db : w'.db ≡ w.db
  pub may :
      (initial : Text → Bool) (id : Text)
      → may_serve initial id w'.history ≡ may_serve initial id w.history
  pub must : (id : Text) → must_serve id w'.history ≡ must_serve id w.history

pub Same-refl : (w : World) → Same w w
Same-refl w = record { db = refl; may = λ i id. refl; must = λ id. refl }

module _ (w : World) where
  pub Quiet-pure : {A : Type 0} (a : A) → Keeps (Same w) (pure a)
  Quiet-pure a = record { at = λ v h. h }

  pub Quiet-raise : {A : Type 0} (e : Exn) → Keeps {A = A} (Same w) (raise e)
  Quiet-raise e = record { at = λ v h. h }

  pub Quiet-lift : {A : Type 0} (r : Result A) → Keeps (Same w) (lift r)
  Quiet-lift (ok a) = record { at = λ v h. h }
  Quiet-lift (err e) = record { at = λ v h. h }

  pub Quiet-if :
      {A : Type 0} (b : Bool) (m n : Exec A)
      → Keeps (Same w) m
      → Keeps (Same w) n
      → Keeps (Same w) (if b then m else n)
  Quiet-if true m n km kn = km
  Quiet-if false m n km kn = kn

module _ (env : Env) (w : World) where
  pub Quiet-monotonic : Keeps (Same w) (monotonic env)
  unfolding monotonic may_serve must_serve
  Quiet-monotonic = record { at = λ v h. record { db = h.db; may = h.may; must = h.must } }

  pub Quiet-pause : (t : ℕ) → Keeps (Same w) (pause_for env t)
  unfolding pause_for may_serve must_serve
  Quiet-pause t = record { at = λ v h. record { db = h.db; may = h.may; must = h.must } }

  pub Quiet-now : Keeps (Same w) (now env)
  unfolding now may_serve must_serve
  Quiet-now = record { at = λ v h. record { db = h.db; may = h.may; must = h.must } }

  pub Quiet-count :
      (tag : Text) (timeout : ℕ)
      → Keeps (Same w) (call_rpc env (RpcRequest.get_users_count tag timeout))
  unfolding call_rpc may_serve must_serve
  Quiet-count tag timeout = record { at = λ v h. record { db = h.db; may = h.may; must = h.must } }

  pub Quiet-get_users : (tag : Text) → Keeps (Same w) (call_rpc env (RpcRequest.get_users tag))
  unfolding call_rpc may_serve must_serve
  Quiet-get_users tag = record { at = λ v h. record { db = h.db; may = h.may; must = h.must } }

  unit-Quiet :
      {A : Type 0} (v : World) (b : Bool) (r : Result (A × Database))
      → Same w v
      → Work (λ _ db. db ≡ v.db) (λ _ _. Unit {0}) v.db r
      → let o =
          if b
          then committed r (record_event v (transaction b))
          else (err Errors.operational_error, record_event v (transaction b)) in
        Outcome (λ _. Same w) (λ _. Same w) o.0 o.1
  unfolding may_serve must_serve
  unit-Quiet v true (ok (a, db)) h e = record { db = e ∙ h.db; may = h.may; must = h.must }
  unit-Quiet v true (err x) h e = record { db = h.db; may = h.may; must = h.must }
  unit-Quiet v false r h e = record { db = h.db; may = h.may; must = h.must }

  -- A unit of work that only reads.
  pub Quiet-read :
      {A : Type 0} (body : Database → Result (A × Database))
      → ((db : Database) → Work (λ _ db'. db' ≡ db) (λ _ _. Unit {0}) db (body db))
      → Keeps (Same w) (session_scope env body)
  unfolding session_scope
  Quiet-read body k = record {
    at = λ v h. unit-Quiet v (env.completes v.history) (body v.db) h (k v.db);
  }

  retry-Quiet :
      (deadline delay : ℕ) (again : ℕ → Exec (Unit {0})) (reply : RpcReply)
      → ((d : ℕ) → Keeps (Same w) (again d))
      → Keeps (Same w) (retry env deadline delay again reply)
  retry-Quiet deadline delay again (response users) k = Quiet-pure w tt
  retry-Quiet deadline delay again (rpc_error code) k =
      Quiet-if w (is_unavailable code) _ _
        (Ensures-bind _ _ Quiet-monotonic λ current.
          Quiet-if w (leb deadline current) _ _ (Quiet-raise w _)
            (Ensures-bind _ _ (Quiet-pause _) λ _. k _))
        (Quiet-raise w _)

  round-Quiet :
      (deadline delay : ℕ) (again : ℕ → Exec (Unit {0}))
      → ((d : ℕ) → Keeps (Same w) (again d))
      → Keeps (Same w) (ready_round env deadline delay again)
  unfolding ready_round
  round-Quiet deadline delay again k = Ensures-bind _ _ Quiet-monotonic λ current.
      Quiet-if w (leb deadline current) _ _ (Quiet-raise w _)
        (Ensures-bind _ _ (Quiet-count _ _) λ reply. retry-Quiet deadline delay again reply k)

  loop-Quiet : (fuel deadline delay : ℕ) → Keeps (Same w) (ready_loop env fuel deadline delay)
  unfolding ready_loop
  loop-Quiet zero deadline delay = Quiet-raise w _
  loop-Quiet (suc fuel) deadline delay =
      round-Quiet deadline delay (ready_loop env fuel deadline) (loop-Quiet fuel deadline)

  pub Quiet-wait_ready : (timeout : ℕ) → Keeps (Same w) (wait_ready env timeout)
  unfolding wait_ready
  Quiet-wait_ready timeout =
      Quiet-if w (timeout == 0) _ _ (Quiet-raise w _)
        (Ensures-bind _ _ Quiet-monotonic λ start. loop-Quiet _ _ _)

-- All that is known of Xray's users is the same; the tables may differ.
pub record SameUsers (w w' : World) : Type 0 where
  pub may :
      (initial : Text → Bool) (id : Text)
      → may_serve initial id w'.history ≡ may_serve initial id w.history
  pub must : (id : Text) → must_serve id w'.history ≡ must_serve id w.history

module _ (env : Env) (w : World) where
  unit-SameUsers :
      {A : Type 0} (v : World) (b : Bool) (r : Result (A × Database))
      → SameUsers w v
      → let o =
          if b
          then committed r (record_event v (transaction b))
          else (err Errors.operational_error, record_event v (transaction b)) in
        Outcome (λ _. SameUsers w) (λ _. SameUsers w) o.0 o.1
  unfolding may_serve must_serve
  unit-SameUsers v true (ok (a, db)) h = record { may = h.may; must = h.must }
  unit-SameUsers v true (err x) h = record { may = h.may; must = h.must }
  unit-SameUsers v false r h = record { may = h.may; must = h.must }

  -- A unit of work is no call to Xray.
  pub SameUsers-session_scope :
      {A : Type 0} (body : Database → Result (A × Database))
      → Keeps (SameUsers w) (session_scope env body)
  unfolding session_scope
  SameUsers-session_scope body = record {
    at = λ v h. unit-SameUsers v (env.completes v.history) (body v.db) h;
  }

  pub SameUsers-now : Keeps (SameUsers w) (now env)
  unfolding now may_serve must_serve
  SameUsers-now = record { at = λ v h. record { may = h.may; must = h.must } }

  pub SameUsers-lift : {A : Type 0} (r : Result A) → Keeps (SameUsers w) (lift r)
  SameUsers-lift (ok a) = record { at = λ v h. h }
  SameUsers-lift (err e) = record { at = λ v h. h }
