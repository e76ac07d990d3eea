-- ===== src/Effects.antt =====
-- What the runtime clients do to Xray's users. Each leaves the tables alone.
use ez_open_pn.Prelude.{
  ◌≡◌, refl, ◌⊎◌, inl, inr, Bool, true, false, ◌&&◌, ◌||◌, [], ◌∷◌, Text, Bytes, bytes_eq,
  bytes_eq_refl, ◌==◌, Bool-cases,
}
use ez_open_pn.Errors.{
  Exn, Result, err, invalid_runtime_identifier, invalid_hysteria_runtime_identifier,
}
use ez_open_pn.Frames.{Same, Same-refl}
use ez_open_pn.World.{
  Env, World, Event, RpcRequest, HttpRequest, HttpReply, response, rpc_error, status, http_error,
  rpc, http,
}
use ez_open_pn.Exec.{◌>>=◌, call_rpc, call_http, succeeded, record_event}
use ez_open_pn.Served.{may_serve, must_serve}
use ez_open_pn.Integrations.Xray.{
  add_user, remove_user, runtime_id, is_runtime_id, answered, vision_flow,
}
use ez_open_pn.Integrations.Hysteria.{kick, kicked}
use ez_open_pn.Integrations.Hysteria
use ez_open_pn.Integrations.Supervisor.{restart, accepted}

-- One call with its answer, or none because the identifier was refused.
abbrev Calls :
    {R : Type 0} (w : World)
    → Exn
    → (R → Result (Unit {0}))
    → (R → Event)
    → Result (Unit {0}) × World
    → Type 0
Calls {R} w refused answer event o =
    (o ≡ (err refused, w)) ⊎ ((reply : R) × (o ≡ (answer reply, record_event w (event reply))))

module _ (env : Env) (id : Text) (w : World) where
  pub add_user-Calls :
      (user : Bytes)
      → Calls w invalid_runtime_identifier answered
          (rpc (RpcRequest.add_user env.deployment.inbound_tag id user vision_flow))
          (add_user env id user w)
  unfolding add_user call_rpc ◌>>=◌
  add_user-Calls user = elim (Bool-cases (is_runtime_id id)) [
    | inl e ↦ inr (
      env.on_rpc w.history (RpcRequest.add_user env.deployment.inbound_tag id user vision_flow),
      rw (e, runtime_id),
    )
    | inr e ↦ inl (rw (e, runtime_id))
  ]

  pub remove_user-Calls :
      Calls w invalid_runtime_identifier answered
        (rpc (RpcRequest.remove_user env.deployment.inbound_tag id))
        (remove_user env id w)
  unfolding remove_user call_rpc ◌>>=◌
  remove_user-Calls = elim (Bool-cases (is_runtime_id id)) [
    | inl e ↦ inr (
      env.on_rpc w.history (RpcRequest.remove_user env.deployment.inbound_tag id),
      rw (e, runtime_id),
    )
    | inr e ↦ inl (rw (e, runtime_id))
  ]

  pub kick-Calls :
      Calls w invalid_hysteria_runtime_identifier kicked
        (http (HttpRequest.kick (id ∷ [])))
        (kick env id w)
  unfolding kick call_http ◌>>=◌
  kick-Calls = elim (Bool-cases (is_runtime_id id)) [
    | inl e ↦ inr (env.on_http w.history (HttpRequest.kick (id ∷ [])), rw (e, Hysteria.runtime_id))
    | inr e ↦ inl (rw (e, Hysteria.runtime_id))
  ]

-- What is known of the users before and after, and of the tables.
pub record Adds (id : Text) (done : Bool) (w w' : World) : Type 0 where
  pub db : w'.db ≡ w.db
  pub may :
      (initial : Text → Bool) (j : Text)
      → may_serve initial j w'.history ≡ true
      → bytes_eq id j || may_serve initial j w.history ≡ true
  pub must : (j : Text) → must_serve j w.history ≡ true → must_serve j w'.history ≡ true
  pub must_self : done ≡ true → must_serve id w'.history ≡ true

pub or_intro : (b c : Bool) → c ≡ true → b || c ≡ true
or_intro true c h = refl
or_intro false c h = h

module _ (env : Env) (id : Text) (w : World) where
  pub add_user-Adds :
      (user : Bytes) → Adds id (succeeded (add_user env id user w).0) w (add_user env id user w).1
  unfolding may_serve must_serve
  add_user-Adds user = elim (add_user-Calls env id w user) [
    | inl e ↦
        rw e (record {
          db = refl;
          may = λ i j h. or_intro _ _ h;
          must = λ j h. h;
          must_self = λ h. cc;
        })
    | inr (response users, e) ↦ rw e (record {
      db = refl;
      may = λ i j h. h;
      must = λ j h. or_intro _ _ h;
      must_self = λ _. rw (bytes_eq_refl id);
    })
    | inr (rpc_error code, e) ↦
        rw e (record { db = refl; may = λ i j h. h; must = λ j h. h; must_self = λ h. cc })
  ]

-- After a removal that was answered the client is not served; another is as it was.
pub record Removes (id : Text) (done : Bool) (w w' : World) : Type 0 where
  pub db : w'.db ≡ w.db
  pub may :
      (initial : Text → Bool) (j : Text)
      → may_serve initial j w'.history ≡ true
      → may_serve initial j w.history ≡ true
  pub gone : (initial : Text → Bool) → done ≡ true → may_serve initial id w'.history ≡ false
  pub must : (j : Text) → bytes_eq id j ≡ false → must_serve j w'.history ≡ must_serve j w.history

and_right : (b c : Bool) → b && c ≡ true → c ≡ true
and_right true c h = h
and_right false c h = cc

module _ (env : Env) (id : Text) (w : World) where
  pub remove_user-Removes :
      Removes id (succeeded (remove_user env id w).0) w (remove_user env id w).1
  unfolding may_serve must_serve
  remove_user-Removes = elim (remove_user-Calls env id w) [
    | inl e ↦ rw e (record { db = refl; may = λ i j h. h; gone = λ i h. cc; must = λ j h. refl })
    | inr (response users, e) ↦ rw e (record {
      db = refl;
      may = λ i j h. and_right _ _ h;
      gone = λ i _. rw (bytes_eq_refl id);
      must = λ j h. rw h;
    })
    | inr (rpc_error code, e) ↦
        rw e (record { db = refl; may = λ i j h. h; gone = λ i h. cc; must = λ j h. rw h })
  ]

  pub kick-Same : Same w (kick env id w).1
  unfolding may_serve must_serve
  kick-Same = elim (kick-Calls env id w) [
    | inl e ↦ rw e (Same-refl w)
    | inr (reply, e) ↦ rw e (record { db = refl; may = λ i j. refl; must = λ j. refl })
  ]

-- A restart that was accepted leaves no users; one that was not may have, too.
pub record Restarts (done : Bool) (w w' : World) : Type 0 where
  pub db : w'.db ≡ w.db
  pub may :
      (initial : Text → Bool) (j : Text)
      → may_serve initial j w'.history ≡ true
      → may_serve initial j w.history ≡ true
  pub empty :
      (initial : Text → Bool) (j : Text) → done ≡ true → may_serve initial j w'.history ≡ false

restart_reply :
    (reply : HttpReply) (w : World)
    → Restarts (succeeded (accepted reply)) w (record_event w (http HttpRequest.restart reply))
unfolding may_serve
restart_reply http_error w = record { db = refl; may = λ i j h. h; empty = λ i j h. cc }
restart_reply (status code) w = elim (Bool-cases (code == 202)) [
  | inl e ↦ record { db = refl; may = λ i j h. cc (rw e at h); empty = λ i j _. rw e }
  | inr e ↦ record { db = refl; may = λ i j h. rw e at h; empty = λ i j h. cc (rw e at h) }
]

pub restart-Restarts :
    (env : Env) (w : World) → Restarts (succeeded (restart env w).0) w (restart env w).1
unfolding restart call_http ◌>>=◌
restart-Restarts env w = restart_reply (env.on_http w.history HttpRequest.restart) w
