-- ===== src/Exec.antt =====
-- Methods that act on the world and may raise. What happened before a raise stays, so the world
-- comes back beside the exception too.
pub mod Keeps
use ez_open_pn.Prelude.{ℕ, Bool, true, false, List, [], ◌∷◌, if◌then◌else◌, Bytes, Text}
use ez_open_pn.Errors.{Exn, Result, ok, err, value_error, operational_error}
use ez_open_pn.Models.{Database}
use ez_open_pn.World.{
  World, Env, Event, transaction, read_clock, draw_uuid, draw_bytes, draw_nonce, read_monotonic,
  sleep, rpc, http, RpcRequest, RpcReply, HttpRequest, HttpReply, Datetime, aware, naive,
}

abbrev pub Exec : Type 0 → Type 0
Exec A = World → Result A × World

abbrev pub pure : {A : Type 0} → A → Exec A
pure a w = (ok a, w)

abbrev pub raise : {A : Type 0} → Exn → Exec A
raise e w = (err e, w)

abbrev pub lift : {A : Type 0} → Result A → Exec A
lift r w = (r, w)

abbrev pub continue : {A B : Type 0} → Result A → (A → Exec B) → Exec B
continue (ok a) f w = f a w
continue (err e) f w = (err e, w)

infixl 10 ◌>>=◌ ◌>>◌
unfoldable pub ◌>>=◌ : {A B : Type 0} → Exec A → (A → Exec B) → Exec B
◌>>=◌ m f w = continue (m w).0 f (m w).1

abbrev pub ◌>>◌ : {A B : Type 0} → Exec A → Exec B → Exec B
m >> n = m >>= λ _. n

abbrev pub handle : {A : Type 0} → Result A → (Exn → Exec A) → Exec A
handle (ok a) h w = (ok a, w)
handle (err e) h w = h e w

-- `try: m` with `except … as e: h e`; a handler that lets an exception through raises it again.
unfoldable pub try_except : {A : Type 0} → Exec A → (Exn → Exec A) → Exec A
try_except m h w = handle (m w).0 h (m w).1

abbrev pub succeeded : {A : Type 0} → Result A → Bool
succeeded (ok a) = true
succeeded (err e) = false

-- `try: m` with `except Exception: failed = True`: whether `m` returned.
unfoldable pub attempt : {A : Type 0} → Exec A → Exec Bool
attempt m w = (ok (succeeded (m w).0), (m w).1)

-- `for x in xs: body x`.
unfoldable pub for_each : {A : Type 0} → List A → (A → Exec (Unit {0})) → Exec (Unit {0})
unfolding ◌>>=◌
for_each [] body = pure tt
for_each (x ∷ xs) body = let rest = for_each xs body in body x >>= λ _. rest

abbrev pub record_event : World → Event → World
record_event w e = record w { history = e ∷ w.history }

module _ {A : Type 0} where
  abbrev pub committed : Result (A × Database) → World → Result A × World
  committed (ok (a, db)) w = (ok a, record w { db = db })
  committed (err e) w = (err e, w)

  -- db.py `session_scope`: the statements of `body` are one transaction, which is committed, or
  -- rolled back if they raise or SQLite fails.
  unfoldable pub session_scope : Env → (Database → Result (A × Database)) → Exec A
  session_scope env body w =
      let done = env.completes w.history in
      let w' = record_event w (transaction done) in
      if done then committed (body w.db) w' else (err operational_error, w')

-- `_utc`: a time without a timezone is refused.
unfoldable pub utc : Datetime → Result ℕ
utc (aware t) = ok t
utc (naive t) = err value_error

module _ (env : Env) where
  unfoldable pub now : Exec Datetime
  now w = (ok (env.clock w.history), record_event w read_clock)

  unfoldable pub new_uuid : Exec Bytes
  new_uuid w = (ok (env.uuid4 w.history), record_event w draw_uuid)

  unfoldable pub token_bytes : ℕ → Exec Bytes
  token_bytes n w = (ok (env.token_bytes w.history n), record_event w (draw_bytes n))

  unfoldable pub new_nonce : Exec Bytes
  new_nonce w = (ok (env.nonce w.history), record_event w draw_nonce)

  unfoldable pub call_rpc : RpcRequest → Exec RpcReply
  call_rpc request w = (
    ok (env.on_rpc w.history request),
    record_event w (rpc request (env.on_rpc w.history request)),
  )

  unfoldable pub call_http : HttpRequest → Exec HttpReply
  call_http request w = (
    ok (env.on_http w.history request),
    record_event w (http request (env.on_http w.history request)),
  )

  unfoldable pub monotonic : Exec ℕ
  monotonic w = (ok (env.monotonic w.history), record_event w read_monotonic)

  unfoldable pub pause_for : ℕ → Exec (Unit {0})
  pause_for t w = (ok tt, record_event w (sleep t))

  -- security/passwords.py `PasswordHasher.hash`, which draws a salt of 16 bytes.
  unfoldable pub hash_password : Text → Exec Text
  hash_password password w =
      (ok (env.argon2.hash w.history password), record_event w (draw_bytes 16))

  -- The time that SQLite puts in a column with a server default.
  unfoldable pub database_time : Exec ℕ
  database_time w = (ok (env.current_timestamp w.history), w)
