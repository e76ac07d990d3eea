-- ===== src/Security/Throttle.antt =====
-- security/throttle.py: `LoginThrottleService`. Times and delays are microseconds.
pub mod Delays
pub mod Blocking
use ez_open_pn.Prelude.{
  ℕ, ◌+◌, ◌-◌, ◌*◌, ◌^◌, min, max, Bool, true, false, ◌&&◌, ◌||◌, not, Option, none, some, List, [],
  ◌∷◌, ◌++◌, Bytes, Text, codes, bytes_eq, select, take, leb, ltb, ◌==◌, if◌then◌else◌,
}
use ez_open_pn.Errors.{Result, ok, err, require}
use ez_open_pn.Errors
use ez_open_pn.Models.{ThrottleScope, LoginThrottle, Database}
use ez_open_pn.World.{Env, Datetime}
use ez_open_pn.Exec.{Exec, pure, lift, ◌>>=◌, session_scope, utc, new_uuid}
use ez_open_pn.Encoding.{strip, utf8}
use ez_open_pn.Security.Secrets.{require_key}

-- `_DECAY_WINDOW`, `_MAX_DELAY_SECONDS`, and `timedelta(seconds=1)`.
abbrev pub decay_window : ℕ
decay_window = 900000000

abbrev pub max_delay_seconds : ℕ
max_delay_seconds = 30

abbrev pub second : ℕ
second = 1000000

-- The fields that `__init__` sets, without the engine.
pub record LoginThrottleService : Type 0 where
  pub ip_key : Bytes
  pub login_key : Bytes

abbrev pub scope_eq : ThrottleScope → ThrottleScope → Bool
scope_eq ThrottleScope.ip ThrottleScope.ip = true
scope_eq ThrottleScope.login ThrottleScope.login = true
scope_eq _ _ = false

-- WHERE scope = … AND key_digest = ….
abbrev pub is_row : ThrottleScope × Bytes → LoginThrottle → Bool
is_row key row = scope_eq row.scope key.0 && bytes_eq row.key_digest key.1

-- The delay after a failure, in seconds.
unfoldable pub delay_seconds : ℕ → ℕ
delay_seconds failure_count = min max_delay_seconds (2 ^ (failure_count - 1))

-- The row that `register_failure` adds when there is none.
abbrev pub fresh_throttle : Bytes → ThrottleScope × Bytes → ℕ → LoginThrottle
fresh_throttle id key timestamp = record {
  id = id;
  scope = key.0;
  key_digest = key.1;
  failure_count = 0;
  window_started_at = timestamp;
  last_failed_at = timestamp;
  blocked_until = none;
}

-- `timestamp - stored.last_failed_at > _DECAY_WINDOW`: the count starts again.
abbrev pub decayed : ℕ → LoginThrottle → LoginThrottle
decayed timestamp row =
    if ltb (row.last_failed_at + decay_window) timestamp
    then record row { failure_count = 0; window_started_at = timestamp }
    else row

-- The changes of one failure to a row.
unfoldable pub counted : ℕ → LoginThrottle → LoginThrottle
unfolding delay_seconds
counted timestamp stored =
    let row = decayed timestamp stored in
    record row {
      failure_count = row.failure_count + 1;
      last_failed_at = timestamp;
      blocked_until = some (timestamp + delay_seconds (row.failure_count + 1) * second);
    }

-- The row of the key is changed in place; if there is none, the changed fresh row is added.
unfoldable pub count_failure :
    ℕ → Bytes → ThrottleScope × Bytes → List LoginThrottle → List LoginThrottle × LoginThrottle
unfolding counted
count_failure timestamp id key [] =
    let row = counted timestamp (fresh_throttle id key timestamp) in (row ∷ [], row)
count_failure timestamp id key (row ∷ rest) =
    let tail = count_failure timestamp id key rest in
    if is_row key row
    then (counted timestamp row ∷ rest, counted timestamp row)
    else (row ∷ tail.0, tail.1)

-- The remaining time of a row that is blocked, and the longest of several.
abbrev pub time_left : ℕ → Option ℕ → ℕ
time_left timestamp none = 0
time_left timestamp (some until) = if ltb timestamp until then until - timestamp else 0

unfoldable pub remaining : ℕ → List LoginThrottle → ℕ
remaining timestamp [] = 0
remaining timestamp (row ∷ rest) =
    max (time_left timestamp row.blocked_until) (remaining timestamp rest)

abbrev pub is_either : (ThrottleScope × Bytes) × (ThrottleScope × Bytes) → LoginThrottle → Bool
is_either keys row = is_row keys.0 row || is_row keys.1 row

-- The unit of work of `register_failure`: the longest delay, in seconds.
unfoldable pub register_rows :
    ℕ → Bytes → Bytes → (ThrottleScope × Bytes) × (ThrottleScope × Bytes) → Database → ℕ × Database
unfolding count_failure delay_seconds
register_rows timestamp ip_id login_id keys db =
    let first = count_failure timestamp ip_id keys.0 db.login_throttles in
    let second_one = count_failure timestamp login_id keys.1 first.0 in
    (
      max (delay_seconds first.1.failure_count) (delay_seconds second_one.1.failure_count),
      record db { login_throttles = second_one.0 },
    )

module _ (env : Env) where
  -- `LoginThrottleService.__init__`, with `_derive_key`.
  unfoldable pub new_service : Bytes → Result LoginThrottleService
  unfolding require_key
  new_service master_key = Errors.◌>>◌ (require_key master_key) (
      ok (record {
        ip_key = env.crypto.hmac_sha256 master_key (codes "ezopenpn/login-throttle-ip/v1");
        login_key = env.crypto.hmac_sha256 master_key (codes "ezopenpn/login-throttle-login/v1");
      }))

  -- `normalized_ip`.
  abbrev pub peer_bytes : Text → Option Text → Bytes
  peer_bytes direct_peer none = utf8 (codes "peer:" ++ env.unicode.casefold (take 255 direct_peer))
  peer_bytes direct_peer (some compressed) = compressed

  unfoldable pub normalized_ip : Text → Bytes
  unfolding strip utf8
  normalized_ip ip =
      let direct_peer = strip env.unicode.isspace ip in
      peer_bytes direct_peer (env.texts.ip_address direct_peer)

  unfoldable pub normalized_login : Text → Bytes
  unfolding strip utf8
  normalized_login login =
      utf8 (env.unicode.casefold (strip env.unicode.isspace (env.unicode.nfkc (take 1024 login))))

  module _ (service : LoginThrottleService) where
    -- `_identities`.
    unfoldable pub identities : Text → Text → (ThrottleScope × Bytes) × (ThrottleScope × Bytes)
    unfolding normalized_ip normalized_login
    identities ip login = (
      (ThrottleScope.ip, env.crypto.hmac_sha256 service.ip_key (normalized_ip ip)),
      (ThrottleScope.login, env.crypto.hmac_sha256 service.login_key (normalized_login login)),
    )

    unfoldable pub register_failure : Text → Text → Datetime → Exec ℕ
    unfolding identities register_rows
    register_failure ip login now = do
      timestamp ← lift (utc now)
      ip_id ← new_uuid env
      login_id ← new_uuid env
      longest_delay ←
          session_scope env
            (λ db. ok (register_rows timestamp ip_id login_id (identities ip login) db))
      pure (longest_delay * second)

    unfoldable pub retry_after : Text → Text → Datetime → Exec ℕ
    unfolding identities remaining
    retry_after ip login now = do
      timestamp ← lift (utc now)
      session_scope env λ db.
          ok (remaining timestamp (select (is_either (identities ip login)) db.login_throttles), db)

    unfoldable pub clear : Text → Text → Exec (Unit {0})
    unfolding identities
    clear ip login = session_scope env λ db. ok (
      tt,
      record db {
        login_throttles =
            select (λ row. not (is_either (identities ip login) row)) db.login_throttles;
      },
    )
