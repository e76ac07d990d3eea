-- ===== src/Web/Preauth.antt =====
-- web/preauth.py: `PreAuthService`, the one-time challenge of the login form.
pub mod Challenges
pub mod Issued
pub mod Once
use ez_open_pn.Prelude.{
  ℕ, ◌+◌, Bool, true, false, ◌&&◌, ◌||◌, not, Option, none, some, List, [], ◌∷◌, ◌++◌, Bytes, Text,
  codes, bytes_eq, isascii, length, length_within, select, any, ltb, ◌==◌, if◌then◌else◌,
}
use ez_open_pn.Errors.{Result, ok, err, require, value_error, integrity_error}
use ez_open_pn.Errors
use ez_open_pn.Models.{SystemState, Database}
use ez_open_pn.World.{Env, Datetime}
use ez_open_pn.Exec.{Exec, pure, lift, ◌>>=◌, ◌>>◌, session_scope, utc, now, token_bytes}
use ez_open_pn.Encoding.{url_token, hex}
use ez_open_pn.Security.Secrets.{require_key}
use ez_open_pn.Security.Sessions.{is_token_text}

pub record PreAuthChallenge : Type 0 where
  pub cookie_nonce : Text
  pub form_token : Text
  pub expires_at : ℕ

-- The fields that `__init__` sets, without the engine, the clock and the random bytes, which are the
-- world's; the lifetime is in microseconds.
pub record PreAuthService : Type 0 where
  pub form_key : Bytes
  pub store_key : Bytes
  pub lifetime : ℕ

abbrev pub state_prefix : Text
state_prefix = codes "preauth:"

-- LIKE 'preauth:%', which SQLite matches without regard to the case of ASCII letters.
abbrev pub lower_ascii : ℕ → ℕ
lower_ascii c = if ltb c 91 && ltb 64 c then c + 32 else c

unfoldable pub has_prefix : Text → Text → Bool
has_prefix [] text = true
has_prefix (c ∷ cs) [] = false
has_prefix (c ∷ cs) (d ∷ ds) = (lower_ascii d == c) && has_prefix cs ds

-- WHERE key LIKE … AND updated_at < timestamp - lifetime.
abbrev pub is_stale : ℕ → ℕ → SystemState → Bool
is_stale lifetime timestamp s =
    has_prefix state_prefix s.key && ltb (s.updated_at + lifetime) timestamp

-- SELECT … WHERE key = key, and DELETE … WHERE key = key.
unfoldable pub state_of : Text → List SystemState → Option SystemState
state_of key [] = none
state_of key (s ∷ rest) = if bytes_eq s.key key then some s else state_of key rest

unfoldable pub delete_state : Text → List SystemState → List SystemState
delete_state key = select (λ s. not (bytes_eq s.key key))

-- The constraints of models.py on a new row.
abbrev pub state_insertable : SystemState → List SystemState → Bool
state_insertable s rows = not (any (λ r. bytes_eq r.key s.key) rows) && length_within 1 128 s.key

-- The unit of work of `issue`.
unfoldable pub issue_rows : ℕ → ℕ → SystemState → Database → Result (Unit {0} × Database)
unfolding has_prefix
issue_rows lifetime timestamp s db =
    let rest = select (λ r. not (is_stale lifetime timestamp r)) db.system_state in
    if state_insertable s rest
    then ok (tt, record db { system_state = s ∷ rest })
    else err integrity_error

module _ (env : Env) where
  -- `PreAuthService.__init__`, with `_derive`.
  unfoldable pub new_service : Bytes → ℕ → Result PreAuthService
  unfolding require_key
  new_service master_key lifetime = Errors.◌>>◌ (require (ltb 0 lifetime) value_error) (
      Errors.◌>>◌ (require_key master_key) (
        ok (record {
          form_key = env.crypto.hmac_sha256 master_key (codes "ezopenpn/preauth-form/v1");
          store_key = env.crypto.hmac_sha256 master_key (codes "ezopenpn/preauth-store/v1");
          lifetime = lifetime;
        })))

  -- `_token`.
  unfoldable pub new_token : Exec Text
  unfolding url_token
  new_token = do
    value ← token_bytes env 32
    lift (if length value == 32 then ok (url_token value) else err value_error)

  -- `_utc(expires_at) > timestamp`, where the text may hold no date.
  abbrev pub is_alive : ℕ → Option Datetime → Result Bool
  is_alive timestamp none = ok false
  is_alive timestamp (some value) =
      Errors.◌>>=◌ (utc value) (λ expires_at. ok (ltb timestamp expires_at))

  module _ (service : PreAuthService) where
    -- `_form_token`, `_state_key`.
    unfoldable pub form_token : Text → Text
    unfolding url_token
    form_token nonce = url_token (env.crypto.hmac_sha256 service.form_key nonce)

    unfoldable pub state_key : Text → Text
    unfolding hex
    state_key nonce = state_prefix ++ hex (env.crypto.hmac_sha256 service.store_key nonce)

    unfoldable pub issue : Exec PreAuthChallenge
    unfolding new_token form_token state_key issue_rows
    issue = do
      value ← now env
      timestamp ← lift (utc value)
      let expires_at = timestamp + service.lifetime
      nonce ← new_token
      session_scope env (
          issue_rows service.lifetime timestamp (record {
            key = state_key nonce;
            value_json = env.texts.dump_expiry expires_at;
            updated_at = timestamp;
          }))
      pure (record { cookie_nonce = nonce; form_token = form_token nonce; expires_at = expires_at })

    -- The unit of work of `consume` with what the query found.
    abbrev pub consume_state : Text → ℕ → Database → Option SystemState → Result (Bool × Database)
    consume_state key timestamp db none = ok (false, db)
    consume_state key timestamp db (some s) =
        Errors.◌>>=◌ (is_alive timestamp (env.texts.load_expiry s.value_json))
          λ alive. ok (alive, record db { system_state = delete_state key db.system_state })

    unfoldable pub consume_rows : Text → ℕ → Database → Result (Bool × Database)
    unfolding state_of delete_state
    consume_rows key timestamp db = consume_state key timestamp db (state_of key db.system_state)

    unfoldable pub consume : Text → Text → Exec Bool
    unfolding form_token state_key consume_rows
    consume cookie_nonce presented =
        if not (is_token_text cookie_nonce && is_token_text presented)
        then pure false
        else if not (bytes_eq (form_token cookie_nonce) presented)
        then pure false
        else (do
          value ← now env
          timestamp ← lift (utc value)
          session_scope env (consume_rows (state_key cookie_nonce) timestamp))
