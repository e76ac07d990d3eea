-- ===== src/Web/Hysteria.antt =====
-- web/routes/hysteria_auth.py: the question of Hysteria whether a client may connect.
pub mod Lookup
pub mod Admission
use ez_open_pn.Prelude.{
  ℕ, Bool, true, false, ◌&&◌, ◌||◌, not, Option, none, some, List, [], ◌∷◌, Bytes, Text, codes,
  bytes_eq, isascii, length, length_within, leb, if◌then◌else◌, any, all,
}
use ez_open_pn.Errors.{Exn, operational_error, integrity_error, multiple_results_found}
use ez_open_pn.Models.{active}
use ez_open_pn.World.{Env}
use ez_open_pn.Exec.{Exec, pure, raise, ◌>>=◌, try_except}
use ez_open_pn.Profiles.Types.{ProfileRecord}
use ez_open_pn.Profiles.Tables.Query.{state_eq}
use ez_open_pn.Profiles.Repository.{find_by_hysteria_secret}

-- A value that `json.loads` gives, as far as the handler tells values apart: a negative number and a
-- floating one are among the others.
pub data JsonValue : Type 0 where
  json_text : Text → JsonValue
  json_number : ℕ → JsonValue
  json_other : JsonValue

-- The answer `{"ok": …, "id": …}`.
pub record Verdict : Type 0 where
  pub ok : Bool
  pub id : Text

abbrev pub denied : Verdict
denied = record { ok = false; id = [] }

-- `_MAX_BODY_BYTES`, and the greatest `tx`.
abbrev pub max_body_bytes : ℕ
max_body_bytes = 2048

abbrev pub max_tx : ℕ
max_tx = 9223372036854775807

-- `value.get(key)` of a dictionary, whose keys are distinct.
unfoldable pub field : Text → List (Text × JsonValue) → JsonValue
field key [] = json_other
field key ((k, v) ∷ rest) = if bytes_eq k key then v else field key rest

-- `set(value) == {"addr", "auth", "tx"}`.
abbrev pub expected_key : Text → Bool
expected_key key =
    bytes_eq key (codes "addr") || (bytes_eq key (codes "auth") || bytes_eq key (codes "tx"))

abbrev pub has_key : List (Text × JsonValue) → Text → Bool
has_key value key = any (λ p. bytes_eq p.0 key) value

unfoldable pub has_fields : List (Text × JsonValue) → Bool
has_fields value =
    all (λ p. expected_key p.0) value
    && (has_key value (codes "addr")
        && (has_key value (codes "auth") && has_key value (codes "tx")))

-- The tests of the three fields; the result is the secret.
unfoldable pub fields_of : JsonValue → JsonValue → JsonValue → Option Text
fields_of (json_text address) (json_text auth) (json_number tx) =
    if length_within 1 512 address && (length_within 1 512 auth && (isascii auth && leb tx max_tx))
    then some auth
    else none
fields_of _ _ _ = none

-- `_payload` of a body of that length; `none` stands for what is no JSON object.
unfoldable pub payload : ℕ → Option (List (Text × JsonValue)) → Option Text
unfolding field has_fields fields_of
payload size none = none
payload size (some value) =
    if not (leb 1 size && leb size max_body_bytes)
    then none
    else if not (has_fields value)
    then none
    else fields_of (field (codes "addr") value) (field (codes "auth") value)
        (field (codes "tx") value)

-- `except SQLAlchemyError`.
abbrev pub storage_failed : Exn → Exec Verdict
storage_failed operational_error = pure denied
storage_failed integrity_error = pure denied
storage_failed multiple_results_found = pure denied
storage_failed e = raise e

-- The verdict on what the repository found.
abbrev pub verdict_of : Option ProfileRecord → Verdict
verdict_of none = denied
verdict_of (some r) =
    if state_eq r.state active then record { ok = true; id = r.runtime_id } else denied

module _ (env : Env) where
  abbrev pub judge : Option Text → Exec Verdict
  judge none = pure denied
  judge (some auth) =
      try_except (find_by_hysteria_secret env auth >>= λ found. pure (verdict_of found))
        storage_failed

  unfoldable pub authorize : ℕ → Option (List (Text × JsonValue)) → Exec Verdict
  unfolding payload
  authorize size parsed = judge (payload size parsed)
