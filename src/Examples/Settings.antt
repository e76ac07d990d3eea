-- ===== src/Examples/Settings.antt =====
-- Settings and addresses: the theorems applied to concrete ones.
use ez_open_pn.Prelude.{
  bytes_eq, pos, negsuc, ◌≤◌, ◌<◌, ◌≡◌, refl, true, false, ◌⊎◌, Option, none, some, List, [], ◌∷◌,
  Bytes, Text, codes, length,
}
use ez_open_pn.Errors.{ok, err, ◌>>=◌, overflow_error, value_error}
use ez_open_pn.World.{Env, status}
use ez_open_pn.Security.Sessions.{SessionService}
use ez_open_pn.Config.{SessionSettings, validate_deadlines, SecretPath, read_secret}
use ez_open_pn.Config.Checks.{Safe, read_secret-Safe}
use ez_open_pn.Web.App.{create_sessions}
use ez_open_pn.Web.App.Deadlines.{Deadlines, HasDeadlines, limit, validated_sessions_start}
use ez_open_pn.Web.Proxy.{forwarded_client}
use ez_open_pn.Web.Proxy.Origin.{Forwards, forwarded_client-Forwards}
use ez_open_pn.Examples.Outside.{outside, repeat}

abbrev calm : Env
calm = outside (status 200)

abbrev key : Bytes
key = repeat 32 7

abbrev key_path : SecretPath
key_path = record {
  is_link = some false;
  opened = some (record { is_regular = true; mode = 384; content = key });
}

key_run : read_secret key_path ≡ ok key
unfolding read_secret repeat
key_run = refl

read_secret-Safe_example : Safe key_path key
read_secret-Safe_example = read_secret-Safe key_path key key_run

-- Twelve hours and seven days.
abbrev deadlines : SessionSettings
deadlines = record { idle_seconds = pos 43200; absolute_seconds = pos 604800 }

deadlines_run : validate_deadlines deadlines ≡ ok deadlines
unfolding validate_deadlines
deadlines_run = refl

key_size : length key ≡ 32
unfolding repeat
key_size = refl

validated_sessions_start_example :
    (d : Deadlines deadlines) × (((limit ≤ d.absolute)
        × (create_sessions calm deadlines key ≡ err overflow_error))
      ⊎ ((d.absolute < limit)
          × (service : SessionService) × (create_sessions calm deadlines key ≡ ok service)
          × HasDeadlines service d.idle d.absolute))
validated_sessions_start_example =
    validated_sessions_start calm deadlines deadlines key deadlines_run key_size

-- Ten to the fourteenth seconds are accepted, but are more than a `timedelta` holds.
abbrev endless : SessionSettings
endless = record { idle_seconds = pos 43200; absolute_seconds = pos 100000000000000 }

endless_run :
    (validate_deadlines endless >>= λ checked. create_sessions calm checked key)
    ≡ err overflow_error
unfolding validate_deadlines create_sessions
endless_run = refl

-- Deadlines below zero are refused.
negative_run :
    validate_deadlines (record { idle_seconds = negsuc 0; absolute_seconds = pos 604800 })
    ≡ err value_error
unfolding validate_deadlines
negative_run = refl

abbrev unknown_hosts : Text → Option (List Text)
unknown_hosts host = none

-- Every text is an address in its compressed form.
abbrev addressed : Env
addressed = record calm { texts = record calm.texts { ip_address = λ t. some t } }

abbrev seen : Text
seen =
    forwarded_client addressed unknown_hosts (some (codes "gateway")) (codes " 192.0.2.9 ")
      (codes "gateway" ∷ [])

forwarded_client-Forwards_example :
    Forwards addressed unknown_hosts
      (codes "gateway")
      (codes " 192.0.2.9 ")
      (codes "gateway" ∷ [])
      seen
    ⊎ (((address : Text)
          → ¬ Forwards addressed unknown_hosts
              (codes "gateway")
              (codes " 192.0.2.9 ")
              (codes "gateway" ∷ [])
              address)
        × (seen ≡ codes "gateway"))
forwarded_client-Forwards_example =
    forwarded_client-Forwards addressed unknown_hosts (some (codes "gateway")) (codes " 192.0.2.9 ")
      (codes "gateway" ∷ [])

seen_run : seen ≡ codes "192.0.2.9"
unfolding forwarded_client bytes_eq outside
seen_run = refl
