-- ===== src/Examples/Guests.antt =====
-- The question of Hysteria, run on tables with one active profile.
use ez_open_pn.Prelude.{◌≡◌, refl, true, Option, none, some, List, [], ◌∷◌, Bytes, Text, codes}
unfoldable use ez_open_pn.Prelude.{bytes_eq}
use ez_open_pn.Errors.{ok}
use ez_open_pn.Models.{active, subscription, hysteria_auth, Database}
use ez_open_pn.World.{Env, World, status}
use ez_open_pn.Web.Hysteria.{JsonValue, json_text, json_number, Verdict, payload, authorize}
use ez_open_pn.Web.Hysteria.Admission.{Admitted, authorize_admits}
use ez_open_pn.Examples.Outside.{outside, start, empty_tables, digest}

abbrev calm : Env
calm = outside (status 200)

-- The digest of "secret" as a Hysteria lookup.
abbrev secret_digest : Bytes
secret_digest =
    calm.crypto.hmac_sha256
      (calm.crypto.hmac_sha256 calm.deployment.master_key (codes "ezopenpn/lookup/v1"))
      (codes "ezopenpn/hysteria-auth/v1:secret")

abbrev tables : Database
tables = record empty_tables {
  profiles =
      record {
        id = 1 ∷ [];
        name = codes "alice";
        state = active;
        runtime_id = codes "p_aaaaaaaaaaaaaaaaaaaaaaaaaa";
        wrapped_profile_key = none;
        user_id_ciphertext = [];
        hysteria_secret_ciphertext = [];
        subscription_token_ciphertext = [];
        last_error_code = none;
        created_at = 0;
        updated_at = 0;
        disabled_at = none;
      }
      ∷ [];
  profile_lookups =
      record {
        id = 1 ∷ [];
        profile_id = 1 ∷ [];
        kind = subscription;
        lookup_digest = 1 ∷ [];
        created_at = 0;
      }
      ∷ record {
        id = 2 ∷ [];
        profile_id = 1 ∷ [];
        kind = hysteria_auth;
        lookup_digest = secret_digest;
        created_at = 0;
      }
      ∷ [];
}

abbrev world : World
world = record start { db = tables }

abbrev question : Option (List (Text × JsonValue))
question = some (
    (codes "addr", json_text (codes "192.0.2.9:5"))
    ∷ (codes "auth", json_text (codes "secret"))
    ∷ (codes "tx", json_number 0)
    ∷ [])

abbrev verdict : Verdict
verdict = record { ok = true; id = codes "p_aaaaaaaaaaaaaaaaaaaaaaaaaa" }

authorize_run : (authorize calm 60 question world).0 ≡ ok verdict
unfolding bytes_eq ez_open_pn.Exec.◌>>=◌ ez_open_pn.Exec.try_except ez_open_pn.Exec.session_scope
    ez_open_pn.Security.Secrets.lookup_digest ez_open_pn.Security.Secrets.lookup_key
    ez_open_pn.Profiles.Types.hysteria_lookup_value ez_open_pn.Profiles.Tables.Query.digests
    ez_open_pn.Profiles.Tables.Query.one_or_none ez_open_pn.Profiles.Tables.Query.lookup_pairs
    ez_open_pn.Profiles.Tables.Query.joined_twice ez_open_pn.Profiles.Tables.Query.hysteria_rows
    ez_open_pn.Profiles.Tables.Query.find_row ez_open_pn.Profiles.Repository.find_by_hysteria_secret
    ez_open_pn.Web.Hysteria.field ez_open_pn.Web.Hysteria.has_fields
    ez_open_pn.Web.Hysteria.fields_of ez_open_pn.Web.Hysteria.payload
    ez_open_pn.Web.Hysteria.authorize ez_open_pn.Examples.Outside.repeat
    ez_open_pn.Examples.Outside.mix ez_open_pn.Examples.Outside.digest
    ez_open_pn.Examples.Outside.toy_crypto ez_open_pn.Examples.Outside.outside
authorize_run = refl

authorize_admits_example :
    (auth : Text) × (payload 60 question ≡ some auth) × Admitted calm tables auth verdict.id
authorize_admits_example = authorize_admits calm world 60 question verdict authorize_run refl
