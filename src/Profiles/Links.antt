-- ===== src/Profiles/Links.antt =====
-- profiles/links.py: the share links of a profile, and `ProfileLinkService`.
use Prim.Native.String.{String}
use ez_open_pn.Prelude.{
  ℕ, Bool, ◌&&◌, ◌||◌, not, Option, none, some, List, [], ◌∷◌, ◌++◌, Bytes, Text, codes, length,
  length_within, isascii, all, any, leb, ◌==◌, if◌then◌else◌,
}
use ez_open_pn.Errors.{
  Exn, Result, ok, err, require, ◌>>=◌, ◌>>◌, catch, value_error, crypto_error, unicode_error,
  profile_links_unavailable,
}
use ez_open_pn.Models.{active}
use ez_open_pn.World.{Env, Deployment}
use ez_open_pn.Exec.{Exec, pure}
use ez_open_pn.Exec
use ez_open_pn.Encoding.{quote, urlencode, decimal, uuid_text, b64encode, url_token}
use ez_open_pn.Security.Secrets.{unwrap_profile_key, decrypt}
use ez_open_pn.Integrations.Xray.{vision_flow}
use ez_open_pn.Profiles.Types.{LinkBundle, ProfileRecord, profile_value_context}
use ez_open_pn.Profiles.Tables.Query.{state_eq}
use ez_open_pn.Profiles.Repository.{find_by_subscription_token}

abbrev pub is_hex : ℕ → Bool
is_hex c = (leb b'0' c && leb c b'9') || (leb b'a' c && leb c b'f')

-- `TransportLinkConfig.__post_init__`.
unfoldable pub check_link_config : (ℕ → Bool) → Deployment → Result (Unit {0})
check_link_config isspace d = do
  require (plain d.reality_public_key && plain d.hysteria_obfs_password) value_error
  require (length_within 2 16 d.reality_short_id && all is_hex d.reality_short_id) value_error
  require (is_port d.public_port && is_port d.panel_port) value_error
  where
    plain : Text → Bool
    plain value = not (length value == 0) && (isascii value && not (any isspace value))

    is_port : ℕ → Bool
    is_port port = leb 1 port && leb port 65535

-- `build_vless_link`, from the fields of `VlessMaterial`.
unfoldable pub build_vless_link : Deployment → Bytes → Text → Text
unfolding quote urlencode decimal uuid_text
build_vless_link d user_id label =
    codes "vless://"
    ++ (quote (uuid_text user_id)
        ++ (codes "@"
            ++ (d.host
                ++ (codes ":"
                    ++ (decimal d.public_port
                        ++ (codes "?" ++ (urlencode query ++ (codes "#" ++ quote label))))))))
  where
    query : List (Text × Text)
    query =
        (codes "type", codes "tcp")
        ∷ (codes "security", codes "reality")
        ∷ (codes "encryption", codes "none")
        ∷ (codes "flow", vision_flow)
        ∷ (codes "pbk", d.reality_public_key)
        ∷ (codes "fp", codes "chrome")
        ∷ (codes "sni", d.host)
        ∷ (codes "sid", d.reality_short_id)
        ∷ []

-- `build_hysteria_link`, from the fields of `HysteriaMaterial`.
unfoldable pub build_hysteria_link : Deployment → Text → Text → Text
unfolding quote urlencode decimal
build_hysteria_link d secret label =
    codes "hysteria2://"
    ++ (quote secret
        ++ (codes "@"
            ++ (d.host
                ++ (codes ":"
                    ++ (decimal d.public_port
                        ++ (codes "/?" ++ (urlencode query ++ (codes "#" ++ quote label))))))))
  where
    query : List (Text × Text)
    query =
        (codes "obfs", codes "salamander") ∷ (codes "obfs-password", d.hysteria_obfs_password) ∷ []

-- `build_subscription`; a link is ASCII, so its UTF-8 is itself.
unfoldable pub build_subscription : Text → Text → Text
unfolding b64encode
build_subscription vless_link hysteria_link =
    b64encode (vless_link ++ (codes "\n" ++ hysteria_link))

-- `UUID(bytes=value)`.
abbrev pub uuid_of : Bytes → Result Bytes
uuid_of value = if length value == 16 then ok value else err value_error

-- `bytes.decode("ascii")`.
abbrev pub decode_ascii : Bytes → Result Text
decode_ascii value = if isascii value then ok value else err unicode_error

-- The material key of a record, `none` when the key was cleared.
abbrev pub wrapped_of : Exn → Option Bytes → Result Bytes
wrapped_of e none = err e
wrapped_of e (some wrapped) = ok wrapped

-- `except (CryptoError, UnicodeError, ValueError)`.
abbrev pub unavailable_links : {A : Type 0} → Exn → Result A
unavailable_links crypto_error = err profile_links_unavailable
unavailable_links unicode_error = err profile_links_unavailable
unavailable_links value_error = err profile_links_unavailable
unavailable_links e = err e

module _ (env : Env) where
  -- The `try` of `_plaintext`.
  unfoldable pub decrypted : ProfileRecord → Bytes → Result (Bytes × Text × Text)
  unfolding unwrap_profile_key decrypt profile_value_context url_token
  decrypted r wrapped = do
    key ← unwrap_profile_key env.crypto env.deployment.master_key r.profile_id wrapped
    user_value ← decrypt env.crypto key r.user_id_ciphertext (context "user-id")
    user_id ← uuid_of user_value
    hysteria_value ← decrypt env.crypto key r.hysteria_secret_ciphertext (context "hysteria-auth")
    token_value ←
        decrypt env.crypto key r.subscription_token_ciphertext (context "subscription-token")
    subscription_token ← decode_ascii token_value
    ok (user_id, url_token hysteria_value, subscription_token)
    where
      context : String → Bytes
      context field_name = profile_value_context r.profile_id (codes field_name)

  unfoldable pub plaintext : ProfileRecord → Result (Bytes × Text × Text)
  unfolding decrypted
  plaintext r = do
    wrapped ← wrapped_of profile_links_unavailable r.wrapped_profile_key
    material ← catch (decrypted r wrapped) unavailable_links
    require (length_within 1 128 material.2 && isascii material.2) profile_links_unavailable
    ok material

  unfoldable pub bundle_for_record : ProfileRecord → Result LinkBundle
  unfolding plaintext build_vless_link build_hysteria_link quote decimal
  bundle_for_record r = do
    require (state_eq r.state active) profile_links_unavailable
    material ← plaintext r
    ok (record {
      combined_url =
          codes "https://"
          ++ (env.deployment.host
              ++ (codes ":"
                  ++ (decimal env.deployment.panel_port ++ (codes "/s/" ++ quote material.2))));
      vless_link = build_vless_link env.deployment material.0 r.name;
      hysteria_link = build_hysteria_link env.deployment material.1 r.name;
    })

  -- What `subscription_for_token` makes of the record that it found.
  unfoldable pub subscription_of : Option ProfileRecord → Result (Option Text)
  subscription_of none = ok none
  subscription_of (some r) =
      if not (state_eq r.state active)
      then ok none
      else catch
          (do
            bundle ← bundle_for_record r
            ok (some (build_subscription bundle.vless_link bundle.hysteria_link)))
          no_links
    where
      no_links : Exn → Result (Option Text)
      no_links profile_links_unavailable = ok none
      no_links e = err e

  unfoldable pub subscription_for_token : Text → Exec (Option Text)
  subscription_for_token token =
      Exec.◌>>=◌ (find_by_subscription_token env token) (λ found. Exec.lift (subscription_of found))
