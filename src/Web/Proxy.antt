-- ===== src/Web/Proxy.antt =====
-- web/middleware.py: `_is_trusted_proxy` and `_forwarded_client`.
pub mod Origin
use ez_open_pn.Prelude.{
  ℕ, Bool, true, false, ◌||◌, not, Option, none, some, List, [], ◌∷◌, Text, bytes_eq, codes, any,
  ◌==◌, if◌then◌else◌,
}
use ez_open_pn.World.{Env}
use ez_open_pn.Encoding.{strip}

-- An address of `getaddrinfo` is that of the peer.
abbrev pub same_address : Text → Option Text → Bool
same_address direct none = false
same_address direct (some address) = bytes_eq address direct

-- `resolve` is `getaddrinfo`: the texts of the addresses of a host, `none` for an `OSError`.
abbrev pub resolved_to : (Text → Option Text) → Text → Option (List Text) → Bool
resolved_to ip direct none = false
resolved_to ip direct (some addresses) = any (λ a. same_address direct (ip a)) addresses

abbrev pub trusted_address :
    (Text → Option Text) → (Text → Option (List Text)) → List Text → Option Text → Bool
trusted_address ip resolve hosts none = false
trusted_address ip resolve hosts (some direct) =
    any (λ host. resolved_to ip direct (resolve host)) hosts

unfoldable pub is_trusted_proxy :
    (Text → Option Text) → (Text → Option (List Text)) → Text → List Text → Bool
is_trusted_proxy ip resolve direct hosts =
    any (bytes_eq direct) hosts || trusted_address ip resolve hosts (ip direct)

-- The client of a request: its peer, if there is one, and the header `X-Forwarded-For`, empty if it is
-- missing.
abbrev pub peer : Option Text → Text
peer none = codes "unknown"
peer (some host) = host

abbrev pub address_or : Text → Option Text → Text
address_or direct none = direct
address_or direct (some compressed) = compressed

unfoldable pub forwarded_client :
    Env → (Text → Option (List Text)) → Option Text → Text → List Text → Text
unfolding is_trusted_proxy strip
forwarded_client env resolve client header hosts =
    let direct = peer client in
    let forwarded = strip env.unicode.isspace header in
    if not (is_trusted_proxy env.texts.ip_address resolve direct hosts)
    then direct
    else if bytes_eq forwarded [] || any (λ c. c == b',') forwarded
    then direct
    else address_or direct (env.texts.ip_address forwarded)
