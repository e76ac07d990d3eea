-- ===== src/Served.antt =====
-- Xray's users, as far as the history of calls determines them. A call that was answered took
-- effect; one that failed may or may not have. `may_serve` bounds the users from above and
-- `must_serve` from below. The answer 202 of the supervisor (runtime/internal/supervisor) means that
-- Xray was started anew, and a new Xray has no users.
use ez_open_pn.Prelude.{
  Bool, false, ◌&&◌, ◌||◌, not, List, [], ◌∷◌, Text, bytes_eq, ◌==◌, if◌then◌else◌,
}
use ez_open_pn.World.{Event, RpcRequest, HttpRequest, rpc, http, response, status}

-- The effect of an event on whether a client is served, from above.
abbrev pub may_after : Text → Event → Bool → Bool
may_after id (rpc (RpcRequest.add_user tag email user flow) reply) served =
    bytes_eq email id || served
may_after id (rpc (RpcRequest.remove_user tag email) (response users)) served =
    not (bytes_eq email id) && served
may_after id (http HttpRequest.restart (status code)) served = if code == 202 then false else served
may_after id _ served = served

-- The effect from below.
abbrev pub must_after : Text → Event → Bool → Bool
must_after id (rpc (RpcRequest.add_user tag email user flow) (response users)) served =
    bytes_eq email id || served
must_after id (rpc (RpcRequest.remove_user tag email) reply) served =
    not (bytes_eq email id) && served
must_after id (http HttpRequest.restart reply) served = false
must_after id _ served = served

-- `initial` tells which clients the Xray of the beginning had.
unfoldable pub may_serve : (Text → Bool) → Text → List Event → Bool
may_serve initial id [] = initial id
may_serve initial id (e ∷ h) = may_after id e (may_serve initial id h)

unfoldable pub must_serve : Text → List Event → Bool
must_serve id [] = false
must_serve id (e ∷ h) = must_after id e (must_serve id h)
