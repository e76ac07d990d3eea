-- ===== src/Integrations/Hysteria.antt =====
-- integrations/hysteria.py: `HttpHysteriaClient.kick`.
use ez_open_pn.Prelude.{◌&&◌, [], ◌∷◌, Text, leb, ltb, if◌then◌else◌}
use ez_open_pn.Errors.{
  Result, ok, err, hysteria_runtime_unavailable, invalid_hysteria_runtime_identifier,
}
use ez_open_pn.World.{Env, HttpRequest, HttpReply, status, http_error}
use ez_open_pn.Exec.{Exec, lift, ◌>>=◌, call_http}
use ez_open_pn.Integrations.Xray.{is_runtime_id}

-- `_runtime_id`, by the pattern that integrations/xray.py has too.
unfoldable pub runtime_id : Text → Result Text
unfolding is_runtime_id
runtime_id value = if is_runtime_id value then ok value else err invalid_hysteria_runtime_identifier

abbrev pub kicked : HttpReply → Result (Unit {0})
kicked http_error = err hysteria_runtime_unavailable
kicked (status code) =
    if leb 200 code && ltb code 300 then ok tt else err hysteria_runtime_unavailable

module _ (env : Env) where
  unfoldable pub kick : Text → Exec (Unit {0})
  unfolding runtime_id
  kick id = do
    client ← lift (runtime_id id)
    reply ← call_http env (HttpRequest.kick (client ∷ []))
    lift (kicked reply)
