-- ===== src/Integrations/Supervisor.antt =====
-- integrations/supervisor.py: `UnixXraySupervisorClient.restart`.
use ez_open_pn.Prelude.{◌==◌, if◌then◌else◌}
use ez_open_pn.Errors.{Result, ok, err, supervisor_unavailable}
use ez_open_pn.World.{Env, HttpRequest, HttpReply, status, http_error}
use ez_open_pn.Exec.{Exec, lift, ◌>>=◌, call_http}

abbrev pub accepted : HttpReply → Result (Unit {0})
accepted http_error = err supervisor_unavailable
accepted (status code) = if code == 202 then ok tt else err supervisor_unavailable

module _ (env : Env) where
  unfoldable pub restart : Exec (Unit {0})
  restart = do reply ← call_http env HttpRequest.restart; lift (accepted reply)
