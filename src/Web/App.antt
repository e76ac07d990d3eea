-- ===== src/Web/App.antt =====
-- web/app.py `create_runtime_app`: the session service, as the settings have it.
pub mod Deadlines
use ez_open_pn.Prelude.{ℕ, ◌+◌, ◌*◌, ℤ, pos, negsuc, Bytes, ltb, leb}
use ez_open_pn.Errors.{Result, ok, require, overflow_error, ◌>>=◌, ◌>>◌}
use ez_open_pn.World.{Env}
use ez_open_pn.Config.{SessionSettings}
use ez_open_pn.Security.Sessions.{SessionService, new_service}

abbrev pub max_days : ℕ
max_days = 999999999

abbrev pub day_seconds : ℕ
day_seconds = 86400

-- `timedelta(seconds=…)`, in microseconds. It has from -`max_days` to `max_days` days, and less than
-- one day on top.
unfoldable pub timedelta : ℤ → Result ℤ
timedelta (pos n) =
    require (ltb n ((max_days + 1) * day_seconds)) overflow_error >> ok (pos (n * 1000000))
timedelta (negsuc n) =
    require (leb (n + 1) (max_days * day_seconds)) overflow_error
    >> ok (negsuc (n * 1000000 + 999999))

-- The arguments of `SessionService`.
unfoldable pub create_sessions : Env → SessionSettings → Bytes → Result SessionService
unfolding timedelta new_service
create_sessions env settings master_key = do
  idle_duration ← timedelta settings.idle_seconds
  absolute_duration ← timedelta settings.absolute_seconds
  new_service env master_key idle_duration absolute_duration
