-- ===== src/Web/App/Deadlines.antt =====
-- web/app.py, config.py and security/sessions.py: which of the accepted deadlines the service starts with.
use ez_open_pn.Prelude.{
  ℕ, ◌*◌, ◌≤◌, ◌<◌, ◌≡◌, ◌⊎◌, refl, subst, true, false, ◌&&◌, ℤ, pos, negsuc, is_positive, int_le,
  Bytes, codes, length, leb, ltb, lt→ltb, arith, Bool-cases, inl, inr, ltb→lt, leb→le,
}
use ez_open_pn.Errors.{ok, err, value_error, overflow_error, require-eq-ok, require, ◌>>=◌, ◌>>◌}
use ez_open_pn.World.{Env}
use ez_open_pn.Security.Secrets.{require_key}
use ez_open_pn.Security.Sessions.{SessionService, new_service}
use ez_open_pn.Config.{SessionSettings, validate_deadlines}
use ez_open_pn.Web.App.{timedelta, create_sessions}

-- The deadlines as natural numbers.
pub record Deadlines (s : SessionSettings) : Type 0 where
  pub idle : ℕ
  pub absolute : ℕ
  pub idle_seconds : s.idle_seconds ≡ pos idle
  pub absolute_seconds : s.absolute_seconds ≡ pos absolute
  pub positive : 1 ≤ idle
  pub ordered : idle ≤ absolute

deadlines :
    (s : SessionSettings) (idle absolute : ℤ)
    → s.idle_seconds ≡ idle
    → s.absolute_seconds ≡ absolute
    → (is_positive idle && is_positive absolute) ≡ true
    → int_le idle absolute ≡ true
    → Deadlines s
deadlines s (pos i) (pos a) e f p o = record {
  idle = i;
  absolute = a;
  idle_seconds = e;
  absolute_seconds = f;
  positive = ground arith;
  ordered = leb→le i a o;
}
deadlines s (pos i) (negsuc a) e f p o = absurd cc
deadlines s (negsuc i) a e f p o = absurd cc

validate-Deadlines :
    (s checked : SessionSettings) → validate_deadlines s ≡ ok checked → Deadlines s × (s ≡ checked)
unfolding validate_deadlines
validate-Deadlines s checked h =
    let first =
      require-eq-ok (is_positive s.idle_seconds && is_positive s.absolute_seconds) value_error
        (require (int_le s.idle_seconds s.absolute_seconds) value_error >> ok s) h in
    let second =
      require-eq-ok (int_le s.idle_seconds s.absolute_seconds) value_error (ok s) first.1 in
    (deadlines s s.idle_seconds s.absolute_seconds refl refl first.0 second.0, cc (second.1))

-- 999999999 days and what is less than one more.
abbrev pub limit : ℕ
limit = 86400000000000

-- The service has the deadlines, in microseconds.
pub record HasDeadlines (service : SessionService) (idle absolute : ℕ) : Type 0 where
  pub idle_duration : service.idle_duration ≡ idle * 1000000
  pub absolute_duration : service.absolute_duration ≡ absolute * 1000000

module _ (env : Env) (key : Bytes) (size : length key ≡ 32) where
  started :
      (idle absolute : ℕ)
      → 1 ≤ idle
      → idle ≤ absolute
      → (service : SessionService) × (new_service env key
            (pos (idle * 1000000))
            (pos (absolute * 1000000))
          ≡ ok service)
        × HasDeadlines service idle absolute
  unfolding new_service require_key
  started idle absolute low high = (
    service,
    rw (above idle low, above absolute (omega arith), below, size) refl,
    record { idle_duration = refl; absolute_duration = refl },
  )
    where
      service : SessionService
      service = record {
        session_key = env.crypto.hmac_sha256 key (codes "ezopenpn/session/v1");
        csrf_key = env.crypto.hmac_sha256 key (codes "ezopenpn/csrf/v1");
        idle_duration = idle * 1000000;
        absolute_duration = absolute * 1000000;
      }

      above : (n : ℕ) → 1 ≤ n → ltb 0 (n * 1000000) ≡ true
      above n h = ground arith

      below : leb (idle * 1000000) (absolute * 1000000) ≡ true
      below = ground arith

  timedelta-small : (n : ℕ) → n < limit → timedelta (pos n) ≡ ok (pos (n * 1000000))
  unfolding timedelta
  timedelta-small n h = rw (lt→ltb n limit h) refl

  timedelta-large : (n : ℕ) → limit ≤ n → timedelta (pos n) ≡ err overflow_error
  unfolding timedelta
  timedelta-large n h = rw (not_below) refl
    where
      not_below : ltb n limit ≡ false
      not_below = ground arith

  -- How the service starts with these deadlines.
  Starts : SessionSettings → ℕ → ℕ → Type 0
  Starts settings idle absolute =
      ((limit ≤ absolute) × (create_sessions env settings key ≡ err overflow_error))
      ⊎ ((absolute < limit)
          × (service : SessionService) × (create_sessions env settings key ≡ ok service)
          × HasDeadlines service idle absolute)

  starts : (settings : SessionSettings) (d : Deadlines settings) → Starts settings d.idle d.absolute
  unfolding create_sessions Starts
  starts settings d = elim (Bool-cases (ltb d.absolute limit)) [
    | inl e ↦
        let small = ltb→lt d.absolute limit e in
        let s = started d.idle d.absolute d.positive d.ordered in
        inr (
          small,
          s.0,
          rw
              (
                d.idle_seconds,
                d.absolute_seconds,
                timedelta-small d.idle (omega (arith, small, d.ordered)),
                timedelta-small d.absolute small,
              )
              s.1,
          s.2,
        )
    | inr e ↦
        let large : limit ≤ d.absolute = ground arith in
        inl (
          large,
          rw (d.idle_seconds, d.absolute_seconds) (refuse large (Bool-cases (ltb d.idle limit))),
        )
  ]
    where
      refuse :
          limit ≤ d.absolute
          → (ltb d.idle limit ≡ true) ⊎ (ltb d.idle limit ≡ false)
          → (timedelta (pos d.idle) >>= λ i.
              timedelta (pos d.absolute) >>= λ a. new_service env key i a)
            ≡ err overflow_error
      refuse large (inl e) =
          rw (timedelta-small d.idle (ltb→lt d.idle limit e), timedelta-large d.absolute large) refl
      refuse large (inr e) = rw (timedelta-large d.idle (ground arith)) refl

-- With deadlines that the configuration accepts, which are positive and in order, and a master key of
-- 32 bytes, the session service starts and has these deadlines, if the longer one fits a `timedelta`,
-- that is, if it is less than 86400000000000 seconds; if it does not, `OverflowError` is raised.
pub validated_sessions_start :
    (env : Env) (s checked : SessionSettings) (master_key : Bytes)
    → validate_deadlines s ≡ ok checked
    → length master_key ≡ 32
    → (d : Deadlines s) × (((limit ≤ d.absolute)
          × (create_sessions env checked master_key ≡ err overflow_error))
        ⊎ ((d.absolute < limit)
            × (service : SessionService) × (create_sessions env checked master_key ≡ ok service)
            × HasDeadlines service d.idle d.absolute))
unfolding Starts
validated_sessions_start env s checked key h size =
    let v = validate-Deadlines s checked h in
    (v.0, subst (λ c. Starts env key size c v.0.idle v.0.absolute) v.1 (starts env key size s v.0))
