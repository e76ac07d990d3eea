-- ===== src/Examples/Forms.antt =====
-- The login form, the throttle and the clients: runs, and the theorems applied to them.
use ez_open_pn.Prelude.{
  ℕ, ◌+◌, ◌*◌, ◌≤◌, ◌≡◌, ◌≢◌, refl, true, false, none, some, List, [], ◌∷◌, ◌++◌, Bytes, codes,
  length, arith,
}
unfoldable use ez_open_pn.Prelude.{bytes_eq}
use ez_open_pn.Errors.{ok, err, out_of_fuel}
use ez_open_pn.World.{Env, World, Event, status, aware, sleep}
use ez_open_pn.Security.Throttle.{
  LoginThrottleService, register_failure, retry_after, clear, second,
}
use ez_open_pn.Security.Throttle.Blocking.{failure_blocks, delay_bounded, clear_unblocks}
use ez_open_pn.Web.Preauth.{PreAuthService, PreAuthChallenge, issue, consume, form_token}
use ez_open_pn.Web.Preauth.Once.{Accepted, attempt_all, consume_accepts, consumed_once}
use ez_open_pn.Web.Preauth.Issued.{issued_challenge_is_accepted}
use ez_open_pn.Web.Preauth.Challenges.{
  Operation, issuing, consuming, Challenges, answers_of, on_map, on_table,
}
use ez_open_pn.Web.Preauth.Challenges.Refines.{Represents, table_refines_map}
use ez_open_pn.Security.Secrets.{wrap_profile_key, unwrap_profile_key}
use ez_open_pn.Security.Secrets.RoundTrip.{unwrap-wrap}
use ez_open_pn.Integrations.Xray.{wait_ready, is_runtime_id}
use ez_open_pn.Integrations.Xray.Ready.{wait_ready_ends}
use ez_open_pn.Profiles.Service.{runtime_id}
use ez_open_pn.Profiles.Service.RuntimeIds.{runtime_id-IsRuntimeId, AreBytes}
use ez_open_pn.Examples.Outside.{
  outside, start, repeat, empty_tables, value_or, toy_crypto, toy_opens, toy_sealed, toy_hmac,
  ticks, load_number,
}

abbrev calm : Env
calm = outside (status 200)

abbrev service : PreAuthService
service = record { form_key = 1 ∷ []; store_key = 2 ∷ []; lifetime = 300000000 }

abbrev no_challenge : PreAuthChallenge
no_challenge = record { cookie_nonce = []; form_token = []; expires_at = 0 }

abbrev challenge : PreAuthChallenge
challenge = value_or no_challenge (issue calm service start).0

abbrev issued : World
issued = (issue calm service start).1

consume_run : (consume calm service challenge.cookie_nonce challenge.form_token issued).0 ≡ ok true
unfolding bytes_eq ez_open_pn.Exec.◌>>=◌ ez_open_pn.Exec.session_scope ez_open_pn.Exec.utc
    ez_open_pn.Exec.now ez_open_pn.Exec.token_bytes ez_open_pn.Examples.Outside.outside
    ez_open_pn.Web.Preauth.issue ez_open_pn.Web.Preauth.consume
consume_run = refl

consume_accepts_example :
    (form_token calm service challenge.cookie_nonce ≡ challenge.form_token)
    × ((t : ℕ) × (calm.clock issued.history ≡ aware t)
        × Accepted calm service challenge.cookie_nonce t issued.db)
consume_accepts_example =
    consume_accepts calm service issued challenge.cookie_nonce challenge.form_token consume_run

consumed_once_example :
    (consume calm service challenge.cookie_nonce challenge.form_token (
      attempt_all calm service
        (consume calm service challenge.cookie_nonce challenge.form_token issued).1
        ((challenge.cookie_nonce, codes "forged") ∷ []))).0
    ≢ ok true
consumed_once_example =
    consumed_once calm service ((challenge.cookie_nonce, codes "forged") ∷ []) issued
      challenge.cookie_nonce challenge.form_token challenge.form_token consume_run

completed : (h : List Event) → calm.completes h ≡ true
unfolding outside
completed h = refl

issue_run : (issue calm service start).0 ≡ ok challenge
unfolding bytes_eq ez_open_pn.Exec.◌>>=◌ ez_open_pn.Exec.session_scope ez_open_pn.Exec.utc
    ez_open_pn.Exec.now ez_open_pn.Exec.token_bytes ez_open_pn.Examples.Outside.outside
    ez_open_pn.Web.Preauth.issue
issue_run = refl

digests : (key value : Bytes) → length (calm.crypto.hmac_sha256 key value) ≡ 32
unfolding outside
digests key value = toy_hmac key value

loads : (time : ℕ) → calm.texts.load_expiry (calm.texts.dump_expiry time) ≡ some (aware time)
unfolding outside load_number
loads time = refl

clock_run : calm.clock issued.history ≡ aware 3000000
unfolding bytes_eq ez_open_pn.Exec.◌>>=◌ ez_open_pn.Exec.session_scope ez_open_pn.Exec.utc
    ez_open_pn.Exec.now ez_open_pn.Exec.token_bytes ez_open_pn.Examples.Outside.outside
    ez_open_pn.Web.Preauth.issue
clock_run = refl

expiry_run : challenge.expires_at ≡ 300000000
unfolding bytes_eq ez_open_pn.Exec.◌>>=◌ ez_open_pn.Exec.session_scope ez_open_pn.Exec.utc
    ez_open_pn.Exec.now ez_open_pn.Exec.token_bytes ez_open_pn.Examples.Outside.outside
    ez_open_pn.Web.Preauth.issue
expiry_run = refl

issued_challenge_is_accepted_example :
    (consume calm service challenge.cookie_nonce challenge.form_token issued).0 ≡ ok true
issued_challenge_is_accepted_example =
    issued_challenge_is_accepted calm service start challenge 3000000 digests loads issue_run
      clock_run (omega (arith, expiry_run)) (completed _)

abbrev throttle : LoginThrottleService
throttle = record { ip_key = 1 ∷ []; login_key = 2 ∷ [] }

abbrev failed : World
failed = (register_failure calm throttle (codes "192.0.2.7") (codes "root") (aware 5) start).1

-- The second failure costs two seconds.
failure_run :
    (register_failure calm throttle (codes "192.0.2.7") (codes "root") (aware 6) failed).0
    ≡ ok 2000000
unfolding bytes_eq ez_open_pn.Exec.◌>>=◌ ez_open_pn.Exec.session_scope ez_open_pn.Exec.utc
    ez_open_pn.Exec.new_uuid ez_open_pn.Examples.Outside.outside
    ez_open_pn.Security.Throttle.register_failure
failure_run = refl

failure_blocks_example :
    (r : ℕ) × ((retry_after calm throttle
        (codes "192.0.2.7")
        (codes "root")
        (aware 7)
        (register_failure calm throttle (codes "192.0.2.7") (codes "root") (aware 6) failed).1).0
      ≡ ok r)
    × (6 + 2000000 ≤ 7 + r)
failure_blocks_example =
    failure_blocks calm throttle (codes "192.0.2.7") (codes "root") failed 6 7 2000000 failure_run
      (completed _)

delay_bounded_example : (second ≤ 2000000) × (2000000 ≤ 30 * second)
delay_bounded_example =
    delay_bounded calm throttle (codes "192.0.2.7") (codes "root") failed 6 2000000 failure_run

clear_run : (clear calm throttle (codes "192.0.2.7") (codes "root") failed).0 ≡ ok tt
unfolding ez_open_pn.Exec.session_scope ez_open_pn.Examples.Outside.outside
    ez_open_pn.Security.Throttle.clear
clear_run = refl

clear_unblocks_example :
    (retry_after calm throttle
      (codes "192.0.2.7")
      (codes "root")
      (aware 7)
      (clear calm throttle (codes "192.0.2.7") (codes "root") failed).1).0
    ≡ ok 0
clear_unblocks_example =
    clear_unblocks calm throttle (codes "192.0.2.7") (codes "root") failed 7 clear_run (completed _)

forward : (e : Event) (h : List Event) → calm.monotonic h ≤ calm.monotonic (e ∷ h)
unfolding outside ticks
forward (sleep t) h = omega arith
forward _ h = omega arith

slept : (t : ℕ) (h : List Event) → calm.monotonic h + t ≤ calm.monotonic (sleep t ∷ h)
unfolding outside ticks
slept t h = omega arith

wait_ready_ends_example : (wait_ready calm 6000000 start).0 ≢ err out_of_fuel
wait_ready_ends_example = wait_ready_ends calm 6000000 start forward slept

abbrev key : Bytes
key = repeat 32 5

wrap_run :
    wrap_profile_key toy_crypto (codes "master") (repeat 24 0) (codes "alice") key
    ≡ ok (1 ∷ (repeat 40 0 ++ key))
unfolding ez_open_pn.Security.Secrets.wrap_profile_key ez_open_pn.Examples.Outside.outside
wrap_run = refl

unwrap-wrap_example :
    unwrap_profile_key toy_crypto (codes "master") (codes "alice") (1 ∷ (repeat 40 0 ++ key))
    ≡ ok key
unwrap-wrap_example =
    unwrap-wrap toy_crypto (codes "master") (repeat 24 0) (codes "alice") key
      (1 ∷ (repeat 40 0 ++ key)) toy_opens toy_sealed toy_hmac wrap_run

abbrev drawn_bytes : Bytes
drawn_bytes = 0 ∷ 1 ∷ 2 ∷ 3 ∷ 4 ∷ 5 ∷ 6 ∷ 7 ∷ 8 ∷ 9 ∷ 10 ∷ 11 ∷ 12 ∷ 13 ∷ 14 ∷ 15 ∷ 255 ∷ []

runtime_id-IsRuntimeId_example :
    (is_runtime_id (runtime_id drawn_bytes) ≡ true) × (length (runtime_id drawn_bytes) ≡ 28)
runtime_id-IsRuntimeId_example = runtime_id-IsRuntimeId drawn_bytes are_bytes refl
  where
    are_bytes : AreBytes drawn_bytes
    are_bytes = (
      omega arith,
      (
        omega arith,
        (
          omega arith,
          (
            omega arith,
            (
              omega arith,
              (
                omega arith,
                (
                  omega arith,
                  (
                    omega arith,
                    (
                      omega arith,
                      (
                        omega arith,
                        (
                          omega arith,
                          (
                            omega arith,
                            (
                              omega arith,
                              (omega arith, (omega arith, (omega arith, (omega arith, tt)))),
                            ),
                          ),
                        ),
                      ),
                    ),
                  ),
                ),
              ),
            ),
          ),
        ),
      ),
    )

-- A challenge is stored, taken out, and asked for again.
abbrev three_operations : List Operation
three_operations =
    issuing 300000000 5 (record {
      key = codes "preauth:a";
      value_json = calm.texts.dump_expiry 300000005;
      updated_at = 5;
    })
    ∷ consuming (codes "preauth:a") 6
    ∷ consuming (codes "preauth:a") 7
    ∷ []

abbrev nothing_stored : Challenges
nothing_stored _ = none

empty-Represents : Represents nothing_stored empty_tables
unfolding ez_open_pn.Web.Preauth.state_of
empty-Represents = record { unique = tt; same = λ _. refl }

table_refines_map_example :
    answers_of (on_table calm service) empty_tables three_operations
    ≡ answers_of (on_map calm) nothing_stored three_operations
table_refines_map_example =
    table_refines_map calm service three_operations nothing_stored empty_tables empty-Represents

three_answers :
    answers_of (on_table calm service) empty_tables three_operations
    ≡ ok true ∷ ok true ∷ ok false ∷ []
unfolding answers_of on_table repeat bytes_eq outside ez_open_pn.Exec.utc
three_answers = refl
