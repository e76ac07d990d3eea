-- ===== src/Web/Preauth/Challenges.antt =====
-- What web/preauth.py promises of its challenges: a map from keys to what is stored under them.
pub mod Refines
use ez_open_pn.Prelude.{
  ℕ, Bool, true, false, ◌&&◌, not, Option, none, some, List, [], ◌∷◌, Text, bytes_eq, length_within,
  if◌then◌else◌,
}
use ez_open_pn.Errors.{Result, ok, err, integrity_error}
use ez_open_pn.Errors
use ez_open_pn.Models.{SystemState, Database}
use ez_open_pn.World.{Env}
use ez_open_pn.Web.Preauth.{PreAuthService, is_stale, is_alive, issue_rows, consume_rows}

abbrev pub Challenges : Type 0
Challenges = Text → Option SystemState

abbrev pub kept : (SystemState → Bool) → Option SystemState → Option SystemState
kept p none = none
kept p (some s) = if p s then some s else none

abbrev pub is_none : Option SystemState → Bool
is_none none = true
is_none (some s) = false

-- Those that are stale at a time are forgotten.
abbrev pub fresh : ℕ → ℕ → Challenges → Challenges
fresh lifetime timestamp c key = kept (λ r. not (is_stale lifetime timestamp r)) (c key)

abbrev pub with_challenge : SystemState → Challenges → Challenges
with_challenge s c key = if bytes_eq s.key key then some s else c key

abbrev pub without : Text → Challenges → Challenges
without key c other = if bytes_eq key other then none else c other

-- A challenge is added under a key that nothing is stored under.
unfoldable pub add : ℕ → ℕ → SystemState → Challenges → Result (Unit {0} × Challenges)
add lifetime timestamp s c =
    if is_none (fresh lifetime timestamp c s.key) && length_within 1 128 s.key
    then ok (tt, with_challenge s (fresh lifetime timestamp c))
    else err integrity_error

-- A challenge is taken out, whether it is alive or not.
abbrev pub take_stored :
    Env → Text → ℕ → Challenges → Option SystemState → Result (Bool × Challenges)
take_stored env key timestamp c none = ok (false, c)
take_stored env key timestamp c (some s) =
    Errors.◌>>=◌ (is_alive env timestamp (env.texts.load_expiry s.value_json))
      λ alive. ok (alive, without key c)

unfoldable pub take_out : Env → Text → ℕ → Challenges → Result (Bool × Challenges)
take_out env key timestamp c = take_stored env key timestamp c (c key)

-- A unit of work of `issue` or `consume`.
pub data Operation : Type 0 where
  issuing : ℕ → ℕ → SystemState → Operation
  consuming : Text → ℕ → Operation

abbrev pub answer : {A S : Type 0} → (A → Bool) → S → Result (A × S) → Result Bool × S
answer f s (ok (a, after)) = (ok (f a), after)
answer f s (err e) = (err e, s)

-- A unit of work that raises changes nothing.
unfoldable pub on_map : Env → Operation → Challenges → Result Bool × Challenges
unfolding add take_out
on_map env (issuing lifetime timestamp s) c = answer (λ u. true) c (add lifetime timestamp s c)
on_map env (consuming key timestamp) c = answer (λ b. b) c (take_out env key timestamp c)

unfoldable pub on_table : Env → PreAuthService → Operation → Database → Result Bool × Database
unfolding issue_rows consume_rows
on_table env service (issuing lifetime timestamp s) db =
    answer (λ u. true) db (issue_rows lifetime timestamp s db)
on_table env service (consuming key timestamp) db =
    answer (λ b. b) db (consume_rows env service key timestamp db)

-- The answers to a sequence of operations.
unfoldable pub answers_of :
    {S : Type 0} → (Operation → S → Result Bool × S) → S → List Operation → List (Result Bool)
answers_of step s [] = []
answers_of step s (operation ∷ rest) =
    let after = answers_of step (step operation s).1 rest in (step operation s).0 ∷ after
