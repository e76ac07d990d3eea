-- ===== src/Security/Throttle/Delays.antt =====
-- security/throttle.py: how long a login is refused after a failure.
use ez_open_pn.Prelude.{
  ℕ, zero, suc, ◌+◌, ◌-◌, ◌*◌, ◌^◌, max, ◌≤◌, ◌≡◌, refl, Bool, true, false, ◌&&◌, ◌||◌, Option,
  none, some, List, [], ◌∷◌, Bytes, bytes_eq, bytes_eq_refl, select, any, arith, ltb, ◌==◌, ==_iff,
  Bool-cases, inl, inr,
}
use ez_open_pn.Models.{ThrottleScope, LoginThrottle, Database}
use ez_open_pn.Security.Throttle.{
  is_row, scope_eq, delay_seconds, second, fresh_throttle, decayed, counted, count_failure,
  remaining, time_left, is_either, register_rows,
}

-- The row is blocked until a time.
abbrev is_until : ℕ → Option ℕ → Bool
is_until u none = false
is_until u (some v) = v == u

abbrev is_blocked : ThrottleScope × Bytes → ℕ → LoginThrottle → Bool
is_blocked key u row = is_row key row && is_until u row.blocked_until

abbrev deadline : ℕ → LoginThrottle → ℕ
deadline t row = t + delay_seconds row.failure_count * second

decayed-is_row :
    (key : ThrottleScope × Bytes) (t : ℕ) (row : LoginThrottle)
    → is_row key (decayed t row) ≡ is_row key row
decayed-is_row key t row = elim (Bool-cases (ltb (row.last_failed_at + 900000000) t)) [
  | inl e ↦ rw e refl
  | inr e ↦ rw e refl
]

counted-blocked :
    (key : ThrottleScope × Bytes) (t : ℕ) (row : LoginThrottle)
    → is_row key row ≡ true
    → is_blocked key (deadline t (counted t row)) (counted t row) ≡ true
unfolding counted
counted-blocked key t row h =
    rw
      (
        decayed-is_row key t row,
        h,
        (==_iff (t + delay_seconds ((decayed t row).failure_count + 1) * second) _).1 refl,
      )
      refl

scope_eq_refl : (s : ThrottleScope) → scope_eq s s ≡ true
scope_eq_refl ThrottleScope.ip = refl
scope_eq_refl ThrottleScope.login = refl

fresh-is_row :
    (id : Bytes) (key : ThrottleScope × Bytes) (t : ℕ) → is_row key (fresh_throttle id key t) ≡ true
fresh-is_row id key t = rw (scope_eq_refl key.0, bytes_eq_refl key.1) refl

count-blocked :
    (t : ℕ) (id : Bytes) (key : ThrottleScope × Bytes) (rows : List LoginThrottle)
    → any
        (is_blocked key (deadline t (count_failure t id key rows).1))
        (count_failure t id key rows).0
      ≡ true
unfolding count_failure
count-blocked t id key [] =
    rw (counted-blocked key t (fresh_throttle id key t) (fresh-is_row id key t)) refl
count-blocked t id key (row ∷ rest) = elim (Bool-cases (is_row key row)) [
  | inl e ↦ rw e (rw (counted-blocked key t row e) refl)
  | inr e ↦ rw e (or_right _ _ (count-blocked t id key rest))
]
  where
    or_right : (a b : Bool) → b ≡ true → a || b ≡ true
    or_right a b h = ground arith

-- A row of one scope is not a row of the other.
other_scope :
    (d e : Bytes) (row : LoginThrottle)
    → is_row (ThrottleScope.login, e) row ≡ true
    → is_row (ThrottleScope.ip, d) row ≡ false
other_scope d e row h = go row.scope h
  where
    go :
        (s : ThrottleScope)
        → scope_eq s ThrottleScope.login && bytes_eq row.key_digest e ≡ true
        → scope_eq s ThrottleScope.ip && bytes_eq row.key_digest d ≡ false
    go ThrottleScope.ip h = cc
    go ThrottleScope.login h = refl

count-keeps :
    (t u : ℕ) (id d e : Bytes) (rows : List LoginThrottle)
    → any (is_blocked (ThrottleScope.ip, d) u) rows ≡ true
    → any (is_blocked (ThrottleScope.ip, d) u) (count_failure t id (ThrottleScope.login, e) rows).0
      ≡ true
unfolding count_failure
count-keeps t u id d e [] h = cc
count-keeps t u id d e (row ∷ rest) h = elim (Bool-cases (is_row (ThrottleScope.login, e) row)) [
  | inl x ↦ rw x (or_right _ _ (rw (other_scope d e row x) at h))
  | inr x ↦ rw x (or_cases _ _ _ h (count-keeps t u id d e rest))
]
  where
    or_right : (a b : Bool) → b ≡ true → a || b ≡ true
    or_right a b h = ground arith

    or_cases : (a b c : Bool) → a || b ≡ true → (b ≡ true → c ≡ true) → a || c ≡ true
    or_cases a b c h k = ground arith

time_left-until : (t u : ℕ) (o : Option ℕ) → is_until u o ≡ true → u ≤ t + time_left t o
time_left-until t u none h = cc
time_left-until t u (some v) h = ground arith

-- The remaining time reaches the deadline of every row among those that count.
remaining-until :
    (t u : ℕ) (p q : LoginThrottle → Bool)
    → ((r : LoginThrottle) → q r ≡ true → p r ≡ true)
    → (rows : List LoginThrottle) → any (λ r. q r && is_until u r.blocked_until) rows ≡ true
    → u ≤ t + remaining t (select p rows)
unfolding remaining
remaining-until t u p q sub [] h = cc
remaining-until t u p q sub (r ∷ rest) h = elim (Bool-cases (q r && is_until u r.blocked_until)) [
  | inl e ↦
      rw (sub r (and_left _ _ e))
        (omega (arith, time_left-until t u r.blocked_until (and_right _ _ e)))
  | inr e ↦ elim (Bool-cases (p r)) [
    | inl x ↦ rw x (omega (arith, remaining-until t u p q sub rest (rw e at h)))
    | inr x ↦ rw x (remaining-until t u p q sub rest (rw e at h))
  ]
]
  where
    and_left : (a b : Bool) → a && b ≡ true → a ≡ true
    and_left a b h = ground arith

    and_right : (a b : Bool) → a && b ≡ true → b ≡ true
    and_right a b h = ground arith

abbrev pub Keys : Type 0
Keys = (ThrottleScope × Bytes) × (ThrottleScope × Bytes)

abbrev pub keys_of : Bytes → Bytes → Keys
keys_of d e = ((ThrottleScope.ip, d), (ThrottleScope.login, e))

or_left : (a b : Bool) → a ≡ true → a || b ≡ true
or_left a b h = ground arith

or_right : (a b : Bool) → b ≡ true → a || b ≡ true
or_right a b h = ground arith

-- After the unit of work of a failure, the remaining time of every later moment reaches its end.
pub register-remaining :
    (t later : ℕ) (i j d e : Bytes) (db : Database)
    → let o = register_rows t i j (keys_of d e) db in
      t + o.0 * second
      ≤ later + remaining later (select (is_either (keys_of d e)) o.1.login_throttles)
unfolding register_rows
register-remaining t later i j d e db =
    let one = count_failure t i (ThrottleScope.ip, d) db.login_throttles in
    let two = count_failure t j (ThrottleScope.login, e) one.0 in
    let a = delay_seconds one.1.failure_count in
    let b = delay_seconds two.1.failure_count in
    let p = is_either (keys_of d e) in
    let first =
      remaining-until later (deadline t one.1) p (is_row (ThrottleScope.ip, d))
        (λ r h. or_left _ _ h) two.0
        (count-keeps t (deadline t one.1) j d e one.0
          (count-blocked t i (ThrottleScope.ip, d) db.login_throttles)) in
    let last =
      remaining-until later (deadline t two.1) p (is_row (ThrottleScope.login, e))
        (λ r h. or_right _ _ h) two.0 (count-blocked t j (ThrottleScope.login, e) one.0) in
    longest a b first last
  where
    longest : (a b : ℕ) {x : ℕ} → t + a * second ≤ x → t + b * second ≤ x → t + max a b * second ≤ x
    longest a b h k = ground arith

pow-positive : (n : ℕ) → 1 ≤ 2 ^ n
pow-positive zero = omega arith
pow-positive (suc n) = omega (arith, pow-positive n)

pub delay-bounds : (n : ℕ) → (1 ≤ delay_seconds n) × (delay_seconds n ≤ 30)
unfolding delay_seconds
delay-bounds n = (omega (arith, pow-positive (n - 1)), omega arith)
