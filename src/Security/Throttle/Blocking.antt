-- ===== src/Security/Throttle/Blocking.antt =====
-- security/throttle.py: `register_failure` refuses the next attempts, and `clear` lifts that.
use ez_open_pn.Prelude.{
  ℕ, ◌+◌, ◌*◌, max, ◌≤◌, ◌≡◌, refl, ◌∙◌, ap, Bool, true, not, List, [], ◌∷◌, Bytes, Text, select,
  arith, Bool-cases, inl, inr,
}
use ez_open_pn.Errors.{ok}
use ez_open_pn.Models.{LoginThrottle, Database}
use ez_open_pn.World.{Env, World, aware}
use ez_open_pn.Exec.{◌>>=◌, session_scope, utc, new_uuid}
use ez_open_pn.Exec.Keeps.{Ensures, Ensures-bind, Ensures-session_scope, Ensures-ok}
use ez_open_pn.Security.Throttle.{
  LoginThrottleService, second, remaining, is_either, register_rows, identities, register_failure,
  retry_after, clear,
}
use ez_open_pn.Security.Throttle.Delays.{register-remaining, delay-bounds}

module _ (env : Env) (service : LoginThrottleService) (ip login : Text) where
  -- What `register_failure` returns and leaves.
  record Registered (t : ℕ) (db : Database) (d : ℕ) (after : Database) : Type 0 where
    i : Bytes
    j : Bytes
    delay : d ≡ (register_rows t i j (identities env service ip login) db).0 * second
    rows : after ≡ (register_rows t i j (identities env service ip login) db).1

  register-Registered :
      (t : ℕ) (db : Database)
      → Ensures
          (λ w. w.db ≡ db)
          (register_failure env service ip login (aware t))
          (λ d w. Registered t db d w.db)
          (λ _ _. Unit {0})
  unfolding register_failure utc new_uuid
  register-Registered t db =
      Ensures-bind {Q = λ s w. (s ≡ t) × (w.db ≡ db)} _ _ (record { at = λ w h. (refl, h) })
        λ s.
          Ensures-bind _ _ (record { at = λ w h. h })
            λ i.
              Ensures-bind _ _ (record { at = λ w h. h })
                λ j.
                  Ensures-bind _ _
                    (Ensures-session_scope env (λ x. (s ≡ t) × (x ≡ db))
                      (λ d after.
                        (d ≡ (register_rows t i j (identities env service ip login) db).0)
                        × (after ≡ (register_rows t i j (identities env service ip login) db).1))
                      (λ _ _. Unit {0}) _
                      (λ x h. (
                        ap (λ y. (register_rows y i j (identities env service ip login) x).0) h.0
                            ∙ ap (λ y. (register_rows t i j (identities env service ip login) y).0)
                                h.1,
                        ap (λ y. (register_rows y i j (identities env service ip login) x).1) h.0
                            ∙ ap (λ y. (register_rows t i j (identities env service ip login) y).1)
                                h.1,
                      ))
                      (λ x h. tt))
                    λ d. record {
                      at = λ w h. record {
                        i = i;
                        j = j;
                        delay = ap (λ n. n * second) h.0;
                        rows = h.1;
                      };
                    }

  retry-completed :
      (w : World) (t : ℕ)
      → env.completes w.history ≡ true
      → (retry_after env service ip login (aware t) w).0
        ≡ ok (
            remaining t (select (is_either (identities env service ip login)) w.db.login_throttles))
  unfolding retry_after utc session_scope ◌>>=◌
  retry-completed w t h = rw h refl

  reached :
      (t later : ℕ) (i j : Bytes) (db : Database)
      → t + (register_rows t i j (identities env service ip login) db).0 * second
        ≤ later
          + remaining later (
              select
                (is_either (identities env service ip login))
                (register_rows t i j (identities env service ip login) db).1.login_throttles)
  unfolding identities
  reached t later i j db = register-remaining t later i j _ _ db

  -- After `register_failure` has returned a delay, `retry_after` with the same address and login
  -- answers, at every moment, at least what is left of the delay, if SQLite completes the query.
  pub failure_blocks :
      (w : World) (t later d : ℕ)
      → (register_failure env service ip login (aware t) w).0 ≡ ok d
      → env.completes (register_failure env service ip login (aware t) w).1.history ≡ true
      → (r : ℕ) × ((retry_after env service ip login
            (aware later)
            (register_failure env service ip login (aware t) w).1).0
          ≡ ok r)
        × (t + d ≤ later + r)
  failure_blocks w t later d registered done =
      let k = Ensures-ok (register-Registered t w.db) w refl registered in
      (_, retry-completed _ later done, rw (k.delay, k.rows) (reached t later k.i k.j w.db))

  -- A delay of `register_failure` is at least a second and at most thirty.
  pub delay_bounded :
      (w : World) (t d : ℕ)
      → (register_failure env service ip login (aware t) w).0 ≡ ok d
      → (second ≤ d) × (d ≤ 30 * second)
  unfolding register_rows
  delay_bounded w t d registered =
      let k = Ensures-ok (register-Registered t w.db) w refl registered in
      rw (k.delay) (bounded _ _ (delay-bounds _) (delay-bounds _))
    where
      bounded :
          (a b : ℕ)
          → (1 ≤ a) × (a ≤ 30)
          → (1 ≤ b) × (b ≤ 30)
          → (second ≤ max a b * second) × (max a b * second ≤ 30 * second)
      bounded a b h k = (ground arith, ground arith)

  none_left :
      (p : LoginThrottle → Bool) (t : ℕ) (rows : List LoginThrottle)
      → remaining t (select p (select (λ row. not (p row)) rows)) ≡ 0
  unfolding remaining
  none_left p t [] = refl
  none_left p t (row ∷ rest) = elim (Bool-cases (p row)) [
    | inl e ↦ rw e (none_left p t rest)
    | inr e ↦ rw (e, e) (none_left p t rest)
  ]

  clear-Ensures :
      (t : ℕ)
      → Ensures
          (λ _. Unit {0})
          (clear env service ip login)
          (λ _ w.
            remaining t (select (is_either (identities env service ip login)) w.db.login_throttles)
            ≡ 0)
          (λ _ _. Unit {0})
  unfolding clear
  clear-Ensures t =
      Ensures-session_scope env (λ _. Unit {0})
        (λ _ db.
          remaining t (select (is_either (identities env service ip login)) db.login_throttles) ≡ 0)
        (λ _ _. Unit {0}) _
        (λ db h. none_left (is_either (identities env service ip login)) t db.login_throttles)
        (λ db h. tt)

  -- Once `clear` has returned, an attempt with that address and login need not wait, if SQLite
  -- completes the query.
  pub clear_unblocks :
      (w : World) (later : ℕ)
      → (clear env service ip login w).0 ≡ ok tt
      → env.completes (clear env service ip login w).1.history ≡ true
      → (retry_after env service ip login (aware later) (clear env service ip login w).1).0 ≡ ok 0
  clear_unblocks w later cleared done =
      retry-completed _ later done ∙ ap ok (Ensures-ok (clear-Ensures later) w tt cleared)
