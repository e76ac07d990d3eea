-- ===== src/Exec/Keeps.antt =====
-- A logic of actions that may raise. `Ensures P m Q E`: from a world with `P` the action `m` either
-- returns a value and a world that `Q` relates, or raises and leaves a world with `E`. One rule for
-- each way to build an action.
use ez_open_pn.Prelude.{refl, ◌≡◌, subst, if◌then◌else◌, Bool, true, false, List, [], ◌∷◌}
use ez_open_pn.Errors.{Exn, Result, ok, err, operational_error}
use ez_open_pn.Models.{Database}
use ez_open_pn.World.{World, Env, transaction}
use ez_open_pn.Exec.{
  Exec, continue, handle, ◌>>=◌, try_except, attempt, for_each, session_scope, record_event,
  committed,
}

abbrev pub Outcome :
    {A : Type 0} → (A → World → Type 0) → (Exn → World → Type 0) → Result A → World → Type 0
Outcome Q E (ok a) w = Q a w
Outcome Q E (err e) w = E e w

pub record Ensures {A : Type 0} (P : World → Type 0) (m : Exec A) (Q : A → World → Type 0)
    (E : Exn → World → Type 0) : Type 0 where
  pub at : (w : World) → P w → Outcome Q E (m w).0 (m w).1

-- `P` holds afterwards too, whether `m` returns or raises.
abbrev pub Keeps : {A : Type 0} → (World → Type 0) → Exec A → Type 0
Keeps P m = Ensures P m (λ _. P) (λ _. P)

module _ {A : Type 0} (P : World → Type 0) where
  either_way : (r : Result A) (w : World) → Outcome (λ _. P) (λ _. P) r w → P w
  either_way (ok a) w h = h
  either_way (err e) w h = h

module _ {A : Type 0} {P : World → Type 0} where
  -- What an action keeps holds of the world after it.
  pub keeps_at : {m : Exec A} → Keeps P m → (w : World) → P w → P (m w).1
  keeps_at {m} k w h = either_way P (m w).0 (m w).1 (k.at w h)

module _ {A : Type 0} {Q : A → World → Type 0} {E : Exn → World → Type 0} where
  -- The promise at an outcome that is known.
  pub Ensures-ok :
      {P : World → Type 0} {m : Exec A}
      → Ensures P m Q E
      → (w : World) {a : A} → P w
      → (m w).0 ≡ ok a
      → Q a (m w).1
  Ensures-ok {m} k w h e = subst (λ r. Outcome Q E r (m w).1) e (k.at w h)

  pub Ensures-err :
      {P : World → Type 0} {m : Exec A}
      → Ensures P m Q E
      → (w : World) {e : Exn} → P w
      → (m w).0 ≡ err e
      → E e (m w).1
  Ensures-err {m} k w h e = subst (λ r. Outcome Q E r (m w).1) e (k.at w h)

module _ {A B : Type 0} {E : Exn → World → Type 0} where
  continue-Ensures :
      {Q : A → World → Type 0} {R : B → World → Type 0} (f : A → Exec B)
      → ((a : A) → Ensures (Q a) (f a) R E)
      → (r : Result A) (w : World) → Outcome Q E r w
      → Outcome R E (continue r f w).0 (continue r f w).1
  continue-Ensures f kf (ok a) w h = (kf a).at w h
  continue-Ensures f kf (err e) w h = h

module _ {A B : Type 0} {P : World → Type 0} {E : Exn → World → Type 0} where
  pub Ensures-bind :
      {Q : A → World → Type 0} {R : B → World → Type 0} (m : Exec A) (f : A → Exec B)
      → Ensures P m Q E
      → ((a : A) → Ensures (Q a) (f a) R E)
      → Ensures P (m >>= f) R E
  unfolding ◌>>=◌
  Ensures-bind m f km kf = record { at = λ w h. continue-Ensures f kf (m w).0 (m w).1 (km.at w h) }

module _ {A : Type 0} {Q : A → World → Type 0} {E F : Exn → World → Type 0} where
  handle-Ensures :
      (h : Exn → Exec A)
      → ((e : Exn) → Ensures (E e) (h e) Q F)
      → (r : Result A) (w : World) → Outcome Q E r w
      → Outcome Q F (handle r h w).0 (handle r h w).1
  handle-Ensures h kh (ok a) w p = p
  handle-Ensures h kh (err e) w p = (kh e).at w p

module _ {A : Type 0} {P : World → Type 0} {Q : A → World → Type 0}
    {E F : Exn → World → Type 0} where
  pub Ensures-try :
      (m : Exec A) (h : Exn → Exec A)
      → Ensures P m Q E
      → ((e : Exn) → Ensures (E e) (h e) Q F)
      → Ensures P (try_except m h) Q F
  unfolding try_except
  Ensures-try m h km kh = record { at = λ w p. handle-Ensures h kh (m w).0 (m w).1 (km.at w p) }

module _ {A : Type 0} {P : World → Type 0} where
  -- A weaker promise, from a stronger premise.
  pub Ensures-weaken :
      {P' : World → Type 0} {Q Q' : A → World → Type 0} {E E' : Exn → World → Type 0} (m : Exec A)
      → Ensures P' m Q E
      → ((w : World) → P w → P' w)
      → ((a : A) (w : World) → Q a w → Q' a w)
      → ((e : Exn) (w : World) → E e w → E' e w)
      → Ensures P m Q' E'
  Ensures-weaken {Q} {Q'} {E} {E'} m k f g h = record {
    at = λ w p. go (m w).0 (m w).1 (k.at w (f w p));
  }
    where
      go : (r : Result A) (w : World) → Outcome Q E r w → Outcome Q' E' r w
      go (ok a) w q = g a w q
      go (err e) w q = h e w q

  pub Ensures-attempt :
      {R : World → Type 0} (m : Exec A) {E : Exn → World → Type 0}
      → Ensures P m (λ _. R) (λ _. R)
      → Ensures P (attempt m) (λ _. R) E
  unfolding attempt
  Ensures-attempt {R} m k = record { at = λ w p. go (m w).0 (m w).1 (k.at w p) }
    where
      go : (r : Result A) (w : World) → Outcome (λ _. R) (λ _. R) r w → R w
      go (ok a) w q = q
      go (err e) w q = q

  pub Ensures-for_each :
      {E : Exn → World → Type 0} (xs : List A) (body : A → Exec (Unit {0}))
      → ((a : A) → Ensures P (body a) (λ _. P) E)
      → Ensures P (for_each xs body) (λ _. P) E
  unfolding for_each
  Ensures-for_each [] body k = record { at = λ w p. p }
  Ensures-for_each (x ∷ xs) body k =
      Ensures-bind (body x) (λ _. for_each xs body) (k x) (λ _. Ensures-for_each xs body k)

-- What a unit of work promises: on success of the new tables, else of the old ones.
abbrev pub Work :
    {A : Type 0}
    → (A → Database → Type 0)
    → (Exn → Database → Type 0)
    → Database
    → Result (A × Database)
    → Type 0
Work Q E db (ok (a, db')) = Q a db'
Work Q E db (err e) = E e db

module _ {A : Type 0} (env : Env) (I : Database → Type 0) (Q : A → Database → Type 0)
    (E : Exn → Database → Type 0) where
  committed-Ensures :
      (b : Bool) (w : World) (r : Result (A × Database))
      → Work Q E w.db r
      → E operational_error w.db
      → let o =
          if b
          then committed r (record_event w (transaction b))
          else (err operational_error, record_event w (transaction b)) in
        Outcome (λ a w'. Q a w'.db) (λ e w'. E e w'.db) o.0 o.1
  committed-Ensures true w (ok (a, db)) h f = h
  committed-Ensures true w (err e) h f = h
  committed-Ensures false w r h f = f

  pub Ensures-session_scope :
      (body : Database → Result (A × Database))
      → ((db : Database) → I db → Work Q E db (body db))
      → ((db : Database) → I db → E operational_error db)
      → Ensures (λ w. I w.db) (session_scope env body) (λ a w. Q a w.db) (λ e w. E e w.db)
  unfolding session_scope
  Ensures-session_scope body step fail = record {
    at = λ w h.
        committed-Ensures (env.completes w.history) w (body w.db) (step w.db h) (fail w.db h);
  }

module _ {A : Type 0} (Q : A → World → Type 0) (E : Exn → World → Type 0) where
  by-Outcome :
      (r : Result A) (w : World)
      → ((a : A) → r ≡ ok a → Q a w)
      → ((e : Exn) → r ≡ err e → E e w)
      → Outcome Q E r w
  by-Outcome (ok a) w f g = f a refl
  by-Outcome (err e) w f g = g e refl

module _ {A : Type 0} {P : World → Type 0} {Q : A → World → Type 0} {E : Exn → World → Type 0} where
  -- A promise from what is known of each outcome.
  pub Ensures-by :
      (m : Exec A)
      → ((w : World) → P w → (a : A) → (m w).0 ≡ ok a → Q a (m w).1)
      → ((w : World) → P w → (e : Exn) → (m w).0 ≡ err e → E e (m w).1)
      → Ensures P m Q E
  Ensures-by m f g = record { at = λ w h. by-Outcome Q E (m w).0 (m w).1 (f w h) (g w h) }

module _ {A : Type 0} (Q Q' : A → World → Type 0) (E E' : Exn → World → Type 0) where
  both_outcomes :
      (r : Result A) (w : World)
      → Outcome Q E r w
      → Outcome Q' E' r w
      → Outcome (λ a w. Q a w × Q' a w) (λ e w. E e w × E' e w) r w
  both_outcomes (ok a) w h k = (h, k)
  both_outcomes (err e) w h k = (h, k)

module _ {A : Type 0} {Q Q' : A → World → Type 0} {E E' : Exn → World → Type 0} where
  -- Two promises at once.
  pub Ensures-both :
      {P P' : World → Type 0} (m : Exec A)
      → Ensures P m Q E
      → Ensures P' m Q' E'
      → Ensures (λ w. P w × P' w) m (λ a w. Q a w × Q' a w) (λ e w. E e w × E' e w)
  Ensures-both m k l = record {
    at = λ w h. both_outcomes Q Q' E E' (m w).0 (m w).1 (k.at w h.0) (l.at w h.1);
  }
