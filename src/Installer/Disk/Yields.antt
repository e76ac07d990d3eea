-- ===== src/Installer/Disk/Yields.antt =====
-- What an action that returns leaves behind: one rule for each way to build it.
use ez_open_pn.Prelude.{
  ◌≡◌, refl, subst, sym, ap, ◌∙◌, Bool, true, false, Option, none, some, List, [], ◌∷◌,
  if◌then◌else◌,
}
use ez_open_pn.Errors.{Result, ok, err}
use ez_open_pn.Installer.Io.{
  handle, then_raise, afterwards, on_error, finally, Io, continue, ◌>>=◌, demand, for_each, pure,
  FilePath, Node, Entry, Place, Disk, Os, File,
}
use ez_open_pn.Installer.Disk.{
  find, call, Target, place_of, set_place, created, changed, create, change,
}
use ez_open_pn.Installer.Disk.Laws.{Keeps, find-put_self}

pub record Yields (P : Disk → Type 0) {A : Type 0} (m : Io A) (Q : A → Disk → Type 0) : Type 0 where
  pub at : (d : Disk) → P d → (a : A) → (m d).0 ≡ ok a → Q a (m d).1

module _ {A B : Type 0} {Q : A → Disk → Type 0} {R : B → Disk → Type 0} where
  continue-Yields :
      (f : A → Io B)
      → ((a : A) → Yields (Q a) (f a) R)
      → (r : Result A) (d : Disk) → ((a : A) → r ≡ ok a → Q a d)
      → (b : B) → (continue r f d).0 ≡ ok b
      → R b (continue r f d).1
  continue-Yields f k (ok a) d h b e = (k a).at d (h a refl) b e
  continue-Yields f k (err x) d h b e = cc

  pub Yields-bind :
      {P : Disk → Type 0} (m : Io A) (f : A → Io B)
      → Yields P m Q
      → ((a : A) → Yields (Q a) (f a) R)
      → Yields P (m >>= f) R
  unfolding ◌>>=◌
  Yields-bind m f km kf = record {
    at = λ d h b e. continue-Yields f kf (m d).0 (m d).1 (km.at d h) b e;
  }

module _ {A : Type 0} {P : Disk → Type 0} {m : Io A} where
  -- A fact that does not speak of the disk is at hand from here on.
  pub Yields-given :
      {C : Type 0} {Q : A → Disk → Type 0} → ((c : C) → Yields P m Q) → Yields (λ d. C × P d) m Q
  Yields-given f = record { at = λ d h. (f h.0).at d h.1 }

  pub Yields-then :
      {Q R : A → Disk → Type 0} → Yields P m Q → ((a : A) (d : Disk) → Q a d → R a d) → Yields P m R
  Yields-then k f = record { at = λ d h a e. f a (m d).1 (k.at d h a e) }

module _ (P : Disk → Type 0) where
  pub Yields-demand : (b : Bool) → Yields P (demand b) (λ _. P)
  Yields-demand true = record { at = λ d h a e. h }
  Yields-demand false = record { at = λ d h a e. h }

  pub Yields-for_each :
      {A : Type 0} (xs : List A) (body : A → Io (Unit {0}))
      → ((a : A) → Yields P (body a) (λ _. P))
      → Yields P (for_each xs body) (λ _. P)
  unfolding for_each
  Yields-for_each [] body k = record { at = λ d h a e. h }
  Yields-for_each (x ∷ xs) body k = Yields-bind (body x) _ (k x) λ u. Yields-for_each xs body k

  pub Yields-when :
      (b : Bool) (m : Io (Unit {0}))
      → Yields P m (λ _. P)
      → Yields P (if b then m else pure tt) (λ _. P)
  Yields-when true m k = k
  Yields-when false m k = record { at = λ d h a e. h }

  pub Yields-pure : {A : Type 0} (r : Disk → Result A) → Yields P (λ d. (r d, d)) (λ _. P)
  Yields-pure r = record { at = λ d h a e. h }

module _ {A : Type 0} where
  afterwards-ok :
      (r : Result A) (c : Result (Unit {0})) (d : Disk) (a : A)
      → (afterwards r c d).0 ≡ ok a
      → (r ≡ ok a) × ((afterwards r c d).1 ≡ d)
  afterwards-ok (ok b) (ok u) d a q = (q, refl)
  afterwards-ok (ok b) (err y) d a q = absurd cc
  afterwards-ok (err y) (ok u) d a q = absurd cc
  afterwards-ok (err y) (err z) d a q = absurd cc

  handle-ok :
      (r : Result A) (c : Io (Unit {0})) (d : Disk) (a : A)
      → (handle r c d).0 ≡ ok a
      → (r ≡ ok a) × ((handle r c d).1 ≡ d)
  handle-ok (ok b) c d a q = (q, refl)
  handle-ok (err e) c d a q = absurd (never (c d).0 q)
    where
      never : (r : Result (Unit {0})) → (then_raise {A = A} e r (c d).1).0 ≡ ok a → ⊥
      never (ok u) q = cc
      never (err x) q = cc

module _ {A : Type 0} {P : Disk → Type 0} {Q : A → Disk → Type 0} where
  pub Yields-finally :
      (m : Io A) (c : Io (Unit {0}))
      → Yields P m Q
      → ((a : A) → Keeps (Q a) c)
      → Yields P (finally m c) Q
  unfolding finally
  Yields-finally m c km kc = record {
    at = λ d h a q.
        let k = afterwards-ok (m d).0 (c (m d).1).0 (c (m d).1).1 a q in
        subst (Q a) (sym k.1) ((kc a).at (m d).1 (km.at d h a k.0));
  }

  pub Yields-on_error : (m : Io A) (c : Io (Unit {0})) → Yields P m Q → Yields P (on_error m c) Q
  unfolding on_error
  Yields-on_error m c km = record {
    at = λ d h a q.
        let k = handle-ok (m d).0 c (m d).1 a q in subst (Q a) (sym k.1) (km.at d h a k.0);
  }

-- `e` stands at the place, and the staging directory is `s`.
abbrev pub At : Place → Entry → List (FilePath × Node) → Disk → Type 0
At p e s d = (find p d.places ≡ some e) × (d.staged ≡ s)

module _ (os : Os) (s : List (FilePath × Node)) where
  pub At-call : (p : Place) (e : Entry) → Yields (At p e s) (call os) (λ _. At p e s)
  unfolding call
  At-call p e = record { at = λ d h a x. h }

  module _ (p : Place) (e' : Entry) where
    pub At-set :
        (P : Disk → Type 0) (o : Disk → Option Entry)
        → ((d : Disk) → P d → (d.staged ≡ s) × ((e : Entry) → o d ≡ some e → e ≡ e'))
        → Yields P (λ d. set_place p (o d) d) (λ _. At p e' s)
    At-set P o k = record { at = λ d h a x. go d (k d h) (o d) refl a x }
      where
        go :
            (d : Disk)
            → (d.staged ≡ s) × ((e : Entry) → o d ≡ some e → e ≡ e')
            → (y : Option Entry) → o d ≡ y
            → (a : Unit {0}) → (set_place p y d).0 ≡ ok a
            → At p e' s (set_place p y d).1
        go d h none q a x = cc
        go d h (some e) q a x = (find-put_self p e d.places ∙ ap some (h.1 e q), h.0)

  module _ (target : Target) (e e' : Entry) where
    pub At-change :
        (f : File → File)
        → changed f target (some e) ≡ some e'
        → Yields (At (place_of target) e s) (change os f target) (λ _. At (place_of target) e' s)
    unfolding change
    At-change f h =
        Yields-bind (call os) _ (At-call (place_of target) e)
          λ u. At-set (place_of target) e' _ _ λ d k. (k.1, λ x q. same d k x q)
      where
        same :
            (d : Disk)
            → At (place_of target) e s d
            → (x : Entry) → changed f target (find (place_of target) d.places) ≡ some x
            → x ≡ e'
        same d k x q = cc (ap (changed f target) k.0, h)

    pub At-create :
        ((x : Entry) → created os target (some e) ≡ some x → x ≡ e')
        → Yields (At (place_of target) e s) (create os target) (λ _. At (place_of target) e' s)
    unfolding create
    At-create h = Yields-bind (call os) _ (At-call (place_of target) e) λ u.
        At-set (place_of target) e' _ _
          λ d k. (k.1, λ x q. h x (ap (created os target) (sym k.0) ∙ q))
