-- ===== src/Installer/Disk/Laws.antt =====
-- The laws of places, and the rules by which an action keeps what is known of the disk.
use ez_open_pn.Prelude.{
  ◌≡◌, ◌↔◌, refl, ◌∙◌, subst, Bool, true, false, Option, none, some, List, [], ◌∷◌, bytes_eq_iff,
  bytes_eq_refl, arith, Bool-cases, inl, inr,
}
use ez_open_pn.Errors.{Exn, Result, ok, err}
use ez_open_pn.Installer.Io.{
  Io, continue, ◌>>=◌, on_error, finally, for_each, handle, then_raise, afterwards, demand, Disk,
  Place, Entry, tree, same_place, Os, File,
}
use ez_open_pn.Installer.Disk.{
  find, put, remove, call, Target, place_of, set_place, created, changed, create, change, exists,
  rename_entry, may_replace, replace, unlinked, tree_removed, unlink, rmtree,
}

pub same_place_iff : (p q : Place) → (same_place p q ≡ true) ↔ (p ≡ q)
same_place_iff p q = (
  (λ h. ground (arith, bytes_eq_iff p.dir q.dir, bytes_eq_iff p.name q.name)),
  (λ e. rw (e, bytes_eq_refl q.dir, bytes_eq_refl q.name) refl),
)

pub same_place_refl : (p : Place) → same_place p p ≡ true
same_place_refl p = (same_place_iff p p).1 refl

pub find-put_self : (p : Place) (e : Entry) (l : List (Place × Entry)) → find p (put p e l) ≡ some e
unfolding find put
find-put_self p e [] = rw (same_place_refl p) refl
find-put_self p e ((q, x) ∷ rest) = elim (Bool-cases (same_place p q)) [
  | inl h ↦ rw (h, same_place_refl p) refl
  | inr h ↦ rw (h, h) (find-put_self p e rest)
]

-- A key that is not `q` is passed over by `q`'s operations.
apart : (p q k : Place) → same_place p q ≡ false → same_place q k ≡ true → same_place p k ≡ false
apart p q k n h = subst (λ x. same_place p x ≡ false) ((same_place_iff q k).0 h) n

pub find-put_other :
    (p q : Place) (e : Entry) (l : List (Place × Entry))
    → same_place p q ≡ false
    → find p (put q e l) ≡ find p l
unfolding find put
find-put_other p q e [] n = rw n refl
find-put_other p q e ((k, x) ∷ rest) n = elim (Bool-cases (same_place q k)) [
  | inl h ↦ rw (h, n, apart p q k n h) refl
  | inr h ↦ rw h (elim (Bool-cases (same_place p k)) [
    | inl s ↦ rw s refl
    | inr s ↦ rw s (find-put_other p q e rest n)
  ])
]

pub find-remove_self : (p : Place) (l : List (Place × Entry)) → find p (remove p l) ≡ none
unfolding find remove
find-remove_self p [] = refl
find-remove_self p ((k, x) ∷ rest) = elim (Bool-cases (same_place p k)) [
  | inl h ↦ rw h (find-remove_self p rest)
  | inr h ↦ rw (h, h) (find-remove_self p rest)
]

pub find-remove_other :
    (p q : Place) (l : List (Place × Entry))
    → same_place p q ≡ false
    → find p (remove q l) ≡ find p l
unfolding find remove
find-remove_other p q [] n = refl
find-remove_other p q ((k, x) ∷ rest) n = elim (Bool-cases (same_place q k)) [
  | inl h ↦ rw (h, apart p q k n h) (find-remove_other p q rest n)
  | inr h ↦ rw h (elim (Bool-cases (same_place p k)) [
    | inl s ↦ rw s refl
    | inr s ↦ rw s (find-remove_other p q rest n)
  ])
]

-- `P` holds after the action if it did before, whether the action returns or raises.
pub record Keeps (P : Disk → Type 0) {A : Type 0} (m : Io A) : Type 0 where
  pub at : (d : Disk) → P d → P (m d).1

module _ (A : Type 0) (P : Disk → Type 0) where
  then_raise-Keeps :
      (e : Exn) (r : Result (Unit {0})) (d : Disk) → P d → P (then_raise {A = A} e r d).1
  then_raise-Keeps e (ok u) d h = h
  then_raise-Keeps e (err x) d h = h

  pub afterwards-Keeps :
      (r : Result A) (x : Result (Unit {0})) (d : Disk) → P d → P (afterwards r x d).1
  afterwards-Keeps r (ok u) d h = h
  afterwards-Keeps r (err e) d h = h

module _ {P : Disk → Type 0} where
  pub Keeps-pure : {A : Type 0} (r : Disk → Result A) → Keeps P (λ d. (r d, d))
  Keeps-pure r = record { at = λ d h. h }

  continue-Keeps :
      {A B : Type 0} (f : A → Io B)
      → ((a : A) → Keeps P (f a))
      → (r : Result A) (d : Disk) → P d
      → P (continue r f d).1
  continue-Keeps f k (ok a) d h = (k a).at d h
  continue-Keeps f k (err e) d h = h

  pub Keeps-bind :
      {A B : Type 0} (m : Io A) (f : A → Io B)
      → Keeps P m
      → ((a : A) → Keeps P (f a))
      → Keeps P (m >>= f)
  unfolding ◌>>=◌
  Keeps-bind m f km kf = record { at = λ d h. continue-Keeps f kf (m d).0 (m d).1 (km.at d h) }

  handle-Keeps :
      {A : Type 0} (c : Io (Unit {0}))
      → Keeps P c
      → (r : Result A) (d : Disk) → P d
      → P (handle r c d).1
  handle-Keeps c k (ok a) d h = h
  handle-Keeps c k (err e) d h = then_raise-Keeps _ P e (c d).0 (c d).1 (k.at d h)

  pub Keeps-on_error :
      {A : Type 0} (m : Io A) (c : Io (Unit {0})) → Keeps P m → Keeps P c → Keeps P (on_error m c)
  unfolding on_error
  Keeps-on_error m c km kc = record { at = λ d h. handle-Keeps c kc (m d).0 (m d).1 (km.at d h) }

  pub Keeps-finally :
      {A : Type 0} (m : Io A) (c : Io (Unit {0})) → Keeps P m → Keeps P c → Keeps P (finally m c)
  unfolding finally
  Keeps-finally m c km kc = record {
    at =
        λ d h. afterwards-Keeps _ P (m d).0 (c (m d).1).0 (c (m d).1).1 (kc.at (m d).1 (km.at d h));
  }

  pub Keeps-for_each :
      {A : Type 0} (xs : List A) (body : A → Io (Unit {0}))
      → ((a : A) → Keeps P (body a))
      → Keeps P (for_each xs body)
  unfolding for_each
  Keeps-for_each [] body k = Keeps-pure _
  Keeps-for_each (x ∷ xs) body k = Keeps-bind _ _ (k x) λ u. Keeps-for_each xs body k

  pub Keeps-demand : (b : Bool) → Keeps P (demand b)
  Keeps-demand true = Keeps-pure _
  Keeps-demand false = Keeps-pure _

-- What stands at `p` is `o`.
abbrev pub Stands : Place → Option Entry → Disk → Type 0
Stands p o d = find p d.places ≡ o

-- Actions at another place.
module _ (p : Place) (o : Option Entry) (q : Place) (apart : same_place p q ≡ false) where
  set-Stands : (e : Option Entry) → Keeps (Stands p o) (set_place q e)
  set-Stands none = Keeps-pure _
  set-Stands (some e) = record { at = λ d h. find-put_other p q e d.places apart ∙ h }

  pub Stands-set : (e : Disk → Option Entry) → Keeps (Stands p o) (λ d. set_place q (e d) d)
  Stands-set e = record { at = λ d h. (set-Stands (e d)).at d h }

  removed : Keeps (Stands p o) (λ d. (ok tt, record d { places = remove q d.places }))
  removed = record { at = λ d h. find-remove_other p q d.places apart ∙ h }

  unlinked-Stands : (e : Option Entry) → Keeps (Stands p o) (unlinked q e)
  unfolding unlinked
  unlinked-Stands none = removed
  unlinked-Stands (some (tree a files)) = Keeps-pure _
  unlinked-Stands (some _) = removed

  tree_removed-Stands : (e : Option Entry) → Keeps (Stands p o) (tree_removed q e)
  unfolding tree_removed
  tree_removed-Stands (some (tree a files)) = removed
  tree_removed-Stands _ = Keeps-pure _

  rename-Stands :
      (r : Place)
      → same_place p r ≡ false
      → (e : Option Entry) → Keeps (Stands p o) (rename_entry r q e)
  rename-Stands r far none = Keeps-pure _
  rename-Stands r far (some e) = record {
    at = λ d h. elim (Bool-cases (may_replace e (find q d.places))) [
      | inl x ↦
          rw x (
            find-put_other p q e (remove r d.places) apart ∙ find-remove_other p r d.places far ∙ h)
      | inr x ↦ rw x h
    ];
  }

module _ (os : Os) (p : Place) (o : Option Entry) where
  pub Stands-call : Keeps (Stands p o) (call os)
  unfolding call
  Stands-call = record { at = λ d h. h }

  pub Stands-exists : (q : Place) → Keeps (Stands p o) (exists os q)
  unfolding exists
  Stands-exists q = Keeps-bind (call os) _ Stands-call λ u. Keeps-pure _

  module _ (q : Place) (apart : same_place p q ≡ false) where
    pub Stands-unlink : Keeps (Stands p o) (unlink os q)
    unfolding unlink
    Stands-unlink =
        Keeps-bind (call os) _ Stands-call
          λ u. record { at = λ d h. (unlinked-Stands p o q apart (find q d.places)).at d h }

    pub Stands-rmtree : Keeps (Stands p o) (rmtree os q)
    unfolding rmtree
    Stands-rmtree =
        Keeps-bind (call os) _ Stands-call
          λ u. record { at = λ d h. (tree_removed-Stands p o q apart (find q d.places)).at d h }

    pub Stands-replace : (r : Place) → same_place p r ≡ false → Keeps (Stands p o) (replace os r q)
    unfolding replace
    Stands-replace r far =
        Keeps-bind (call os) _ Stands-call
          λ u. record { at = λ d h. (rename-Stands p o q apart r far (find r d.places)).at d h }

  module _ (target : Target) (apart : same_place p (place_of target) ≡ false) where
    pub Stands-create : Keeps (Stands p o) (create os target)
    unfolding create
    Stands-create = Keeps-bind (call os) _ Stands-call λ u.
        Stands-set p o (place_of target) apart
          λ d. created os target (find (place_of target) d.places)

    pub Stands-change : (f : File → File) → Keeps (Stands p o) (change os f target)
    unfolding change
    Stands-change f = Keeps-bind (call os) _ Stands-call λ u.
        Stands-set p o (place_of target) apart
          λ d. changed f target (find (place_of target) d.places)
