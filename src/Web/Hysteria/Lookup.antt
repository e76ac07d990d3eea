-- ===== src/Web/Hysteria/Lookup.antt =====
-- The lookup of profiles/repository.py that web/routes/hysteria_auth.py asks: what a row that it finds is.
use ez_open_pn.Prelude.{
  ◌≡◌, refl, sym, ◌∙◌, ap, subst, Bool, true, ◌&&◌, ◌||◌, Option, none, some, List, [], ◌∷◌, ◌++◌,
  map, Bytes, Text, bytes_eq, bytes_eq_refl, select, any, arith, Bool-cases, inl, inr,
}
use ez_open_pn.Errors.{Result, ok}
use ez_open_pn.Models.{active, Profile, ProfileLookup, hysteria_auth, subscription, Database}
use ez_open_pn.Profiles.Types.{ProfileRecord}
use ez_open_pn.Profiles.Tables.Query.{
  state_eq, kind_eq, record_of, digests, lookup_pairs, joined_twice, hysteria_rows, find_row,
  one_or_none,
}

-- A lookup of the profile has the digest.
abbrev pub has_lookup : Bytes → List ProfileLookup → Profile → Bool
has_lookup digest ls p =
    any
      (λ l.
        (bytes_eq l.profile_id p.id && kind_eq l.kind hysteria_auth)
        && bytes_eq l.lookup_digest digest)
      ls

-- An active profile has the runtime identifier and the digest.
abbrev pub admits : Bytes → Text → Database → Bool
admits digest id db =
    any
      (λ p.
        (state_eq p.state active && bytes_eq p.runtime_id id)
        && has_lookup digest db.profile_lookups p)
      db.profiles

module _ {A : Type 0} where
  any-append : (q : A → Bool) (xs ys : List A) → any q (xs ++ ys) ≡ any q xs || any q ys
  any-append q [] ys = refl
  any-append q (x ∷ xs) ys = ground (arith, any-append q xs ys)

  any-select :
      (p q : A → Bool) (xs : List A) → any q (select p xs) ≡ true → any (λ x. q x && p x) xs ≡ true
  any-select p q [] h = h
  any-select p q (x ∷ xs) h = ground (arith, any-select p q xs)

module _ (digest : Bytes) (f : Profile → Bool) where
  digests-lookup :
      (p : Profile) (ls : List ProfileLookup)
      → any (λ d. bytes_eq d digest) (digests hysteria_auth p.id ls) ≡ true
      → has_lookup digest ls p ≡ true
  unfolding digests
  digests-lookup p [] h = h
  digests-lookup p (l ∷ ls) h = ground (arith, digests-lookup p ls)

  abbrev is_row : Profile × Bytes × Bytes → Bool
  is_row x = f x.0 && bytes_eq x.1 digest

  any-shown :
      (p : Profile) (a : Bytes) (shown : List Bytes)
      → any is_row (map (λ d. (p, a, d)) shown) ≡ true
      → f p && bytes_eq a digest ≡ true
  any-shown p a [] h = cc
  any-shown p a (d ∷ shown) h = ground (arith, any-shown p a shown)

  any-pairs :
      (p : Profile) (auths shown : List Bytes)
      → any is_row (lookup_pairs p auths shown) ≡ true
      → f p && any (λ d. bytes_eq d digest) auths ≡ true
  unfolding lookup_pairs
  any-pairs p [] shown h = cc
  any-pairs p (a ∷ auths) shown h =
      joined (any is_row (map (λ d. (p, a, d)) shown)) (any is_row (lookup_pairs p auths shown))
        (f p) (bytes_eq a digest) (any (λ d. bytes_eq d digest) auths)
        (sym (any-append is_row (map (λ d. (p, a, d)) shown) (lookup_pairs p auths shown)) ∙ h)
        (any-shown p a shown) (any-pairs p auths shown)
    where
      joined :
          (x y b c d : Bool)
          → x || y ≡ true
          → (x ≡ true → b && c ≡ true)
          → (y ≡ true → b && d ≡ true)
          → b && (c || d) ≡ true
      joined x y b c d h k l = ground arith

  any-joined :
      (ls : List ProfileLookup) (ps : List Profile)
      → any is_row (joined_twice ls ps) ≡ true
      → any (λ p. f p && has_lookup digest ls p) ps ≡ true
  unfolding joined_twice
  any-joined ls [] h = h
  any-joined ls (p ∷ ps) h =
      joined
        (any is_row (lookup_pairs p (digests hysteria_auth p.id ls) (digests subscription p.id ls)))
        (any is_row (joined_twice ls ps)) (f p)
        (any (λ d. bytes_eq d digest) (digests hysteria_auth p.id ls)) _ _
        (sym (
            any-append is_row
              (lookup_pairs p (digests hysteria_auth p.id ls) (digests subscription p.id ls))
              (joined_twice ls ps))
          ∙ h)
        (any-pairs p _ _) (digests-lookup p ls) (any-joined ls ps)
    where
      joined :
          (x y b c d e : Bool)
          → x || y ≡ true
          → (x ≡ true → b && c ≡ true)
          → (c ≡ true → d ≡ true)
          → (y ≡ true → e ≡ true)
          → (b && d) || e ≡ true
      joined x y b c d e h k l m = ground arith

find_row-some :
    (digest : Bytes) (rows : List (Profile × Bytes × Bytes)) (db after : Database)
    (r : ProfileRecord)
    → find_row digest rows db ≡ ok (some r, after)
    → (x : Profile × Bytes × Bytes) × (rows ≡ x ∷ []) × (r ≡ record_of x.0 x.2)
unfolding find_row one_or_none
find_row-some digest [] db after r h = absurd cc
find_row-some digest ((p, a, d) ∷ []) db after r h = elim (Bool-cases (bytes_eq a digest)) [
  | inl e ↦ ((p, a, d), refl, sym (found (rw e at h)))
  | inr e ↦ absurd (missing (rw e at h))
]
  where
    found :
        {s : ProfileRecord}
        → ◌≡◌ {A = Result (Option ProfileRecord × Database)} (ok (some s, db)) (ok (some r, after))
        → s ≡ r
    found k = cc

    missing :
        ◌≡◌ {A = Result (Option ProfileRecord × Database)} (ok (none, db)) (ok (some r, after)) → ⊥
    missing k = cc
find_row-some digest (x ∷ y ∷ rest) db after r h = absurd cc

pub row-admits :
    (digest : Bytes) (db after : Database) (r : ProfileRecord)
    → find_row digest (hysteria_rows digest db) db ≡ ok (some r, after)
    → state_eq r.state active ≡ true
    → admits digest r.runtime_id db ≡ true
unfolding hysteria_rows
row-admits digest db after r h live =
    let k = find_row-some digest (hysteria_rows digest db) db after r h in
    any-joined digest (λ p. state_eq p.state active && bytes_eq p.runtime_id r.runtime_id)
      db.profile_lookups db.profiles
      (any-select (λ x. bytes_eq x.1 digest)
        (λ x. state_eq x.0.state active && bytes_eq x.0.runtime_id r.runtime_id)
        (joined_twice db.profile_lookups db.profiles)
        (subst
          (λ xs.
            any (λ x. state_eq x.0.state active && bytes_eq x.0.runtime_id r.runtime_id) xs ≡ true)
          (sym k.1) (first k.0 k.2)))
  where
    first :
        (x : Profile × Bytes × Bytes)
        → r ≡ record_of x.0 x.2
        → any (λ x. state_eq x.0.state active && bytes_eq x.0.runtime_id r.runtime_id) (x ∷ [])
          ≡ true
    first x e =
        let s : r.state ≡ x.0.state = ap (λ (q : ProfileRecord). q.state) e in
        let i : r.runtime_id ≡ x.0.runtime_id = ap (λ (q : ProfileRecord). q.runtime_id) e in
        rw (← s, live, ← i, bytes_eq_refl r.runtime_id) refl
