-- ===== src/Profiles/Tables/Membership.antt =====
-- Rows that come and go: the invariant of the profile tables under deletion and insertion.
use ez_open_pn.Prelude.{
  not-true, ◌≡◌, refl, ap, inl, inr, Bool, true, false, ◌||◌, not, none, List, [], ◌∷◌, Bytes,
  bytes_eq, bytes_eq_iff, bytes_eq_refl, select, any, All, All-map, if◌then◌else◌, arith,
  Bool-cases,
}
use ez_open_pn.Models.{Profile, LookupKind, subscription, hysteria_auth, ProfileLookup, Database}
use ez_open_pn.Profiles.Tables.Query.{digests}
use ez_open_pn.Profiles.Tables.Rows.{Distinct, HasLookups, find_profile}
use ez_open_pn.Profiles.Tables.Consistent.{IsShaped, IsOwned, IsConsistent}

module _ {A : Type 0} where
  any-select : (q p : A → Bool) (xs : List A) → any q xs ≡ false → any q (select p xs) ≡ false
  any-select q p [] h = refl
  any-select q p (x ∷ xs) h = ground (arith, any-select q p xs)

  select-Distinct :
      (key : A → Bytes) (p : A → Bool) (xs : List A) → Distinct key xs → Distinct key (select p xs)
  select-Distinct key p [] u = tt
  select-Distinct key p (x ∷ xs) u = elim (Bool-cases (p x)) [
    | inl e ↦
        rw e (any-select (λ y. bytes_eq (key y) (key x)) p xs u.0, select-Distinct key p xs u.1)
    | inr e ↦ rw e (select-Distinct key p xs u.1)
  ]

  -- What holds of the elements that pass the test holds of the selection.
  select-All :
      {P Q : A → Type 0} (p : A → Bool) (xs : List A)
      → ((x : A) → P x → p x ≡ true → Q x)
      → All P xs
      → All Q (select p xs)
  select-All p [] k h = tt
  select-All p (x ∷ xs) k h = elim (Bool-cases (p x)) [
    | inl e ↦ rw e (k x h.0 e, select-All p xs k h.1)
    | inr e ↦ rw e (select-All p xs k h.1)
  ]

  All-of_any : (q : A → Bool) (xs : List A) → any q xs ≡ false → All (λ x. q x ≡ false) xs
  All-of_any q [] h = tt
  All-of_any q (x ∷ xs) h = (ground arith, All-of_any q xs (ground arith))

abbrev remaining : Bytes → List ProfileLookup → List ProfileLookup
remaining id = select (λ l. not (bytes_eq l.profile_id id))

digests-remaining :
    (kind : LookupKind) (id j : Bytes) (ls : List ProfileLookup)
    → bytes_eq j id ≡ false
    → digests kind j (remaining id ls) ≡ digests kind j ls
unfolding digests
digests-remaining kind id j [] h = refl
digests-remaining kind id j (l ∷ ls) h = ground (
  arith,
  digests-remaining kind id j ls h,
  bytes_eq_iff l.profile_id id,
  bytes_eq_iff l.profile_id j,
  bytes_eq_iff j id,
)

any-remaining :
    (id j : Bytes) (ps : List Profile)
    → bytes_eq j id ≡ false
    → any (λ p. bytes_eq p.id j) ps ≡ true
    → any (λ p. bytes_eq p.id j) (select (λ p. not (bytes_eq p.id id)) ps) ≡ true
any-remaining id j [] h a = a
any-remaining id j (p ∷ ps) h a =
    ground
      (arith, any-remaining id j ps h, bytes_eq_iff p.id id, bytes_eq_iff p.id j, bytes_eq_iff j id)

or_true : (b : Bool) → b || true ≡ true
or_true true = refl
or_true false = refl

-- Deleting a profile and its lookups keeps the tables consistent.
pub delete-IsConsistent :
    (id : Bytes) (db : Database)
    → IsConsistent db
    → IsConsistent (record db {
      profiles = select (λ p. not (bytes_eq p.id id)) db.profiles;
      profile_lookups = remaining id db.profile_lookups;
    })
delete-IsConsistent id db c = record {
  ids = select-Distinct (λ p. p.id) (λ p. not (bytes_eq p.id id)) db.profiles c.ids;
  runtime_ids =
      select-Distinct (λ p. p.runtime_id) (λ p. not (bytes_eq p.id id)) db.profiles c.runtime_ids;
  looked_up =
      select-All (λ p. not (bytes_eq p.id id)) db.profiles
        (λ p h e.
          rw
            (
              digests-remaining subscription id p.id db.profile_lookups (not-true _ e),
              digests-remaining hysteria_auth id p.id db.profile_lookups (not-true _ e),
            )
            h)
        c.looked_up;
  owned =
      select-All (λ l. not (bytes_eq l.profile_id id)) db.profile_lookups
        (λ l h e. any-remaining id l.profile_id db.profiles (not-true _ e) h) c.owned;
  digests_differ =
      select-Distinct (λ l. l.lookup_digest) (λ l. not (bytes_eq l.profile_id id))
        db.profile_lookups c.digests_differ;
  shaped = select-All (λ p. not (bytes_eq p.id id)) db.profiles (λ p h _. h) c.shaped;
}

pub find-delete :
    (id j : Bytes) (ps : List Profile)
    → find_profile j (select (λ p. not (bytes_eq p.id id)) ps)
      ≡ (if bytes_eq id j then none else find_profile j ps)
unfolding find_profile
find-delete id j [] = ground arith
find-delete id j (p ∷ ps) =
    ground
      (arith, bytes_eq_iff id j, bytes_eq_iff p.id id, bytes_eq_iff p.id j, find-delete id j ps)

-- A lookup of another profile is not joined.
digests_absent :
    (kind : LookupKind) (id : Bytes) (ps : List Profile) (ls : List ProfileLookup)
    → any (λ p. bytes_eq p.id id) ps ≡ false
    → All (IsOwned ps) ls
    → digests kind id ls ≡ []
unfolding digests
digests_absent kind id ps [] a o = refl
digests_absent kind id ps (l ∷ ls) a o = elim (Bool-cases (bytes_eq l.profile_id id)) [
  | inl e ↦ cc (
    o.0,
    a,
    ap (λ j. any (λ (p : Profile). bytes_eq p.id j) ps) ((bytes_eq_iff l.profile_id id).0 e),
  )
  | inr e ↦ rw e (digests_absent kind id ps ls a o.1)
]

All-both :
    {A : Type 0} {P Q R : A → Type 0} (xs : List A)
    → ((x : A) → P x → Q x → R x)
    → All P xs
    → All Q xs
    → All R xs
All-both [] k h g = tt
All-both (x ∷ xs) k h g = (k x h.0 g.0, All-both xs k h.1 g.1)

-- The lookups of a new profile are not joined to another.
module _ (p : Profile) (l m : ProfileLookup) (lp : l.profile_id ≡ p.id)
    (mp : m.profile_id ≡ p.id) where
  digests_other :
      (kind : LookupKind) (id : Bytes) (ls : List ProfileLookup)
      → bytes_eq id p.id ≡ false
      → digests kind id (l ∷ m ∷ ls) ≡ digests kind id ls
  unfolding digests
  digests_other kind id ls h =
      ground
        (arith, bytes_eq_iff id p.id, bytes_eq_iff l.profile_id id, bytes_eq_iff m.profile_id id)

  lookups_other :
      (q : Profile) (ls : List ProfileLookup)
      → HasLookups ls q
      → bytes_eq q.id p.id ≡ false
      → HasLookups (l ∷ m ∷ ls) q
  lookups_other q ls h e =
      rw (digests_other subscription q.id ls e, digests_other hysteria_auth q.id ls e) h

  lookups_own :
      (ls : List ProfileLookup)
      → l.kind ≡ subscription
      → m.kind ≡ hysteria_auth
      → digests subscription p.id ls ≡ []
      → digests hysteria_auth p.id ls ≡ []
      → HasLookups (l ∷ m ∷ ls) p
  unfolding digests
  lookups_own ls lk mk a b = (
    (l.lookup_digest, ground (arith, bytes_eq_iff l.profile_id p.id)),
    (
      m.lookup_digest,
      ground (arith, bytes_eq_iff l.profile_id p.id, bytes_eq_iff m.profile_id p.id),
    ),
  )

-- A new profile with a lookup of each kind.
module _ (p : Profile) (l m : ProfileLookup) (db : Database) where
  abbrev pub inserted : Database
  inserted = record db { profiles = p ∷ db.profiles; profile_lookups = l ∷ m ∷ db.profile_lookups }

  pub insert-IsConsistent :
      l.profile_id ≡ p.id
      → m.profile_id ≡ p.id
      → l.kind ≡ subscription
      → m.kind ≡ hysteria_auth
      → any (λ q. bytes_eq q.id p.id) db.profiles ≡ false
      → any (λ q. bytes_eq q.runtime_id p.runtime_id) db.profiles ≡ false
      → any (λ k. bytes_eq k.lookup_digest l.lookup_digest) db.profile_lookups ≡ false
      → any (λ k. bytes_eq k.lookup_digest m.lookup_digest) db.profile_lookups ≡ false
      → bytes_eq m.lookup_digest l.lookup_digest ≡ false
      → IsShaped p
      → IsConsistent db
      → IsConsistent inserted
  insert-IsConsistent lp mp lk mk fresh fresh_runtime fresh_l fresh_m differ s c = record {
    ids = (fresh, c.ids);
    runtime_ids = (fresh_runtime, c.runtime_ids);
    looked_up = (
      lookups_own p l m lp mp db.profile_lookups lk mk (absent subscription) (absent hysteria_auth),
      All-both db.profiles (λ q h e. lookups_other p l m lp mp q db.profile_lookups h e) c.looked_up
          (All-of_any (λ q. bytes_eq q.id p.id) db.profiles fresh),
    );
    owned = (
      rw (lp, bytes_eq_refl p.id),
      (rw (mp, bytes_eq_refl p.id), All-map (λ k h. owned_still k h) db.profile_lookups c.owned),
    );
    digests_differ = (rw (differ, fresh_l), (fresh_m, c.digests_differ));
    shaped = (s, c.shaped);
  }
    where
      absent : (kind : LookupKind) → digests kind p.id db.profile_lookups ≡ []
      absent kind = digests_absent kind p.id db.profiles db.profile_lookups fresh c.owned

      owned_still : (k : ProfileLookup) → IsOwned db.profiles k → IsOwned (p ∷ db.profiles) k
      owned_still k h = rw h (or_true (bytes_eq p.id k.profile_id))
