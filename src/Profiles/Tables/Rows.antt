-- ===== src/Profiles/Tables/Rows.antt =====
-- The row of a profile in consistent tables: the joins of profiles/repository.py answer with the
-- profile and the digest of its one lookup, or with nothing.
use ez_open_pn.Prelude.{
  ◌≡◌, refl, ◌⊎◌, inl, inr, false, Option, none, some, List, [], ◌∷◌, Bytes, bytes_eq, bytes_eq_iff,
  select, any, All, if◌then◌else◌, arith, Bool-cases,
}
use ez_open_pn.Errors.{Result, ok, err, profile_not_found}
use ez_open_pn.Models.{Profile, subscription, hysteria_auth, ProfileLookup, Database}
use ez_open_pn.Profiles.Tables.Query.{digests, joined, row_of}

-- No two elements have one key.
abbrev pub Distinct : {A : Type 0} → (A → Bytes) → List A → Type 0
Distinct key [] = Unit {0}
Distinct key (x ∷ xs) = (any (λ y. bytes_eq (key y) (key x)) xs ≡ false) × Distinct key xs

-- The profile with an identifier.
unfoldable pub find_profile : Bytes → List Profile → Option Profile
find_profile id [] = none
find_profile id (p ∷ ps) = if bytes_eq p.id id then some p else find_profile id ps

-- Exactly one lookup of each kind.
abbrev pub HasLookups : List ProfileLookup → Profile → Type 0
HasLookups ls p =
    ((d : Bytes) × (digests subscription p.id ls ≡ d ∷ []))
    × ((d : Bytes) × (digests hysteria_auth p.id ls ≡ d ∷ []))

abbrev rows : Bytes → List ProfileLookup → List Profile → List (Profile × Bytes)
rows id ls ps = select (λ r. bytes_eq r.0.id id) (joined ls ps)

rows_absent :
    (id : Bytes) (ls : List ProfileLookup) (ps : List Profile)
    → All (HasLookups ls) ps
    → any (λ p. bytes_eq p.id id) ps ≡ false
    → rows id ls ps ≡ []
unfolding joined
rows_absent id ls [] h a = refl
rows_absent id ls (p ∷ ps) h a = rw (h.0.0.1) (ground (arith, rows_absent id ls ps h.1))

find_absent :
    (id : Bytes) (ps : List Profile)
    → any (λ p. bytes_eq p.id id) ps ≡ false
    → find_profile id ps ≡ none
unfolding find_profile
find_absent id [] a = refl
find_absent id (p ∷ ps) a = ground (arith, find_absent id ps)

-- What a query by identifier answers.
abbrev pub RowOf : Bytes → List ProfileLookup → List Profile → List (Profile × Bytes) → Type 0
RowOf id ls ps found =
    ((find_profile id ps ≡ none) × (found ≡ []))
    ⊎ ((p : Profile) × (d : Bytes) × (find_profile id ps ≡ some p)
        × (digests subscription p.id ls ≡ d ∷ [])
        × (found ≡ (p, d) ∷ []))

rows-RowOf :
    (id : Bytes) (ls : List ProfileLookup) (ps : List Profile)
    → Distinct (λ p. p.id) ps
    → All (HasLookups ls) ps
    → RowOf id ls ps (rows id ls ps)
unfolding joined find_profile
rows-RowOf id ls [] u h = inl (refl, refl)
rows-RowOf id ls (p ∷ ps) u h = elim (Bool-cases (bytes_eq p.id id)) [
  | inl e ↦
      let absent : any (λ q. bytes_eq q.id id) ps ≡ false =
        rw (← ((bytes_eq_iff p.id id).0 e)) u.0 in
      inr (p, h.0.0.0, rw e, h.0.0.1, rw (h.0.0.1, e, rows_absent id ls ps h.1 absent))
  | inr e ↦ rw (h.0.0.1, e) (rows-RowOf id ls ps u.1 h.1)
]

-- A query by identifier finds the profile, or answers `ProfileNotFound`.
abbrev pub RowResult : Bytes → Database → Result (Profile × Bytes) → Type 0
RowResult id db r =
    ((find_profile id db.profiles ≡ none) × (r ≡ err profile_not_found))
    ⊎ ((p : Profile) × (d : Bytes) × (find_profile id db.profiles ≡ some p)
        × (digests subscription p.id db.profile_lookups ≡ d ∷ [])
        × (r ≡ ok (p, d)))

pub row_of-RowResult :
    (id : Bytes) (db : Database)
    → Distinct (λ p. p.id) db.profiles
    → All (HasLookups db.profile_lookups) db.profiles
    → RowResult id db (row_of id db)
unfolding row_of
row_of-RowResult id db u h = elim (rows-RowOf id db.profile_lookups db.profiles u h) [
  | inl (absent, e) ↦ inl (absent, rw e)
  | inr (p, d, at, l, e) ↦ inr (p, d, at, l, rw e)
]
