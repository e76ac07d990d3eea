-- ===== src/Profiles/Tables/Consistent.antt =====
-- The invariant of the profile tables (control/src/ezopenpn/models.py and profiles/repository.py),
-- and the lemmas that carry it through updates, deletions and insertions of rows.
use ez_open_pn.Prelude.{
  ◌≡◌, refl, ◌∙◌, inl, inr, Bool, true, false, Option, none, some, List, [], ◌∷◌, Bytes, bytes_eq,
  bytes_eq_iff, any, All, All-map, if◌then◌else◌, arith, Bool-cases, length,
}
use mathlib.Core.Option
use ez_open_pn.Models.{disabled, Profile, ProfileLookup, Database}
use ez_open_pn.Profiles.Tables.Query.{state_eq, update_profile}
use ez_open_pn.Profiles.Tables.Rows.{Distinct, HasLookups, find_profile}

abbrev pub is_some : {A : Type 0} → Option A → Bool
is_some none = false
is_some (some a) = true

-- A runtime identifier has 28 characters, and a profile is disabled exactly if it has a time at
-- which that happened.
pub record IsShaped (p : Profile) : Type 0 where
  pub runtime_id_length : length p.runtime_id ≡ 28
  pub disabled_since : state_eq p.state disabled ≡ is_some p.disabled_at

abbrev pub IsOwned : List Profile → ProfileLookup → Type 0
IsOwned ps l = any (λ p. bytes_eq p.id l.profile_id) ps ≡ true

pub record IsConsistent (db : Database) : Type 0 where
  pub ids : Distinct (λ (p : Profile). p.id) db.profiles
  pub runtime_ids : Distinct (λ (p : Profile). p.runtime_id) db.profiles
  pub looked_up : All (HasLookups db.profile_lookups) db.profiles
  pub owned : All (IsOwned db.profiles) db.profile_lookups
  pub digests_differ : Distinct (λ (l : ProfileLookup). l.lookup_digest) db.profile_lookups
  pub shaped : All IsShaped db.profiles

-- An update of a row that leaves its identifiers.
module _ (id : Bytes) (f : Profile → Profile) (same_id : (p : Profile) → (f p).id ≡ p.id)
    (same_runtime_id : (p : Profile) → (f p).runtime_id ≡ p.runtime_id) where
  any-update :
      (j : Bytes) (ps : List Profile)
      → any (λ p. bytes_eq p.id j) (update_profile id f ps) ≡ any (λ p. bytes_eq p.id j) ps
  unfolding update_profile
  any-update j [] = refl
  any-update j (p ∷ ps) = ground (arith, same_id p, any-update j ps)

  any-update-runtime :
      (j : Bytes) (ps : List Profile)
      → any (λ p. bytes_eq p.runtime_id j) (update_profile id f ps)
        ≡ any (λ p. bytes_eq p.runtime_id j) ps
  unfolding update_profile
  any-update-runtime j [] = refl
  any-update-runtime j (p ∷ ps) = ground (arith, same_runtime_id p, any-update-runtime j ps)

  update-Distinct :
      (ps : List Profile) → Distinct (λ p. p.id) ps → Distinct (λ p. p.id) (update_profile id f ps)
  unfolding update_profile
  update-Distinct [] u = tt
  update-Distinct (p ∷ ps) u = elim (Bool-cases (bytes_eq p.id id)) [
    | inl e ↦ rw (e, same_id p, any-update p.id ps) (u.0, update-Distinct ps u.1)
    | inr e ↦ rw (e, any-update p.id ps) (u.0, update-Distinct ps u.1)
  ]

  update-Distinct-runtime :
      (ps : List Profile)
      → Distinct (λ p. p.runtime_id) ps
      → Distinct (λ p. p.runtime_id) (update_profile id f ps)
  unfolding update_profile
  update-Distinct-runtime [] u = tt
  update-Distinct-runtime (p ∷ ps) u = elim (Bool-cases (bytes_eq p.id id)) [
    | inl e ↦
        rw (e, same_runtime_id p, any-update-runtime p.runtime_id ps)
          (u.0, update-Distinct-runtime ps u.1)
    | inr e ↦ rw (e, any-update-runtime p.runtime_id ps) (u.0, update-Distinct-runtime ps u.1)
  ]

  update-All :
      {P : Profile → Type 0} (ps : List Profile)
      → ((p : Profile) → P p → P (f p))
      → All P ps
      → All P (update_profile id f ps)
  unfolding update_profile
  update-All [] k h = tt
  update-All (p ∷ ps) k h = elim (Bool-cases (bytes_eq p.id id)) [
    | inl e ↦ rw e (k p h.0, update-All ps k h.1)
    | inr e ↦ rw e (h.0, update-All ps k h.1)
  ]

  pub update-IsConsistent :
      (db : Database)
      → ((p : Profile) → IsShaped p → IsShaped (f p))
      → IsConsistent db
      → IsConsistent (record db { profiles = update_profile id f db.profiles })
  update-IsConsistent db k c = record {
    ids = update-Distinct db.profiles c.ids;
    runtime_ids = update-Distinct-runtime db.profiles c.runtime_ids;
    looked_up = update-All db.profiles (λ p h. rw (same_id p) h) c.looked_up;
    owned = All-map (λ l h. any-update l.profile_id db.profiles ∙ h) db.profile_lookups c.owned;
    digests_differ = c.digests_differ;
    shaped = update-All db.profiles k c.shaped;
  }

  -- An update is seen at its profile and at no other.
  pub find-update :
      (j : Bytes) (ps : List Profile)
      → find_profile j (update_profile id f ps)
        ≡ (if bytes_eq id j then Option.map f (find_profile j ps) else find_profile j ps)
  unfolding find_profile update_profile
  find-update j [] = ground arith
  find-update j (p ∷ ps) = ground (
    arith,
    same_id p,
    bytes_eq_iff id j,
    bytes_eq_iff p.id id,
    bytes_eq_iff p.id j,
    find-update j ps,
  )
