-- ===== src/Profiles/Tables/Transition/Exact.antt =====
-- profiles/repository.py `set_state`: what it does to consistent tables, row by row.
use ez_open_pn.Prelude.{
  ℕ, ◌≡◌, ◌≢◌, refl, sym, ap, subst, some_inj, ◌∙◌, ◌⊎◌, inl, inr, Bool, true, false, ◌||◌, ◌&&◌,
  Option, none, some, List, [], ◌∷◌, Bytes, Text, bytes_eq, bytes_eq_iff, Some, Bool-cases,
  if◌then◌else◌, &&-true,
}
use ez_open_pn.Errors.{ok, err, profile_not_found, invalid_profile_transition}
use ez_open_pn.Models.{
  ProfileState, pending, active, disabled, error, Profile, LookupKind, subscription, hysteria_auth,
  ProfileLookup, Database,
}
use ez_open_pn.Profiles.Types.{ProfileRecord}
use ez_open_pn.Profiles.Tables.Query.{
  state_eq, kind_eq, legal_transition, record_of, digests, update_profile,
}
use ez_open_pn.Profiles.Tables.Statements.{stamped, set_state_row}
use ez_open_pn.Profiles.Tables.Rows.{find_profile, row_of-RowResult}
use ez_open_pn.Profiles.Tables.Consistent.{IsConsistent}
use ez_open_pn.Profiles.Tables.Transition.{
  Legal, same_state, provisioned, not_provisioned, retried, given_up, revoked, broken, enabled,
  not_enabled, Changed, OnlyRow, Transition,
}

test-Legal : (a b : ProfileState) → (state_eq a b || legal_transition a b) ≡ true → Legal a b
test-Legal pending pending h = same_state pending
test-Legal pending active h = provisioned
test-Legal pending error h = not_provisioned
test-Legal pending disabled h = absurd cc
test-Legal active active h = same_state active
test-Legal active disabled h = revoked
test-Legal active error h = broken
test-Legal active pending h = absurd cc
test-Legal disabled disabled h = same_state disabled
test-Legal disabled active h = enabled
test-Legal disabled error h = not_enabled
test-Legal disabled pending h = absurd cc
test-Legal error error h = same_state error
test-Legal error pending h = retried
test-Legal error disabled h = given_up
test-Legal error active h = absurd cc

state_eq_refl : (s : ProfileState) → state_eq s s ≡ true
state_eq_refl pending = refl
state_eq_refl active = refl
state_eq_refl disabled = refl
state_eq_refl error = refl

Legal-test : (a b : ProfileState) → Legal a b → (state_eq a b || legal_transition a b) ≡ true
Legal-test a b (same_state s) = rw (state_eq_refl s) refl
Legal-test a b provisioned = refl
Legal-test a b not_provisioned = refl
Legal-test a b retried = refl
Legal-test a b given_up = refl
Legal-test a b revoked = refl
Legal-test a b broken = refl
Legal-test a b enabled = refl
Legal-test a b not_enabled = refl

error-code :
    (s : ProfileState) (code : Option Text)
    → s ≡ error
    → (if state_eq s error then code else none) ≡ code
error-code s code e = rw e refl

sound-code :
    (s : ProfileState) (code : Option Text)
    → s ≢ error
    → (if state_eq s error then code else none) ≡ none
sound-code pending code n = refl
sound-code active code n = refl
sound-code disabled code n = refl
sound-code error code n = absurd (n refl)

off-time :
    (s : ProfileState) (t : ℕ)
    → s ≡ disabled
    → (if state_eq s disabled then some t else none) ≡ some t
off-time s t e = rw e refl

on-time :
    (s : ProfileState) (t : ℕ)
    → s ≢ disabled
    → (if state_eq s disabled then some t else none) ≡ none
on-time pending t n = refl
on-time active t n = refl
on-time error t n = refl
on-time disabled t n = absurd (n refl)

module _ (id : Bytes) (s : ProfileState) (code : Option Text) (t : ℕ) where
  stamped-Changed : (p : Profile) → Changed s code t p (stamped s code t p)
  stamped-Changed p = record {
    id = refl;
    name = refl;
    runtime_id = refl;
    key = refl;
    user_id = refl;
    secret = refl;
    token = refl;
    created_at = refl;
    new_state = refl;
    updated_at = refl;
    faulty = error-code s code;
    sound = sound-code s code;
    off = off-time s t;
    on = on-time s t;
  }

  update-OnlyRow :
      (ps : List Profile)
      → OnlyRow id (Changed s code t) ps (update_profile id (stamped s code t) ps)
  unfolding update_profile
  update-OnlyRow [] = tt
  update-OnlyRow (p ∷ ps) = elim (Bool-cases (bytes_eq p.id id)) [
    | inl e ↦ rw e (inl ((bytes_eq_iff p.id id).0 e, stamped-Changed p), update-OnlyRow ps)
    | inr e ↦ rw e (inr ((λ h. differ h e), refl), update-OnlyRow ps)
  ]
    where
      differ : p.id ≡ id → bytes_eq p.id id ≡ false → ⊥
      differ h e = let same = (bytes_eq_iff p.id id).1 h in cc

  find-update :
      (p : Profile) (ps : List Profile)
      → find_profile id ps ≡ some p
      → find_profile id (update_profile id (stamped s code t) ps) ≡ some (stamped s code t p)
  unfolding find_profile update_profile
  find-update p [] h = cc
  find-update p (x ∷ ps) h = elim (Bool-cases (bytes_eq x.id id)) [
    | inl e ↦ rw (e, e) (ap (λ y. some (stamped s code t y)) (some_inj (rw e at h)))
    | inr e ↦ rw (e, e) (find-update p ps (rw e at h))
  ]

found-id : (id : Bytes) (p : Profile) (ps : List Profile) → find_profile id ps ≡ some p → p.id ≡ id
unfolding find_profile
found-id id p [] h = cc
found-id id p (x ∷ ps) h = elim (Bool-cases (bytes_eq x.id id)) [
  | inl e ↦ sym (ap (λ (y : Profile). y.id) (some_inj (rw e at h))) ∙ (bytes_eq_iff x.id id).0 e
  | inr e ↦ found-id id p ps (rw e at h)
]

kind-eq : (k : LookupKind) → kind_eq k subscription ≡ true → k ≡ subscription
kind-eq subscription h = refl
kind-eq hysteria_auth h = cc

digests-Some :
    (id d : Bytes) (rest : List Bytes) (ls : List ProfileLookup)
    → digests subscription id ls ≡ d ∷ rest
    → Some
        (λ (l : ProfileLookup).
          (l.profile_id ≡ id) × (l.kind ≡ subscription) × (l.lookup_digest ≡ d))
        ls
unfolding digests
digests-Some id d rest [] h = cc
digests-Some id d rest (l ∷ ls) h =
    elim (Bool-cases (bytes_eq l.profile_id id && kind_eq l.kind subscription)) [
      | inl e ↦
          let k = &&-true (bytes_eq l.profile_id id) (kind_eq l.kind subscription) e in
          inl ((bytes_eq_iff l.profile_id id).0 k.0, kind-eq l.kind k.1, first (rw e at h))
      | inr e ↦ inr (digests-Some id d rest ls (rw e at h))
    ]
  where
    first : {more : List Bytes} → l.lookup_digest ∷ more ≡ d ∷ rest → l.lookup_digest ≡ d
    first q = cc

-- On consistent tables, `set_state` refuses an unknown profile, and a state that is neither the present
-- one nor a legal successor of it. Otherwise it changes just the row of the profile, in which just the
-- state, the time of the update, the error code, which only a faulty profile keeps, and the time of
-- disabling, which only a disabled profile has, are new, and returns the record of that row.
pub set_state_row-Transition :
    (id : Bytes) (state : ProfileState) (code : Option Text) (timestamp : ℕ) (db : Database)
    → IsConsistent db
    → ((find_profile id db.profiles ≡ none)
        × (set_state_row id state code timestamp db ≡ err profile_not_found))
      ⊎ ((p : Profile) × (find_profile id db.profiles ≡ some p)
          × ((¬ Legal p.state state
                × (set_state_row id state code timestamp db ≡ err invalid_profile_transition))
              ⊎ (Legal p.state state
                  × ((r : ProfileRecord) × (after : Database) × (set_state_row id state code
                          timestamp db
                        ≡ ok (r, after))
                      × Transition id state code timestamp db p r after))))
unfolding set_state_row
set_state_row-Transition id s code t db c = elim (row_of-RowResult id db c.ids c.looked_up) [
  | inl (absent, e) ↦ inl (absent, rw e refl)
  | inr (p, d, at, l, e) ↦ inr (
    p,
    at,
    elim (Bool-cases (state_eq p.state s || legal_transition p.state s)) [
      | inr refused ↦ inl ((λ h. unlawful (Legal-test p.state s h) refused), rw (e, refused) refl)
      | inl legal ↦ inr (
        test-Legal p.state s legal,
        (
          record_of (stamped s code t p) d,
          record db { profiles = update_profile id (stamped s code t) db.profiles },
          rw (e, legal) refl,
          record {
            q = stamped s code t p;
            changed = stamped-Changed id s code t p;
            here = find-update id s code t p db.profiles at;
            only = update-OnlyRow id s code t db.profiles;
            others = refl;
            shows = record {
              profile_id = refl;
              name = refl;
              state = refl;
              runtime_id = refl;
              key = refl;
              user_id = refl;
              secret = refl;
              token = refl;
              created_at = refl;
              updated_at = refl;
              disabled_at = refl;
              last_error_code = refl;
            };
            looked_up = digests-Some id d [] db.profile_lookups (
                subst (λ x. digests subscription x db.profile_lookups ≡ d ∷ [])
                  (found-id id p db.profiles at) l);
          },
        ),
      )
    ],
  )
]
  where
    unlawful : {b : Bool} → b ≡ true → b ≡ false → ⊥
    unlawful h e = cc
