-- ===== src/Profiles/Tables/Works.antt =====
-- What the units of work of profiles/repository.py do to consistent tables.
use mathlib.Core.Option
use ez_open_pn.Prelude.{
  ℕ, ◌≡◌, refl, ◌∙◌, ◌⊎◌, inl, inr, Bool, true, false, ◌||◌, Option, none, some, List, [], ◌∷◌,
  Bytes, Text, bytes_eq, bytes_eq_iff, any, arith, Bool-cases, length,
}
use ez_open_pn.Errors.{
  Result, ok, err, profile_not_found, invalid_profile_transition, integrity_error,
}
use ez_open_pn.Models.{ProfileState, Profile, subscription, hysteria_auth, ProfileLookup, Database}
use ez_open_pn.Profiles.Types.{NewProfileMaterial, ProfileRecord}
use ez_open_pn.Exec.Keeps.{Work}
use ez_open_pn.Profiles.Tables.Query.{record_of, state_eq, legal_transition, update_profile}
use ez_open_pn.Profiles.Tables.Statements.{
  stamped, marked, set_state_row, set_runtime_error_row, delete_rows, insert_rows, insertable,
  new_profile, new_lookup, new_profile, new_lookup,
}
use ez_open_pn.Profiles.Tables.Rows.{find_profile, row_of-RowResult}
use ez_open_pn.Profiles.Tables.Consistent.{IsShaped, IsConsistent, update-IsConsistent}
use ez_open_pn.Profiles.Tables.Membership.{delete-IsConsistent, insert-IsConsistent, inserted}

-- The state of a profile, if there is one.
abbrev pub state_of : Database → Bytes → Option ProfileState
state_of db id = Option.map (λ (p : Profile). p.state) (find_profile id db.profiles)

-- What a change of state may answer: no such profile, a transition that the table of legal
-- transitions refuses, or the record of the changed row and tables with that row changed.
abbrev pub SetState :
    Bytes → ProfileState → Option Text → ℕ → Database → Result (ProfileRecord × Database) → Type 0
SetState id s code t db r =
    ((find_profile id db.profiles ≡ none) × (r ≡ err profile_not_found))
    ⊎ ((p : Profile) × (find_profile id db.profiles ≡ some p)
        × (((state_eq p.state s || legal_transition p.state s ≡ false)
              × (r ≡ err invalid_profile_transition))
            ⊎ ((d : Bytes) × (state_eq p.state s || legal_transition p.state s ≡ true)
                × (r
                    ≡ ok (
                      record_of (stamped s code t p) d,
                      record db { profiles = update_profile id (stamped s code t) db.profiles },
                    )))))

-- What `set_state` does to consistent tables: it refuses an unknown profile, and a state that is neither
-- the present one nor a legal successor of it; otherwise `update_profile` stamps the profile, and the
-- record of the stamped row is returned.
pub set_state_row-SetState :
    (id : Bytes) (s : ProfileState) (code : Option Text) (t : ℕ) (db : Database)
    → IsConsistent db
    → SetState id s code t db (set_state_row id s code t db)
unfolding set_state_row
set_state_row-SetState id s code t db c = elim (row_of-RowResult id db c.ids c.looked_up) [
  | inl (absent, e) ↦ inl (absent, rw e)
  | inr (p, d, at, _, e) ↦ inr (
    p,
    at,
    elim (Bool-cases (state_eq p.state s || legal_transition p.state s)) [
      | inl legal ↦ inr (d, legal, rw (e, legal))
      | inr refused ↦ inl (refused, rw (e, refused))
    ],
  )
]

stamped-IsShaped :
    (s : ProfileState) (code : Option Text) (t : ℕ) (p : Profile)
    → IsShaped p
    → IsShaped (stamped s code t p)
stamped-IsShaped s code t p h = record {
  runtime_id_length = h.runtime_id_length;
  disabled_since = ground arith;
}

stamp-IsConsistent :
    (id : Bytes) (s : ProfileState) (code : Option Text) (t : ℕ) (db : Database)
    → IsConsistent db
    → IsConsistent (record db { profiles = update_profile id (stamped s code t) db.profiles })
stamp-IsConsistent id s code t db c =
    update-IsConsistent id (stamped s code t) (λ p. refl) (λ p. refl) db (stamped-IsShaped s code t)
      c

-- `set_state` leaves the tables consistent.
pub set_state_row-IsConsistent :
    (id : Bytes) (s : ProfileState) (code : Option Text) (t : ℕ) (db : Database)
    → IsConsistent db
    → Work (λ _. IsConsistent) (λ _. IsConsistent) db (set_state_row id s code t db)
set_state_row-IsConsistent id s code t db c = elim (set_state_row-SetState id s code t db c) [
  | inl (_, e) ↦ rw e c
  | inr (p, _, inl (_, e)) ↦ rw e c
  | inr (p, _, inr (d, _, e)) ↦ rw e (stamp-IsConsistent id s code t db c)
]

pub set_runtime_error_row-IsConsistent :
    (id : Bytes) (code : Text) (t : ℕ) (db : Database)
    → IsConsistent db
    → Work (λ _. IsConsistent) (λ _. IsConsistent) db (set_runtime_error_row id code t db)
unfolding set_runtime_error_row
set_runtime_error_row-IsConsistent id code t db c =
    elim (row_of-RowResult id db c.ids c.looked_up) [
      | inl (absent, e) ↦ rw e c
      | inr (p, d, at, _, e) ↦ rw e (
          update-IsConsistent id (marked code t) (λ p. refl) (λ p. refl) db
            (λ p h. record {
              runtime_id_length = h.runtime_id_length;
              disabled_since = h.disabled_since;
            })
            c)
    ]

pub delete_rows-IsConsistent :
    (id event_id : Bytes) (t : ℕ) (db : Database)
    → IsConsistent db
    → Work (λ _. IsConsistent) (λ _. IsConsistent) db (delete_rows id event_id t db)
unfolding delete_rows
delete_rows-IsConsistent id event_id t db c =
    elim (Bool-cases (any (λ p. bytes_eq p.id id) db.profiles)) [
      | inl e ↦ rw e (
          let k = delete-IsConsistent id db c in
          record {
            ids = k.ids;
            runtime_ids = k.runtime_ids;
            looked_up = k.looked_up;
            owned = k.owned;
            digests_differ = k.digests_differ;
            shaped = k.shaped;
          })
      | inr e ↦ rw e c
    ]

any_or :
    {A : Type 0} (p q : A → Bool) (xs : List A)
    → any (λ x. p x || q x) xs ≡ false
    → (any p xs ≡ false) × (any q xs ≡ false)
any_or p q [] h = (refl, refl)
any_or p q (x ∷ xs) h = ground (arith, any_or p q xs)

bytes_eq_comm : (xs ys : Bytes) → bytes_eq xs ys ≡ bytes_eq ys xs
bytes_eq_comm xs ys = ground (arith, bytes_eq_iff xs ys, bytes_eq_iff ys xs)

-- The facts that the constraints of models.py give on the new rows.
record Fits (p : Profile) (l m : ProfileLookup) (db : Database) : Type 0 where
  ids :
      any (λ (q : Profile). bytes_eq q.id p.id || bytes_eq q.runtime_id p.runtime_id) db.profiles
      ≡ false
  digest_l :
      any (λ (k : ProfileLookup). bytes_eq k.lookup_digest l.lookup_digest) db.profile_lookups
      ≡ false
  digest_m :
      any (λ (k : ProfileLookup). bytes_eq k.lookup_digest m.lookup_digest) db.profile_lookups
      ≡ false
  differ : bytes_eq l.lookup_digest m.lookup_digest ≡ false
  runtime_id : length p.runtime_id ≡ 28

insertable-Fits :
    (p : Profile) (l m : ProfileLookup) (db : Database) → insertable p l m db ≡ true → Fits p l m db
unfolding insertable
insertable-Fits p l m db h = ground arith

-- `insert_pending` leaves the tables consistent, and refuses what breaks a constraint.
pub insert_rows-IsConsistent :
    (material : NewProfileMaterial) (subscription_id hysteria_id : Bytes) (t : ℕ) (db : Database)
    → IsConsistent db
    → Work
        (λ _. IsConsistent)
        (λ e db'. (e ≡ integrity_error) × IsConsistent db')
        db
        (insert_rows material subscription_id hysteria_id t db)
unfolding insert_rows
insert_rows-IsConsistent material subscription_id hysteria_id t db c =
    elim (Bool-cases (insertable p l m db)) [
      | inl e ↦ rw e (fitting (insertable-Fits p l m db e))
      | inr e ↦ rw e (refl, c)
    ]
  where
    p : Profile
    p = new_profile material t

    l : ProfileLookup
    l = new_lookup subscription_id p.id subscription material.subscription_lookup_digest t

    m : ProfileLookup
    m = new_lookup hysteria_id p.id hysteria_auth material.hysteria_lookup_digest t

    fresh :
        Fits p l m db
        → (any (λ (q : Profile). bytes_eq q.id p.id) db.profiles ≡ false)
          × (any (λ (q : Profile). bytes_eq q.runtime_id p.runtime_id) db.profiles ≡ false)
    fresh f =
        any_or (λ q. bytes_eq q.id p.id) (λ q. bytes_eq q.runtime_id p.runtime_id) db.profiles f.ids

    fitting : Fits p l m db → IsConsistent (inserted p l m db)
    fitting f =
        insert-IsConsistent p l m db refl refl refl refl (fresh f).0 (fresh f).1 f.digest_l
          f.digest_m (bytes_eq_comm m.lookup_digest l.lookup_digest ∙ f.differ)
          (record { runtime_id_length = f.runtime_id; disabled_since = refl }) c
