-- ===== src/Profiles/Coordinator/Delete.antt =====
-- `delete` of profiles/coordinator.py: what is left of the profile.
use ez_open_pn.Prelude.{
  ℕ, ◌≡◌, refl, Bool, false, not, List, [], ◌∷◌, Bytes, bytes_eq, select, any, Bool-cases, inl, inr,
}
use ez_open_pn.Errors.{Exn, ok, profile_revocation_failed, profile_not_found}
use ez_open_pn.Models.{Profile, ProfileLookup, Database}
use ez_open_pn.World.{Env, World}
use ez_open_pn.Exec.{Exec}
use ez_open_pn.Exec.Keeps.{
  Ensures, Ensures-bind, Ensures-try, Ensures-ok, Ensures-by, Ensures-session_scope, Work,
}
use ez_open_pn.Profiles.Tables.Statements.{delete_rows}
use ez_open_pn.Profiles.Repository
use ez_open_pn.Profiles.Coordinator.{disable, delete, deletion_failed}

-- No row of the profile, and no lookup of it.
abbrev IsGone : Bytes → Database → Type 0
IsGone id db =
    (any (λ (p : Profile). bytes_eq p.id id) db.profiles ≡ false)
    × (any (λ (l : ProfileLookup). bytes_eq l.profile_id id) db.profile_lookups ≡ false)

module _ {A : Type 0} (p : A → Bool) where
  none_left : (xs : List A) → any p (select (λ x. not (p x)) xs) ≡ false
  none_left [] = refl
  none_left (x ∷ xs) = elim (Bool-cases (p x)) [
    | inl e ↦ rw e (none_left xs)
    | inr e ↦ rw (e, e) (none_left xs)
  ]

module _ (env : Env) (id : Bytes) where
  anything :
      {A : Type 0} (m : Exec A) → Ensures (λ _. Unit {0}) m (λ _ _. Unit {0}) (λ _ _. Unit {0})
  anything m = Ensures-by m (λ w h a e. tt) (λ w h e p. tt)

  rows-IsGone :
      (event : Bytes) (t : ℕ) (db : Database)
      → Work (λ _. IsGone id) (λ _ _. Unit {0}) db (delete_rows id event t db)
  unfolding delete_rows
  rows-IsGone event t db = elim (Bool-cases (any (λ (p : Profile). bytes_eq p.id id) db.profiles)) [
    | inl e ↦ rw e (
      none_left (λ p. bytes_eq p.id id) db.profiles,
      none_left (λ l. bytes_eq l.profile_id id) db.profile_lookups,
    )
    | inr e ↦ rw e tt
  ]

  local-IsGone :
      Ensures
        (λ _. Unit {0})
        (Repository.delete_local env id)
        (λ _ w. IsGone id w.db)
        (λ _ _. Unit {0})
  unfolding Repository.delete_local
  local-IsGone = Ensures-bind _ _ (anything _) λ event. Ensures-bind _ _ (anything _) λ t.
      Ensures-session_scope env (λ _. Unit {0}) (λ _. IsGone id) (λ _ _. Unit {0}) _
        (λ db h. rows-IsGone event t db) (λ db h. tt)

  checkpoint-IsGone :
      Ensures
        (λ w. IsGone id w.db)
        (Repository.checkpoint_wal env)
        (λ _ w. IsGone id w.db)
        (λ _ _. Unit {0})
  unfolding Repository.checkpoint_wal
  checkpoint-IsGone =
      Ensures-session_scope env (IsGone id) (λ _. IsGone id) (λ _ _. Unit {0}) _ (λ db h. h)
        (λ db h. tt)

  failed-IsGone :
      (e : Exn)
      → Ensures (λ _. Unit {0}) (deletion_failed env id e) (λ _ w. IsGone id w.db) (λ _ _. Unit {0})
  unfolding deletion_failed
  failed-IsGone profile_revocation_failed = record { at = λ w h. tt }
  failed-IsGone profile_not_found = record { at = λ w h. tt }
  failed-IsGone _ =
      Ensures-bind _ _ (anything _)
        λ _. Ensures-bind _ _ (anything _) λ _. record { at = λ w h. tt }

  delete-IsGone : Ensures (λ _. Unit {0}) (delete env id) (λ _ w. IsGone id w.db) (λ _ _. Unit {0})
  unfolding delete
  delete-IsGone =
      Ensures-try _ _
        (Ensures-bind _ _ (anything (disable env id))
          λ _. Ensures-bind _ _ local-IsGone λ _. checkpoint-IsGone)
        (λ e. failed-IsGone e)

-- When `delete` returns, whatever the tables were, no row of `profiles` has the identifier, and no
-- lookup digest points to it, so no token of the profile is found any more.
pub delete_removes :
    (env : Env) (id : Bytes) (w : World)
    → (delete env id w).0 ≡ ok tt
    → (any (λ (p : Profile). bytes_eq p.id id) (delete env id w).1.db.profiles ≡ false)
      × (any
            (λ (l : ProfileLookup). bytes_eq l.profile_id id)
            (delete env id w).1.db.profile_lookups
          ≡ false)
delete_removes env id w h = Ensures-ok (delete-IsGone env id) w tt h
