-- ===== src/Installer/Cleanup/Confined.antt =====
-- installer/backup_archive.py `cleanup_staging`: what it can remove.
use ez_open_pn.Prelude.{
  ◌+◌, ◌≡◌, ◌⊎◌, refl, ap, true, false, ◌&&◌, &&-true, Option, none, some, Text, codes, bytes_eq,
  bytes_eq_iff, Bool-cases, inl, inr,
}
use ez_open_pn.Installer.Names.{starts_with}
use ez_open_pn.Installer.Io.{◌>>=◌, ◌>>◌, demand, Entry, Place, Disk, Os, same_place}
use ez_open_pn.Installer.Disk.{find, call, rmtree}
use ez_open_pn.Installer.Disk.Laws.{
  Keeps, Keeps-pure, Keeps-bind, Keeps-demand, Stands, Stands-call, Stands-rmtree, same_place_iff,
}
use ez_open_pn.Installer.Restore.{is_tree}
use ez_open_pn.Installer.Cleanup.{found_entry, cleanup_staging}

module _ (os : Os) (path : Place) (parent : Text) where
  -- Another place stays as it is.
  Stands-cleanup :
      (q : Place) (o : Option Entry)
      → same_place q path ≡ false
      → Keeps (Stands q o) (cleanup_staging os path parent)
  unfolding cleanup_staging
  Stands-cleanup q o apart =
      Keeps-bind (demand (bytes_eq path.dir parent && starts_with (codes ".stage.") path.name)) _
        (Keeps-demand _)
        λ u. Keeps-bind (call os) _ (Stands-call os q o) λ v.
          Keeps-bind (λ d. found_entry (find path d.places) d) _ looked
            λ entry.
              Keeps-bind (demand (is_tree (some entry))) _ (Keeps-demand _)
                λ w. Stands-rmtree os q o path apart
    where
      found : (x : Option Entry) → Keeps (Stands q o) (found_entry x)
      found none = Keeps-pure _
      found (some e) = Keeps-pure _

      looked : Keeps (Stands q o) (λ d. found_entry (find path d.places) d)
      looked = record { at = λ d h. (found (find path d.places)).at d h }

  -- What is not a staging directory stays.
  refused :
      (d : Disk)
      → (bytes_eq path.dir parent && starts_with (codes ".stage.") path.name) ≡ false
      → (cleanup_staging os path parent d).1 ≡ d
  unfolding cleanup_staging
  refused d h = rw h refl

  unsafe :
      (d : Disk)
      → is_tree (find path d.places) ≡ false
      → (cleanup_staging os path parent d).1.places ≡ d.places
  unfolding cleanup_staging
  unsafe d h =
      elim (Bool-cases (bytes_eq path.dir parent && starts_with (codes ".stage.") path.name)) [
        | inr k ↦ rw k refl
        | inl k ↦ rw k (elim (Bool-cases (os.refuses d.calls)) [
          | inl r ↦ rw r refl
          | inr r ↦ rw r (looked (find path d.places) h)
        ])
      ]
    where
      looked :
          (o : Option Entry)
          → is_tree o ≡ false
          → ((found_entry o >>= λ entry. demand (is_tree (some entry)) >> rmtree os path)
              (record d { calls = d.calls + 1 })).1.places
            ≡ d.places
      looked none n = refl
      looked (some e) n = rw n refl

-- Whatever `cleanup_staging` does, a place stays as it is, unless it is the path, the path is directly
-- in the parent, its name begins with `.stage.`, and a directory, not a link, stands there.
pub cleanup_is_confined :
    (os : Os) (path : Place) (parent : Text) (q : Place) (d : Disk)
    → (find q (cleanup_staging os path parent d).1.places ≡ find q d.places)
      ⊎ ((q ≡ path)
          × (path.dir ≡ parent)
          × (starts_with (codes ".stage.") path.name ≡ true)
          × (is_tree (find path d.places) ≡ true))
cleanup_is_confined os path parent q d = elim (Bool-cases (same_place q path)) [
  | inr apart ↦ inl ((Stands-cleanup os path parent q (find q d.places) apart).at d refl)
  | inl same ↦
      elim (Bool-cases (bytes_eq path.dir parent && starts_with (codes ".stage.") path.name)) [
        | inr k ↦ inl (ap (λ (e : Disk). find q e.places) (refused os path parent d k))
        | inl k ↦ elim (Bool-cases (is_tree (find path d.places))) [
          | inr n ↦ inl (ap (find q) (unsafe os path parent d n))
          | inl n ↦
              let b =
                &&-true (bytes_eq path.dir parent) (starts_with (codes ".stage.") path.name) k in
              inr ((same_place_iff q path).0 same, (bytes_eq_iff path.dir parent).0 b.0, b.1, n)
        ]
      ]
]
