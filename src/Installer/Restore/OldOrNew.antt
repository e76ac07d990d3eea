-- ===== src/Installer/Restore/OldOrNew.antt =====
-- installer/backup_archive.py `_copy_tree`: whatever fails, the directory is the old one or the new.
use ez_open_pn.Prelude.{
  ℕ, ◌<◌, ◌≡◌, ◌⊎◌, refl, ap, true, false, Option, some, List, [], ◌∷◌, ◌++◌, Bytes, Text, codes,
  bytes_eq, bytes_eq_iff, length, length-append, arith, Bool-cases, inl, inr,
}
use ez_open_pn.Installer.Io.{
  Io, Attributes, File, FilePath, Node, Entry, tree, Place, Disk, Os, same_place,
}
use ez_open_pn.Installer.Disk.{find}
use ez_open_pn.Installer.Disk.Ends.{Ends}
use ez_open_pn.Installer.Restore.{beside, walked}
use ez_open_pn.Installer.Restore.Chunks.{joined}
use ez_open_pn.Installer.Restore.Copied.{contents, pile}

-- Names of another length are other names.
longer : (x y : Text) → length x < length y → bytes_eq x y ≡ false
longer x y h = elim (Bool-cases (bytes_eq x y)) [
  | inl e ↦ absurd (omega (arith, ap (λ (t : Text). length t) ((bytes_eq_iff x y).0 e)))
  | inr e ↦ e
]

shorter : (x y : Text) → length y < length x → bytes_eq x y ≡ false
shorter x y h = elim (Bool-cases (bytes_eq x y)) [
  | inl e ↦ absurd (omega (arith, ap (λ (t : Text). length t) ((bytes_eq_iff x y).0 e)))
  | inr e ↦ e
]

same_front : (x a b : Text) → bytes_eq (x ++ a) (x ++ b) ≡ bytes_eq a b
unfolding bytes_eq
same_front [] a b = refl
same_front (c ∷ x) a b = ground (arith, same_front x a b)

module _ (os : Os) (p : Place) (n : ℕ) where
  abbrev pub temporary : Place
  temporary = beside os p (codes ".restore-") n

  abbrev pub old : Place
  old = beside os p (codes ".previous-") n

  length-beside : (word : Text) → length p.name < length (beside os p word n).name
  length-beside word = omega (
    arith,
    length-append (codes ".") (p.name ++ (word ++ os.token n)),
    length-append p.name (word ++ os.token n),
  )

  pub name_after : (word : Text) → same_place p (beside os p word n) ≡ false
  name_after word = rw (longer p.name (beside os p word n).name (length-beside word)) ground arith

  pub name_before : (word : Text) → same_place (beside os p word n) p ≡ false
  name_before word = rw (shorter (beside os p word n).name p.name (length-beside word)) ground arith

  pub temporary-old : same_place temporary old ≡ false
  unfolding bytes_eq
  temporary-old =
      rw
        (
          same_front (codes ".") (p.name ++ (codes ".restore-" ++ os.token n))
              (p.name ++ (codes ".previous-" ++ os.token n)),
          same_front p.name (codes ".restore-" ++ os.token n) (codes ".previous-" ++ os.token n),
        )
        ground arith

-- A directory with just the files that were staged below the source.
pub record Restored (s : List (FilePath × Node)) (source : FilePath) (p : Place) (d : Disk)
    : Type 0 where
  pub a : Attributes
  pub files : List (FilePath × File)
  pub stands : find p d.places ≡ some (tree a files)
  pub complete : contents files ≡ pile s (walked source s) []

module _ (os : Os) (whole_content : (b : Bytes) → joined (os.reads b) ≡ b)
    (once : (i j : ℕ) → i < j → os.refuses i ≡ true → os.refuses j ≡ false) (p : Place)
    (source : FilePath) (uid gid : ℕ) (o : Option Entry) (s : List (FilePath × Node)) where
  Outcome : Disk → Type 0
  Outcome d = (find p d.places ≡ o) ⊎ Restored s source p d

  Before : Disk → Type 0
  Before d = (find p d.places ≡ o) × (d.staged ≡ s)
