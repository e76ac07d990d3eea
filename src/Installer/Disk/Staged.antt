-- ===== src/Installer/Disk/Staged.antt =====
-- The system calls of installer/backup_archive.py on places leave the staging directory as it is.
use ez_open_pn.Prelude.{◌≡◌, Option, none, some, List, Bool-cases, inl, inr}
use ez_open_pn.Installer.Io.{Disk, FilePath, Node, Entry, tree, Place, Os, File}
use ez_open_pn.Installer.Disk.{
  find, call, set_place, created, changed, create, change, Target, place_of, exists, rename_entry,
  may_replace, replace, unlinked, unlink, tree_removed, rmtree,
}
use ez_open_pn.Installer.Disk.Laws.{Keeps, Keeps-pure, Keeps-bind}

abbrev pub Staged : List (FilePath × Node) → Disk → Type 0
Staged s d = d.staged ≡ s

module _ (os : Os) (s : List (FilePath × Node)) where
  pub Staged-call : Keeps (Staged s) (call os)
  unfolding call
  Staged-call = record { at = λ d h. h }

  pub set-Staged : (p : Place) (o : Option Entry) → Keeps (Staged s) (set_place p o)
  set-Staged p none = Keeps-pure _
  set-Staged p (some e) = record { at = λ d h. h }

  pub Staged-create : (target : Target) → Keeps (Staged s) (create os target)
  unfolding create
  Staged-create target = Keeps-bind (call os) _ Staged-call λ u. record {
    at = λ d h.
        (set-Staged (place_of target) (created os target (find (place_of target) d.places))).at d h;
  }

  pub Staged-change : (f : File → File) (target : Target) → Keeps (Staged s) (change os f target)
  unfolding change
  Staged-change f target = Keeps-bind (call os) _ Staged-call λ u. record {
    at = λ d h.
        (set-Staged (place_of target) (changed f target (find (place_of target) d.places))).at d h;
  }

  pub Staged-exists : (p : Place) → Keeps (Staged s) (exists os p)
  unfolding exists
  Staged-exists p = Keeps-bind (call os) _ Staged-call λ u. Keeps-pure _

  unlinked-Staged : (p : Place) (o : Option Entry) → Keeps (Staged s) (unlinked p o)
  unfolding unlinked
  unlinked-Staged p none = record { at = λ d h. h }
  unlinked-Staged p (some (tree a files)) = Keeps-pure _
  unlinked-Staged p (some _) = record { at = λ d h. h }

  removed-Staged : (p : Place) (o : Option Entry) → Keeps (Staged s) (tree_removed p o)
  unfolding tree_removed
  removed-Staged p (some (tree a files)) = record { at = λ d h. h }
  removed-Staged p _ = Keeps-pure _

  renamed-Staged : (p q : Place) (o : Option Entry) → Keeps (Staged s) (rename_entry p q o)
  renamed-Staged p q none = Keeps-pure _
  renamed-Staged p q (some e) = record {
    at = λ d h. elim (Bool-cases (may_replace e (find q d.places))) [
      | inl x ↦ rw x h
      | inr x ↦ rw x h
    ];
  }

  pub Staged-unlink : (p : Place) → Keeps (Staged s) (unlink os p)
  unfolding unlink
  Staged-unlink p =
      Keeps-bind (call os) _ Staged-call
        λ u. record { at = λ d h. (unlinked-Staged p (find p d.places)).at d h }

  pub Staged-rmtree : (p : Place) → Keeps (Staged s) (rmtree os p)
  unfolding rmtree
  Staged-rmtree p =
      Keeps-bind (call os) _ Staged-call
        λ u. record { at = λ d h. (removed-Staged p (find p d.places)).at d h }

  pub Staged-replace : (p q : Place) → Keeps (Staged s) (replace os p q)
  unfolding replace
  Staged-replace p q =
      Keeps-bind (call os) _ Staged-call
        λ u. record { at = λ d h. (renamed-Staged p q (find p d.places)).at d h }
