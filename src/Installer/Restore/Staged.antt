-- ===== src/Installer/Restore/Staged.antt =====
-- installer/backup_archive.py: what restores files leaves the staging directory as it is.
use ez_open_pn.Prelude.{
  ℕ, Bool, true, false, not, Option, none, some, List, [], ◌∷◌, Bytes, if◌then◌else◌, ◌==◌, codes,
}
use ez_open_pn.Errors.{ok}
use ez_open_pn.Installer.Io.{
  Io, pure, ◌>>=◌, ◌>>◌, on_error, finally, demand, FilePath, Node, regular, other, tree, Place, Os,
}
use ez_open_pn.Installer.Disk.{
  find, put, staged_at, call, Target, inside, whole, chmod, apply_owner, write, exists, replace,
  unlink, rmtree, with_attributes,
}
use ez_open_pn.Installer.Disk.Laws.{
  Keeps, Keeps-pure, Keeps-bind, Keeps-on_error, Keeps-finally, Keeps-for_each, Keeps-demand,
}
use ez_open_pn.Installer.Restore.{
  regular_node, regular_status, copy_chunks, safe_copy, walked, tree_files, names_in,
  own_directories, own_tree, fill_tree, move_back, swap_trees, remove_if_there, is_tree,
  is_directory, copy_tree, install_file, beside,
}
use ez_open_pn.Installer.Disk.Staged.{
  Staged, set-Staged, Staged-call, Staged-create, Staged-change, Staged-exists, Staged-unlink,
  Staged-rmtree, Staged-replace,
}

-- `mkdtemp`.
abbrev pub made : Os → Place → Io (Unit {0})
made os p d = (
  ok tt,
  record d {
    places = put p (tree (record { mode = 448; uid = os.euid; gid = os.egid }) []) d.places;
  },
)

module _ (os : Os) (s : List (FilePath × Node)) where
  node-Staged : (x : Option Node) → Keeps (Staged s) (regular_node x)
  node-Staged none = Keeps-pure _
  node-Staged (some other) = Keeps-pure _
  node-Staged (some (regular y)) = Keeps-bind (demand _) _ (Keeps-demand _) λ u. Keeps-pure _

  Staged-status : (path : FilePath) → Keeps (Staged s) (regular_status os path)
  unfolding regular_status
  Staged-status path =
      Keeps-bind (call os) _ (Staged-call os s)
        λ u. record { at = λ d h. (node-Staged (staged_at path d.staged)).at d h }

  Staged-chunks :
      (target : Target) (chunks : List Bytes) (size : ℕ) (seen : Bytes)
      → Keeps (Staged s) (copy_chunks os target chunks size seen)
  unfolding copy_chunks
  Staged-chunks target [] size seen =
      Keeps-bind (call os) _ (Staged-call os s)
        λ u. Keeps-bind (call os) _ (Staged-call os s) λ v. Keeps-pure _
  Staged-chunks target (chunk ∷ rest) size seen = Keeps-bind (call os) _ (Staged-call os s) λ u.
      Keeps-bind (demand _) _ (Keeps-demand _) λ v.
        Keeps-bind (write os target chunk) _ (Staged-change os s _ target)
          λ w. Staged-chunks target rest _ _

  Staged-safe_copy :
      (source : FilePath) (target : Target) → Keeps (Staged s) (safe_copy os source target)
  unfolding safe_copy
  Staged-safe_copy source target = Keeps-bind _ _ (Staged-status source) λ x.
      Keeps-bind (call os) _ (Staged-call os s) λ u. Keeps-bind (call os) _ (Staged-call os s) λ v.
        Keeps-bind _ _ (Staged-create os s target)
          λ w. Keeps-bind (call os) _ (Staged-call os s) λ y. Staged-chunks target _ _ _

  Staged-when :
      (b : Bool) (m : Io (Unit {0}))
      → Keeps (Staged s) m
      → Keeps (Staged s) (if b then m else pure tt)
  Staged-when true m k = k
  Staged-when false m k = Keeps-pure _

  Staged-own : (uid gid : ℕ) (target : Target) → Keeps (Staged s) (apply_owner os uid gid target)
  Staged-own uid gid target = Staged-when (os.euid == 0) _ (Staged-change os s _ target)

  Staged-own_tree : (p : Place) (uid gid : ℕ) → Keeps (Staged s) (own_tree os p uid gid)
  unfolding own_tree
  Staged-own_tree p uid gid =
      Keeps-bind (own_directories os p uid gid) _
        (Keeps-bind (call os) _ (Staged-call os s) λ u.
          Keeps-bind _ _ (Staged-when (os.euid == 0) (call os) (Staged-call os s)) λ v. record {
            at = λ d h. (set-Staged os s p (with_attributes _ (find p d.places))).at d h;
          })
        λ u. Keeps-bind _ _ (Keeps-pure (λ d. ok (names_in (find p d.places)))) λ names.
          Keeps-for_each names _ λ path.
            Keeps-bind (chmod os 384 (inside p path)) _ (Staged-change os s _ (inside p path))
              λ v. Staged-own uid gid (inside p path)

  Staged-tree_files : (source : FilePath) → Keeps (Staged s) (tree_files os source)
  unfolding tree_files
  Staged-tree_files source = Keeps-bind (call os) _ (Staged-call os s) λ u.
      Keeps-bind _ _ (Keeps-pure (λ d. ok (walked source d.staged))) λ found.
        Keeps-bind _ _
          (Keeps-for_each found _ λ x.
            Keeps-bind (regular_status os x.1) _ (Staged-status x.1) λ v. Keeps-pure (λ d. ok tt))
          λ w. Keeps-pure (λ d. ok found)

  Staged-fill_tree :
      (source : FilePath) (p : Place) (uid gid : ℕ)
      → Keeps (Staged s) (fill_tree os source p uid gid)
  unfolding fill_tree
  Staged-fill_tree source p uid gid = Keeps-bind _ _ (Staged-tree_files source) λ found.
      Keeps-bind _ _
        (Keeps-for_each found _ λ x.
          Keeps-bind (safe_copy os x.1 (inside p x.0)) _ (Staged-safe_copy x.1 (inside p x.0))
            λ v. Keeps-pure (λ d. ok tt))
        λ u. Staged-own_tree p uid gid

  Staged-move_back : (old destination : Place) → Keeps (Staged s) (move_back os old destination)
  unfolding move_back
  Staged-move_back old destination = Keeps-bind _ _ (Staged-exists os s destination) λ there.
      Keeps-bind _ _ (kept there) λ b. Staged-when b _ (Staged-replace os s old destination)
    where
      kept : (b : Bool) → Keeps (Staged s) (if not b then exists os old else pure false)
      kept true = Keeps-pure _
      kept false = Staged-exists os s old

  Staged-swap_trees :
      (temporary old destination : Place)
      → Keeps (Staged s) (swap_trees os temporary old destination)
  unfolding swap_trees
  Staged-swap_trees temporary old destination =
      Keeps-bind _ _ (Staged-exists os s destination) λ there. swapped there
    where
      swapped :
          (b : Bool)
          → Keeps (Staged s) (
              if b
              then ((λ d. (ok (is_tree (find destination d.places)), d)) >>= λ safe.
                  demand safe
                  >> (replace os destination old
                      >> on_error
                          (replace os temporary destination >> rmtree os old)
                          (move_back os old destination)))
              else replace os temporary destination)
      swapped false = Staged-replace os s temporary destination
      swapped true =
          Keeps-bind _ _ (Keeps-pure (λ d. ok (is_tree (find destination d.places)))) λ safe.
            Keeps-bind (demand safe) _ (Keeps-demand safe) λ u.
              Keeps-bind _ _ (Staged-replace os s destination old) λ v.
                Keeps-on_error _ _
                  (Keeps-bind _ _ (Staged-replace os s temporary destination)
                    λ w. Staged-rmtree os s old)
                  (Staged-move_back old destination)

  pub Staged-remove : (p : Place) → Keeps (Staged s) (remove_if_there os p)
  unfolding remove_if_there
  Staged-remove p =
      Keeps-bind _ _ (Staged-exists os s p) λ there. Staged-when there _ (Staged-rmtree os s p)

  pub Staged-copy_tree :
      (source : FilePath) (destination : Place) (uid gid : ℕ)
      → Keeps (Staged s) (copy_tree os source destination uid gid)
  unfolding copy_tree
  Staged-copy_tree source destination uid gid = Keeps-bind (call os) _ (Staged-call os s) λ u.
      Keeps-bind _ _ (Keeps-pure (λ d. ok (is_directory (staged_at source d.staged)))) λ b.
        Keeps-bind (demand b) _ (Keeps-demand b) λ v. Keeps-bind (call os) _ (Staged-call os s) λ w.
          Keeps-bind _ _ (Keeps-pure (λ d. ok d.calls)) λ n.
            Keeps-bind (call os) _ (Staged-call os s) λ x.
              Keeps-bind (made os (beside os destination (codes ".restore-") n)) _
                (record { at = λ d h. h })
                λ y.
                  Keeps-finally _ _
                    (Keeps-bind _ _
                      (Staged-fill_tree source (beside os destination (codes ".restore-") n) uid
                        gid)
                      λ z.
                        Staged-swap_trees (beside os destination (codes ".restore-") n)
                          (beside os destination (codes ".previous-") n) destination)
                    (Keeps-bind _ _ (Staged-remove (beside os destination (codes ".restore-") n))
                      λ z. Staged-remove (beside os destination (codes ".previous-") n))

  pub Staged-install_file :
      (source : FilePath) (destination : Place) (mode uid gid : ℕ)
      → Keeps (Staged s) (install_file os source destination mode uid gid)
  unfolding install_file
  Staged-install_file source destination mode uid gid = Keeps-bind _ _ (Staged-status source) λ x.
      Keeps-bind (call os) _ (Staged-call os s) λ u.
        Keeps-bind _ _ (Keeps-pure (λ d. ok d.calls))
          λ n. written (beside os destination (codes ".restore-") n)
    where
      written :
          (t : Place)
          → Keeps (Staged s) (
              finally
                (safe_copy os source (whole t)
                  >> (chmod os mode (whole t)
                      >> (apply_owner os uid gid (whole t) >> replace os t destination)))
                (unlink os t))
      written t =
          Keeps-finally _ _
            (Keeps-bind _ _ (Staged-safe_copy source (whole t)) λ v.
              Keeps-bind (chmod os mode (whole t)) _ (Staged-change os s _ (whole t)) λ w.
                Keeps-bind (apply_owner os uid gid (whole t)) _ (Staged-own uid gid (whole t))
                  λ y. Staged-replace os s t destination)
            (Staged-unlink os s t)
