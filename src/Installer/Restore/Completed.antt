-- ===== src/Installer/Restore/Completed.antt =====
-- installer/backup_archive.py `_copy_tree`: the new directory stands there once it returns.
use ez_open_pn.Prelude.{
  ℕ, ◌≡◌, refl, Bool, true, false, some, List, [], Bytes, codes, if◌then◌else◌,
}
use ez_open_pn.Errors.{ok}
use ez_open_pn.Installer.Io.{
  ◌>>=◌, ◌>>◌, on_error, finally, demand, FilePath, Node, Entry, tree, Place, Os, same_place,
}
use ez_open_pn.Installer.Disk.{find, staged_at, call, exists, replace, rmtree}
use ez_open_pn.Installer.Disk.Laws.{
  Keeps-bind, Stands-exists, Stands-rmtree, Stands-replace, find-put_self,
}
use ez_open_pn.Installer.Disk.Yields.{
  Yields-finally, Yields-on_error, Yields, Yields-bind, Yields-demand, At,
}
use ez_open_pn.Installer.Restore.{
  fill_tree, move_back, swap_trees, remove_if_there, is_tree, is_directory, copy_tree, beside,
}
use ez_open_pn.Installer.Restore.Chunks.{joined}
use ez_open_pn.Installer.Restore.Copied.{Holds, fill_tree-Holds}
use ez_open_pn.Installer.Restore.Elsewhere.{Stands-remove}
use ez_open_pn.Installer.Restore.OldOrNew.{Restored, temporary-old, name_after, name_before}
use ez_open_pn.Installer.Disk.Staged.{
  Staged, Staged-call, Staged-exists, Staged-replace, Staged-rmtree,
}
use ez_open_pn.Installer.Restore.Staged.{made, Staged-remove}
use ez_open_pn.Installer.Restore.Installed.{At-Keeps, replace-At}

module _ (os : Os) (s : List (FilePath × Node)) (t old p : Place) (e : Entry)
    (apart_old : same_place t old ≡ false) (apart : same_place t p ≡ false)
    (far : same_place p old ≡ false) where
  -- The renames, if they return, put the new directory in its place.
  swap_trees-At : Yields (At t e s) (swap_trees os t old p) (λ _. At p e s)
  unfolding swap_trees
  swap_trees-At =
      Yields-bind (exists os p) _
        (At-Keeps os s t e _ (Stands-exists os t (some e) p) (Staged-exists os s p))
        λ there. swapped there
    where
      swapped :
          (b : Bool)
          → Yields
              (At t e s)
              (if b
                then ((λ d. (ok (is_tree (find p d.places)), d)) >>= λ safe.
                    demand safe
                    >> (replace os p old
                        >> on_error (replace os t p >> rmtree os old) (move_back os old p)))
                else replace os t p)
              (λ _. At p e s)
      swapped false = replace-At os s t p e
      swapped true =
          Yields-bind {Q = λ _. At t e s} (λ d. (ok (is_tree (find p d.places)), d)) _
            (record { at = λ d h a q. h })
            λ safe. Yields-bind (demand safe) _ (Yields-demand (At t e s) safe) λ u.
              Yields-bind (replace os p old) _
                (At-Keeps os s t e _ (Stands-replace os t (some e) old apart_old p apart)
                  (Staged-replace os s p old))
                λ v. Yields-on_error (replace os t p >> rmtree os old) (move_back os old p) (
                  Yields-bind (replace os t p) _ (replace-At os s t p e) λ w.
                    At-Keeps os s p e _ (Stands-rmtree os p (some e) old far)
                      (Staged-rmtree os s old))

module _ (os : Os) (s : List (FilePath × Node))
    (whole_content : (b : Bytes) → joined (os.reads b) ≡ b) (source : FilePath) (p : Place)
    (uid gid : ℕ) where
  pub copy_tree-Restored :
      Yields (Staged s) (copy_tree os source p uid gid) (λ _ d. Restored s source p d × Staged s d)
  unfolding copy_tree
  copy_tree-Restored = Yields-bind {Q = λ _. Staged s} (call os) _ kept λ u.
      Yields-bind {Q = λ _. Staged s} (λ d. (ok (is_directory (staged_at source d.staged)), d)) _
        (record { at = λ d h a q. h })
        λ b. Yields-bind (demand b) _ (Yields-demand (Staged s) b) λ v.
          Yields-bind {Q = λ _. Staged s} (call os) _ kept λ w.
            Yields-bind {Q = λ _. Staged s} (λ d. (ok d.calls, d)) _ (record { at = λ d h a q. h })
              λ n. Yields-bind {Q = λ _. Staged s} (call os) _ kept λ x.
                replaced (beside os p (codes ".restore-") n) (beside os p (codes ".previous-") n)
                  (temporary-old os p n) (name_before os p n (codes ".restore-"))
                  (name_after os p n (codes ".restore-")) (name_after os p n (codes ".previous-"))
    where
      kept : Yields (Staged s) (call os) (λ _. Staged s)
      kept = record { at = λ d h a q. (Staged-call os s).at d h }

      replaced :
          (t old : Place)
          → same_place t old ≡ false
          → same_place t p ≡ false
          → same_place p t ≡ false
          → same_place p old ≡ false
          → Yields
              (Staged s)
              (made os t
                >> finally
                    (fill_tree os source t uid gid >> swap_trees os t old p)
                    (remove_if_there os t >> remove_if_there os old))
              (λ _ d. Restored s source p d × Staged s d)
      replaced t old apart_old apart near far =
          Yields-bind {Q = λ _. Holds os s t whole_content []} (made os t) _
            (record {
              at = λ d h a q. record {
                a = record { mode = 448; uid = os.euid; gid = os.egid };
                files = [];
                stands = (find-put_self t _ d.places, h);
                held = refl;
              };
            })
            λ y.
              Yields-finally (fill_tree os source t uid gid >> swap_trees os t old p)
                (remove_if_there os t >> remove_if_there os old)
                (Yields-bind (fill_tree os source t uid gid) _
                  (fill_tree-Holds os s t whole_content source uid gid)
                  λ z. record {
                    at = λ d h a q.
                        let k =
                          (swap_trees-At os s t old p (tree h.a h.files) apart_old apart far).at d
                            h.stands a q in
                        (record { a = h.a; files = h.files; stands = k.0; complete = h.held }, k.1);
                  })
                λ a. record {
                  at = λ d h. (
                    record {
                      a = h.0.a;
                      files = h.0.files;
                      stands =
                          (Keeps-bind (remove_if_there os t) (λ _. remove_if_there os old)
                              (Stands-remove os p _ t near) (λ u. Stands-remove os p _ old far)).at
                            d h.0.stands;
                      complete = h.0.complete;
                    },
                    (Keeps-bind (remove_if_there os t) (λ _. remove_if_there os old)
                          (Staged-remove os s t) (λ u. Staged-remove os s old)).at
                        d h.1,
                  );
                }
