-- ===== src/Installer/Restore/Others.antt =====
-- installer/backup_archive.py `_install_file` and `_copy_tree` leave other places as they are.
use ez_open_pn.Prelude.{
  ℕ, ◌≡◌, refl, ◌∙◌, Bool, true, false, not, Option, [], ◌∷◌, ◌++◌, Text, codes, bytes_eq,
  if◌then◌else◌, ◌==◌, arith,
}
use ez_open_pn.Errors.{ok}
use ez_open_pn.Installer.Names.{starts_with}
use ez_open_pn.Installer.Io.{
  pure, ◌>>=◌, ◌>>◌, on_error, finally, demand, FilePath, Entry, Place, Os, same_place,
}
use ez_open_pn.Installer.Disk.{
  find, staged_at, call, whole, chmod, chown, apply_owner, exists, replace, unlink, rmtree,
}
use ez_open_pn.Installer.Disk.Laws.{
  Keeps, Keeps-pure, Keeps-bind, Keeps-on_error, Keeps-finally, Keeps-demand, Stands, Stands-call,
  Stands-exists, Stands-unlink, Stands-rmtree, Stands-replace, Stands-change, find-put_other,
}
use ez_open_pn.Installer.Restore.{
  safe_copy, fill_tree, move_back, swap_trees, remove_if_there, is_tree, is_directory, copy_tree,
  install_file, beside,
}
use ez_open_pn.Installer.Restore.Elsewhere.{
  Stands-status, Stands-safe_copy, Stands-fill_tree, Stands-remove, Stands-when,
}
use ez_open_pn.Installer.Restore.Staged.{made}

-- The name does not begin with a dot, as the temporary names do.
abbrev pub is_visible : Place → Bool
is_visible p = not (starts_with (codes ".") p.name)

another_name :
    (name rest : Text)
    → not (starts_with (codes ".") name) ≡ true
    → bytes_eq name (codes "." ++ rest) ≡ false
unfolding starts_with bytes_eq
another_name [] rest h = refl
another_name (c ∷ cs) rest h = ground arith

pub visible-beside :
    (os : Os) (p q : Place) (word : Text) (n : ℕ)
    → is_visible p ≡ true
    → same_place p (beside os q word n) ≡ false
visible-beside os p q word n h =
    rw (another_name p.name (q.name ++ (word ++ os.token n)) h) ground arith

module _ (os : Os) (p : Place) (o : Option Entry) (visible : is_visible p ≡ true)
    (destination : Place) (apart : same_place p destination ≡ false) where
  module _ (t : Place) (far : same_place p t ≡ false) where
    written :
        (source : FilePath) (mode uid gid : ℕ)
        → Keeps (Stands p o) (
            finally
              (safe_copy os source (whole t)
                >> (chmod os mode (whole t)
                    >> (apply_owner os uid gid (whole t) >> replace os t destination)))
              (unlink os t))
    written source mode uid gid =
        Keeps-finally _ _
          (Keeps-bind _ _ (Stands-safe_copy os p o (whole t) far source) λ v.
            Keeps-bind (chmod os mode (whole t)) _ (Stands-change os p o (whole t) far _) λ w.
              Keeps-bind (apply_owner os uid gid (whole t)) _
                (Stands-when os p o (os.euid == 0) (chown os uid gid (whole t))
                  (Stands-change os p o (whole t) far _))
                λ y. Stands-replace os p o destination apart t far)
          (Stands-unlink os p o t far)

  pub Stands-install_file :
      (source : FilePath) (mode uid gid : ℕ)
      → Keeps (Stands p o) (install_file os source destination mode uid gid)
  unfolding install_file
  Stands-install_file source mode uid gid = Keeps-bind _ _ (Stands-status os p o source) λ x.
      Keeps-bind (call os) _ (Stands-call os p o) λ u.
        Keeps-bind _ _ (Keeps-pure (λ d. ok d.calls)) λ n.
          written (beside os destination (codes ".restore-") n)
            (visible-beside os p destination (codes ".restore-") n visible) source mode uid gid

  module _ (old : Place) (far : same_place p old ≡ false) where
    Stands-back : Keeps (Stands p o) (move_back os old destination)
    unfolding move_back
    Stands-back = Keeps-bind _ _ (Stands-exists os p o destination) λ there.
        Keeps-bind _ _ (kept there)
          λ b. Stands-when os p o b _ (Stands-replace os p o destination apart old far)
      where
        kept : (b : Bool) → Keeps (Stands p o) (if not b then exists os old else pure false)
        kept true = Keeps-pure _
        kept false = Stands-exists os p o old

    module _ (t : Place) (away : same_place p t ≡ false) where
      Stands-swap : Keeps (Stands p o) (swap_trees os t old destination)
      unfolding swap_trees
      Stands-swap = Keeps-bind _ _ (Stands-exists os p o destination) λ there. swapped there
        where
          swapped :
              (b : Bool)
              → Keeps (Stands p o) (
                  if b
                  then ((λ d. (ok (is_tree (find destination d.places)), d)) >>= λ safe.
                      demand safe
                      >> (replace os destination old
                          >> on_error
                              (replace os t destination >> rmtree os old)
                              (move_back os old destination)))
                  else replace os t destination)
          swapped false = Stands-replace os p o destination apart t away
          swapped true =
              Keeps-bind _ _ (Keeps-pure (λ d. ok (is_tree (find destination d.places)))) λ safe.
                Keeps-bind (demand safe) _ (Keeps-demand safe) λ u.
                  Keeps-bind _ _ (Stands-replace os p o old far destination apart) λ v.
                    Keeps-on_error _ _
                      (Keeps-bind _ _ (Stands-replace os p o destination apart t away)
                        λ w. Stands-rmtree os p o old far)
                      Stands-back

  pub Stands-copy_tree :
      (source : FilePath) (uid gid : ℕ)
      → Keeps (Stands p o) (copy_tree os source destination uid gid)
  unfolding copy_tree
  Stands-copy_tree source uid gid = Keeps-bind (call os) _ (Stands-call os p o) λ u.
      Keeps-bind _ _ (Keeps-pure (λ d. ok (is_directory (staged_at source d.staged)))) λ b.
        Keeps-bind (demand b) _ (Keeps-demand b) λ v.
          Keeps-bind (call os) _ (Stands-call os p o) λ w.
            Keeps-bind _ _ (Keeps-pure (λ d. ok d.calls)) λ n.
              Keeps-bind (call os) _ (Stands-call os p o) λ x.
                replaced (beside os destination (codes ".restore-") n)
                  (visible-beside os p destination (codes ".restore-") n visible)
                  (beside os destination (codes ".previous-") n)
                  (visible-beside os p destination (codes ".previous-") n visible)
    where
      replaced :
          (t : Place)
          → same_place p t ≡ false
          → (old : Place) → same_place p old ≡ false
          → Keeps (Stands p o) (
              made os t
              >> finally
                  (fill_tree os source t uid gid >> swap_trees os t old destination)
                  (remove_if_there os t >> remove_if_there os old))
      replaced t away old far =
          Keeps-bind (made os t) _ (record { at = λ d h. find-put_other p t _ d.places away ∙ h })
            λ y.
              Keeps-finally _ _
                (Keeps-bind _ _ (Stands-fill_tree os p o t away source uid gid)
                  λ z. Stands-swap old far t away)
                (Keeps-bind _ _ (Stands-remove os p o t away) λ z. Stands-remove os p o old far)
