-- ===== src/Installer/Restore/Elsewhere.antt =====
-- installer/backup_archive.py: copies leave alone what stands at other places.
use ez_open_pn.Prelude.{
  ℕ, ◌≡◌, Bool, true, false, Option, none, some, List, [], ◌∷◌, Bytes, if◌then◌else◌, ◌==◌,
}
use ez_open_pn.Errors.{ok}
use ez_open_pn.Installer.Io.{
  Io, pure, demand, FilePath, Node, regular, other, Entry, Place, Os, same_place,
}
use ez_open_pn.Installer.Disk.{
  find, staged_at, call, rmtree, Target, inside, chmod, chown, place_of, write, with_attributes,
}
use ez_open_pn.Installer.Disk.Laws.{
  Keeps, Keeps-pure, Keeps-bind, Keeps-for_each, Keeps-demand, Stands, Stands-call, Stands-exists,
  Stands-rmtree, Stands-set, Stands-create, Stands-change,
}
use ez_open_pn.Installer.Restore.{
  regular_node, regular_status, copy_chunks, safe_copy, walked, tree_files, names_in, own_tree,
  fill_tree, remove_if_there,
}

module _ (os : Os) (p : Place) (o : Option Entry) where
  Stands-node : (x : Option Node) → Keeps (Stands p o) (regular_node x)
  Stands-node none = Keeps-pure _
  Stands-node (some other) = Keeps-pure _
  Stands-node (some (regular y)) = Keeps-bind (demand _) _ (Keeps-demand _) λ u. Keeps-pure _

  pub Stands-status : (path : FilePath) → Keeps (Stands p o) (regular_status os path)
  unfolding regular_status
  Stands-status path =
      Keeps-bind (call os) _ (Stands-call os p o)
        λ u. record { at = λ d h. (Stands-node (staged_at path d.staged)).at d h }

  module _ (target : Target) (apart : same_place p (place_of target) ≡ false) where
    Stands-chunks :
        (chunks : List Bytes) (size : ℕ) (seen : Bytes)
        → Keeps (Stands p o) (copy_chunks os target chunks size seen)
    unfolding copy_chunks
    Stands-chunks [] size seen =
        Keeps-bind (call os) _ (Stands-call os p o)
          λ u. Keeps-bind (call os) _ (Stands-call os p o) λ v. Keeps-pure _
    Stands-chunks (chunk ∷ rest) size seen = Keeps-bind (call os) _ (Stands-call os p o) λ u.
        Keeps-bind (demand _) _ (Keeps-demand _) λ v.
          Keeps-bind (write os target chunk) _ (Stands-change os p o target apart _)
            λ w. Stands-chunks rest _ _

    pub Stands-safe_copy : (source : FilePath) → Keeps (Stands p o) (safe_copy os source target)
    unfolding safe_copy
    Stands-safe_copy source = Keeps-bind _ _ (Stands-status source) λ x.
        Keeps-bind (call os) _ (Stands-call os p o) λ u.
          Keeps-bind (call os) _ (Stands-call os p o) λ v.
            Keeps-bind _ _ (Stands-create os p o target apart)
              λ w. Keeps-bind (call os) _ (Stands-call os p o) λ y. Stands-chunks _ _ _

  Stands-tree_files : (source : FilePath) → Keeps (Stands p o) (tree_files os source)
  unfolding tree_files
  Stands-tree_files source = Keeps-bind (call os) _ (Stands-call os p o) λ u.
      Keeps-bind _ _ (Keeps-pure (λ d. ok (walked source d.staged))) λ found.
        Keeps-bind _ _
          (Keeps-for_each found _ λ x.
            Keeps-bind (regular_status os x.1) _ (Stands-status x.1) λ v. Keeps-pure (λ d. ok tt))
          λ w. Keeps-pure (λ d. ok found)

  pub Stands-when :
      (b : Bool) (m : Io (Unit {0}))
      → Keeps (Stands p o) m
      → Keeps (Stands p o) (if b then m else pure tt)
  Stands-when true m k = k
  Stands-when false m k = Keeps-pure _

  module _ (q : Place) (apart : same_place p q ≡ false) where
    Stands-own_tree : (uid gid : ℕ) → Keeps (Stands p o) (own_tree os q uid gid)
    unfolding own_tree
    Stands-own_tree uid gid =
        Keeps-bind _ _
          (Keeps-bind (call os) _ (Stands-call os p o) λ v.
            Keeps-bind _ _ (Stands-when (os.euid == 0) (call os) (Stands-call os p o))
              λ w. Stands-set p o q apart (λ d. with_attributes _ (find q d.places)))
          λ v. Keeps-bind _ _ (Keeps-pure (λ d. ok (names_in (find q d.places)))) λ names.
            Keeps-for_each names _ λ path.
              Keeps-bind (chmod os 384 (inside q path)) _
                (Stands-change os p o (inside q path) apart (λ x. record x {
                  attributes = record {
                    mode = 384;
                    uid = x.attributes.uid;
                    gid = x.attributes.gid;
                  };
                }))
                λ w. Stands-when (os.euid == 0) (chown os uid gid (inside q path)) (
                  Stands-change os p o (inside q path) apart (λ x. record x {
                    attributes = record { mode = x.attributes.mode; uid = uid; gid = gid };
                  }))

    pub Stands-fill_tree :
        (source : FilePath) (uid gid : ℕ) → Keeps (Stands p o) (fill_tree os source q uid gid)
    unfolding fill_tree
    Stands-fill_tree source uid gid = Keeps-bind _ _ (Stands-tree_files source) λ found.
        Keeps-bind _ _
          (Keeps-for_each found _ λ x.
            Keeps-bind (safe_copy os x.1 (inside q x.0)) _
              (Stands-safe_copy (inside q x.0) apart x.1) λ v. Keeps-pure (λ d. ok tt))
          λ u. Stands-own_tree uid gid

    pub Stands-remove : Keeps (Stands p o) (remove_if_there os q)
    unfolding remove_if_there
    Stands-remove =
        Keeps-bind _ _ (Stands-exists os p o q)
          λ there. Stands-when there (rmtree os q) (Stands-rmtree os p o q apart)
