-- ===== src/Installer/Restore/Copied.antt =====
-- installer/backup_archive.py, the loops of `_copy_tree`: what was copied.
use ez_open_pn.Prelude.{
  ℕ, ◌≡◌, refl, sym, ap, ◌∙◌, subst, Option, some, List, [], ◌∷◌, map, Bytes, Bool-cases, inl, inr,
  ◌==◌,
}
use ez_open_pn.Errors.{ok}
use ez_open_pn.Installer.Names.{texts_eq}
use ez_open_pn.Installer.Io.{
  pure, ◌>>◌, for_each, Attributes, File, FilePath, Node, regular, tree, Place, Disk, Os,
}
use ez_open_pn.Installer.Disk.{
  find, staged_at, inside, call, change, chmod, chown, new_file, update_file, set_place,
  with_attributes,
}
use ez_open_pn.Installer.Disk.Yields.{
  Yields, Yields-bind, Yields-given, Yields-then, Yields-for_each, Yields-when, Yields-pure, At,
  At-change, At-set,
}
use ez_open_pn.Installer.Restore.{
  regular_status, safe_copy, walked, tree_files, names_in, own_tree, fill_tree,
}
use ez_open_pn.Installer.Restore.Chunks.{joined, safe_copy-With, status-At}

-- A tree's files by their contents, and the contents of staged files.
abbrev pub contents : List (FilePath × File) → List (FilePath × Bytes)
contents = map (λ x. (x.0, x.1.content))

abbrev pub content_of : Option Node → Bytes
content_of (some (regular x)) = x.content
content_of _ = []

-- The listed files, each with its staged content; the last one comes first.
abbrev pub pile :
    List (FilePath × Node)
    → List (FilePath × FilePath)
    → List (FilePath × Bytes)
    → List (FilePath × Bytes)
pile s [] below = below
pile s ((path, source) ∷ rest) below = pile s rest ((path, content_of (staged_at source s)) ∷ below)

module _ (os : Os) (s : List (FilePath × Node)) (p : Place)
    (whole_content : (b : Bytes) → joined (os.reads b) ≡ b) where
  -- A tree with these contents stands at the place.
  pub record Holds (wanted : List (FilePath × Bytes)) (d : Disk) : Type 0 where
    pub a : Attributes
    pub files : List (FilePath × File)
    pub stands : At p (tree a files) s d
    pub held : contents files ≡ wanted

  copy_one :
      (wanted : List (FilePath × Bytes)) (path source : FilePath)
      → Yields
          (Holds wanted)
          (safe_copy os source (inside p path) >> pure tt)
          (λ _. Holds ((path, content_of (staged_at source s)) ∷ wanted))
  copy_one wanted path source = record { at = λ d h. (go d h).at d h.stands }
    where
      go :
          (d : Disk) (h : Holds wanted d)
          → Yields
              (At p (tree h.a h.files) s)
              (safe_copy os source (inside p path) >> pure tt)
              (λ _. Holds ((path, content_of (staged_at source s)) ∷ wanted))
      go d h = Yields-bind _ _ (safe_copy-With os s p h.a h.files source path) λ r. record {
        at = λ d' k u q. record {
          a = h.a;
          files =
              (
                path,
                record {
                  content = joined (os.reads k.0.content);
                  attributes = (new_file os).attributes;
                },
              )
              ∷ h.files;
          stands = k.3;
          held = rw (k.1, whole_content k.0.content, h.held) refl;
        };
      }

  copy_all :
      (found : List (FilePath × FilePath)) (wanted : List (FilePath × Bytes))
      → Yields
          (Holds wanted)
          (for_each found (λ x. safe_copy os x.1 (inside p x.0) >> pure tt))
          (λ _. Holds (pile s found wanted))
  unfolding for_each
  copy_all [] wanted = Yields-pure _ _
  copy_all ((path, source) ∷ rest) wanted =
      Yields-bind _ _ (copy_one wanted path source) λ u. copy_all rest _

  contents-update :
      (path : FilePath) (f : File → File) (files : List (FilePath × File))
      → ((x : File) → (f x).content ≡ x.content)
      → contents (update_file path f files) ≡ contents files
  unfolding update_file
  contents-update path f [] same = refl
  contents-update path f ((key, x) ∷ rest) same = elim (Bool-cases (texts_eq path key)) [
    | inl e ↦ rw (e, same x) refl
    | inr e ↦ rw (e, contents-update path f rest same) refl
  ]

  change_one :
      (wanted : List (FilePath × Bytes)) (path : FilePath) (f : File → File)
      → ((x : File) → (f x).content ≡ x.content)
      → Yields (Holds wanted) (change os f (inside p path)) (λ _. Holds wanted)
  change_one wanted path f same = record { at = λ d h. (go d h).at d h.stands }
    where
      go :
          (d : Disk) (h : Holds wanted d)
          → Yields (At p (tree h.a h.files) s) (change os f (inside p path)) (λ _. Holds wanted)
      go d h =
          Yields-then
            (At-change os s (inside p path) (tree h.a h.files)
              (tree h.a (update_file path f h.files)) f refl)
            λ u d' k. record {
              a = h.a;
              files = update_file path f h.files;
              stands = k;
              held = contents-update path f h.files same ∙ h.held;
            }

  call-Holds :
      (wanted : List (FilePath × Bytes)) → Yields (Holds wanted) (call os) (λ _. Holds wanted)
  unfolding call
  call-Holds wanted = record {
    at = λ d h a e. record { a = h.a; files = h.files; stands = h.stands; held = h.held };
  }

  set-Holds :
      (wanted : List (FilePath × Bytes)) (b : Attributes)
      → Yields
          (Holds wanted)
          (λ d. set_place p (with_attributes b (find p d.places)) d)
          (λ _. Holds wanted)
  set-Holds wanted b = record { at = λ d h. (go d h).at d h.stands }
    where
      go :
          (d : Disk) (h : Holds wanted d)
          → Yields
              (At p (tree h.a h.files) s)
              (λ d. set_place p (with_attributes b (find p d.places)) d)
              (λ _. Holds wanted)
      go d h =
          Yields-then
            (At-set os s p (tree b h.files) (At p (tree h.a h.files) s) _
              (λ d' k. (k.1, λ e q. cc (ap (with_attributes b) k.0))))
            λ u d' k. record { a = b; files = h.files; stands = k; held = h.held }

  chmod-Holds :
      (wanted : List (FilePath × Bytes)) (path : FilePath)
      → Yields (Holds wanted) (chmod os 384 (inside p path)) (λ _. Holds wanted)
  chmod-Holds wanted path =
      change_one wanted path
        (λ x. record x {
          attributes = record { mode = 384; uid = x.attributes.uid; gid = x.attributes.gid };
        })
        (λ x. refl)

  chown-Holds :
      (wanted : List (FilePath × Bytes)) (uid gid : ℕ) (path : FilePath)
      → Yields (Holds wanted) (chown os uid gid (inside p path)) (λ _. Holds wanted)
  chown-Holds wanted uid gid path =
      change_one wanted path
        (λ x. record x { attributes = record { mode = x.attributes.mode; uid = uid; gid = gid } })
        (λ x. refl)

  own_tree-Holds :
      (wanted : List (FilePath × Bytes)) (uid gid : ℕ)
      → Yields (Holds wanted) (own_tree os p uid gid) (λ _. Holds wanted)
  unfolding own_tree
  own_tree-Holds wanted uid gid =
      Yields-bind _ _
        (Yields-bind _ _ (call-Holds wanted) λ u.
          Yields-bind _ _ (Yields-when (Holds wanted) (os.euid == 0) (call os) (call-Holds wanted))
            λ v. set-Holds wanted _)
        λ w.
          Yields-bind _ _ (Yields-pure (Holds wanted) (λ x. ok (names_in (find p x.places))))
            λ names. Yields-for_each (Holds wanted) names _ λ path.
              Yields-bind _ _ (chmod-Holds wanted path)
                λ u. Yields-when (Holds wanted) (os.euid == 0) _ (chown-Holds wanted uid gid path)

  status-Holds :
      (wanted : List (FilePath × Bytes)) (source : FilePath)
      → Yields (Holds wanted) (regular_status os source >> pure tt) (λ _. Holds wanted)
  status-Holds wanted source = record { at = λ d h. (go d h).at d h.stands }
    where
      go :
          (d : Disk) (h : Holds wanted d)
          → Yields
              (At p (tree h.a h.files) s)
              (regular_status os source >> pure tt)
              (λ _. Holds wanted)
      go d h = Yields-bind _ _ (status-At os s p (tree h.a h.files) source) λ x. record {
        at = λ d' k u q. record { a = h.a; files = h.files; stands = k.1; held = h.held };
      }

  tree_files-Holds :
      (wanted : List (FilePath × Bytes)) (source : FilePath)
      → Yields
          (Holds wanted)
          (tree_files os source)
          (λ found d. (found ≡ walked source s) × Holds wanted d)
  unfolding tree_files
  tree_files-Holds wanted source = Yields-bind _ _ (call-Holds wanted) λ u.
      Yields-bind {Q = λ found d. (found ≡ walked source s) × Holds wanted d}
        (λ d. (ok (walked source d.staged), d)) _
        (record { at = λ d h found q. (cc (q, ap (walked source) h.stands.1), h) })
        λ found. Yields-given λ same.
          Yields-bind (for_each found (λ x. regular_status os x.1 >> pure tt)) (λ u. pure found)
            (Yields-for_each (Holds wanted) found _ λ x. status-Holds wanted x.1)
            λ v. record { at = λ d h a q. (cc, h) }

  -- The directory that `_copy_tree` has filled holds the files that are staged below its source.
  pub fill_tree-Holds :
      (source : FilePath) (uid gid : ℕ)
      → Yields (Holds []) (fill_tree os source p uid gid) (λ _. Holds (pile s (walked source s) []))
  unfolding fill_tree
  fill_tree-Holds source uid gid = Yields-bind _ _ (tree_files-Holds [] source) λ found.
      Yields-given λ same. Yields-bind _ _ (copy_all found []) λ u.
        subst
          (λ f.
            Yields (Holds (pile s f [])) (own_tree os p uid gid)
              (λ _. Holds (pile s (walked source s) [])))
          (sym same) (own_tree-Holds (pile s (walked source s) []) uid gid)
