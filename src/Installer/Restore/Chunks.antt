-- ===== src/Installer/Restore/Chunks.antt =====
-- installer/backup_archive.py `_safe_copy`: the loop over the chunks of a file, and the copy of it.
use ez_open_pn.Prelude.{
  ℕ, ◌+◌, ◌≡◌, refl, sym, ap, subst, Bool, true, false, Option, none, some, List, [], ◌∷◌, ◌++◌,
  Bytes, Text, length, length-append, arith, leb,
}
use mathlib.Core.List.{append-nil, append_assoc}
use ez_open_pn.Errors.{ok}
use ez_open_pn.Installer.Names.{texts_eq}
use ez_open_pn.Installer.Names.Order.{texts_eq_iff}
use ez_open_pn.Installer.Manifest.{max_file_size}
use ez_open_pn.Installer.Io.{
  pure, ◌>>=◌, ◌>>◌, demand, Attributes, File, FilePath, Node, regular, other, Entry, tree, Place,
  Disk, Os,
}
use ez_open_pn.Installer.Disk.{
  staged_at, inside, call, create, write, new_file, update_file, created, changed,
}
use ez_open_pn.Installer.Disk.Yields.{
  Yields, Yields-bind, Yields-given, Yields-then, Yields-demand, At, At-call, At-change, At-create,
}
use ez_open_pn.Installer.Restore.{regular_node, regular_status, copy_chunks, safe_copy}

-- The chunks put together.
abbrev pub joined : List Bytes → Bytes
joined [] = []
joined (chunk ∷ rest) = chunk ++ joined rest

pub texts_eq_refl : (x : List Text) → texts_eq x x ≡ true
texts_eq_refl x = (texts_eq_iff x x).1 refl

module _ (os : Os) (s : List (FilePath × Node)) (p : Place) (path : FilePath) (a : Attributes)
    (files : List (FilePath × File)) where
  -- The tree at the place, with one file more.
  abbrev pub With : Bytes → Attributes → Disk → Type 0
  With content attributes =
      At p (tree a ((path, record { content = content; attributes = attributes }) ∷ files)) s

  write-With :
      (old chunk : Bytes) (b : Attributes)
      → Yields (With old b) (write os (inside p path) chunk) (λ _. With (old ++ chunk) b)
  unfolding update_file
  write-With old chunk b = At-change os s (inside p path) _ _ _ written
    where
      written :
          changed
            (λ x. record x { content = x.content ++ chunk })
            (inside p path)
            (some (tree a ((path, record { content = old; attributes = b }) ∷ files)))
          ≡ some (tree a ((path, record { content = old ++ chunk; attributes = b }) ∷ files))
      written = rw (texts_eq_refl path) refl

  copy_chunks-With :
      (chunks : List Bytes) (size : ℕ) (seen : Bytes) (b : Attributes)
      → length seen ≡ size
      → Yields (With seen b) (copy_chunks os (inside p path) chunks size seen) (λ r d.
        (r ≡ (os.sha256 (seen ++ joined chunks), length (seen ++ joined chunks)))
        × With (seen ++ joined chunks) b d)
  unfolding copy_chunks
  copy_chunks-With [] size seen b e = Yields-bind (call os) _ (At-call os s p _) λ u.
      Yields-bind (call os) _ (At-call os s p _)
        λ v. record { at = λ d h r q. rw (append-nil seen) (cc, h) }
  copy_chunks-With (chunk ∷ rest) size seen b e = Yields-bind (call os) _ (At-call os s p _) λ u.
      Yields-bind (demand _) _ (Yields-demand (With seen b) _) λ v.
        Yields-bind _ _ (write-With seen chunk b) λ w.
          subst
            (λ c.
              Yields (With (seen ++ chunk) b)
                (copy_chunks os (inside p path) rest (size + length chunk) (seen ++ chunk))
                (λ r d. (r ≡ (os.sha256 c, length c)) × With c b d))
            (append_assoc seen chunk (joined rest))
            (copy_chunks-With rest (size + length chunk) (seen ++ chunk) b
              (omega (arith, e, length-append seen chunk)))

demand-pure :
    (b : Bool) (y x : File) (d : Disk)
    → ((demand b >> pure y) d).0 ≡ ok x
    → (y ≡ x) × (((demand b >> pure y) d).1 ≡ d)
unfolding ◌>>=◌
demand-pure true y x d h = (cc, refl)
demand-pure false y x d h = cc

pub regular_node-ok :
    (o : Option Node) (d : Disk) (x : File)
    → (regular_node o d).0 ≡ ok x
    → (o ≡ some (regular x)) × ((regular_node o d).1 ≡ d)
regular_node-ok none d x h = cc
regular_node-ok (some other) d x h = cc
regular_node-ok (some (regular y)) d x h =
    let k = demand-pure (leb (length y.content) max_file_size) y x d h in
    (ap (λ z. some (regular z)) k.0, k.1)

module _ (os : Os) (s : List (FilePath × Node)) (p : Place) where
  pub status-At :
      (e : Entry) (source : FilePath)
      → Yields
          (At p e s)
          (regular_status os source)
          (λ x d. (staged_at source s ≡ some (regular x)) × At p e s d)
  unfolding regular_status
  status-At e source = Yields-bind (call os) _ (At-call os s p e) λ u. record {
    at = λ d h x q.
        let k = regular_node-ok (staged_at source d.staged) d x q in
        (subst (λ t. staged_at source t ≡ some (regular x)) h.1 k.0, subst (At p e s) (sym k.1) h);
  }

  module _ (a : Attributes) (files : List (FilePath × File)) where
    create-With :
        (path : FilePath)
        → Yields
            (At p (tree a files) s)
            (create os (inside p path))
            (λ _. With os s p path a files [] (new_file os).attributes)
    create-With path = At-create os s (inside p path) _ _ fresh
      where
        fresh :
            (x : Entry)
            → created os (inside p path) (some (tree a files)) ≡ some x
            → x ≡ tree a ((path, new_file os) ∷ files)
        fresh x h = ground arith

    -- `_safe_copy` adds the file, and returns the digest and the size of what was read.
    pub safe_copy-With :
        (source path : FilePath)
        → Yields (At p (tree a files) s) (safe_copy os source (inside p path)) (λ r d.
          (x : File) × (staged_at source s ≡ some (regular x))
          × (r ≡ (os.sha256 (joined (os.reads x.content)), length (joined (os.reads x.content))))
          × With os s p path a files (joined (os.reads x.content)) (new_file os).attributes d)
    unfolding safe_copy
    safe_copy-With source path = Yields-bind _ _ (status-At (tree a files) source) λ x.
        Yields-given λ read. Yields-bind (call os) _ (At-call os s p _) λ u.
          Yields-bind (call os) _ (At-call os s p _) λ v. Yields-bind _ _ (create-With path) λ w.
            Yields-bind (call os) _ (At-call os s p _) λ y.
              Yields-then
                (copy_chunks-With os s p path a files (os.reads x.content) 0 []
                  (new_file os).attributes refl)
                λ r d k. (x, read, k.0, k.1)
