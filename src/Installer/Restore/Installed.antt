-- ===== src/Installer/Restore/Installed.antt =====
-- installer/backup_archive.py `_install_file` and `_copy_tree`: what stands there once they return.
use ez_open_pn.Prelude.{
  ℕ, ◌+◌, ◌≡◌, refl, sym, ◌∙◌, subst, Bool, true, false, Option, none, some, List, [], ◌∷◌, ◌++◌,
  Bytes, codes, length, if◌then◌else◌, ◌==◌, Bool-cases, inl, inr,
}
use mathlib.Core.List.{append-nil, append_assoc}
use ez_open_pn.Errors.{ok}
use ez_open_pn.Installer.Io.{
  Io, pure, ◌>>◌, finally, demand, Attributes, File, FilePath, Node, regular, Entry, file, Place,
  Disk, Os, same_place,
}
use ez_open_pn.Installer.Disk.{
  find, staged_at, call, whole, created, create, write, chmod, chown, apply_owner, new_file,
  replace, unlink, rename_entry, may_replace,
}
use ez_open_pn.Installer.Disk.Laws.{Keeps, Stands, Stands-unlink, find-put_self}
use ez_open_pn.Installer.Disk.Yields.{
  Yields-finally, Yields, Yields-bind, Yields-given, Yields-then, Yields-demand, At, At-call,
  At-change, At-set,
}
use ez_open_pn.Installer.Restore.{regular_status, copy_chunks, safe_copy, install_file, beside}
use ez_open_pn.Installer.Restore.Chunks.{joined, regular_node-ok}
use ez_open_pn.Installer.Disk.Staged.{Staged, Staged-call, Staged-unlink}
use ez_open_pn.Installer.Restore.Others.{is_visible, visible-beside}

module _ (os : Os) (s : List (FilePath × Node)) where
  pub At-Keeps :
      {A : Type 0} (p : Place) (e : Entry) (m : Io A)
      → Keeps (Stands p (some e)) m
      → Keeps (Staged s) m
      → Yields (At p e s) m (λ _. At p e s)
  At-Keeps p e m kp ks = record { at = λ d h a q. (kp.at d h.0, ks.at d h.1) }

  pub replace-At : (p q : Place) (e : Entry) → Yields (At p e s) (replace os p q) (λ _. At q e s)
  unfolding replace
  replace-At p q e =
      Yields-bind (call os) _ (At-call os s p e)
        λ u. record { at = λ d h. moved d (find p d.places) h.0 h.1 }
    where
      moved :
          (d : Disk) (o : Option Entry)
          → o ≡ some e
          → d.staged ≡ s
          → (a : Unit {0}) → (rename_entry p q o d).0 ≡ ok a
          → At q e s (rename_entry p q o d).1
      moved d none k h a = λ x. absurd cc
      moved d (some e') k h a = elim (Bool-cases (may_replace e' (find q d.places))) [
        | inl m ↦ rw m (λ x. (find-put_self q e' _ ∙ k, h))
        | inr m ↦ rw m (λ x. absurd cc)
      ]

  status-Staged :
      (source : FilePath)
      → Yields
          (Staged s)
          (regular_status os source)
          (λ x d. (staged_at source s ≡ some (regular x)) × Staged s d)
  unfolding regular_status
  status-Staged source =
      Yields-bind (call os) _ (record { at = λ d h a q. (Staged-call os s).at d h })
        λ u. record {
          at = λ d h x q.
              let k = regular_node-ok (staged_at source d.staged) d x q in
              (
                subst (λ t. staged_at source t ≡ some (regular x)) h k.0,
                subst (Staged s) (sym k.1) h,
              );
        }

  module _ (t : Place) where
    create-Whole : Yields (Staged s) (create os (whole t)) (λ _. At t (file (new_file os)) s)
    unfolding create
    create-Whole =
        Yields-bind (call os) _ (record { at = λ d h a q. (Staged-call os s).at d h })
          λ u.
            At-set os s t (file (new_file os)) (Staged s)
              (λ d. created os (whole t) (find t d.places))
              λ d h. (h, λ e q. new (find t d.places) e q)
      where
        new :
            (o : Option Entry) (e : Entry)
            → created os (whole t) o ≡ some e
            → e ≡ file (new_file os)
        new none e q = cc
        new (some x) e q = absurd cc

    abbrev Holding : Bytes → Attributes → Disk → Type 0
    Holding content a = At t (file (record { content = content; attributes = a })) s

    chunks-Whole :
        (chunks : List Bytes) (size : ℕ) (seen : Bytes) (a : Attributes)
        → Yields
            (Holding seen a)
            (copy_chunks os (whole t) chunks size seen)
            (λ _. Holding (seen ++ joined chunks) a)
    unfolding copy_chunks
    chunks-Whole [] size seen a = Yields-bind (call os) _ (At-call os s t _) λ u.
        Yields-bind (call os) _ (At-call os s t _)
          λ v. record { at = λ d h r q. rw (append-nil seen) h }
    chunks-Whole (chunk ∷ rest) size seen a = Yields-bind (call os) _ (At-call os s t _) λ u.
        Yields-bind (demand _) _ (Yields-demand (Holding seen a) _) λ v.
          Yields-bind (write os (whole t) chunk) _
            (At-change os s (whole t) _ (file (record { content = seen ++ chunk; attributes = a }))
              _ refl)
            λ w.
              subst
                (λ c.
                  Yields (Holding (seen ++ chunk) a)
                    (copy_chunks os (whole t) rest (size + length chunk) (seen ++ chunk))
                    (λ _. Holding c a))
                (append_assoc seen chunk (joined rest))
                (chunks-Whole rest (size + length chunk) (seen ++ chunk) a)

    own-Whole :
        (b : Bool) (uid gid : ℕ) (content : Bytes) (a : Attributes)
        → Yields (Holding content a) (if b then chown os uid gid (whole t) else pure tt) (λ _.
          Holding content (record {
            mode = a.mode;
            uid = if b then uid else a.uid;
            gid = if b then gid else a.gid;
          }))
    own-Whole true uid gid content a = At-change os s (whole t) _ _ _ refl
    own-Whole false uid gid content a = record { at = λ d h r q. h }

    -- `_safe_copy` to a new place.
    copy-Whole :
        (whole_content : (b : Bytes) → joined (os.reads b) ≡ b) (source : FilePath)
        → Yields (Staged s) (safe_copy os source (whole t)) (λ _ d.
          (x : File) × (staged_at source s ≡ some (regular x))
          × Holding x.content (new_file os).attributes d)
    unfolding safe_copy
    copy-Whole whole_content source = Yields-bind _ _ (status-Staged source) λ x.
        Yields-given λ read. Yields-bind (call os) _ kept λ u. Yields-bind (call os) _ kept λ v.
          Yields-bind _ _ create-Whole λ w. Yields-bind (call os) _ (At-call os s t _) λ y.
            Yields-then (chunks-Whole (os.reads x.content) 0 [] (new_file os).attributes) λ r d k. (
              x,
              read,
              subst (λ c. Holding c (new_file os).attributes d) (whole_content x.content) k,
            )
      where
        kept : Yields (Staged s) (call os) (λ _. Staged s)
        kept = record { at = λ d h a q. (Staged-call os s).at d h }

  -- The staged file stands at the place, with the mode and, if the program is root's, with the owner.
  pub record Installed (source : FilePath) (p : Place) (mode uid gid : ℕ) (d : Disk) : Type 0 where
    pub x : File
    pub staged : staged_at source s ≡ some (regular x)
    pub stands :
        find p d.places
        ≡ some (
            file (record {
              content = x.content;
              attributes = record {
                mode = mode;
                uid = if os.euid == 0 then uid else os.euid;
                gid = if os.euid == 0 then gid else os.egid;
              };
            }))

module _ (os : Os) (s : List (FilePath × Node))
    (whole_content : (b : Bytes) → joined (os.reads b) ≡ b) (source : FilePath) (p : Place)
    (visible : is_visible p ≡ true) where
  pub install_file-Installed :
      (mode uid gid : ℕ)
      → Yields
          (Staged s)
          (install_file os source p mode uid gid)
          (λ _ d. Installed os s source p mode uid gid d × Staged s d)
  unfolding install_file
  install_file-Installed mode uid gid = Yields-bind _ _ (status-Staged os s source) λ x.
      Yields-given λ read. Yields-bind {Q = λ _. Staged s} (call os) _ kept λ u.
        Yields-bind {Q = λ _. Staged s} (λ d. (ok d.calls, d)) _ (record { at = λ d h a q. h })
          λ n.
            written (beside os p (codes ".restore-") n)
              (visible-beside os p p (codes ".restore-") n visible)
    where
      kept : Yields (Staged s) (call os) (λ _. Staged s)
      kept = record { at = λ d h a q. (Staged-call os s).at d h }

      written :
          (t : Place)
          → same_place p t ≡ false
          → Yields
              (Staged s)
              (finally
                (safe_copy os source (whole t)
                  >> (chmod os mode (whole t)
                      >> (apply_owner os uid gid (whole t) >> replace os t p)))
                (unlink os t))
              (λ _ d. Installed os s source p mode uid gid d × Staged s d)
      written t apart =
          Yields-finally
            (safe_copy os source (whole t)
              >> (chmod os mode (whole t) >> (apply_owner os uid gid (whole t) >> replace os t p)))
            (unlink os t)
            (Yields-bind (safe_copy os source (whole t)) _ (copy-Whole os s t whole_content source)
              λ r. record { at = λ d h a q. (moved h.0 h.1).at d h.2 a q })
            λ a. record {
              at = λ d h. (
                record {
                  x = h.0.x;
                  staged = h.0.staged;
                  stands = (Stands-unlink os p _ t apart).at d h.0.stands;
                },
                (Staged-unlink os s t).at d h.1,
              );
            }
        where
          moved :
              (x : File)
              → staged_at source s ≡ some (regular x)
              → Yields
                  (Holding os s t x.content (new_file os).attributes)
                  (chmod os mode (whole t) >> (apply_owner os uid gid (whole t) >> replace os t p))
                  (λ _ d. Installed os s source p mode uid gid d × Staged s d)
          moved x read =
              Yields-bind (chmod os mode (whole t)) _ (At-change os s (whole t) _ _ _ refl) λ v.
                Yields-bind _ _
                  (own-Whole os s t (os.euid == 0) uid gid x.content
                    (record { mode = mode; uid = os.euid; gid = os.egid }))
                  λ w.
                    Yields-then (replace-At os s t p _)
                      λ a d k. (record { x = x; staged = read; stands = k.0 }, k.1)
