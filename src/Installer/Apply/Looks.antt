-- ===== src/Installer/Apply/Looks.antt =====
-- installer/backup_archive.py: actions that only look, and what they say.
use ez_open_pn.Prelude.{
  ℕ, ◌+◌, ◌≡◌, refl, sym, ap, ◌∙◌, subst, Bool, true, false, Option, none, some, List, [], ◌∷◌,
  ◌++◌, Bytes, length, leb,
}
use mathlib.Core.List.{append-nil, append_assoc}
use ez_open_pn.Errors.{Result, ok, err}
use ez_open_pn.Installer.Manifest.{max_file_size}
use ez_open_pn.Installer.Io.{
  Io, continue, lift, ◌>>=◌, ◌>>◌, demand, File, FilePath, Node, regular, other, Entry, Place, Disk,
  Os,
}
use ez_open_pn.Installer.Disk.{staged_at, call}
use ez_open_pn.Installer.Disk.Ends.{Ends}
use ez_open_pn.Installer.Restore.{regular_node, regular_status}
use ez_open_pn.Installer.Restore.Chunks.{joined}
use ez_open_pn.Installer.Apply.{read_node, read_bytes, sha256_chunks, sha256_file}

-- The staging directory and the installation are as they were.
module _ (os : Os) (s : List (FilePath × Node)) (l : List (Place × Entry)) where
  abbrev pub Same : Disk → Type 0
  Same d = (d.staged ≡ s) × (d.places ≡ l)

  -- An action that only looks, and what it says of its result.
  pub record Looks {A : Type 0} (m : Io A) (C : A → Type 0) : Type 0 where
    pub at : (d : Disk) → Same d → Same (m d).1 × ((a : A) → (m d).0 ≡ ok a → C a)

  module _ {A B : Type 0} {C : A → Type 0} where
    continue-Looks :
        {D : B → Type 0} (f : A → Io B)
        → ((a : A) → C a → Looks (f a) D)
        → (r : Result A) (d : Disk) → Same d × ((a : A) → r ≡ ok a → C a)
        → Same (continue r f d).1 × ((b : B) → (continue r f d).0 ≡ ok b → D b)
    continue-Looks f k (ok a) d h = (k a (h.1 a refl)).at d h.0
    continue-Looks f k (err x) d h = (h.0, λ b e. cc)

    pub Looks-bind :
        {D : B → Type 0} (m : Io A) (f : A → Io B)
        → Looks m C
        → ((a : A) → C a → Looks (f a) D)
        → Looks (m >>= f) D
    unfolding ◌>>=◌
    Looks-bind m f k g = record { at = λ d h. continue-Looks f g (m d).0 (m d).1 (k.at d h) }

    ends :
        {R : Disk → Type 0} (f : A → Io B)
        → ((d : Disk) → Same d → R d)
        → ((a : A) → C a → Ends Same (f a) R)
        → (r : Result A) (d : Disk) → Same d × ((a : A) → r ≡ ok a → C a)
        → R (continue r f d).1
    ends f g k (ok a) d h = (k a (h.1 a refl)).at d h.0
    ends f g k (err x) d h = g d h.0

    pub Ends-Looks :
        {R : Disk → Type 0} (m : Io A) (f : A → Io B)
        → Looks m C
        → ((d : Disk) → Same d → R d)
        → ((a : A) → C a → Ends Same (f a) R)
        → Ends Same (m >>= f) R
    unfolding ◌>>=◌
    Ends-Looks m f k g kf = record { at = λ d h. ends f g kf (m d).0 (m d).1 (k.at d h) }

  pub Looks-call : Looks (call os) (λ _. Unit {0})
  unfolding call
  Looks-call = record { at = λ d h. (h, λ a e. tt) }

  pub Looks-demand : (b : Bool) → Looks (demand b) (λ _. b ≡ true)
  Looks-demand true = record { at = λ d h. (h, λ a e. refl) }
  Looks-demand false = record { at = λ d h. (h, λ a e. cc) }

  -- The same with what comes next.
  pub Looks-after :
      {A : Type 0} {D : A → Type 0} (rest : Io A) → Looks rest D → Looks (call os >> rest) D
  Looks-after rest k = Looks-bind (call os) (λ _. rest) Looks-call λ u v. k

  pub Looks-test :
      {A : Type 0} {D : A → Type 0} (b : Bool) (rest : Io A)
      → (b ≡ true → Looks rest D)
      → Looks (demand b >> rest) D
  Looks-test b rest k = Looks-bind (demand b) (λ _. rest) (Looks-demand b) λ u v. k v

  pub Looks-last : {D : Type 0} (b : Bool) → (b ≡ true → D) → Looks (demand b) (λ _. D)
  Looks-last true k = record { at = λ d h. (h, λ a e. k refl) }
  Looks-last false k = record { at = λ d h. (h, λ a e. cc) }

  pub Looks-lift : {A : Type 0} (r : Result A) → Looks (lift r) (λ a. r ≡ ok a)
  Looks-lift r = record { at = λ d h. (h, λ a e. e) }

  -- From what is staged.
  pub Looks-at :
      {A : Type 0} (path : FilePath) (f : Option Node → Io A) (C : A → Type 0)
      → ((x : Option Node) → staged_at path s ≡ x → Looks (f x) C)
      → Looks (λ d. f (staged_at path d.staged) d) C
  Looks-at path f C k = record {
    at = λ d h.
        subst
          (λ t.
            Same (f (staged_at path t) d).1 × ((a : _) → (f (staged_at path t) d).0 ≡ ok a → C a))
          (sym h.0) ((k (staged_at path s) refl).at d h);
  }

  pub Looks-node :
      (path : FilePath) (x : Option Node)
      → staged_at path s ≡ x
      → Looks (regular_node x) (λ y. staged_at path s ≡ some (regular y))
  Looks-node path none e = record { at = λ d h. (h, λ a q. cc) }
  Looks-node path (some other) e = record { at = λ d h. (h, λ a q. cc) }
  Looks-node path (some (regular y)) e =
      Looks-bind (demand (leb (length y.content) max_file_size)) _ (Looks-demand _)
        λ u v. record { at = λ d h. (h, λ a q. cc) }

  pub Looks-status :
      (path : FilePath) → Looks (regular_status os path) (λ x. staged_at path s ≡ some (regular x))
  unfolding regular_status
  Looks-status path =
      Looks-bind (call os) _ Looks-call λ u v. Looks-at path regular_node _ (Looks-node path)

  abbrev pub ContentAt : FilePath → Bytes → Type 0
  ContentAt path b = (x : File) × (staged_at path s ≡ some (regular x)) × (b ≡ x.content)

  pub Looks-content :
      (path : FilePath) (x : Option Node)
      → staged_at path s ≡ x
      → Looks (read_node x) (ContentAt path)
  Looks-content path none e = record { at = λ d h. (h, λ a q. cc) }
  Looks-content path (some other) e = record { at = λ d h. (h, λ a q. cc) }
  Looks-content path (some (regular y)) e = record { at = λ d h. (h, λ a q. (y, e, cc)) }

  pub Looks-read : (path : FilePath) → Looks (read_bytes os path) (ContentAt path)
  unfolding read_bytes
  Looks-read path =
      Looks-bind (call os) _ Looks-call λ u v. Looks-at path read_node _ (Looks-content path)

  pub Looks-chunks :
      (chunks : List Bytes) (size : ℕ) (seen : Bytes)
      → Looks (sha256_chunks os chunks size seen) (λ r. r ≡ os.sha256 (seen ++ joined chunks))
  unfolding sha256_chunks
  Looks-chunks [] size seen =
      Looks-bind (call os) _ Looks-call
        λ u v. record { at = λ d h. (h, λ a q. cc (q, ap os.sha256 (append-nil seen))) }
  Looks-chunks (chunk ∷ rest) size seen = Looks-bind (call os) _ Looks-call λ u v.
      Looks-bind (demand _) _ (Looks-demand _) λ w x.
        subst
          (λ c.
            Looks (sha256_chunks os rest (size + length chunk) (seen ++ chunk))
              (λ r. r ≡ os.sha256 c))
          (append_assoc seen chunk (joined rest))
          (Looks-chunks rest (size + length chunk) (seen ++ chunk))

  module _ (whole_content : (b : Bytes) → joined (os.reads b) ≡ b) where
    pub Looks-digest :
        (path : FilePath)
        → Looks
            (sha256_file os path)
            (λ r. (x : File) × (staged_at path s ≡ some (regular x)) × (r ≡ os.sha256 x.content))
    unfolding sha256_file
    Looks-digest path = Looks-bind _ _ (Looks-read path) λ b c. record {
      at = λ d h.
          let k = (Looks-chunks (os.reads b) 0 []).at d h in
          (k.0, λ r q. (c.0, c.1, k.1 r q ∙ ap os.sha256 (whole_content b ∙ c.2)));
    }
