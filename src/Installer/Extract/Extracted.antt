-- ===== src/Installer/Extract/Extracted.antt =====
-- installer/backup_archive.py `validate_and_extract`: the files that it leaves are those of the manifest.
use ez_open_pn.Prelude.{
  ℕ, ◌+◌, ◌≡◌, refl, sym, ap, ◌∙◌, subst, Bool, true, false, ◌&&◌, ◌||◌, Option, none, some, List,
  [], ◌∷◌, ◌++◌, Bytes, Text, bytes_eq, bytes_eq_iff, bytes_eq_refl, length, length-append, All,
  All-map, ◌==◌, Bool-cases, inl, inr, arith, if◌then◌else◌,
}
use mathlib.Core.List.{append-nil, append_assoc}
use ez_open_pn.Errors.{archive_error}
use ez_open_pn.Installer.Names.{texts_eq}
use ez_open_pn.Installer.Names.Order.{texts_eq_iff}
use ez_open_pn.Installer.Manifest.{FileRecord}
use ez_open_pn.Installer.Io.{
  pure, raise, for_each, demand, Attributes, File, FilePath, Node, regular, Disk, Os,
}
use ez_open_pn.Installer.Disk.{staged_at, call, new_file}
use ez_open_pn.Installer.Disk.Yields.{Yields, Yields-bind, Yields-demand, Yields-given, Yields-then}
use ez_open_pn.Installer.Restore.Chunks.{joined, texts_eq_refl}
use ez_open_pn.Installer.Apply.{payload}
use ez_open_pn.Installer.Apply.Verified.{Matches}
use ez_open_pn.Installer.Tar.{TarMember, get_member}
use ez_open_pn.Installer.Staging.{
  is_above, is_blocked, grow, create_staged, new_staged, write_staged, extract_chunks,
  extract_member, extract_record, stream_of, member_of,
}

-- A path that leads to what is staged is blocked.
is_above_refl : (path : FilePath) → is_above path path ≡ true
unfolding is_above
is_above_refl [] = refl
is_above_refl (p ∷ ps) = rw (bytes_eq_refl p) (is_above_refl ps)

or_false : (a b c : Bool) → (a || b || c) ≡ false → (a ≡ false) × (c ≡ false)
or_false a b c h = ground arith

blocked_at :
    (path : FilePath) (x : Node) (s : List (FilePath × Node))
    → is_blocked path s ≡ false
    → staged_at path s ≡ some x
    → ⊥
unfolding is_blocked staged_at
blocked_at path x [] b q = cc
blocked_at path x ((key, n) ∷ rest) b q =
    let free = or_false (is_above key path) (is_above path key) (is_blocked path rest) b in
    elim (Bool-cases (texts_eq path key)) [
      | inl e ↦ clash ((texts_eq_iff path key).0 e) free.0
      | inr e ↦ blocked_at path x rest free.1 (rw e at q)
    ]
  where
    clash : path ≡ key → is_above key path ≡ false → ⊥
    clash e f = cc (ap (λ k. is_above k path) e, is_above_refl path)

staged_beside :
    (path other_path : FilePath) (node x : Node) (s : List (FilePath × Node))
    → is_blocked path s ≡ false
    → staged_at other_path s ≡ some x
    → staged_at other_path ((path, node) ∷ s) ≡ some x
unfolding staged_at
staged_beside path key node x s free h = elim (Bool-cases (texts_eq key path)) [
  | inl e ↦ absurd (
      blocked_at path x s free
        (subst (λ q. staged_at q s ≡ some x) ((texts_eq_iff key path).0 e) h))
  | inr e ↦ rw e h
]

module _ (os : Os) (Q : List (FilePath × Node) → Type 0) where
  pub call-Yields : Yields (λ d. Q d.staged) (call os) (λ _ d. Q d.staged)
  unfolding call
  call-Yields = record { at = λ d h a e. h }

module _ (os : Os) (path : FilePath) (s : List (FilePath × Node)) (a : Attributes) where
  abbrev One : Bytes → List (FilePath × Node) → Type 0
  One content t = t ≡ (path, regular (record { content = content; attributes = a })) ∷ s

  grow_first :
      (old chunk : Bytes)
      → One
          (old ++ chunk)
          (grow path chunk ((path, regular (record { content = old; attributes = a })) ∷ s))
  unfolding grow
  grow_first old chunk = rw (texts_eq_refl path) refl

  write-One :
      (old chunk : Bytes)
      → Yields
          (λ d. One old d.staged)
          (write_staged os path chunk)
          (λ _ d. One (old ++ chunk) d.staged)
  unfolding write_staged
  write-One old chunk =
      Yields-bind (call os) _ (call-Yields os (One old))
        λ u. record { at = λ d h x e. ap (grow path chunk) h ∙ grow_first old chunk }

  -- What the loop of the extraction ends with.
  abbrev Extracted : Text → ℕ → Bytes → Disk → Type 0
  Extracted digest expected content d =
      One content d.staged × (length content ≡ expected) × (os.sha256 content ≡ digest)

  last_test :
      (digest : Text) (expected size : ℕ) (seen : Bytes) (b : Bool)
      → length seen ≡ size
      → ((size == expected) && bytes_eq (os.sha256 seen) digest) ≡ b
      → Yields (λ d. One seen d.staged) (demand b) (λ _. Extracted digest expected seen)
  last_test digest expected size seen true e f = record {
    at = λ d h u q.
        (h, ground (arith, e, f), (bytes_eq_iff (os.sha256 seen) digest).0 (ground (arith, f)));
  }
  last_test digest expected size seen false e f = record { at = λ d h u q. cc }

  chunks-One :
      (digest : Text) (expected : ℕ) (chunks : List Bytes) (size : ℕ) (seen : Bytes)
      → length seen ≡ size
      → Yields
          (λ d. One seen d.staged)
          (extract_chunks os path digest expected chunks size seen)
          (λ _. Extracted digest expected (seen ++ joined chunks))
  unfolding extract_chunks
  chunks-One digest expected [] size seen e =
      Yields-bind (call os) _ (call-Yields os (One seen)) λ u.
        subst
          (λ c.
            Yields (λ d. One seen d.staged)
              (demand ((size == expected) && bytes_eq (os.sha256 seen) digest))
              (λ _. Extracted digest expected c))
          (sym (append-nil seen)) (last_test digest expected size seen _ e refl)
  chunks-One digest expected (chunk ∷ rest) size seen e =
      Yields-bind (demand _) _ (Yields-demand (λ d. One seen d.staged) _) λ u.
        Yields-bind _ _ (write-One seen chunk) λ v.
          subst
            (λ c.
              Yields (λ d. One (seen ++ chunk) d.staged)
                (extract_chunks os path digest expected rest (size + length chunk) (seen ++ chunk))
                (λ _. Extracted digest expected c))
            (append_assoc seen chunk (joined rest))
            (chunks-One digest expected rest (size + length chunk) (seen ++ chunk)
              (omega (arith, e, length-append seen chunk)))

-- One member is extracted.
module _ (os : Os) (whole_content : (b : Bytes) → joined (os.reads b) ≡ b) where
  abbrev Free : FilePath → List (FilePath × Node) → List (FilePath × Node) → Type 0
  Free path s t = (is_blocked path s ≡ false) × One os path s (new_file os).attributes [] t

  new-Free :
      (path : FilePath) (s : List (FilePath × Node)) (b : Bool)
      → is_blocked path s ≡ b
      → Yields (λ d. d.staged ≡ s) (new_staged os path b) (λ _ d. Free path s d.staged)
  new-Free path s true e = record { at = λ d h x q. cc }
  new-Free path s false e = record {
    at = λ d h x q. (e, ap (λ (t : List (FilePath × Node)). (path, regular (new_file os)) ∷ t) h);
  }

  create-Free :
      (path : FilePath) (s : List (FilePath × Node))
      → Yields (λ d. d.staged ≡ s) (create_staged os path) (λ _ d. Free path s d.staged)
  unfolding create_staged
  create-Free path s = Yields-bind (call os) _ (call-Yields os (λ t. t ≡ s)) λ u. record {
    at = λ d h x q.
        (new-Free path s (is_blocked path d.staged) (ap (is_blocked path) (sym h))).at d h x q;
  }

  member-Matches :
      (r : FileRecord) (content : Bytes) (s : List (FilePath × Node))
      → Yields
          (λ d. d.staged ≡ s)
          (extract_member os content (payload r.path) r.digest r.size)
          (λ _ d.
            (is_blocked (payload r.path) s ≡ false)
            × Extracted os (payload r.path) s (new_file os).attributes r.digest r.size content d)
  unfolding extract_member
  member-Matches r content s = Yields-bind (call os) _ (call-Yields os (λ t. t ≡ s)) λ u.
      Yields-bind _ _ (create-Free (payload r.path) s) λ v. Yields-given λ free.
        Yields-then
          (chunks-One os (payload r.path) s (new_file os).attributes r.digest r.size
            (os.reads content) 0 [] refl)
          λ w d k. (
            free,
            subst
                (λ c. Extracted os (payload r.path) s (new_file os).attributes r.digest r.size c d)
                (whole_content content) k,
          )

  -- The files of these records are staged.
  abbrev pub Hold : List FileRecord → Disk → Type 0
  Hold records d = All (Matches os d.staged) records

  staged_more :
      (r : FileRecord) (x : File) (s t : List (FilePath × Node))
      → is_blocked (payload r.path) s ≡ false
      → t ≡ (payload r.path, regular x) ∷ s
      → length x.content ≡ r.size
      → os.sha256 x.content ≡ r.digest
      → (done : List FileRecord) → All (Matches os s) done
      → Matches os t r × All (Matches os t) done
  unfolding staged_at
  staged_more r x s t free e sized digest done h = (
    record {
      x = x;
      staged = ap (staged_at (payload r.path)) e ∙ here;
      size = sized;
      digest = digest;
    },
    All-map
        (λ y k. record {
          x = k.x;
          staged =
              ap (staged_at (payload y.path)) e
              ∙ staged_beside (payload r.path) (payload y.path) (regular x) (regular k.x) s free
                  k.staged;
          size = k.size;
          digest = k.digest;
        })
        done h,
  )
    where
      here : staged_at (payload r.path) ((payload r.path, regular x) ∷ s) ≡ some (regular x)
      here = rw (texts_eq_refl (payload r.path)) refl

  picked_Hold :
      (done : List FileRecord) (b : Bool) (content : Bytes)
      → Yields (Hold done) (if b then pure content else raise archive_error) (λ _. Hold done)
  picked_Hold done true content = record { at = λ d h a q. h }
  picked_Hold done false content = record { at = λ d h a q. h }

  record-Hold :
      (members : List TarMember) (r : FileRecord) (done : List FileRecord)
      → Yields (Hold done) (extract_record os members r) (λ _. Hold (r ∷ done))
  unfolding extract_record
  record-Hold members r done =
      Yields-bind _ _ (stream-Hold (get_member (member_of r.path) members)) λ content. record {
        at = λ d h u q.
            let k = (member-Matches r content d.staged).at d refl u q in
            staged_more r (record { content = content; attributes = (new_file os).attributes })
              d.staged _ k.0 k.1.0 k.1.1 k.1.2 done h;
      }
    where
      stream-Hold : (m : Option TarMember) → Yields (Hold done) (stream_of m) (λ _. Hold done)
      stream-Hold none = record { at = λ d h a q. h }
      stream-Hold (some m) = picked_Hold done m.is_file m.content

  pub records-Hold :
      (members : List TarMember) (records done : List FileRecord)
      → Yields
          (Hold done)
          (for_each records (extract_record os members))
          (λ _ d. Hold done d × Hold records d)
  unfolding for_each
  records-Hold members [] done = record { at = λ d h u q. (h, tt) }
  records-Hold members (r ∷ rest) done =
      Yields-bind _ _ (record-Hold members r done)
        λ u. Yields-then (records-Hold members rest (r ∷ done)) λ v d k. (k.0.1, (k.0.0, k.1))
