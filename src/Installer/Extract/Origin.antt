-- ===== src/Installer/Extract/Origin.antt =====
-- installer/backup_archive.py `_validate_archive_file` and the comparisons of `validate_and_extract`.
use ez_open_pn.Prelude.{
  ◌≡◌, refl, sym, ap, ◌∙◌, subst, Bool, true, ◌&&◌, &&-true, false, Option, none, some, List, [],
  Bytes, Text, bytes_eq, bytes_eq_iff, length, leb, ==_iff, ◌==◌, codes, arith, isascii,
}
use ez_open_pn.Errors.{ok}
use ez_open_pn.Installer.Json.{
  Json, null, boolean, integer, real, string, array, object, Fields, get,
}
use ez_open_pn.Installer.Manifest.{equals_text}
use ez_open_pn.Installer.Metadata.{install_state, database_metadata}
use ez_open_pn.Installer.Io.{Io, lift, ◌>>◌, demand, FilePath, Node, Entry, Place, Os}
use ez_open_pn.Installer.Disk.{call}
use ez_open_pn.Installer.Disk.Yields.{Yields}
use ez_open_pn.Installer.Restore.Chunks.{joined}
use ez_open_pn.Installer.Apply.{payload}
use ez_open_pn.Installer.Apply.Looks.{
  Looks, Looks-bind, Looks-call, Looks-demand, Looks-after, Looks-test, Looks-last, Looks-lift,
  Looks-status, Looks-chunks,
}
use ez_open_pn.Installer.Extract.{
  newlines, read_text, Formats, Request, OutsideFile, found_status, checksum_line, outside_status,
  validate_archive_file, staged_state, current_state, check_origin,
}

-- The archive has the owner and the mode that are asked for, and its checksum file, with its line ends
-- translated, is the line with its digest.
pub record Sealed (os : Os) (request : Request) : Type 0 where
  pub archive : OutsideFile
  pub here : request.archive ≡ some archive
  pub owner : archive.owner ≡ request.expected_owner
  pub mode : archive.mode ≡ 384
  pub checksum : OutsideFile
  pub beside : request.checksum ≡ some checksum
  pub line :
      newlines false checksum.content
      ≡ checksum_line (os.sha256 archive.content) request.archive_name

-- The version and the address of the manifest are those of the installation.
pub record SameInstallation (formats : Formats) (request : Request) (manifest : Fields)
    : Type 0 where
  pub installed : OutsideFile
  pub here : request.current_state ≡ some installed
  pub version : Text
  pub address : Text
  pub state : install_state (formats.loads_text installed.content) ≡ ok (version, address)
  pub same_version : get (codes "version") manifest ≡ ok (string version)
  pub same_address : get (codes "public_ipv4") manifest ≡ ok (string address)

equals_text-string : (t : Text) (j : Json) → equals_text t j ≡ true → j ≡ string t
equals_text-string t (string s) h = ap string ((bytes_eq_iff s t).0 h)
equals_text-string t null h = cc
equals_text-string t (boolean b) h = cc
equals_text-string t (integer n) h = cc
equals_text-string t (real n) h = cc
equals_text-string t (array js) h = cc
equals_text-string t (object fs) h = cc

same_state : (a c : Text) (j : Json) → equals_text a j ≡ true → bytes_eq a c ≡ true → j ≡ string c
same_state a c j h k = equals_text-string a j h ∙ ap string ((bytes_eq_iff a c).0 k)

four :
    (a b c d : Bool) → (a && b && c && d) ≡ true → (a ≡ true) × (b ≡ true) × (c ≡ true) × (d ≡ true)
four a b c d h = ground arith

-- The last comparisons of `validate_and_extract`.
texts_agree :
    (archived_version archived_address current_version current_address : Text)
    (version address : Json)
    → (equals_text archived_version version
        && equals_text archived_address address
        && bytes_eq archived_version current_version
        && bytes_eq archived_address current_address)
      ≡ true
    → (version ≡ string current_version) × (address ≡ string current_address)
texts_agree a b c d version address h =
    let k = four (equals_text a version) (equals_text b address) (bytes_eq a c) (bytes_eq b d) h in
    (same_state a c version k.0 k.2, same_state b d address k.1 k.3)

pub ok_inj : {A : Type 0} {a b : A} → ok a ≡ ok b → a ≡ b
ok_inj h = cc

module _ (os : Os) where
  -- What an action that only looks says, with what is known of the staging directory.
  pub look :
      {A : Type 0} (Q : List (FilePath × Node) → Type 0) (m : Io A) (C : A → Type 0)
      → ((s : List (FilePath × Node)) (l : List (Place × Entry)) → Looks os s l m C)
      → Yields (λ d. Q d.staged) m (λ a d. C a × Q d.staged)
  look Q m C f = record {
    at = λ d h a e.
        let k = (f d.staged d.places).at d (refl, refl) in (k.1 a e, subst Q (sym k.0.0) h);
  }

module _ (os : Os) (s : List (FilePath × Node)) (l : List (Place × Entry)) where
  Looks-read_text : Looks os s l (read_text os) (λ _. Unit {0})
  unfolding read_text call
  Looks-read_text = record { at = λ d h. (h, λ a q. tt) }

  Looks-text :
      {A : Type 0} {D : A → Type 0} (rest : Io A)
      → Looks os s l rest D
      → Looks os s l (read_text os >> rest) D
  Looks-text rest k = Looks-bind os s l (read_text os) (λ _. rest) Looks-read_text λ u v. k

module _ (os : Os) (whole_content : (b : Bytes) → joined (os.reads b) ≡ b) where
  module _ (s : List (FilePath × Node)) (l : List (Place × Entry)) where
    Looks-found : (x : Option OutsideFile) → Looks os s l (found_status x) (λ y. x ≡ some y)
    Looks-found none = record { at = λ d h. (h, λ a q. cc) }
    Looks-found (some x) =
        Looks-bind os s l (demand _) _ (Looks-demand os s l _)
          λ u v. record { at = λ d h. (h, λ a q. cc) }

    Looks-outside : (x : Option OutsideFile) → Looks os s l (outside_status os x) (λ y. x ≡ some y)
    unfolding outside_status
    Looks-outside x = Looks-bind os s l (call os) _ (Looks-call os s l) λ u v. Looks-found x

    pub Looks-archive :
        (request : Request)
        → Looks os s l (validate_archive_file os request) (λ _. Sealed os request)
    unfolding validate_archive_file
    Looks-archive request = Looks-bind os s l _ _ (Looks-outside request.archive) λ archive here.
        Looks-test os s l (archive.owner == request.expected_owner && archive.mode == 384) _
          λ owned. Looks-bind os s l _ _ (Looks-outside request.checksum) λ checksum beside.
            Looks-test os s l
              (checksum.owner == request.expected_owner
                && checksum.mode == 384
                && leb (length checksum.content) 1024)
              _
              λ small. Looks-text os s l _ (
                Looks-test os s l (isascii checksum.content) _ λ ascii. Looks-after os s l _ (
                  Looks-bind os s l _ _ (Looks-chunks os s l (os.reads archive.content) 0 [])
                    λ digest e.
                      Looks-last os s l
                        (bytes_eq (newlines false checksum.content)
                          (checksum_line digest request.archive_name))
                        λ same. record {
                          archive = archive;
                          here = here;
                          owner =
                              (==_iff archive.owner request.expected_owner).0
                                (&&-true (archive.owner == request.expected_owner)
                                  (archive.mode == 384) owned).0;
                          mode =
                              (==_iff archive.mode 384).0
                                (&&-true (archive.owner == request.expected_owner)
                                  (archive.mode == 384) owned).1;
                          checksum = checksum;
                          beside = beside;
                          line =
                              (bytes_eq_iff (newlines false checksum.content)
                                  (checksum_line digest request.archive_name)).0
                                same
                              ∙ ap (λ t. checksum_line t request.archive_name)
                                  (e ∙ ap os.sha256 (whole_content archive.content));
                        }))

    module _ (formats : Formats) where
      Looks-staged_state : Looks os s l (staged_state os formats) (λ _. Unit {0})
      unfolding staged_state
      Looks-staged_state =
          Looks-bind os s l _
            (λ x. read_text os >> lift (install_state (formats.loads_text x.content)))
            (Looks-status os s l (payload (codes "state/install.json")))
            λ x e.
              Looks-text os s l (lift (install_state (formats.loads_text x.content)))
                (record { at = λ d h. (h, λ a q. tt) })

      IsState : Option OutsideFile → Text × Text → Type 0
      IsState x state =
          (installed : OutsideFile) × (x ≡ some installed)
          × (install_state (formats.loads_text installed.content) ≡ ok state)

      Looks-current_state :
          (x : Option OutsideFile) → Looks os s l (current_state os formats x) (IsState x)
      unfolding current_state IsState
      Looks-current_state x =
          Looks-bind os s l _ _ (Looks-outside x) λ installed e.
            Looks-text os s l _ (record { at = λ d h. (h, λ a q. (installed, e, q)) })

      pub Looks-origin :
          (request : Request) (manifest : Fields)
          → Looks os s l
              (check_origin os formats manifest request.current_state)
              (λ _. SameInstallation formats request manifest)
      unfolding check_origin IsState
      Looks-origin request manifest =
          Looks-bind os s l _ _ (Looks-status os s l (payload (codes "database/ezopenpn.sqlite3")))
            λ x e.
              Looks-bind os s l _ _
                (Looks-lift os s l (database_metadata (formats.query x.content)))
                λ metadata m.
                  Looks-bind os s l _ _ (Looks-lift os s l (get (codes "quick_check") manifest))
                    λ quick q.
                      Looks-bind os s l _ _
                        (Looks-lift os s l (get (codes "schema_version") manifest))
                        λ schema k.
                          Looks-test os s l
                            (equals_text metadata.0 quick && equals_text metadata.1 schema) _
                            λ sound. Looks-bind os s l _ _ Looks-staged_state λ archived a.
                              Looks-bind os s l _ _ (Looks-current_state request.current_state)
                                λ current c.
                                  Looks-bind os s l _ _
                                    (Looks-lift os s l (get (codes "version") manifest))
                                    λ version v.
                                      Looks-bind os s l _ _
                                        (Looks-lift os s l (get (codes "public_ipv4") manifest))
                                        λ address i.
                                          Looks-last os s l
                                            (equals_text archived.0 version
                                              && equals_text archived.1 address
                                              && bytes_eq archived.0 current.0
                                              && bytes_eq archived.1 current.1)
                                            λ same. record {
                                              installed = c.0;
                                              here = c.1;
                                              version = current.0;
                                              address = current.1;
                                              state = c.2;
                                              same_version =
                                                  v ∙ ap ok (texts_agree _ _ _ _ _ _ same).0;
                                              same_address =
                                                  i ∙ ap ok (texts_agree _ _ _ _ _ _ same).1;
                                            }
