-- ===== src/Installer/Extract/Trusted.antt =====
-- installer/backup_archive.py `validate_and_extract`: what an archive that it accepts is.
use ez_open_pn.Prelude.{
  ◌+◌, ◌≡◌, subst, List, [], Bytes, bytes_eq, length, take, All, All-map, ◌==◌, codes,
}
use ez_open_pn.Errors.{Result, ok}
use ez_open_pn.Installer.Names.{texts_eq}
use ez_open_pn.Installer.Json.{Fields}
use ez_open_pn.Installer.Manifest.{FileRecord, max_manifest_size, manifest_records, parse_manifest}
use ez_open_pn.Installer.Io.{Io, pure, lift, for_each, demand, FilePath, Node, Disk, Os}
use ez_open_pn.Installer.Disk.{staged_at, call}
use ez_open_pn.Installer.Disk.Yields.{Yields, Yields-bind, Yields-given}
use ez_open_pn.Installer.Restore.Chunks.{joined}
use ez_open_pn.Installer.Apply.Verified.{Matches}
use ez_open_pn.Installer.Tar.{Tar, scan, same_set, get_member}
use ez_open_pn.Installer.Staging.{stream_of, write_manifest, set_manifest, extract_record}
use ez_open_pn.Installer.Extract.{
  names, expected_names, content_of_archive, Formats, Request, validate_archive_file,
  extract_archive, check_origin, validate_and_extract,
}
use ez_open_pn.Installer.Extract.Extracted.{call-Yields, records-Hold}
use ez_open_pn.Installer.Extract.Origin.{
  Looks-archive, Looks-origin, SameInstallation, Sealed, look, ok_inj,
}

module _ (os : Os) (whole_content : (b : Bytes) → joined (os.reads b) ≡ b) where
  abbrev ListedIn : Fields × List FileRecord → List (FilePath × Node) → Type 0
  ListedIn e t = (manifest_records e.0 ≡ ok e.1) × All (Matches os t) e.1

  -- The manifest with its records, whose files are staged.
  abbrev Listed : Fields × List FileRecord → Disk → Type 0
  Listed e d = ListedIn e d.staged

  module _ (formats : Formats) where
    extract_archive-Listed :
        (tar : Tar) → Yields (λ d. Unit {0}) (extract_archive os formats tar) Listed
    unfolding extract_archive
    extract_archive-Listed tar =
        Yields-bind (lift (scan tar.broken [] 0 tar.members)) _ nothing λ members.
          Yields-bind (stream_of (get_member (codes "manifest.json") members)) _ nothing λ stream.
            Yields-bind (lift (parse_manifest formats.loads (take (max_manifest_size + 1) stream)))
              _ nothing
              λ manifest.
                Yields-bind {Q = λ records d. (manifest_records manifest ≡ ok records) × Unit {0}}
                  (lift (manifest_records manifest)) _ (record { at = λ d h a e. (e, tt) })
                  λ records. Yields-given λ listed.
                    Yields-bind (demand (same_set (names members) (expected_names records))) _
                      nothing
                      λ u.
                        Yields-bind (for_each records (extract_record os members)) _
                          (records-Hold os whole_content members records [])
                          λ v.
                            Yields-bind (call os) _
                              (call-Yields os (λ t. Unit {0} × All (Matches os t) records))
                              λ w.
                                Yields-bind (call os) (λ _. pure (manifest, records))
                                  (call-Yields os (λ t. Unit {0} × All (Matches os t) records))
                                  λ x. record {
                                    at = λ d h a q. returned manifest records listed d h.1 a q;
                                  }
      where
        nothing : {A : Type 0} {m : Io A} → Yields (λ d. Unit {0}) m (λ a d. Unit {0})
        nothing = record { at = λ d h a e. tt }

        returned :
            (manifest : Fields) (records : List FileRecord)
            → manifest_records manifest ≡ ok records
            → (d : Disk) → All (Matches os d.staged) records
            → (a : Fields × List FileRecord)
            → ◌≡◌ {A = Result (Fields × List FileRecord)} (ok (manifest, records)) (ok a)
            → ListedIn a d.staged
        returned manifest records e d h a q = subst (λ r. ListedIn r d.staged) (ok_inj q) (e, h)

    write_manifest-Listed :
        (e : Fields × List FileRecord) (raw : Bytes)
        → Yields (Listed e) (write_manifest os raw) (λ _. Listed e)
    unfolding write_manifest staged_at texts_eq bytes_eq
    write_manifest-Listed e raw = Yields-bind (call os) _ (call-Yields os (ListedIn e)) λ u.
        Yields-bind {Q = λ _. Listed e} (set_manifest os raw) _
          (record {
            at = λ d h a q. (
              h.0,
              All-map
                  (λ y k. record { x = k.x; staged = k.staged; size = k.size; digest = k.digest })
                  e.1 h.1,
            );
          })
          λ v. call-Yields os (ListedIn e)

    -- When `validate_and_extract` returns a manifest, the archive has the owner and the mode that are
    -- asked for, its checksum file, with the line ends that `read_text` translates, is the line with its
    -- digest and its name, the manifest lists its files as it should, each of them is staged with the
    -- size and the digest that it says, and the manifest names the version and the address of the
    -- installation, if `read` returns the content of a file in pieces.
    pub extraction_is_trusted :
        (request : Request) (manifest : Fields) (d : Disk)
        → (validate_and_extract os formats request d).0 ≡ ok manifest
        → Sealed os request
          × SameInstallation formats request manifest
          × ((records : List FileRecord) × (manifest_records manifest ≡ ok records)
              × All (Matches os (validate_and_extract os formats request d).1.staged) records)
    unfolding validate_and_extract
    extraction_is_trusted request manifest d h =
        (Yields-bind (validate_archive_file os request) _
            (look os (λ _. Unit {0}) (validate_archive_file os request) (λ _. Sealed os request)
              (λ s l. Looks-archive os whole_content s l request))
            λ u. Yields-given λ seal. Yields-bind (call os) _ nothing λ v.
              Yields-bind (call os) _ nothing λ w.
                Yields-bind {Q = λ _ _. Unit {0}} (λ d. (ok (length d.staged == 0), d)) _ nothing
                  λ empty. Yields-bind (demand empty) _ nothing λ x.
                    Yields-bind (call os) _ nothing λ y.
                      Yields-bind
                        (extract_archive os formats
                          (formats.read_tar (content_of_archive os formats request.archive)))
                        _
                        (extract_archive-Listed
                          (formats.read_tar (content_of_archive os formats request.archive)))
                        λ e.
                          Yields-bind (write_manifest os (formats.manifest_bytes e.0)) _
                            (write_manifest-Listed e (formats.manifest_bytes e.0))
                            λ z.
                              Yields-bind (check_origin os formats e.0 request.current_state)
                                (λ _. pure e.0)
                                (look os (ListedIn e)
                                  (check_origin os formats e.0 request.current_state)
                                  (λ _. SameInstallation formats request e.0)
                                  (λ s l. Looks-origin os whole_content s l formats request e.0))
                                λ a. Yields-given λ same. record {
                                  at = λ d' k m q. trusted seal e same d' k m q;
                                }).at
          d tt manifest h
      where
        nothing : {A : Type 0} {m : Io A} → Yields (λ d. Unit {0}) m (λ a d. Unit {0})
        nothing = record { at = λ d h a e. tt }

        trusted :
            Sealed os request
            → (e : Fields × List FileRecord) → SameInstallation formats request e.0
            → (d : Disk) → ListedIn e d.staged
            → (m : Fields) → ◌≡◌ {A = Result Fields} (ok e.0) (ok m)
            → Sealed os request
              × SameInstallation formats request m
              × ((records : List FileRecord) × (manifest_records m ≡ ok records)
                  × All (Matches os d.staged) records)
        trusted seal e same d k m q = (
          seal,
          subst (SameInstallation formats request) (ok_inj q) same,
          (e.1, subst (λ f. manifest_records f ≡ ok e.1) (ok_inj q) k.0, k.1),
        )
