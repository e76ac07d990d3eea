-- ===== src/Installer/Apply/Verified.antt =====
-- installer/backup_archive.py `apply_payload`: nothing is put in place before the payload is verified.
use ez_open_pn.Prelude.{
  ◌≡◌, ◌⊎◌, refl, sym, ap, ◌∙◌, Option, some, List, [], ◌∷◌, Bytes, Text, bytes_eq, bytes_eq_iff,
  length, All, ==_iff, ◌==◌, inl, inr, codes,
}
use ez_open_pn.Errors.{ok}
use ez_open_pn.Installer.Json.{Json, Fields}
use ez_open_pn.Installer.Manifest.{FileRecord, parse_manifest, manifest_records}
use ez_open_pn.Installer.Io.{
  for_each, demand, File, FilePath, Node, regular, Entry, Place, Disk, Os,
}
use ez_open_pn.Installer.Disk.{staged_at}
use ez_open_pn.Installer.Disk.Ends.{Ends}
use ez_open_pn.Installer.Restore.Chunks.{joined}
use ez_open_pn.Installer.Apply.{payload, check_staged, staged_records, apply_payload}
use ez_open_pn.Installer.Apply.Looks.{
  Same, Looks, Looks-bind, Ends-Looks, Looks-demand, Looks-lift, Looks-status, Looks-read,
  Looks-digest,
}

module _ (os : Os) (s : List (FilePath × Node)) where
  -- The staged file of a record has its size and its digest.
  pub record Matches (r : FileRecord) : Type 0 where
    pub x : File
    pub staged : staged_at (payload r.path) s ≡ some (regular x)
    pub size : length x.content ≡ r.size
    pub digest : os.sha256 x.content ≡ r.digest

  -- The staged manifest is a good one, and all its files are staged as it says.
  pub record Verified (loads : Bytes → Option Json) : Type 0 where
    pub manifest_file : File
    pub here : staged_at (codes "manifest.json" ∷ []) s ≡ some (regular manifest_file)
    pub manifest : Fields
    pub records : List FileRecord
    pub parsed : parse_manifest loads manifest_file.content ≡ ok manifest
    pub listed : manifest_records manifest ≡ ok records
    pub matches : All Matches records

module _ (os : Os) (s : List (FilePath × Node)) (l : List (Place × Entry))
    (whole_content : (b : Bytes) → joined (os.reads b) ≡ b) where
  Looks-check : (r : FileRecord) → Looks os s l (check_staged os r) (λ _. Matches os s r)
  unfolding check_staged
  Looks-check r = Looks-bind os s l _ _ (Looks-status os s l (payload r.path)) λ x c.
      Looks-bind os s l (demand (length x.content == r.size)) _ (Looks-demand os s l _) λ u sized.
        Looks-bind os s l _ _ (Looks-digest os s l whole_content (payload r.path)) λ digest e.
          record {
            at = λ d h.
                let k = (Looks-demand os s l (bytes_eq digest r.digest)).at d h in
                (
                  k.0,
                  λ a q. record {
                    x = x;
                    staged = c;
                    size = (==_iff (length x.content) r.size).0 sized;
                    digest =
                        same x e.0 (sym c ∙ e.1) digest e.2
                          ((bytes_eq_iff digest r.digest).0 (k.1 a q));
                  },
                );
          }
    where
      same :
          (x y : File)
          → some (regular x) ≡ some (regular y)
          → (digest : Text) → digest ≡ os.sha256 y.content
          → digest ≡ r.digest
          → os.sha256 x.content ≡ r.digest
      same x y e digest f g = cc

  pub Looks-checks :
      (records : List FileRecord)
      → Looks os s l (for_each records (check_staged os)) (λ _. All (Matches os s) records)
  unfolding for_each
  Looks-checks [] = record { at = λ d h. (h, λ a q. tt) }
  Looks-checks (r ∷ rest) =
      Looks-bind os s l _ _ (Looks-check r) λ u c. record {
        at = λ d h. let k = (Looks-checks rest).at d h in (k.0, λ a q. (c, k.1 a q));
      }

  -- How the records were found.
  pub Found : (Bytes → Option Json) → List FileRecord → Type 0
  Found loads records =
      (x : File) × (manifest : Fields) × (staged_at (codes "manifest.json" ∷ []) s
        ≡ some (regular x))
      × (parse_manifest loads x.content ≡ ok manifest)
      × (manifest_records manifest ≡ ok records)

  pub Looks-records :
      (loads : Bytes → Option Json) → Looks os s l (staged_records os loads) (Found loads)
  unfolding staged_records Found
  Looks-records loads =
      Looks-bind os s l _ _ (Looks-read os s l (codes "manifest.json" ∷ [])) λ raw c.
        Looks-bind os s l _ _ (Looks-lift os s l (parse_manifest loads raw)) λ manifest e. record {
          at = λ d h.
              (h, λ records q. (c.0, manifest, c.1, ap (parse_manifest loads) (sym c.2) ∙ e, q));
        }

  guarded :
      (loads : Bytes → Option Json)
      → Ends (Same os s l) (apply_payload os loads) (λ d. (d.places ≡ l) ⊎ Verified os s loads)
  unfolding apply_payload Found
  guarded loads =
      Ends-Looks os s l _ _ (Looks-records loads) (λ d h. inl h.1)
        λ records f.
          Ends-Looks os s l _ _ (Looks-checks records) (λ d h. inl h.1)
            λ u matches. record {
              at = λ d h. inr (record {
                manifest_file = f.0;
                here = f.2;
                manifest = f.1;
                records = records;
                parsed = f.3;
                listed = f.4;
                matches = matches;
              });
            }

-- `apply_payload` leaves everything in its place unless the staged manifest is accepted and each of
-- its files is staged with the size and the digest that it says, if `read` returns the content of a
-- file in pieces.
pub apply_payload-Verified :
    (os : Os) (loads : Bytes → Option Json) (d : Disk)
    → ((b : Bytes) → joined (os.reads b) ≡ b)
    → ((apply_payload os loads d).1.places ≡ d.places) ⊎ Verified os d.staged loads
apply_payload-Verified os loads d whole =
    (guarded os d.staged d.places whole loads).at d (refl, refl)
