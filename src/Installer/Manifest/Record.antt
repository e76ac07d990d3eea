-- ===== src/Installer/Manifest/Record.antt =====
-- installer/backup_archive.py `_manifest_records`: what a description of one file has to be.
use ez_open_pn.Prelude.{
  pos, ◌≤◌, ◌≡◌, refl, ap, ◌∙◌, true, codes, length, all, leb→le, le→leb, ==_iff, arith,
}
use ez_open_pn.Errors.{ok, archive_error, >>=-eq-ok, require-eq-ok}
use ez_open_pn.Installer.Json.{Json, integer, string, object, Fields, get, has_keys}
use ez_open_pn.Installer.Manifest.{
  FileRecord, is_hex_digit, record_keys, max_file_size, metadata, read_record,
}

-- The digest is in hexadecimal and the size within bounds.
pub record IsSound (r : FileRecord) : Type 0 where
  pub digest_length : length r.digest ≡ 64
  pub hexadecimal : all is_hex_digit r.digest ≡ true
  pub bounded : r.size ≤ max_file_size

-- The JSON value is an object of just the three fields of the record.
pub record Describes (j : Json) (r : FileRecord) : Type 0 where
  pub fields : Fields
  pub shape : j ≡ object fields
  pub keys : has_keys record_keys fields ≡ true
  pub path : get (codes "path") fields ≡ ok (string r.path)
  pub digest : get (codes "sha256") fields ≡ ok (string r.digest)
  pub size : get (codes "size") fields ≡ ok (integer (pos r.size))
  pub sound : IsSound r

metadata-eq-ok :
    (path digest size : Json) (r : FileRecord)
    → metadata path digest size ≡ ok r
    → (path ≡ string r.path)
      × (digest ≡ string r.digest)
      × (size ≡ integer (pos r.size))
      × IsSound r
metadata-eq-ok (string p) (string d) (integer (pos n)) r h = ground (arith, leb→le n max_file_size)
metadata-eq-ok _ _ _ r h = cc

pub read_record-Describes : (j : Json) (r : FileRecord) → read_record j ≡ ok r → Describes j r
unfolding read_record
read_record-Describes (object fields) r h =
    let keys = require-eq-ok (has_keys record_keys fields) archive_error _ h in
    let path = >>=-eq-ok (get (codes "path") fields) _ keys.1 in
    let digest = >>=-eq-ok (get (codes "sha256") fields) _ path.2 in
    let size = >>=-eq-ok (get (codes "size") fields) _ digest.2 in
    let parts = metadata-eq-ok path.0 digest.0 size.0 r size.2 in
    record {
      fields = fields;
      shape = refl;
      keys = keys.0;
      path = path.1 ∙ ap ok parts.0;
      digest = digest.1 ∙ ap ok parts.1;
      size = size.1 ∙ ap ok parts.2;
      sound = parts.3;
    }
read_record-Describes _ r h = cc

pub Describes-read_record : (j : Json) (r : FileRecord) → Describes j r → read_record j ≡ ok r
unfolding read_record
Describes-read_record j r d =
    rw
      (
        d.shape,
        d.keys,
        d.path,
        d.digest,
        d.size,
        (==_iff _ _).1 d.sound.digest_length,
        d.sound.hexadecimal,
        le→leb _ _ d.sound.bounded,
      )
      refl
