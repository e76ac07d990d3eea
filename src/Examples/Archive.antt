-- ===== src/Examples/Archive.antt =====
-- An archive is accepted and extracted: the theorems applied to a concrete one.
use ez_open_pn.Prelude.{◌≡◌, ◌↔◌, refl, List, [], ◌∷◌, codes, bytes_eq, bytes_le, All}
use ez_open_pn.Errors.{ok}
use ez_open_pn.Installer.Names.{split, parts, validated_member_name}
use ez_open_pn.Installer.Names.Inside.{walk, member_stays_inside}
use ez_open_pn.Installer.Manifest.{FileRecord, manifest_records}
use ez_open_pn.Installer.Manifest.Accepted.{Accepted, manifest_records-iff_Accepted}
use ez_open_pn.Installer.Apply.Verified.{Matches}
use ez_open_pn.Installer.Extract.{validate_and_extract}
use ez_open_pn.Installer.Extract.Origin.{Sealed, SameInstallation}
use ez_open_pn.Installer.Extract.Trusted.{extraction_is_trusted}
use ez_open_pn.Examples.Outside.{repeat}
use ez_open_pn.Examples.Backup.{calm, whole, stored_records, manifest, formats, request, empty_disk}

member_run :
    validated_member_name (codes "caddy/data/key.pem") ≡ ok (parts (codes "caddy/data/key.pem"))
unfolding validated_member_name parts bytes_eq
member_run = refl

member_stays_inside_example :
    walk (codes "staging" ∷ codes "payload" ∷ []) (split (codes "caddy/data/key.pem"))
    ≡ codes "staging" ∷ codes "payload" ∷ codes "caddy" ∷ codes "data" ∷ codes "key.pem" ∷ []
unfolding parts bytes_eq
member_stays_inside_example =
    member_stays_inside (codes "staging" ∷ codes "payload" ∷ []) (codes "caddy/data/key.pem")
      (parts (codes "caddy/data/key.pem")) member_run

records_run : manifest_records manifest ≡ ok stored_records
unfolding manifest_records repeat bytes_eq bytes_le
records_run = refl

manifest_records-iff_Accepted_example :
    (manifest_records manifest ≡ ok stored_records) ↔ Accepted manifest stored_records
manifest_records-iff_Accepted_example = manifest_records-iff_Accepted manifest stored_records

extraction_run : (validate_and_extract calm formats request empty_disk).0 ≡ ok manifest
unfolding validate_and_extract repeat bytes_eq bytes_le
extraction_run = refl

extraction_is_trusted_example :
    Sealed calm request
    × SameInstallation formats request manifest
    × ((records : List FileRecord) × (manifest_records manifest ≡ ok records)
        × All
            (Matches calm (validate_and_extract calm formats request empty_disk).1.staged)
            records)
extraction_is_trusted_example =
    extraction_is_trusted calm whole formats request manifest empty_disk extraction_run
