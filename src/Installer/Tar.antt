-- ===== src/Installer/Tar.antt =====
-- The members of an archive as installer/backup_archive.py `validate_and_extract` reads them.
use ez_open_pn.Prelude.{
  ℤ, pos, negsuc, ℕ, ◌+◌, ◌*◌, Bool, ◌&&◌, not, Option, none, some, List, [], ◌∷◌, ◌++◌, map, Bytes,
  Text, bytes_eq, length, all, leb, ltb, ◌==◌, if◌then◌else◌,
}
use ez_open_pn.Errors.{Result, ok, err, require, archive_error, os_error, tar_error}
use ez_open_pn.Errors
use ez_open_pn.Installer.Names.{validated_member_name}
use ez_open_pn.Installer.Json.{member}
use ez_open_pn.Installer.Manifest.{max_file_size, max_members}

abbrev pub max_total_size : ℕ
max_total_size = 4 * 1024 * 1024 * 1024

-- A member of the archive, as `tarfile` reads it.
pub record TarMember : Type 0 where
  pub name : Text
  pub is_file : Bool
  pub size : ℤ
  pub content : Bytes

-- The members that `tarfile` comes to, and whether it then finds the archive to be broken.
pub record Tar : Type 0 where
  pub members : List TarMember
  pub broken : Bool

-- `0 <= size <= MAX_FILE_SIZE`, and the size.
abbrev pub file_size : ℤ → Result ℕ
file_size (pos n) = Errors.◌>>◌ (require (leb n max_file_size) archive_error) (ok n)
file_size (negsuc n) = err archive_error

-- The loop over the members.
unfoldable pub scan : Bool → List TarMember → ℕ → List TarMember → Result (List TarMember)
unfolding validated_member_name
scan broken seen total [] =
    Errors.◌>>◌ (require (not broken) tar_error)
      (Errors.◌>>◌ (require (not (length seen == 0)) archive_error) (ok seen))
scan broken seen total (m ∷ rest) =
    Errors.◌>>◌ (require (ltb (length seen) max_members) archive_error) (
      Errors.◌>>=◌ (validated_member_name m.name) λ path.
        Errors.◌>>◌
          (require (not (member m.name (map (λ x. x.name) seen)) && m.is_file) archive_error)
          (Errors.◌>>=◌ (file_size m.size) λ size.
            Errors.◌>>◌ (require (leb (total + size) max_total_size) archive_error)
              (scan broken (seen ++ m ∷ []) (total + size) rest)))

abbrev pub later_or : Option TarMember → Bool → TarMember → Option TarMember
later_or (some found) b m = some found
later_or none b m = if b then some m else none

-- `tar.getmember`: the last member of the name.
unfoldable pub get_member : Text → List TarMember → Option TarMember
get_member name [] = none
get_member name (m ∷ rest) = later_or (get_member name rest) (bytes_eq m.name name) m

-- `names != expected_names`, negated.
unfoldable pub same_set : List Text → List Text → Bool
same_set xs ys = all (λ x. member x ys) xs && all (λ y. member y xs) ys
