-- ===== src/Examples/Backup.antt =====
-- A concrete system, disk and archive for installer/backup_archive.py.
use ez_open_pn.Prelude.{
  pos, ℕ, ◌+◌, ◌≡◌, true, false, Bool, Option, some, List, [], ◌∷◌, ◌++◌, map, Bytes, Text, codes,
  bytes_eq, length, if◌then◌else◌,
}
use mathlib.Core.List.{append-nil}
use ez_open_pn.Installer.Json.{
  Json, integer, string, array, object, Items, nil, cons, Fields, end, field,
}
use ez_open_pn.Installer.Manifest.{FileRecord}
use ez_open_pn.Installer.Metadata.{text}
use ez_open_pn.Installer.Io.{File, FilePath, Node, regular, Entry, tree, Disk, Os}
use ez_open_pn.Installer.Restore.Chunks.{joined}
use ez_open_pn.Installer.Apply.{payload, caddy}
use ez_open_pn.Installer.Tar.{TarMember}
use ez_open_pn.Installer.Staging.{member_of}
use ez_open_pn.Installer.Extract.{Formats, OutsideFile, Request}
use ez_open_pn.Examples.Outside.{repeat}

-- A digest that only tells the length.
abbrev pub digest_of : Bytes → Text
digest_of b = repeat 64 (48 + length b)

-- The call with this number is refused; 0 is the first one.
abbrev pub system : (ℕ → Bool) → Os
system refuses = record {
  refuses = refuses;
  reads = λ b. b ∷ [];
  sha256 = digest_of;
  euid = 0;
  egid = 0;
  token = λ n. [];
}

abbrev pub calm : Os
calm = system (λ n. false)

pub whole : (b : Bytes) → joined (b ∷ []) ≡ b
whole b = append-nil b

abbrev pub stored : Bytes
stored = codes "data"

abbrev pub stored_names : List Text
stored_names =
    codes "configuration/Caddyfile"
    ∷ codes "configuration/compose.yaml"
    ∷ codes "configuration/control.toml"
    ∷ codes "configuration/stack.env"
    ∷ codes "database/ezopenpn.sqlite3"
    ∷ codes "runtime/hysteria/config.yaml"
    ∷ codes "runtime/xray/config.json"
    ∷ codes "secrets/hysteria-api.key"
    ∷ codes "secrets/hysteria-obfs.key"
    ∷ codes "secrets/master.key"
    ∷ codes "state/install.json"
    ∷ []

abbrev pub stored_records : List FileRecord
stored_records =
    map (λ name. record { path = name; digest = digest_of stored; size = 4 }) stored_names

abbrev pub described : List Text → Items
described [] = nil
described (name ∷ rest) =
    cons
      (object (
        field (codes "path") (string name) (
          field (codes "sha256") (string (digest_of stored))
            (field (codes "size") (integer (pos 4)) end))))
      (described rest)

abbrev pub manifest : Fields
manifest = field (codes "application") (string (codes "EzOpenPN")) (
    field (codes "created_at") (string (codes "2026-01-01T00:00:00Z")) (
      field (codes "files") (array (described stored_names)) (
        field (codes "format") (integer (pos 1)) (
          field (codes "public_ipv4") (string (codes "192.0.2.1")) (
            field (codes "quick_check") (string (codes "ok")) (
              field (codes "schema_version") (string (codes "0001_initial"))
                (field (codes "version") (string (codes "v1.0.0")) end)))))))

abbrev pub manifest_text : Bytes
manifest_text = codes "{}"

-- The state of the installation.
abbrev pub installed : Fields
installed =
    field (codes "version") (string (codes "v1.0.0"))
      (field (codes "public_ipv4") (string (codes "192.0.2.1")) end)

abbrev pub loads : Bytes → Option Json
loads b = if bytes_eq b manifest_text then some (object manifest) else some (object installed)

abbrev pub new_file : Bytes → File
new_file content = record {
  content = content;
  attributes = record { mode = 384; uid = 0; gid = 0 };
}

abbrev pub staged_files : List (FilePath × Node)
staged_files =
    (codes "manifest.json" ∷ [], regular (new_file manifest_text))
      ∷ map (λ name. (payload name, regular (new_file stored))) stored_names
    ++ (payload (codes "caddy/key.pem"), regular (new_file stored)) ∷ []

abbrev pub old_caddy : Entry
old_caddy =
    tree (record { mode = 448; uid = 10004; gid = 11003 })
      ((codes "old" ∷ [], new_file stored) ∷ [])

abbrev pub disk : Disk
disk = record { staged = staged_files; places = (caddy, old_caddy) ∷ []; calls = 0 }

abbrev pub member : Text → Bytes → TarMember
member name content = record {
  name = name;
  is_file = true;
  size = pos (length content);
  content = content;
}

abbrev pub formats : Formats
formats = record {
  loads = loads;
  loads_text = loads;
  manifest_bytes = λ f. manifest_text;
  read_tar = λ b. record {
    members =
        member (codes "manifest.json") manifest_text
        ∷ map (λ name. member (member_of name) stored) stored_names;
    broken = false;
  };
  query = λ b. some (record {
    quick = (text (codes "ok") ∷ []) ∷ [];
    foreign = false;
    versions = (text (codes "0001_initial") ∷ []) ∷ [];
  });
}

abbrev pub outside_file : Bytes → OutsideFile
outside_file content = record { is_regular = true; owner = 0; mode = 384; content = content }

-- The checksum file ends in a carriage return and a newline.
abbrev pub request : Request
request = record {
  archive_name = codes "backup.tar.gz";
  archive = some (outside_file (codes "tar"));
  checksum =
      some (outside_file (digest_of (codes "tar") ++ codes "  backup.tar.gz" ++ 13 ∷ 10 ∷ []));
  current_state = some (outside_file stored);
  expected_owner = 0;
}

abbrev pub empty_disk : Disk
empty_disk = record { staged = []; places = []; calls = 0 }
