-- ===== src/Installer/Apply.antt =====
-- installer/backup_archive.py `apply_payload`.
pub mod Complete
pub mod Looks
pub mod Verified
use ez_open_pn.Prelude.{
  ℕ, ◌+◌, Option, some, List, [], ◌∷◌, ◌++◌, Bytes, Text, codes, bytes_eq, length, leb, ◌==◌,
}
use ez_open_pn.Errors.{os_error}
use ez_open_pn.Installer.Names.{parts}
use ez_open_pn.Installer.Json.{Json}
use ez_open_pn.Installer.Manifest.{max_file_size, FileRecord, parse_manifest, manifest_records}
use ez_open_pn.Installer.Io.{
  Io, pure, raise, lift, ◌>>=◌, ◌>>◌, for_each, demand, FilePath, Node, regular, Place, Os,
}
use ez_open_pn.Installer.Disk.{staged_at, call, unlink}
use ez_open_pn.Installer.Restore.{regular_status, install_file, copy_tree}

-- `payload / name`.
abbrev pub payload : Text → FilePath
payload name = codes "payload" ∷ parts name

abbrev pub place : Text → Text → Place
place dir name = record { dir = dir; name = name }

-- An entry of `fixed_destinations`.
pub record Destination : Type 0 where
  pub source : Text
  pub target : Place
  pub mode : ℕ
  pub uid : ℕ
  pub gid : ℕ

abbrev pub secrets_dir : Text
secrets_dir = codes "var/lib/ezopenpn/secrets"

abbrev pub fixed_destinations : List Destination
fixed_destinations =
    record {
      source = codes "database/ezopenpn.sqlite3";
      target = place (codes "var/lib/ezopenpn/control") (codes "ezopenpn.sqlite3");
      mode = 384;
      uid = 10001;
      gid = 10001;
    }
    ∷ record {
      source = codes "configuration/control.toml";
      target = place (codes "etc/ezopenpn") (codes "control.toml");
      mode = 416;
      uid = 0;
      gid = 10001;
    }
    ∷ record {
      source = codes "configuration/Caddyfile";
      target = place (codes "etc/ezopenpn") (codes "Caddyfile");
      mode = 416;
      uid = 0;
      gid = 11003;
    }
    ∷ record {
      source = codes "configuration/compose.yaml";
      target = place (codes "etc/ezopenpn") (codes "compose.yaml");
      mode = 416;
      uid = 0;
      gid = 0;
    }
    ∷ record {
      source = codes "configuration/stack.env";
      target = place (codes "etc/ezopenpn") (codes "stack.env");
      mode = 416;
      uid = 0;
      gid = 0;
    }
    ∷ record {
      source = codes "secrets/master.key";
      target = place secrets_dir (codes "master.key");
      mode = 384;
      uid = 10001;
      gid = 10001;
    }
    ∷ record {
      source = codes "secrets/hysteria-api.key";
      target = place secrets_dir (codes "hysteria-api.key");
      mode = 384;
      uid = 10001;
      gid = 10001;
    }
    ∷ record {
      source = codes "secrets/hysteria-obfs.key";
      target = place secrets_dir (codes "hysteria-obfs.key");
      mode = 384;
      uid = 10001;
      gid = 10001;
    }
    ∷ record {
      source = codes "runtime/xray/config.json";
      target = place (codes "var/lib/ezopenpn/runtime/xray") (codes "config.json");
      mode = 384;
      uid = 10002;
      gid = 11001;
    }
    ∷ record {
      source = codes "runtime/hysteria/config.yaml";
      target = place (codes "var/lib/ezopenpn/runtime/hysteria") (codes "config.yaml");
      mode = 384;
      uid = 10003;
      gid = 11003;
    }
    ∷ []

abbrev pub material : Place
material = place (codes "var/lib/ezopenpn/runtime") (codes "material")

abbrev pub caddy : Place
caddy = place (codes "var/lib/ezopenpn") (codes "caddy")

-- The database's write-ahead log and shared memory.
abbrev pub database_beside : Text → Place
database_beside suffix =
    place (codes "var/lib/ezopenpn/control") (codes "ezopenpn.sqlite3" ++ suffix)

abbrev pub read_node : Option Node → Io Bytes
read_node (some (regular x)) = pure x.content
read_node _ = raise os_error

module _ (os : Os) where
  -- `path.read_bytes()`.
  unfoldable pub read_bytes : FilePath → Io Bytes
  unfolding call staged_at ◌>>=◌
  read_bytes path = call os >> (λ d. read_node (staged_at path d.staged) d)

  -- The loop of `_sha256_stream` over what `read` returns.
  unfoldable pub sha256_chunks : List Bytes → ℕ → Bytes → Io Text
  unfolding call ◌>>=◌
  sha256_chunks [] size seen = call os >> pure (os.sha256 seen)
  sha256_chunks (chunk ∷ rest) size seen =
      let more = sha256_chunks rest (size + length chunk) (seen ++ chunk) in
      call os >> (demand (leb (size + length chunk) max_file_size) >> more)

  unfoldable pub sha256_file : FilePath → Io Text
  unfolding read_bytes sha256_chunks ◌>>=◌
  sha256_file path = do content ← read_bytes path; sha256_chunks (os.reads content) 0 []

  -- One round of the first loop: the digest is only computed if the size is right.
  unfoldable pub check_staged : FileRecord → Io (Unit {0})
  unfolding regular_status sha256_file ◌>>=◌
  check_staged r = do
    x ← regular_status os (payload r.path)
    demand (length x.content == r.size)
    digest ← sha256_file (payload r.path)
    demand (bytes_eq digest r.digest)

  -- `_parse_manifest` and `_manifest_records` of the staged manifest.
  unfoldable pub staged_records : (Bytes → Option Json) → Io (List FileRecord)
  unfolding read_bytes parse_manifest manifest_records ◌>>=◌
  staged_records loads = do
    raw ← read_bytes (codes "manifest.json" ∷ [])
    manifest ← lift (parse_manifest loads raw)
    lift (manifest_records manifest)

  -- What `apply_payload` does once the payload is checked.
  unfoldable pub install_payload : Io (Unit {0})
  unfolding unlink for_each install_file copy_tree ◌>>=◌
  install_payload = do
    unlink os (database_beside (codes "-wal"))
    unlink os (database_beside (codes "-shm"))
    for_each fixed_destinations
        (λ x. install_file os (payload x.source) x.target x.mode x.uid x.gid)
    copy_tree os (payload (codes "runtime/material")) material 0 0
    copy_tree os (payload (codes "caddy")) caddy 10004 11003

  unfoldable pub apply_payload : (Bytes → Option Json) → Io (Unit {0})
  unfolding staged_records for_each check_staged install_payload ◌>>=◌
  apply_payload loads = do
    records ← staged_records loads
    for_each records check_staged
    install_payload
