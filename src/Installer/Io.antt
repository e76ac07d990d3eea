-- ===== src/Installer/Io.antt =====
-- The disk and the system as installer/backup_archive.py meets them, and actions that may raise.
use ez_open_pn.Prelude.{ℕ, Bool, true, false, ◌&&◌, List, [], ◌∷◌, Bytes, Text, bytes_eq}
use ez_open_pn.Errors.{Exn, Result, ok, err, archive_error}

pub record Attributes : Type 0 where
  pub mode : ℕ
  pub uid : ℕ
  pub gid : ℕ

pub record File : Type 0 where
  pub content : Bytes
  pub attributes : Attributes

-- A path by its parts, from the directory that it is relative to.
abbrev pub FilePath : Type 0
FilePath = List Text

-- What stands in the staging directory, whose directories are those on the way to a file.
pub data Node : Type 0 where
  regular : File → Node
  other : Node

-- What stands at a place of the installation: a file, a directory with the files below it, a
-- symbolic link (and whether it leads somewhere), or anything else.
pub data Entry : Type 0 where
  file : File → Entry
  tree : Attributes → List (FilePath × File) → Entry
  link : Bool → Entry
  special : Entry

-- A directory of the installation and a name in it.
pub record Place : Type 0 where
  pub dir : Text
  pub name : Text

abbrev pub same_place : Place → Place → Bool
same_place p q = bytes_eq p.dir q.dir && bytes_eq p.name q.name

pub record Disk : Type 0 where
  pub staged : List (FilePath × Node)
  pub places : List (Place × Entry)
  -- How many system calls have been made.
  pub calls : ℕ

-- The system: whether it refuses its n-th call, how it splits a content into what `read` returns,
-- SHA-256 in hexadecimal, the effective user and group, and the random part of a temporary name.
pub record Os : Type 0 where
  pub refuses : ℕ → Bool
  pub reads : Bytes → List Bytes
  pub sha256 : Bytes → Text
  pub euid : ℕ
  pub egid : ℕ
  pub token : ℕ → Text

abbrev pub Io : Type 0 → Type 0
Io A = Disk → Result A × Disk

abbrev pub pure : {A : Type 0} → A → Io A
pure a d = (ok a, d)

abbrev pub raise : {A : Type 0} → Exn → Io A
raise e d = (err e, d)

abbrev pub lift : {A : Type 0} → Result A → Io A
lift r d = (r, d)

abbrev pub continue : {A B : Type 0} → Result A → (A → Io B) → Io B
continue (ok a) f d = f a d
continue (err e) f d = (err e, d)

infixl 10 ◌>>=◌ ◌>>◌
unfoldable pub ◌>>=◌ : {A B : Type 0} → Io A → (A → Io B) → Io B
◌>>=◌ m f d = continue (m d).0 f (m d).1

abbrev pub ◌>>◌ : {A B : Type 0} → Io A → Io B → Io B
m >> n = m >>= λ _. n

abbrev pub then_raise : {A : Type 0} → Exn → Result (Unit {0}) → Disk → Result A × Disk
then_raise e (ok u) d = (err e, d)
then_raise e (err x) d = (err x, d)

abbrev pub handle : {A : Type 0} → Result A → Io (Unit {0}) → Io A
handle (ok a) h d = (ok a, d)
handle (err e) h d = then_raise e (h d).0 (h d).1

-- `try: m` with `except BaseException: h; raise`.
unfoldable pub on_error : {A : Type 0} → Io A → Io (Unit {0}) → Io A
on_error m h d = handle (m d).0 h (m d).1

abbrev pub afterwards : {A : Type 0} → Result A → Result (Unit {0}) → Disk → Result A × Disk
afterwards r (ok u) d = (r, d)
afterwards r (err x) d = (err x, d)

-- `try: m` with `finally: h`.
unfoldable pub finally : {A : Type 0} → Io A → Io (Unit {0}) → Io A
finally m h d = afterwards (m d).0 (h (m d).1).0 (h (m d).1).1

unfoldable pub for_each : {A : Type 0} → List A → (A → Io (Unit {0})) → Io (Unit {0})
unfolding ◌>>=◌
for_each [] body = pure tt
for_each (x ∷ xs) body = let rest = for_each xs body in body x >>= λ _. rest

-- `if not condition: raise ArchiveError`.
abbrev pub demand : Bool → Io (Unit {0})
demand true = pure tt
demand false = raise archive_error
