-- ===== src/Installer/Names.antt =====
-- The names of the members of an archive: installer/backup_archive.py `_validated_member_name`, with
-- what it uses of Python's `PurePosixPath`.
pub mod Inside
pub mod Order
use ez_open_pn.Prelude.{
  ℕ, Bool, true, false, ◌&&◌, ◌||◌, not, List, [], ◌∷◌, ◌++◌, Text, codes, bytes_eq, bytes_le,
  length, length_within, select, any, ◌==◌, if◌then◌else◌,
}
use ez_open_pn.Errors.{Result, ok, require, archive_error, ◌>>◌}

-- A slash, and a reverse slash.
abbrev pub slash : ℕ
slash = 47

abbrev pub reverse_slash : ℕ
reverse_slash = 92

abbrev pub push : ℕ → List Text → List Text
push c [] = (c ∷ []) ∷ []
push c (piece ∷ pieces) = (c ∷ piece) ∷ pieces

-- `name.split("/")`.
unfoldable pub split : Text → List Text
split [] = [] ∷ []
split (c ∷ cs) = let rest = split cs in if c == slash then [] ∷ rest else push c rest

-- PurePosixPath drops the empty pieces of a relative name, and those that are a dot.
abbrev pub is_kept : Text → Bool
is_kept piece = not (bytes_eq piece []) && not (bytes_eq piece (codes "."))

unfoldable pub parts : Text → List Text
unfolding split
parts name = select is_kept (split name)

unfoldable pub join : List Text → Text
join [] = []
join (part ∷ []) = part
join (part ∷ next ∷ rest) = part ++ slash ∷ join (next ∷ rest)

-- `path.as_posix()` of the path with these parts.
unfoldable pub as_posix : List Text → Text
unfolding join
as_posix [] = codes "."
as_posix (part ∷ rest) = join (part ∷ rest)

-- `value.startswith(prefix)`.
unfoldable pub starts_with : Text → Text → Bool
starts_with [] value = true
starts_with (c ∷ cs) [] = false
starts_with (c ∷ cs) (d ∷ ds) = (c == d) && starts_with cs ds

abbrev pub is_forbidden : Text → Bool
is_forbidden part = bytes_eq part [] || bytes_eq part (codes ".") || bytes_eq part (codes "..")

unfoldable pub is_plain : Text → Bool
unfolding starts_with
is_plain name =
    length_within 1 512 name
    && not (any (λ c. c == reverse_slash) name)
    && not (starts_with (codes "/") name)

-- The tests of the name; its parts are the result.
unfoldable pub validated_member_name : Text → Result (List Text)
unfolding parts is_plain
validated_member_name name =
    require (is_plain name) archive_error
    >> (require (not (any is_forbidden (parts name))) archive_error >> ok (parts name))

-- `sorted` of a list of texts.
unfoldable pub insert_text : Text → List Text → List Text
insert_text t [] = t ∷ []
insert_text t (s ∷ rest) = if bytes_le t s then t ∷ s ∷ rest else s ∷ insert_text t rest

unfoldable pub sorted : List Text → List Text
unfolding insert_text
sorted [] = []
sorted (t ∷ rest) = insert_text t (sorted rest)

-- `==` on lists of texts.
unfoldable pub texts_eq : List Text → List Text → Bool
texts_eq [] [] = true
texts_eq [] (t ∷ ts) = false
texts_eq (s ∷ ss) [] = false
texts_eq (s ∷ ss) (t ∷ ts) = bytes_eq s t && texts_eq ss ts
