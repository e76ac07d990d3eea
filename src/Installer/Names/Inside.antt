-- ===== src/Installer/Names/Inside.antt =====
-- What the tests of a member's name allow, and where such a member is written.
use ez_open_pn.Prelude.{
  ◌≡◌, ◌≢◌, ◌↔◌, refl, sym, ap, ◌∙◌, true, false, ◌||◌, not, not-true, List, [], ◌∷◌, ◌++◌, Text,
  codes, bytes_eq, bytes_eq_iff, length_within, select, any, All, Bool-cases, inl, inr, arith, ◌==◌,
  if◌then◌else◌,
}
use mathlib.Core.List.{append-nil, append_assoc}
use ez_open_pn.Errors.{ok, require, ◌>>◌, require-eq-ok, archive_error}
use ez_open_pn.Installer.Names.{
  reverse_slash, split, parts, is_kept, is_forbidden, is_plain, starts_with, validated_member_name,
}

abbrev pub dots : Text
dots = codes ".."

-- A relative name that no piece leads upwards.
pub record IsMemberName (name : Text) : Type 0 where
  pub short : length_within 1 512 name ≡ true
  pub no_reverse_slash : any (λ c. c == reverse_slash) name ≡ false
  pub relative : starts_with (codes "/") name ≡ false
  pub downwards : All (λ piece. piece ≢ dots) (split name)

-- Where the system gets to from a directory: an empty piece and a dot stay, two dots go up.
abbrev pub parent : List Text → List Text
parent [] = []
parent (d ∷ []) = []
parent (d ∷ e ∷ rest) = d ∷ parent (e ∷ rest)

abbrev pub enter : List Text → Text → List Text
enter at piece =
    if bytes_eq piece [] || bytes_eq piece (codes ".")
    then at
    else if bytes_eq piece dots
    then parent at
    else at ++ piece ∷ []

unfoldable pub walk : List Text → List Text → List Text
walk at [] = at
walk at (piece ∷ rest) = walk (enter at piece) rest

dots_forbidden :
    (p : Text) (ps : List Text) → p ≡ dots → any is_forbidden (select is_kept (p ∷ ps)) ≡ true
unfolding bytes_eq
dots_forbidden p ps e = rw e refl

parts_tail :
    (p : Text) (ps : List Text)
    → any is_forbidden (select is_kept (p ∷ ps)) ≡ false
    → any is_forbidden (select is_kept ps) ≡ false
parts_tail p ps h = ground arith

parts_down :
    (pieces : List Text)
    → any is_forbidden (select is_kept pieces) ≡ false
    → All (λ piece. piece ≢ dots) pieces
parts_down [] h = tt
parts_down (p ∷ ps) h = ((λ e. cc (dots_forbidden p ps e)), parts_down ps (parts_tail p ps h))

down_parts :
    (pieces : List Text)
    → All (λ piece. piece ≢ dots) pieces
    → any is_forbidden (select is_kept pieces) ≡ false
down_parts [] h = refl
down_parts (p ∷ ps) h = ground (
  arith,
  bytes_eq_iff p [],
  bytes_eq_iff p (codes "."),
  bytes_eq_iff p dots,
  down_parts ps h.1,
  h.0,
)

-- The code's test of a name, in both directions.
pub validated_member_name_iff :
    (name : Text) (ps : List Text)
    → (validated_member_name name ≡ ok ps) ↔ (IsMemberName name × (ps ≡ parts name))
unfolding validated_member_name parts is_plain
validated_member_name_iff name ps = (there, back)
  where
    there : validated_member_name name ≡ ok ps → IsMemberName name × (ps ≡ parts name)
    there h =
        let rest = require (not (any is_forbidden (parts name))) archive_error >> ok (parts name) in
        let first = require-eq-ok (is_plain name) archive_error rest h in
        let second =
          require-eq-ok (not (any is_forbidden (parts name))) archive_error (ok (parts name))
            first.1 in
        (
          record {
            short = ground (arith, first.0);
            no_reverse_slash = ground (arith, first.0);
            relative = ground (arith, first.0);
            downwards = parts_down (split name) (not-true _ second.0);
          },
          cc (second.1),
        )

    back : IsMemberName name × (ps ≡ parts name) → validated_member_name name ≡ ok ps
    back h =
        rw (h.0.short, h.0.no_reverse_slash, h.0.relative, down_parts (split name) h.0.downwards)
          (ap ok (sym h.1))

enter_stays : (at : List Text) (p : Text) → is_kept p ≡ false → enter at p ≡ at
enter_stays at p h = ground arith

enter_down : (at : List Text) (p : Text) → is_kept p ≡ true → p ≢ dots → enter at p ≡ at ++ p ∷ []
enter_down at p h n = ground (arith, bytes_eq_iff p dots)

walk-downwards :
    (base pieces : List Text)
    → All (λ piece. piece ≢ dots) pieces
    → walk base pieces ≡ base ++ select is_kept pieces
unfolding walk
walk-downwards base [] h = sym (append-nil base)
walk-downwards base (p ∷ ps) h = elim (Bool-cases (is_kept p)) [
  | inl e ↦
      rw (e, enter_down base p e h.0)
        (walk-downwards (base ++ p ∷ []) ps h.1 ∙ append_assoc base (p ∷ []) (select is_kept ps))
  | inr e ↦ rw (e, enter_stays base p e) (walk-downwards base ps h.1)
]

-- A member is written under the directory that it is extracted to: from there its name leads down,
-- through its parts.
pub member_stays_inside :
    (base : List Text) (name : Text) (ps : List Text)
    → validated_member_name name ≡ ok ps
    → walk base (split name) ≡ base ++ ps
unfolding parts
member_stays_inside base name ps h =
    let valid = (validated_member_name_iff name ps).0 h in
    walk-downwards base (split name) valid.0.downwards ∙ ap (λ qs. base ++ qs) (sym valid.1)
