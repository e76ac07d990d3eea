-- ===== src/Installer/Manifest/Rounds.antt =====
-- installer/backup_archive.py `_manifest_records`: the loop over the descriptions of the files.
use ez_open_pn.Prelude.{
  ◌≡◌, ◌≢◌, refl, sym, ap, ◌∙◌, Bool, true, false, ◌&&◌, not, List, [], ◌∷◌, ◌++◌, Text,
  bytes_eq_iff, bytes_eq_refl, bytes_le, All, arith,
}
use mathlib.Core.List.{append-nil, append_assoc}
use ez_open_pn.Errors.{ok, archive_error, >>=-eq-ok, require-eq-ok}
use ez_open_pn.Installer.Names.{parts, validated_member_name}
use ez_open_pn.Installer.Names.Order.{Sorted, Before, Ascending}
use ez_open_pn.Installer.Names.Inside.{IsMemberName, validated_member_name_iff}
use ez_open_pn.Installer.Json.{Json}
use ez_open_pn.Installer.Manifest.{
  FileRecord, has_path, paths, collect, read_record, allowed_payload_path,
}
use ez_open_pn.Installer.Manifest.Record.{Describes, read_record-Describes, Describes-read_record}

abbrev pub DescribesAll : List Json → List FileRecord → Type 0
DescribesAll [] [] = Unit
DescribesAll (j ∷ js) (r ∷ rs) = Describes j r × DescribesAll js rs
DescribesAll _ _ = ⊥

-- The name leads down to one of the fixed files or into one of the trees.
pub record IsPlaced (r : FileRecord) : Type 0 where
  pub named : IsMemberName r.path
  pub allowed : allowed_payload_path (parts r.path) ≡ true

-- No path among those seen before, or twice.
pub Fresh : List FileRecord → List FileRecord → Type 0
Fresh seen [] = Unit
Fresh seen (r ∷ rs) = (has_path r.path seen ≡ false) × Fresh (seen ++ r ∷ []) rs

and_not : {a b : Bool} → (a && not b) ≡ true → (a ≡ true) × (b ≡ false)
and_not h = ground arith

round :
    (seen : List FileRecord) (j : Json) (js : List Json) (rs : List FileRecord)
    → collect seen (j ∷ js) ≡ ok rs
    → (r : FileRecord) × Describes j r
      × IsPlaced r
      × (has_path r.path seen ≡ false)
      × (collect (seen ++ r ∷ []) js ≡ ok rs)
unfolding collect
round seen j js rs h =
    let read = >>=-eq-ok (read_record j) _ h in
    let r = read.0 in
    let named = >>=-eq-ok (validated_member_name r.path) _ read.2 in
    let valid = (validated_member_name_iff r.path named.0).0 named.1 in
    let tests =
      require-eq-ok (allowed_payload_path named.0 && not (has_path r.path seen)) archive_error
        (collect (seen ++ r ∷ []) js) named.2 in
    (
      r,
      read_record-Describes j r read.1,
      record {
        named = valid.0;
        allowed = ap allowed_payload_path (sym valid.1) ∙ (and_not tests.0).0;
      },
      (and_not tests.0).1,
      tests.1,
    )

round_back :
    (seen : List FileRecord) (j : Json) (js : List Json) (r : FileRecord)
    → Describes j r
    → IsPlaced r
    → has_path r.path seen ≡ false
    → collect seen (j ∷ js) ≡ collect (seen ++ r ∷ []) js
unfolding collect
round_back seen j js r d p f =
    rw
      (
        Describes-read_record j r d,
        (validated_member_name_iff r.path _).1 (p.named, refl),
        p.allowed,
        f,
      )
      refl

pub collected :
    (seen : List FileRecord) (js : List Json) (rs : List FileRecord)
    → collect seen js ≡ ok rs
    → (news : List FileRecord) × (rs ≡ seen ++ news)
      × DescribesAll js news
      × All IsPlaced news
      × Fresh seen news
unfolding collect Fresh
collected seen [] rs h = ([], cc (append-nil seen), tt, tt, tt)
collected seen (j ∷ js) rs h =
    let first = round seen j js rs h in
    let rest = collected (seen ++ first.0 ∷ []) js rs first.4 in
    (
      first.0 ∷ rest.0,
      rest.1 ∙ append_assoc seen (first.0 ∷ []) rest.0,
      (first.1, rest.2),
      (first.2, rest.3),
      (first.3, rest.4),
    )

pub collecting :
    (seen : List FileRecord) (js : List Json) (news : List FileRecord)
    → DescribesAll js news
    → All IsPlaced news
    → Fresh seen news
    → collect seen js ≡ ok (seen ++ news)
unfolding collect Fresh
collecting seen [] [] d p f = ap ok (sym (append-nil seen))
collecting seen [] (r ∷ rs) d p f = absurd d
collecting seen (j ∷ js) [] d p f = absurd d
collecting seen (j ∷ js) (r ∷ rs) d p f =
    round_back seen j js r d.0 p.0 f.0
    ∙ collecting (seen ++ r ∷ []) js rs d.1 p.1 f.1
    ∙ ap ok (append_assoc seen (r ∷ []) rs)

has_path-append :
    (t : Text) (front back : List FileRecord)
    → has_path t front ≡ true
    → has_path t (front ++ back) ≡ true
has_path-append t [] back h = cc
has_path-append t (r ∷ rs) back h = ground (arith, has_path-append t rs back)

has_path-last :
    (front : List FileRecord) (r : FileRecord) → has_path r.path (front ++ r ∷ []) ≡ true
has_path-last [] r = rw (bytes_eq_refl r.path) refl
has_path-last (s ∷ rs) r = ground (arith, has_path-last rs r)

has_path-none :
    (t : Text) (front : List FileRecord) (r : FileRecord)
    → has_path t front ≡ false
    → r.path ≢ t
    → has_path t (front ++ r ∷ []) ≡ false
has_path-none t [] r h n = ground (arith, bytes_eq_iff t r.path)
has_path-none t (s ∷ rs) r h n = ground (arith, has_path-none t rs r)

-- Fresh and sorted is ascending.
seen_differs :
    (s : FileRecord) (seen rs : List FileRecord)
    → has_path s.path seen ≡ true
    → Fresh seen rs
    → All (λ t. s.path ≢ t) (paths rs)
unfolding Fresh
seen_differs s seen [] h f = tt
seen_differs s seen (r ∷ rs) h f = (
  (λ e. cc (ap (λ t. has_path t seen) e, h, f.0)),
  seen_differs s (seen ++ r ∷ []) rs (has_path-append s.path seen (r ∷ []) h) f.1,
)

zip_Before :
    (t : Text) (ts : List Text)
    → All (λ u. bytes_le t u ≡ true) ts
    → All (λ u. t ≢ u) ts
    → All (Before t) ts
zip_Before t [] h k = tt
zip_Before t (u ∷ us) h k = ((h.0, k.0), zip_Before t us h.1 k.1)

pub Fresh-Ascending :
    (seen rs : List FileRecord) → Fresh seen rs → Sorted (paths rs) → Ascending (paths rs)
unfolding Fresh
Fresh-Ascending seen [] f s = tt
Fresh-Ascending seen (r ∷ rs) f s = (
  zip_Before r.path (paths rs) s.0 (seen_differs r (seen ++ r ∷ []) rs (has_path-last seen r) f.1),
  Fresh-Ascending (seen ++ r ∷ []) rs f.1 s.1,
)

-- And back.
pub Unseen : List FileRecord → List FileRecord → Type 0
Unseen seen rs = All (λ t. has_path t seen ≡ false) (paths rs)

unseen_more :
    (seen : List FileRecord) (r : FileRecord) (ts : List Text)
    → All (λ t. has_path t seen ≡ false) ts
    → All (Before r.path) ts
    → All (λ t. has_path t (seen ++ r ∷ []) ≡ false) ts
unseen_more seen r [] u a = tt
unseen_more seen r (t ∷ ts) u a =
    (has_path-none t seen r u.0 (a.0).1, unseen_more seen r ts u.1 a.1)

pub Ascending-Fresh :
    (seen rs : List FileRecord) → Unseen seen rs → Ascending (paths rs) → Fresh seen rs
unfolding Fresh Unseen
Ascending-Fresh seen [] u a = tt
Ascending-Fresh seen (r ∷ rs) u a =
    (u.0, Ascending-Fresh (seen ++ r ∷ []) rs (unseen_more seen r (paths rs) u.1 a.0) a.1)

pub Unseen-nothing : (rs : List FileRecord) → Unseen [] rs
unfolding Unseen
Unseen-nothing [] = tt
Unseen-nothing (r ∷ rs) = (refl, Unseen-nothing rs)
