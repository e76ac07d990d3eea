-- ===== src/Installer/Manifest/Accepted.antt =====
-- installer/backup_archive.py `_manifest_records`: the manifests that it accepts.
use ez_open_pn.Prelude.{
  ◌≤◌, ◌≡◌, ◌↔◌, refl, sym, ◌∙◌, subst, true, List, [], codes, length, all, All, leb, leb→le,
  le→leb,
}
use ez_open_pn.Errors.{ok, require, archive_error, ◌>>=◌, ◌>>◌, >>=-eq-ok, require-eq-ok}
use ez_open_pn.Installer.Names.{sorted, texts_eq}
use ez_open_pn.Installer.Names.Order.{
  Sorted, Ascending, Ascending→Sorted, sorted-Sorted, sorted_of_Sorted, texts_eq_iff,
}
use ez_open_pn.Installer.Json.{Json, array, Items, Fields, items_of, get}
use ez_open_pn.Installer.Manifest.{
  FileRecord, has_path, paths, required, collect, check_order, records_of, manifest_records,
}
use ez_open_pn.Installer.Manifest.Rounds.{
  DescribesAll, IsPlaced, Ascending-Fresh, collected, collecting, Fresh-Ascending, Unseen-nothing,
}

-- What an accepted manifest is, apart from how it is read: its files are described one by one, each
-- is well placed, their names ascend, so that none stands twice, and no required file is missing.
pub record Accepted (manifest : Fields) (records : List FileRecord) : Type 0 where
  pub files : Items
  pub shape : get (codes "files") manifest ≡ ok (array files)
  pub count : length (items_of files) ≤ 9999
  pub described : DescribesAll (items_of files) records
  pub placed : All IsPlaced records
  pub ascending : Ascending (paths records)
  pub complete : all (λ name. has_path name records) required ≡ true

order_checked :
    (rs out : List FileRecord)
    → check_order rs ≡ ok out
    → (out ≡ rs) × Sorted (paths rs) × (all (λ name. has_path name rs) required ≡ true)
unfolding check_order
order_checked rs out h =
    let complete = require (all (λ name. has_path name rs) required) archive_error >> ok rs in
    let first = require-eq-ok (texts_eq (paths rs) (sorted (paths rs))) archive_error complete h in
    let second =
      require-eq-ok (all (λ name. has_path name rs) required) archive_error (ok rs) first.1 in
    (
      cc (second.1),
      subst Sorted (sym ((texts_eq_iff (paths rs) (sorted (paths rs))).0 first.0))
          (sorted-Sorted (paths rs)),
      second.0,
    )

order_passes :
    (rs : List FileRecord)
    → Sorted (paths rs)
    → all (λ name. has_path name rs) required ≡ true
    → check_order rs ≡ ok rs
unfolding check_order
order_passes rs s c =
    rw ((texts_eq_iff (paths rs) (sorted (paths rs))).1 (sym (sorted_of_Sorted (paths rs) s)), c)
      refl

accepts :
    (manifest : Fields) (rs : List FileRecord)
    → manifest_records manifest ≡ ok rs
    → Accepted manifest rs
unfolding manifest_records records_of
accepts manifest rs h =
    let files = >>=-eq-ok (get (codes "files") manifest) records_of h in go files.0 files.1 files.2
  where
    go :
        (j : Json)
        → get (codes "files") manifest ≡ ok j
        → records_of j ≡ ok rs
        → Accepted manifest rs
    go (array items) e k =
        let rest = collect [] (items_of items) >>= check_order in
        let counted = require-eq-ok (leb (length (items_of items)) 9999) archive_error rest k in
        let loop = >>=-eq-ok (collect [] (items_of items)) check_order counted.1 in
        let news = collected [] (items_of items) loop.0 loop.1 in
        let order = order_checked loop.0 rs loop.2 in
        let same : rs ≡ news.0 = order.0 ∙ news.1 in
        record {
          files = items;
          shape = e;
          count = leb→le (length (items_of items)) 9999 counted.0;
          described = subst (DescribesAll (items_of items)) (sym same) news.2;
          placed = subst (All IsPlaced) (sym same) news.3;
          ascending =
              subst (λ x. Ascending (paths x)) (sym same)
                (Fresh-Ascending [] news.0 news.4 (subst (λ x. Sorted (paths x)) news.1 order.1));
          complete = rw (order.0) order.2;
        }
    go _ e k = cc

accepted :
    (manifest : Fields) (rs : List FileRecord)
    → Accepted manifest rs
    → manifest_records manifest ≡ ok rs
unfolding manifest_records records_of
accepted manifest rs a =
    rw
      (
        a.shape,
        le→leb (length (items_of a.files)) 9999 a.count,
        collecting [] (items_of a.files) rs a.described a.placed
            (Ascending-Fresh [] rs (Unseen-nothing rs) a.ascending),
        order_passes rs (Ascending→Sorted (paths rs) a.ascending) a.complete,
      )
      refl

-- `_manifest_records` returns these records just when the manifest is accepted in this sense.
pub manifest_records-iff_Accepted :
    (manifest : Fields) (records : List FileRecord)
    → (manifest_records manifest ≡ ok records) ↔ Accepted manifest records
manifest_records-iff_Accepted manifest rs = (accepts manifest rs, accepted manifest rs)
