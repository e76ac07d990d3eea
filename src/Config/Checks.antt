-- ===== src/Config/Checks.antt =====
-- config.py `_read_secret`: what a secret that it returns is.
use ez_open_pn.Prelude.{
  ℕ, suc, zero, ◌≡◌, refl, sym, ◌∙◌, ap, Bool, true, false, Option, none, some, [], ◌∷◌, Bytes,
  length, take, ◌==◌, ==_iff, arith, if◌then◌else◌, Bool-cases, inl, inr,
}
use ez_open_pn.Errors.{Result, ok, err, require, ◌>>◌, value_error}
use ez_open_pn.Config.{OpenedFile, SecretPath, read_listed, read_secret}

take-whole : (n : ℕ) (xs : Bytes) → length (take (suc n) xs) ≡ n → take (suc n) xs ≡ xs
take-whole n [] h = refl
take-whole zero (x ∷ xs) h = absurd (omega arith)
take-whole (suc n) (x ∷ xs) h = ap (λ ys. x ∷ ys) (take-whole n xs (omega arith))

-- A secret that is read comes from a regular file of mode 0600.
pub record Safe (path : SecretPath) (value : Bytes) : Type 0 where
  pub file : OpenedFile
  pub not_link : path.is_link ≡ some false
  pub opened : path.opened ≡ some file
  pub regular : file.is_regular ≡ true
  pub mode : file.mode ≡ 384
  pub content : file.content ≡ value
  pub size : length value ≡ 32

refused :
    {A : Type 0} (k : Result A) {b : Bool} {value : A}
    → b ≡ false
    → (require b value_error >> k) ≡ ok value
    → ⊥
refused k e h = let r = (rw e at h) in cc

whole-Safe :
    (path : SecretPath) (value : Bytes) (file : OpenedFile)
    → path.is_link ≡ some false
    → path.opened ≡ some file
    → file.is_regular ≡ true
    → (file.mode == 384) ≡ true
    → (if length (take 33 file.content) == 32 then ok (take 33 file.content) else err value_error)
      ≡ ok value
    → Safe path value
whole-Safe path value file e f r m h = elim (Bool-cases (length (take 33 file.content) == 32)) [
  | inr x ↦ absurd (short x (rw x at h))
  | inl x ↦
      let size : length (take 33 file.content) ≡ 32 =
        (==_iff (length (take 33 file.content)) 32).0 x in
      let same : take 33 file.content ≡ value = ok_inj (rw x at h) in
      record {
        file = file;
        not_link = e;
        opened = f;
        regular = r;
        mode = (==_iff file.mode 384).0 m;
        content = sym (take-whole 32 file.content size) ∙ same;
        size = sym (ap length same) ∙ size;
      }
]
  where
    short : {b : Bool} → b ≡ false → ◌≡◌ {A = Result Bytes} (err value_error) (ok value) → ⊥
    short x k = cc

    ok_inj : {a b : Bytes} → ok a ≡ ok b → a ≡ b
    ok_inj k = cc

-- What `_read_secret` returns is the whole content, of 32 bytes, of a regular file that only its owner
-- may read or write, and that the path names without a symbolic link.
pub read_secret-Safe :
    (path : SecretPath) (value : Bytes) → read_secret path ≡ ok value → Safe path value
unfolding read_secret
read_secret-Safe path value h = go path.is_link path.opened refl refl h
  where
    go :
        (l : Option Bool) (o : Option OpenedFile)
        → path.is_link ≡ l
        → path.opened ≡ o
        → read_listed l o ≡ ok value
        → Safe path value
    go none o e f h = absurd cc
    go (some true) o e f h = absurd cc
    go (some false) none e f h = absurd cc
    go (some false) (some file) e f h = elim (Bool-cases file.is_regular) [
      | inr x ↦ absurd (refused _ x h)
      | inl x ↦ elim (Bool-cases (file.mode == 384)) [
        | inr y ↦ absurd (refused _ y (rw x at h))
        | inl y ↦ whole-Safe path value file e f x y (rw (x, y) at h)
      ]
    ]
