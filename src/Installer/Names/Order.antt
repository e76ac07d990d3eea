-- ===== src/Installer/Names/Order.antt =====
-- The order of texts in which the manifest lists its files.
use ez_open_pn.Prelude.{
  ◌≡◌, ◌≢◌, ◌↔◌, refl, true, false, List, [], ◌∷◌, Text, bytes_eq_iff, bytes_le, All, All-map,
  Bool-cases, inl, inr, arith,
}
use ez_open_pn.Installer.Names.{insert_text, sorted, texts_eq}

pub bytes_le_total : (x y : Text) → bytes_le x y ≡ false → bytes_le y x ≡ true
unfolding bytes_le
bytes_le_total [] y h = cc
bytes_le_total (x ∷ xs) [] h = refl
bytes_le_total (x ∷ xs) (y ∷ ys) h = ground (arith, bytes_le_total xs ys)

pub bytes_le_refl : (x : Text) → bytes_le x x ≡ true
unfolding bytes_le
bytes_le_refl [] = refl
bytes_le_refl (x ∷ xs) = ground (arith, bytes_le_refl xs)

pub bytes_le_trans :
    (x y z : Text) → bytes_le x y ≡ true → bytes_le y z ≡ true → bytes_le x z ≡ true
unfolding bytes_le
bytes_le_trans [] y z h k = refl
bytes_le_trans (x ∷ xs) [] z h k = cc
bytes_le_trans (x ∷ xs) (y ∷ ys) [] h k = cc
bytes_le_trans (x ∷ xs) (y ∷ ys) (z ∷ zs) h k = ground (arith, bytes_le_trans xs ys zs)

abbrev pub Sorted : List Text → Type 0
Sorted [] = Unit
Sorted (x ∷ xs) = All (λ y. bytes_le x y ≡ true) xs × Sorted xs

-- Sorted, and no text twice.
abbrev pub Before : Text → Text → Type 0
Before x y = (bytes_le x y ≡ true) × (x ≢ y)

abbrev pub Ascending : List Text → Type 0
Ascending [] = Unit
Ascending (x ∷ xs) = All (Before x) xs × Ascending xs

pub Ascending→Sorted : (xs : List Text) → Ascending xs → Sorted xs
Ascending→Sorted [] h = tt
Ascending→Sorted (x ∷ xs) h = (All-map (λ y k. k.0) xs h.0, Ascending→Sorted xs h.1)

insert-All :
    (P : Text → Type 0) (t : Text) (xs : List Text) → P t → All P xs → All P (insert_text t xs)
unfolding insert_text
insert-All P t [] p h = (p, tt)
insert-All P t (s ∷ rest) p h = elim (Bool-cases (bytes_le t s)) [
  | inl e ↦ rw e (p, h)
  | inr e ↦ rw e (h.0, insert-All P t rest p h.1)
]

insert-Sorted : (t : Text) (xs : List Text) → Sorted xs → Sorted (insert_text t xs)
unfolding insert_text
insert-Sorted t [] h = (tt, tt)
insert-Sorted t (s ∷ rest) h = elim (Bool-cases (bytes_le t s)) [
  | inl e ↦ rw e ((e, All-map (λ y k. bytes_le_trans t s y e k) rest h.0), h)
  | inr e ↦ rw e (insert-All _ t rest (bytes_le_total t s e) h.0, insert-Sorted t rest h.1)
]

pub sorted-Sorted : (xs : List Text) → Sorted (sorted xs)
unfolding sorted
sorted-Sorted [] = tt
sorted-Sorted (t ∷ rest) = insert-Sorted t (sorted rest) (sorted-Sorted rest)

insert_first :
    (t : Text) (xs : List Text) → All (λ y. bytes_le t y ≡ true) xs → insert_text t xs ≡ t ∷ xs
unfolding insert_text
insert_first t [] h = refl
insert_first t (s ∷ rest) h = rw (h.0) refl

pub sorted_of_Sorted : (xs : List Text) → Sorted xs → sorted xs ≡ xs
unfolding sorted
sorted_of_Sorted [] h = refl
sorted_of_Sorted (t ∷ rest) h = rw (sorted_of_Sorted rest h.1) (insert_first t rest h.0)

pub texts_eq_iff : (xs ys : List Text) → (texts_eq xs ys ≡ true) ↔ (xs ≡ ys)
unfolding texts_eq
texts_eq_iff [] [] = ((λ _. refl), (λ _. refl))
texts_eq_iff [] (y ∷ ys) = ((λ h. cc), (λ h. cc))
texts_eq_iff (x ∷ xs) [] = ((λ h. cc), (λ h. cc))
texts_eq_iff (x ∷ xs) (y ∷ ys) = (
  (λ h. ground (arith, bytes_eq_iff x y, texts_eq_iff xs ys)),
  (λ h. ground (arith, bytes_eq_iff x y, texts_eq_iff xs ys)),
)
