-- ===== src/Encoding/Tokens.antt =====
-- The URL tokens of security/sessions.py, web/preauth.py and profiles/service.py pass the tests of
-- those who read them.
use mathlib.Core.List.{reverse, reverse_aux}
use ez_open_pn.Prelude.{
  ℕ, ◌+◌, ◌*◌, ◌/◌, ◌%◌, ◌≤◌, ◌≡◌, refl, Bool, true, ◌&&◌, ◌||◌, not, [], ◌∷◌, Bytes, Text, all,
  any, length, length_within, isascii, arith, ltb, le→leb,
}
use ez_open_pn.Encoding.{lstrip, rstrip, is_padding, base64_digit, base64, url_token}

module _ (p q : ℕ → Bool) where
  all-reverse_aux :
      (xs acc : Text) → all q xs ≡ true → all q acc ≡ true → all q (reverse_aux xs acc) ≡ true
  all-reverse_aux [] acc h k = k
  all-reverse_aux (x ∷ xs) acc h k = all-reverse_aux xs (x ∷ acc) (ground arith) (ground arith)

  any-reverse_aux :
      (xs acc : Text) → any q xs || any q acc ≡ true → any q (reverse_aux xs acc) ≡ true
  any-reverse_aux [] acc h = h
  any-reverse_aux (x ∷ xs) acc h = any-reverse_aux xs (x ∷ acc) (ground arith)

  length-reverse_aux : (xs acc : Text) → length (reverse_aux xs acc) ≡ length xs + length acc
  length-reverse_aux [] acc = omega arith
  length-reverse_aux (x ∷ xs) acc = omega (arith, length-reverse_aux xs (x ∷ acc))

  all-lstrip : (xs : Text) → all q xs ≡ true → all q (lstrip p xs) ≡ true
  unfolding lstrip
  all-lstrip [] h = h
  all-lstrip (x ∷ xs) h = ground (arith, all-lstrip xs)

  length-lstrip : (xs : Text) → length (lstrip p xs) ≤ length xs
  unfolding lstrip
  length-lstrip [] = omega arith
  length-lstrip (x ∷ xs) = ground (arith, length-lstrip xs)

module _ (p : ℕ → Bool) where
  -- What does not pass the test is not stripped.
  nonempty-lstrip :
      (xs : Text) → any (λ c. not (p c)) xs ≡ true → any (λ c. not (p c)) (lstrip p xs) ≡ true
  unfolding lstrip
  nonempty-lstrip [] h = h
  nonempty-lstrip (x ∷ xs) h = ground (arith, nonempty-lstrip xs)

  positive : (q : ℕ → Bool) (xs : Text) → any q xs ≡ true → 1 ≤ length xs
  positive q [] h = cc
  positive q (x ∷ xs) h = omega arith

  all-rstrip : (q : ℕ → Bool) (xs : Text) → all q xs ≡ true → all q (rstrip p xs) ≡ true
  unfolding rstrip
  all-rstrip q xs h =
      all-reverse_aux p q (lstrip p (reverse xs)) []
        (all-lstrip p q (reverse xs) (all-reverse_aux p q xs [] h refl)) refl

  length-rstrip : (xs : Text) → length (rstrip p xs) ≤ length xs
  unfolding rstrip
  length-rstrip xs = omega (
    arith,
    length-reverse_aux p p (lstrip p (reverse xs)) [],
    length-lstrip p p (reverse xs),
    length-reverse_aux p p xs [],
  )

  nonempty-rstrip : (xs : Text) → any (λ c. not (p c)) xs ≡ true → 1 ≤ length (rstrip p xs)
  unfolding rstrip
  nonempty-rstrip xs h = positive _ _ (
      any-reverse_aux p (λ c. not (p c)) (lstrip p (reverse xs)) []
        (ground (
          arith,
          nonempty-lstrip (reverse xs) (any-reverse_aux p (λ c. not (p c)) xs [] (ground arith)),
        )))

digit-ascii : (n : ℕ) → ltb (base64_digit b'-' b'_' n) 128 ≡ true
unfolding base64_digit
digit-ascii n = ground arith

digit-plain : (n : ℕ) → not (is_padding (base64_digit b'-' b'_' n)) ≡ true
unfolding base64_digit
digit-plain n = ground arith

base64-ascii : (v : Bytes) → isascii (base64 b'-' b'_' v) ≡ true
unfolding base64
base64-ascii [] = refl
base64-ascii (a ∷ []) = rw (digit-ascii (a / 4), digit-ascii (a % 4 * 16)) refl
base64-ascii (a ∷ b ∷ []) =
    rw (digit-ascii (a / 4), digit-ascii (a % 4 * 16 + b / 16), digit-ascii (b % 16 * 4)) refl
base64-ascii (a ∷ b ∷ c ∷ rest) =
    rw
      (
        digit-ascii (a / 4),
        digit-ascii (a % 4 * 16 + b / 16),
        digit-ascii (b % 16 * 4 + c / 64),
        digit-ascii (c % 64),
      )
      (base64-ascii rest)

length-base64 : (v : Bytes) → length (base64 b'-' b'_' v) ≤ 2 * length v + 2
unfolding base64
length-base64 [] = omega arith
length-base64 (a ∷ []) = omega arith
length-base64 (a ∷ b ∷ []) = omega arith
length-base64 (a ∷ b ∷ c ∷ rest) = omega (arith, length-base64 rest)

base64-nonempty :
    (v : Bytes) → 1 ≤ length v → any (λ c. not (is_padding c)) (base64 b'-' b'_' v) ≡ true
unfolding base64
base64-nonempty [] h = absurd (omega arith)
base64-nonempty (a ∷ []) h = rw (digit-plain (a / 4)) refl
base64-nonempty (a ∷ b ∷ []) h = rw (digit-plain (a / 4)) refl
base64-nonempty (a ∷ b ∷ c ∷ rest) h = rw (digit-plain (a / 4)) refl

-- The token of 1 to 63 bytes is a text of 1 to 128 ASCII characters, which is what
-- `SessionService.authenticate`, `PreAuthService.consume` and the subscription lookup ask for.
pub url_token-IsTokenText :
    (v : Bytes)
    → 1 ≤ length v
    → length v ≤ 63
    → length_within 1 128 (url_token v) && isascii (url_token v) ≡ true
unfolding url_token
url_token-IsTokenText v low high =
    rw (le→leb 1 _ low_end, le→leb _ 128 high_end)
      (all-rstrip is_padding (λ c. ltb c 128) (base64 b'-' b'_' v) (base64-ascii v))
  where
    low_end : 1 ≤ length (rstrip is_padding (base64 b'-' b'_' v))
    low_end = nonempty-rstrip is_padding (base64 b'-' b'_' v) (base64-nonempty v low)

    high_end : length (rstrip is_padding (base64 b'-' b'_' v)) ≤ 128
    high_end = omega (arith, length-rstrip is_padding (base64 b'-' b'_' v), length-base64 v)
