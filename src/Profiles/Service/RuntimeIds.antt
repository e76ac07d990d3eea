-- ===== src/Profiles/Service/RuntimeIds.antt =====
-- `_runtime_id` of profiles/service.py and the pattern of integrations/xray.py.
use ez_open_pn.Prelude.{
  ℕ, ◌+◌, ◌*◌, ◌/◌, ◌%◌, ◌<◌, ◌≡◌, refl, Bool, true, [], ◌∷◌, Bytes, Text, length, all, All, take,
  zero, suc, ◌++◌, ◌≤◌, arith,
}
use ez_open_pn.Encoding.{base32_digit, base32_group, b32_lower}
use ez_open_pn.Integrations.Xray.{is_base32, is_runtime_id}
use ez_open_pn.Profiles.Service.{runtime_id}

digit-base32 : (n : ℕ) → n < 32 → is_base32 (base32_digit n) ≡ true
unfolding base32_digit
digit-base32 n h = ground arith

group-base32 :
    (a b c d e : ℕ)
    → a < 256
    → b < 256
    → c < 256
    → d < 256
    → e < 256
    → all is_base32 (base32_group a b c d e) ≡ true
unfolding base32_group
group-base32 a b c d e ha hb hc hd he =
    rw
      (
        digit-base32 (a / 8) (omega arith),
        digit-base32 (a % 8 * 4 + b / 64) (omega arith),
        digit-base32 (b % 64 / 2) (omega arith),
        digit-base32 (b % 2 * 16 + c / 16) (omega arith),
        digit-base32 (c % 16 * 2 + d / 128) (omega arith),
        digit-base32 (d % 128 / 4) (omega arith),
        digit-base32 (d % 4 * 8 + e / 32) (omega arith),
        digit-base32 (e % 32) (omega arith),
      )
      refl

all-take : (p : ℕ → Bool) (n : ℕ) (xs : Text) → all p xs ≡ true → all p (take n xs) ≡ true
all-take p zero xs h = refl
all-take p (suc n) [] h = refl
all-take p (suc n) (x ∷ xs) h = ground (arith, all-take p n xs)

length-take : (n : ℕ) (xs : Text) → n ≤ length xs → length (take n xs) ≡ n
length-take zero xs h = refl
length-take (suc n) [] h = omega arith
length-take (suc n) (x ∷ xs) h = omega (arith, length-take n xs (omega arith))

all-append :
    (p : ℕ → Bool) (xs ys : Text) → all p xs ≡ true → all p ys ≡ true → all p (xs ++ ys) ≡ true
all-append p [] ys h k = k
all-append p (x ∷ xs) ys h k = ground (arith, all-append p xs ys)

abbrev pub AreBytes : Bytes → Type 0
AreBytes = All (λ (b : ℕ). b < 256)

b32_lower-base32 : (v : Bytes) → AreBytes v → all is_base32 (b32_lower v) ≡ true
unfolding b32_lower
b32_lower-base32 [] h = refl
b32_lower-base32 (a ∷ []) h =
    all-take is_base32 2 (base32_group a 0 0 0 0)
      (group-base32 a 0 0 0 0 h.0 (omega arith) (omega arith) (omega arith) (omega arith))
b32_lower-base32 (a ∷ b ∷ []) h =
    all-take is_base32 4 (base32_group a b 0 0 0)
      (group-base32 a b 0 0 0 h.0 h.1.0 (omega arith) (omega arith) (omega arith))
b32_lower-base32 (a ∷ b ∷ c ∷ []) h =
    all-take is_base32 5 (base32_group a b c 0 0)
      (group-base32 a b c 0 0 h.0 h.1.0 h.1.1.0 (omega arith) (omega arith))
b32_lower-base32 (a ∷ b ∷ c ∷ d ∷ []) h =
    all-take is_base32 7 (base32_group a b c d 0)
      (group-base32 a b c d 0 h.0 h.1.0 h.1.1.0 h.1.1.1.0 (omega arith))
b32_lower-base32 (a ∷ b ∷ c ∷ d ∷ e ∷ rest) h =
    all-append is_base32 (base32_group a b c d e) (b32_lower rest)
      (group-base32 a b c d e h.0 h.1.0 h.1.1.0 h.1.1.1.0 h.1.1.1.1.0)
      (b32_lower-base32 rest (h.1.1.1.1.1))

length-b32_lower : (v : Bytes) → 8 * length v ≤ 5 * length (b32_lower v)
unfolding b32_lower base32_group
length-b32_lower [] = omega arith
length-b32_lower (a ∷ []) = omega arith
length-b32_lower (a ∷ b ∷ []) = omega arith
length-b32_lower (a ∷ b ∷ c ∷ []) = omega arith
length-b32_lower (a ∷ b ∷ c ∷ d ∷ []) = omega arith
length-b32_lower (a ∷ b ∷ c ∷ d ∷ e ∷ rest) = omega (arith, length-b32_lower rest)

-- The runtime identifier that the service makes of 17 random bytes matches the pattern that the Xray
-- client asks of every identifier, and has the 28 characters that the tables ask for.
pub runtime_id-IsRuntimeId :
    (value : Bytes)
    → AreBytes value
    → length value ≡ 17
    → (is_runtime_id (runtime_id value) ≡ true) × (length (runtime_id value) ≡ 28)
unfolding runtime_id is_runtime_id
runtime_id-IsRuntimeId value bytes size = (
  rw (count) (all-take is_base32 26 (b32_lower value) (b32_lower-base32 value bytes)),
  omega (arith, count),
)
  where
    count : length (take 26 (b32_lower value)) ≡ 26
    count = length-take 26 (b32_lower value) (omega (arith, length-b32_lower value))
