-- ===== src/Security/Secrets/RoundTrip.antt =====
-- security/secrets.py: what is encrypted is read back.
use ez_open_pn.Prelude.{
  ℕ, ◌≤◌, ◌≡◌, refl, true, false, some, ◌∷◌, ◌++◌, Bytes, codes, length, ltb, ◌==◌, arith,
  Bool-cases, inl, inr, length-append,
}
use ez_open_pn.Errors.{ok}
use ez_open_pn.World.{Crypto}
use ez_open_pn.Security.Secrets.{
  require_key, encrypt, decrypt, wrap_key, wrap_profile_key, unwrap_profile_key,
}

module _ (c : Crypto)
    (opens : (nonce key value context : Bytes)
      → c.decrypt key (c.seal nonce key value context) context ≡ some value)
    (sealed : (nonce key value context : Bytes)
      → 40 ≤ length (c.seal nonce key value context)) where
  decrypt-sealed :
      (nonce key value context : Bytes)
      → length key ≡ 32
      → 1 ≤ length context
      → decrypt c key (1 ∷ c.seal nonce key value context) context ≡ ok value
  unfolding decrypt require_key
  decrypt-sealed nonce key value context size named =
      rw (size, filled, long, opens nonce key value context) refl
    where
      filled : (length context == 0) ≡ false
      filled = ground arith

      long : ltb (length (1 ∷ c.seal nonce key value context)) 41 ≡ false
      long = ground (arith, sealed nonce key value context)

ok_inj : {a b : Bytes} → ok a ≡ ok b → a ≡ b
ok_inj h = cc

-- A profile key that was wrapped for a profile is unwrapped for that profile, if the AEAD opens what it
-- seals, a sealed text has at least its nonce and its tag, and an HMAC has 32 bytes.
pub unwrap-wrap :
    (c : Crypto) (master_key nonce profile_id key wrapped : Bytes)
    → ((nonce key value context : Bytes)
        → c.decrypt key (c.seal nonce key value context) context ≡ some value)
    → ((nonce key value context : Bytes) → 40 ≤ length (c.seal nonce key value context))
    → ((key value : Bytes) → length (c.hmac_sha256 key value) ≡ 32)
    → wrap_profile_key c master_key nonce profile_id key ≡ ok wrapped
    → unwrap_profile_key c master_key profile_id wrapped ≡ ok key
unfolding wrap_profile_key unwrap_profile_key encrypt wrap_key require_key
unwrap-wrap c master_key nonce profile_id key wrapped opens sealed hmac h =
    elim (Bool-cases (length key == 32)) [
      | inr e ↦ absurd (refused e)
      | inl e ↦
          rw
            (
              ← wrapped_is e,
              decrypt-sealed c opens sealed nonce
                  (c.hmac_sha256 master_key (codes "ezopenpn/wrap/v1")) key
                  (codes "ezopenpn/profile-key/v1:" ++ profile_id) (hmac _ _) named,
              e,
            )
            refl
    ]
  where
    named : 1 ≤ length (codes "ezopenpn/profile-key/v1:" ++ profile_id)
    named = omega (arith, length-append (codes "ezopenpn/profile-key/v1:") profile_id)

    positive : (n : ℕ) → 1 ≤ n → (n == 0) ≡ false
    positive n k = ground arith

    filled : (length (codes "ezopenpn/profile-key/v1:" ++ profile_id) == 0) ≡ false
    filled = positive (length (codes "ezopenpn/profile-key/v1:" ++ profile_id)) named

    refused : (length key == 32) ≡ false → ⊥
    refused e = let k = (rw e at h) in cc

    size : (length (c.hmac_sha256 master_key (codes "ezopenpn/wrap/v1")) == 32) ≡ true
    size = rw (hmac master_key (codes "ezopenpn/wrap/v1")) refl

    wrapped_is :
        (length key == 32) ≡ true
        → 1
            ∷ c.seal nonce
                (c.hmac_sha256 master_key (codes "ezopenpn/wrap/v1"))
                key
                (codes "ezopenpn/profile-key/v1:" ++ profile_id)
          ≡ wrapped
    wrapped_is e = ok_inj (rw (e, size, filled) at h)
