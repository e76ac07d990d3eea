-- ===== src/Errors.antt =====
-- The exceptions of the control plane (control/src/ezopenpn) and of the installer, one constructor for each class that
-- the modelled code raises or catches.
use ez_open_pn.Prelude.{◌≡◌, refl, Bool, true, false}

pub data Exn : Type 0 where
  -- Python and third-party libraries.
  value_error key_error overflow_error crypto_error unicode_error : Exn
  -- sqlalchemy.exc: a failed statement or commit, a violated constraint, `one_or_none` on two rows.
  operational_error integrity_error multiple_results_found : Exn
  -- profiles/repository.py, profiles/service.py, profiles/links.py.
  profile_not_found profile_conflict invalid_profile_transition : Exn
  invalid_profile_name profile_links_unavailable : Exn
  -- profiles/coordinator.py.
  profile_provisioning_failed profile_revocation_failed : Exn
  profile_enable_failed profile_delete_failed profile_material_unavailable : Exn
  -- integrations/xray.py, integrations/hysteria.py, integrations/supervisor.py.
  runtime_unavailable runtime_rejected invalid_runtime_identifier : Exn
  hysteria_runtime_unavailable invalid_hysteria_runtime_identifier supervisor_unavailable : Exn
  -- security/admin.py, security/sessions.py.
  admin_already_exists admin_not_initialized invalid_admin_input session_admin_not_found : Exn
  -- installer/backup_archive.py, and what Python's `os` and `tarfile` raise there.
  archive_error os_error tar_error type_error : Exn
  -- No exception of the program: a loop of the model used up its fuel.
  out_of_fuel : Exn

pub data Result {ℓ} (A : Type ℓ) : Type ℓ where
  ok : A → Result A
  err : Exn → Result A

-- `if not condition: raise e`.
abbrev pub require : Bool → Exn → Result (Unit {0})
require false e = err e
require true e = ok tt

infixl 10 ◌>>=◌ ◌>>◌
-- A statement whose value the next ones use, unless it raises; and one without a value.
abbrev pub ◌>>=◌ {ℓ κ} : {A : Type ℓ} {B : Type κ} → Result A → (A → Result B) → Result B
err raised >>= next = err raised
ok value >>= next = next value

abbrev pub ◌>>◌ {ℓ} : {B : Type ℓ} → Result (Unit {0}) → Result B → Result B
first >> rest = first >>= λ done. rest

-- `try: m` with `except … as e: h e`, where nothing but the result is at stake.
abbrev pub catch {ℓ} : {A : Type ℓ} → Result A → (Exn → Result A) → Result A
catch (ok a) h = ok a
catch (err e) h = h e

-- What a chain of statements that returned says of its parts.
pub >>=-eq-ok {ℓ κ} :
    {A : Type ℓ} {B : Type κ} (first : Result A) (next : A → Result B) {last : B}
    → (first >>= next) ≡ ok last
    → (middle : A) × (first ≡ ok middle) × (next middle ≡ ok last)
>>=-eq-ok (err e) next returned = cc
>>=-eq-ok (ok middle) next returned = (middle, refl, returned)

pub require-eq-ok {ℓ} :
    {B : Type ℓ} (b : Bool) (e : Exn) (rest : Result B) {r : B}
    → (require b e >> rest) ≡ ok r
    → (b ≡ true) × (rest ≡ ok r)
require-eq-ok true e rest h = (refl, h)
require-eq-ok false e rest h = cc
