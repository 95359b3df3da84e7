-- ===== src/Errors.antt =====
-- db_sanitizer/errors.py and the error classes of the other modules. An error stands for its
-- class: the messages, which are constants built from names of the policy, are not modelled.
use db_sanitizer.Base.{ℕ, ◌≡◌, ◌⊎◌, inl, inr, refl, Bool, true, false}

-- The last three are no `SanitizerError`: pydantic's `ValidationError`, the mapper's own
-- `MapperError`, and any other Python exception.
pub data Error : Type 0 where
  policy_error generation_error data_plane_error verification_error report_error : Error
  normalization_error hmac_key_error : Error
  registry_error registry_compatibility_error registry_conflict_error : Error
  validation_error mapper_error unexpected : Error

pub data Result {ℓ} (A : Type ℓ) : Type ℓ where
  ok : A → Result A
  err : Error → Result A

-- `isinstance(error, SanitizerError)`
unfoldable pub is_sanitizer_error : Error → Bool
is_sanitizer_error validation_error = false
is_sanitizer_error mapper_error = false
is_sanitizer_error unexpected = false
is_sanitizer_error _ = true

-- `error.exit_code`: each class's own code, or the default of `SanitizerError`.
unfoldable pub exit_code : Error → ℕ
exit_code policy_error = 2
exit_code generation_error = 3
exit_code data_plane_error = 4
exit_code verification_error = 5
exit_code report_error = 5
exit_code _ = 6

-- `isinstance(error, RegistryError)`
unfoldable pub is_registry_error : Error → Bool
is_registry_error registry_error = true
is_registry_error registry_compatibility_error = true
is_registry_error registry_conflict_error = true
is_registry_error _ = false

infixl 5 ◌>>=◌ ◌>>◌
abbrev pub ◌>>=◌ {ℓ κ} : {A : Type ℓ} {B : Type κ} → Result A → (A → Result B) → Result B
ok a >>= f = f a
err e >>= f = err e

abbrev pub ◌>>◌ {ℓ κ} : {A : Type ℓ} {B : Type κ} → Result A → Result B → Result B
m >> k = m >>= λ _. k

-- `if test: raise error`
abbrev pub raise_if : Bool → Error → Result (Unit {0})
raise_if true e = err e
raise_if false e = ok tt

pub Result-cases {ℓ} :
    {A : Type ℓ} (r : Result A) → ((a : A) × (r ≡ ok a)) ⊎ ((e : Error) × (r ≡ err e))
Result-cases (ok a) = inl (a, refl)
Result-cases (err e) = inr (e, refl)
