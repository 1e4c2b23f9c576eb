-- ===== src/Errors.antt =====
-- The exceptions that the modelled code raises or lets through, and the result of a call that may
-- raise: those of app/application/exceptions.py and app/services/provider_factory.py, and of the
-- database and the language the ones that the paths below can meet.
use vip_channel_management_s.Prelude.{◌⊎◌, inl, inr, refl, ◌≡◌, ℕ, Bool, true, false}

pub data Error : Type 0 where
  provider_unavailable missing_credential credential_encryption : Error
  multiple_results_found integrity_error row_security : Error
  attribute_error invalid_operation assertion_error : Error
  entity_not_found domain_error : Error
  index_error key_error value_error type_error runtime_error : Error
  http_error : ℕ → Error

pub data Result {ℓ} (A : Type ℓ) : Type ℓ where
  ok : A → Result A
  err : Error → Result A

-- `except ProviderUnavailableError`
abbrev pub is_provider_unavailable_error : Error → Bool
is_provider_unavailable_error Error.provider_unavailable = true
is_provider_unavailable_error _ = false

-- `except MissingCredentialError`
abbrev pub is_missing_credential_error : Error → Bool
is_missing_credential_error Error.missing_credential = true
is_missing_credential_error _ = false

infixl 5 ◌>>=◌
abbrev pub ◌>>=◌ : {A B : Type 0} → Result A → (A → Result B) → Result B
ok a >>= k = k a
err e >>= k = err e

pub ok-inj : {A : Type 0} {a b : A} → ok a ≡ ok b → a ≡ b
ok-inj {A} {a} {b} h = cc

pub Result-cases :
    {A : Type 0} (r : Result A) → ((e : Error) × (r ≡ err e)) ⊎ ((a : A) × (r ≡ ok a))
Result-cases (ok a) = inr (a, refl)
Result-cases (err e) = inl (e, refl)
