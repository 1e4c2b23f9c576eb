-- ===== src/Admin/Secrets.antt =====
-- The credentials of app/adapters/web/routers/admin.py, and `encrypt_secret` and `last_four` of
-- app/core/crypto.py. The cipher is a parameter; `none` stands for a key that is not set or is none.
use vip_channel_management_s.Admin.Schemas.{
  CredentialUpsertRequest, CredentialResponse, is_credential_request, validated,
}
use vip_channel_management_s.Models.{ProviderCredential}
use vip_channel_management_s.Repositories.{get_named, list_all, save}
use vip_channel_management_s.Tables.{flush_row}
use vip_channel_management_s.Tables.Instances.{credentials_table}
use vip_channel_management_s.World.{Action, pure, lift, uuid4, ◌>>=◌}
use vip_channel_management_s.Errors.{Error, Result, ok, err}
use vip_channel_management_s.Prelude.{
  ◌∷◌, ℕ, Text, List, if◌then◌else◌, some, Option, leb, map, none, length, drop, ◌-◌, [],
}
use vip_channel_management_s.Enums.{ProviderType}

-- `len(plaintext) >= 4`, and the text of the last four characters
unfoldable pub last_four : Text → Text
last_four plaintext = if leb 4 (length plaintext) then drop (length plaintext - 4) plaintext else []

unfoldable pub encrypt_secret : (encrypt : Text → Option Text) → Text → Result Text
encrypt_secret encrypt [] = err Error.credential_encryption
encrypt_secret encrypt (c ∷ cs) = elim (encrypt (c ∷ cs)) [
  | none ↦ err Error.credential_encryption
  | some ciphertext ↦ ok ciphertext
]

-- `except CredentialEncryptionError`, the one error of `encrypt_secret`: 503
abbrev pub service_unavailable : Result Text → Result Text
service_unavailable (ok ciphertext) = ok ciphertext
service_unavailable (err e) = err (Error.http_error 503)

abbrev pub rotated : ProviderCredential → Text → Text → ProviderCredential
rotated existing ciphertext secret = record existing {
  encrypted_secret = ciphertext;
  last_four = some (last_four secret);
  verified_at = none;
}

abbrev pub credential_row : ℕ → ℕ → ProviderType → Text → Text → Text → ProviderCredential
credential_row id tenant_id provider_type name ciphertext secret = record {
  id = id;
  tenant_id = tenant_id;
  provider_type = provider_type;
  credential_name = name;
  encrypted_secret = ciphertext;
  last_four = some (last_four secret);
  verified_at = none;
}

-- the row that is changed or inserted; both callers flush it at once
unfoldable pub write_secret :
    ℕ → ProviderType → Text → Text → Text → Option ProviderCredential → Action ProviderCredential
write_secret tenant_id provider_type name ciphertext secret (some existing) =
    flush_row credentials_table (rotated existing ciphertext secret)
write_secret tenant_id provider_type name ciphertext secret none = do
  id ← uuid4
  save credentials_table tenant_id
      (credential_row id tenant_id provider_type name ciphertext secret)

abbrev pub credential_response : ProviderCredential → CredentialResponse
credential_response r = record {
  id = r.id;
  provider_type = r.provider_type;
  credential_name = r.credential_name;
  last_four = r.last_four;
  verified_at = r.verified_at;
}

module _ (encrypt : Text → Option Text) where
  unfoldable pub store_secret : ℕ → ProviderType → Text → Text → Action ProviderCredential
  unfolding encrypt_secret write_secret
  store_secret tenant_id provider_type name secret = do
    existing ← get_named tenant_id provider_type name
    ciphertext ← lift (service_unavailable (encrypt_secret encrypt secret))
    write_secret tenant_id provider_type name ciphertext secret existing

  unfoldable pub upsert_credential : ℕ → CredentialUpsertRequest → Action CredentialResponse
  unfolding store_secret
  upsert_credential tenant_id payload = validated (is_credential_request payload) (do
    row ← store_secret tenant_id payload.provider_type payload.credential_name payload.secret
    pure (credential_response row))

unfoldable pub list_credentials : ℕ → Action (List CredentialResponse)
list_credentials tenant_id = do
  records ← list_all credentials_table tenant_id
  pure (map credential_response records)
