-- ===== src/Admin/Stored.antt =====
-- What the upserts of app/adapters/web/routers/admin.py leave to be read back.
use vip_channel_management_s.Admin.Secrets.{credential_response, store_secret, upsert_credential}
use vip_channel_management_s.Tables.Lookup.{flush_row-Written, one_or_none-flush_row}
use vip_channel_management_s.Enums.{ProviderType}
use vip_channel_management_s.Prelude.{ℕ, Text, Option, Bool, ◌≡◌, true, some, sym, ap, ◌∙◌, false}
use vip_channel_management_s.Repositories.{get_named}
use vip_channel_management_s.Models.{ProviderCredential}
use vip_channel_management_s.World.{◌>>=◌, World, pure, Action}
use vip_channel_management_s.Errors.{ok}
use vip_channel_management_s.Tables.Instances.{credentials_table}
use vip_channel_management_s.Tables.Constraints.{AllKeyed, credentials_table-IsConstrained}
use vip_channel_management_s.World.Bind.{bind_ok, bind_run}
use vip_channel_management_s.Admin.Schemas.{
  CredentialUpsertRequest, CredentialResponse, validated, is_credential_request,
}
use vip_channel_management_s.Providers.{secret, opened, decrypted}
use vip_channel_management_s.Tables.Laws.{credentials_table-IsTable}
use vip_channel_management_s.Admin.Sealed.{Kept, is_named, store_secret-Kept, is_named-key}

-- What the documentation of Fernet says of a key: it opens what it sealed.
abbrev pub Opens : (Text → Option Text) → (Text → Option Text) → Type 0
Opens encrypt decrypt = (s c : Text) → encrypt s ≡ some c → decrypt c ≡ some s

validated-ok :
    {A : Type 0} (valid : Bool) (m : Action A) (r : A) (w w' : World)
    → validated valid m w ≡ (ok r, w')
    → m w ≡ (ok r, w')
validated-ok true m r w w' h = h
validated-ok false m r w w' h = cc

Kept-found :
    (encrypt : Text → Option Text) (t : ℕ) (p : ProviderType) (name s : Text)
    (r : ProviderCredential) (w' : World)
    → Kept encrypt t p name s r w'
    → get_named t p name w' ≡ (ok (some r), w')
unfolding get_named
Kept-found encrypt t p name s r w' q =
    one_or_none-flush_row credentials_table credentials_table-IsTable
      credentials_table-IsConstrained t (is_named t p name) q.stores.row r q.stores.before w'
      q.stores.bound q.stores.keyed q.stores.named
      (λ x h. is_named-key t p name q.stores.row x q.stores.named h) q.stores.flushed

Kept-sealed :
    (encrypt decrypt : Text → Option Text) (t : ℕ) (p : ProviderType) (name s : Text)
    (r : ProviderCredential) (w' : World)
    → Opens encrypt decrypt
    → Kept encrypt t p name s r w'
    → decrypt r.encrypted_secret ≡ some s
Kept-sealed encrypt decrypt t p name s r w' o q =
    ap decrypt (
      ap (λ x. x.encrypted_secret)
        (sym
          (flush_row-Written credentials_table t q.stores.row r q.stores.before w' q.stores.bound
            q.stores.flushed).result)
      ∙ q.stores.sealed)
    ∙ o s q.ciphertext q.encrypted

Kept-secret :
    (encrypt decrypt : Text → Option Text) (t : ℕ) (p : ProviderType) (name s : Text)
    (r : ProviderCredential) (w' : World)
    → Opens encrypt decrypt
    → Kept encrypt t p name s r w'
    → secret decrypt t p name w' ≡ (ok s, w')
unfolding secret opened decrypted
Kept-secret encrypt decrypt t p name s r w' o q =
    bind_run (get_named t p name) (opened decrypt) w' (Kept-found encrypt t p name s r w' q)
    ∙ ap (λ x. decrypted decrypt x w') (Kept-sealed encrypt decrypt t p name s r w' o q)

-- In a session of tenant `t` on a database that meets the unique constraints: a secret that
-- `upsert_credential` stored is what the provider factory reads back under its name, for a cipher
-- that opens what it seals.
pub upsert_credential-secret :
    (encrypt decrypt : Text → Option Text) (t : ℕ) (payload : CredentialUpsertRequest)
    (r : CredentialResponse) (w w' : World)
    → Opens encrypt decrypt
    → w.bound ≡ some t
    → AllKeyed w.db
    → upsert_credential encrypt t payload w ≡ (ok r, w')
    → secret decrypt t payload.provider_type payload.credential_name w' ≡ (ok payload.secret, w')
unfolding upsert_credential
upsert_credential-secret encrypt decrypt t payload r w w' o b k h =
    let (row, u, e, g) =
      bind_ok (store_secret encrypt t payload.provider_type payload.credential_name payload.secret)
        (λ row. pure (credential_response row)) w
        (validated-ok (is_credential_request payload)
          (store_secret encrypt t payload.provider_type payload.credential_name payload.secret
            >>= λ row. pure (credential_response row))
          r w w' h) in
    let q : Kept encrypt t payload.provider_type payload.credential_name payload.secret row w' =
      store_secret-Kept encrypt t payload.provider_type payload.credential_name payload.secret row w
        w' b k (e ∙ (λ i. (ok row, ap (λ z. z.1) g i))) in
    Kept-secret encrypt decrypt t payload.provider_type payload.credential_name payload.secret row
      w' o q
