-- ===== src/Admin/Keep.antt =====
-- The routes of app/adapters/web/routers/admin.py and webhooks.py that write scoped rows keep to
-- their tenant.
use vip_channel_management_s.Admin.Schemas.{
  CredentialUpsertRequest, ReferralConfigRequest, ChannelRequest,
}
use vip_channel_management_s.Admin.Secrets.{write_secret, store_secret, upsert_credential}
use vip_channel_management_s.Admin.Programs.{config_or_new, upsert_referral_config}
use vip_channel_management_s.Admin.Channels.{channel_or_new, upsert_channel}
use vip_channel_management_s.Repositories.Keep.{repository_rules}
use vip_channel_management_s.Session.Rules.{session_rules}
use vip_channel_management_s.Session.Defs.{Keeps, Isolated, Keeps-Isolated}
use vip_channel_management_s.Prelude.{Text, ℕ, Option, ◌≡◌, some, none}
use vip_channel_management_s.Enums.{ProviderType}
use vip_channel_management_s.Models.{ReferralProgramConfig, ProviderCredential, TelegramChannel}
use vip_channel_management_s.Payments.{
  PaymentIngestRequest, process_payment, ingest_payment_webhook,
}
use vip_channel_management_s.World.{World, Action, ◌>>◌, pure}
use vip_channel_management_s.Tables.Constraints.{AllKeyed}

-- The requests that write a row.
pub data Upsert : Type 0 where
  credential : CredentialUpsertRequest → Upsert
  program : ReferralConfigRequest → Upsert
  channel : ChannelRequest → Upsert
  payment : PaymentIngestRequest → Upsert

-- The route of a request, its response left out.
abbrev pub upsert : (encrypt : Text → Option Text) → ℕ → Upsert → Action (Unit {0})
upsert encrypt tenant_id (credential p) = do upsert_credential encrypt tenant_id p; pure tt
upsert encrypt tenant_id (program p) = do upsert_referral_config tenant_id p; pure tt
upsert encrypt tenant_id (channel p) = do upsert_channel tenant_id p; pure tt
upsert encrypt tenant_id (payment p) = do ingest_payment_webhook tenant_id p; pure tt

module _ {t : ℕ} where
  Keeps-write_secret :
      (tenant_id : ℕ) (p : ProviderType) (name ciphertext secret : Text)
      (existing : Option ProviderCredential)
      → Keeps t (write_secret tenant_id p name ciphertext secret existing)
  unfolding write_secret
  Keeps-write_secret tenant_id p name ciphertext secret none = search repository_rules
  Keeps-write_secret tenant_id p name ciphertext secret (some existing) = search repository_rules

  pub Keeps-store_secret :
      (encrypt : Text → Option Text) (tenant_id : ℕ) (p : ProviderType) (name secret : Text)
      → Keeps t (store_secret encrypt tenant_id p name secret)
  unfolding store_secret
  Keeps-store_secret encrypt tenant_id p name secret =
      search (repository_rules, Keeps-write_secret) depth 8

  Keeps-upsert_credential :
      (encrypt : Text → Option Text) (tenant_id : ℕ) (payload : CredentialUpsertRequest)
      → Keeps t (upsert_credential encrypt tenant_id payload)
  unfolding upsert_credential
  Keeps-upsert_credential encrypt tenant_id payload =
      search (repository_rules, Keeps-store_secret) depth 8

  Keeps-config_or_new :
      (tenant_id : ℕ) (payload : ReferralConfigRequest) (found : Option ReferralProgramConfig)
      → Keeps t (config_or_new tenant_id payload found)
  unfolding config_or_new
  Keeps-config_or_new tenant_id payload none = search repository_rules
  Keeps-config_or_new tenant_id payload (some config) = search repository_rules

  Keeps-upsert_referral_config :
      (tenant_id : ℕ) (payload : ReferralConfigRequest)
      → Keeps t (upsert_referral_config tenant_id payload)
  unfolding upsert_referral_config
  Keeps-upsert_referral_config tenant_id payload =
      search (repository_rules, Keeps-config_or_new) depth 10

  Keeps-channel_or_new :
      (tenant_id : ℕ) (payload : ChannelRequest) (found : Option TelegramChannel)
      → Keeps t (channel_or_new tenant_id payload found)
  unfolding channel_or_new
  Keeps-channel_or_new tenant_id payload none = search repository_rules
  Keeps-channel_or_new tenant_id payload (some known) = search repository_rules

  Keeps-upsert_channel :
      (tenant_id : ℕ) (payload : ChannelRequest) → Keeps t (upsert_channel tenant_id payload)
  unfolding upsert_channel
  Keeps-upsert_channel tenant_id payload = search (repository_rules, Keeps-channel_or_new) depth 10

  Keeps-ingest_payment_webhook :
      (tenant_id : ℕ) (payload : PaymentIngestRequest)
      → Keeps t (ingest_payment_webhook tenant_id payload)
  unfolding ingest_payment_webhook process_payment
  Keeps-ingest_payment_webhook tenant_id payload = search repository_rules depth 8

  pub Keeps-upsert :
      (encrypt : Text → Option Text) (tenant_id : ℕ) (request : Upsert)
      → Keeps t (upsert encrypt tenant_id request)
  Keeps-upsert encrypt tenant_id (credential p) = search (session_rules, Keeps-upsert_credential)
  Keeps-upsert encrypt tenant_id (program p) = search (session_rules, Keeps-upsert_referral_config)
  Keeps-upsert encrypt tenant_id (channel p) = search (session_rules, Keeps-upsert_channel)
  Keeps-upsert encrypt tenant_id (payment p) = search (session_rules, Keeps-ingest_payment_webhook)

-- In a session of tenant `t` on a database that meets the unique constraints, a request that stores
-- a credential, a referral program, a channel or a payment changes no row of another tenant and no unscoped
-- row, keeps the unique constraints, and only adds calls, whether it returns
-- or raises and whatever tenant the route is given.
pub upsert-Isolated :
    (encrypt : Text → Option Text) (t tenant_id : ℕ) (request : Upsert) (w : World)
    → w.bound ≡ some t
    → AllKeyed w.db
    → Isolated t w (upsert encrypt tenant_id request w).1
upsert-Isolated encrypt t tenant_id request w =
    Keeps-Isolated t (upsert encrypt tenant_id request) w (Keeps-upsert encrypt tenant_id request)
