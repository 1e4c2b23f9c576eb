-- ===== src/Providers.antt =====
-- app/services/provider_factory.py: a provider for one tenant, from the tenant's credentials. The
-- decryption of app/core/crypto.py is a parameter; `none` stands for a token that it refuses.
use vip_channel_management_s.Prelude.{ℕ, Text, Option, none, some, codes}
use vip_channel_management_s.World.{Action, pure, raise, ◌>>=◌}
use vip_channel_management_s.Errors.{Error}
use vip_channel_management_s.Enums.{ProviderType}
use vip_channel_management_s.Repositories.{get_bot_config, get_named}
use vip_channel_management_s.Models.{ProviderCredential, TelegramBotConfig}

abbrev pub bitunix_api_key : Text
bitunix_api_key = codes "api_key"

abbrev pub bitunix_api_secret : Text
bitunix_api_secret = codes "api_secret"

abbrev pub telegram_bot_token : Text
telegram_bot_token = codes "bot_token"

pub record BitunixCredentials : Type 0 where
  pub api_key : Text
  pub api_secret : Text

module _ (decrypt : Text → Option Text) where
  -- `decrypt_secret`
  unfoldable pub decrypted : Option Text → Action Text
  decrypted none = raise Error.credential_encryption
  decrypted (some plain) = pure plain

  unfoldable pub opened : Option ProviderCredential → Action Text
  unfolding decrypted
  opened none = raise Error.missing_credential
  opened (some row) = decrypted (decrypt row.encrypted_secret)

  -- `_secret`
  unfoldable pub secret : ℕ → ProviderType → Text → Action Text
  unfolding opened
  secret tenant_id provider_type name = do row ← get_named tenant_id provider_type name; opened row

  unfoldable pub referral_provider : ℕ → ProviderType → Action BitunixCredentials
  unfolding secret
  referral_provider tenant_id ProviderType.bitunix = do
    api_key ← secret tenant_id ProviderType.bitunix bitunix_api_key
    api_secret ← secret tenant_id ProviderType.bitunix bitunix_api_secret
    pure (record { api_key = api_key; api_secret = api_secret })
  referral_provider tenant_id _ = raise Error.missing_credential

  unfoldable pub token_of : ℕ → Option TelegramBotConfig → Action Text
  unfolding secret
  token_of tenant_id none = raise Error.missing_credential
  token_of tenant_id (some config) = secret tenant_id ProviderType.telegram telegram_bot_token

  -- the token that the Telegram provider is built with
  unfoldable pub telegram : ℕ → Action Text
  unfolding token_of
  telegram tenant_id = do config ← get_bot_config tenant_id; token_of tenant_id config
