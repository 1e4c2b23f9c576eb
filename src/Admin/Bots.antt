-- ===== src/Admin/Bots.antt =====
-- The bot of a tenant in app/adapters/web/routers/admin.py, and its webhook route. The cipher and the
-- random token of a new route are parameters. A bot of Telegram always has a user name.
use vip_channel_management_s.Admin.Schemas.{BotConfigResponse, fits, validated}
use vip_channel_management_s.Admin.Secrets.{store_secret}
use vip_channel_management_s.Models.{ProviderCredential, TelegramBotConfig, WebhookRoute}
use vip_channel_management_s.Providers.{telegram, telegram_bot_token}
use vip_channel_management_s.Repositories.{get_bot_config, save}
use vip_channel_management_s.Tables.{flush_row, scalar_one_or_none}
use vip_channel_management_s.Tables.Instances.{credentials_table, bot_configs_table}
use vip_channel_management_s.World.{
  Action, pure, catch, uuid4, utcnow, get_me, ask_telegram, ◌>>=◌, ◌>>◌,
}
use vip_channel_management_s.Errors.{
  Error, ok, err, is_provider_unavailable_error, is_missing_credential_error,
}
use vip_channel_management_s.Prelude.{
  ℕ, Text, Bool, codes, Option, ◌==◌, ◌||◌, if◌then◌else◌, any, ◌&&◌, some, ◌++◌, select, eq_text,
  take, none, ◌∷◌, [],
}
use vip_channel_management_s.Enums.{ProviderType}
use vip_channel_management_s.Time.{aware}

abbrev pub telegram_provider : Text
telegram_provider = codes "TELEGRAM"

abbrev pub is_route_of : ℕ → WebhookRoute → Bool
is_route_of tenant_id r = r.tenant_id == tenant_id && eq_text r.provider telegram_provider

-- The table of routes is not scoped to a tenant.
unfoldable pub route_of : ℕ → Action (Option WebhookRoute)
route_of tenant_id w = (scalar_one_or_none (select (is_route_of tenant_id) w.db.routes), w)

-- INSERT of a route: tokens are unique.
unfoldable pub add_route : WebhookRoute → Action Text
add_route route w =
    if any (λ r. eq_text r.token route.token) w.db.routes
    then (err Error.integrity_error, w)
    else (ok route.token, record w { db = record w.db { routes = w.db.routes ++ (route ∷ []) } })

abbrev pub webhook_prefix : Text
webhook_prefix = codes "/api/v1/telegram/"

-- `except (ProviderUnavailableError, MissingCredentialError)`
abbrev pub is_unverified : Error → Bool
is_unverified e = is_provider_unavailable_error e || is_missing_credential_error e

module _ (encrypt decrypt : Text → Option Text) (token_urlsafe : ℕ → Text) where
  unfoldable pub route_or_new : ℕ → Option WebhookRoute → Action Text
  unfolding add_route
  route_or_new tenant_id (some existing) = pure existing.token
  route_or_new tenant_id none = do
    id ← uuid4
    add_route (record {
      id = id;
      token = take 64 (token_urlsafe id);
      tenant_id = tenant_id;
      provider = telegram_provider;
    })

  unfoldable pub ensure_webhook_route : ℕ → Action Text
  unfolding route_of route_or_new
  ensure_webhook_route tenant_id = do existing ← route_of tenant_id; route_or_new tenant_id existing

  unfoldable pub bot_or_new : ℕ → ℕ → Option TelegramBotConfig → Action TelegramBotConfig
  bot_or_new tenant_id credential_id (some config) = pure config
  bot_or_new tenant_id credential_id none = do
    id ← uuid4
    save bot_configs_table tenant_id (record {
      id = id;
      tenant_id = tenant_id;
      credential_id = credential_id;
      bot_username = none;
      verified_at = none;
    })

  -- the user name and the moment of a call that went through
  unfoldable pub identified : ℕ → Action (Option (Text × ℕ))
  identified tenant_id =
      catch is_unverified
        (do
          telegram decrypt tenant_id
          username ← ask_telegram get_me
          now ← utcnow
          pure (some (username, now)))
        (pure none)

  abbrev pub verified_config : TelegramBotConfig → Option (Text × ℕ) → TelegramBotConfig
  verified_config config none = record config { bot_username = none; verified_at = none }
  verified_config config (some (username, now)) = record config {
    bot_username = some username;
    verified_at = some (aware now);
  }

  abbrev pub verified_credential : ProviderCredential → Option (Text × ℕ) → ProviderCredential
  verified_credential credential none = credential
  verified_credential credential (some (username, now)) = record credential {
    verified_at = some (aware now);
  }

  -- what follows the credential
  unfoldable pub install_bot : ℕ → ProviderCredential → Action BotConfigResponse
  unfolding bot_or_new ensure_webhook_route identified
  install_bot tenant_id credential = do
    found ← get_bot_config tenant_id
    config ← bot_or_new tenant_id credential.id found
    config ← flush_row bot_configs_table (record config { credential_id = credential.id })
    webhook_token ← ensure_webhook_route tenant_id
    identity ← identified tenant_id
    config ← flush_row bot_configs_table (verified_config config identity)
    flush_row credentials_table (verified_credential credential identity)
    pure (record {
      id = config.id;
      bot_username = config.bot_username;
      token_last_four = credential.last_four;
      verified_at = config.verified_at;
      webhook_path = webhook_prefix ++ webhook_token;
    })

  unfoldable pub upsert_bot : ℕ → Text → Action BotConfigResponse
  unfolding install_bot
  upsert_bot tenant_id bot_token = validated (fits 1 512 bot_token) (do
    credential ← store_secret encrypt tenant_id ProviderType.telegram telegram_bot_token bot_token
    install_bot tenant_id credential)
