-- ===== src/Bot/Flow.antt =====
-- `BotConversation` of app/services/bot_conversation.py.
use vip_channel_management_s.Messages.{Message}
use vip_channel_management_s.Prelude.Int.{ℤ}
use vip_channel_management_s.Prelude.{
  ℕ, Bool, true, false, ◌&&◌, ◌==◌, Text, Option, none, some, List, [], ◌∷◌, codes, eq_text, any,
  select, if◌then◌else◌,
}
use vip_channel_management_s.World.{Action, pure, lift, ◌>>=◌, ◌>>◌, uuid4}
use vip_channel_management_s.Onboarding.Rows.{Names}
use vip_channel_management_s.Models.{ReferralProgramConfig, TelegramUser, TelegramChannel}
use vip_channel_management_s.Enums.{Market, ProviderType, eq_provider, eq_market}
use vip_channel_management_s.Repositories.{get_by_telegram_id, list_all, get_for, save}
use vip_channel_management_s.Bot.Render.{Reply, say, render}
use vip_channel_management_s.Uid.{normalize_uid, strip, isdigit, is_valid_bitunix_uid}
use vip_channel_management_s.Tables.Instances.{configs_table, channels_table, users_table}
use vip_channel_management_s.Onboarding.Flow.{submit_uid}
use vip_channel_management_s.Tables.{flush_row}

pub record IncomingUpdate : Type 0 where
  pub chat_id : ℤ
  pub user_id : ℕ
  pub text : Option Text
  pub callback_data : Option Text
  pub username : Option Text
  pub first_name : Option Text

abbrev pub market_callback_prefix : Text
market_callback_prefix = codes "market:"

-- the rest of a text after a prefix, if it starts with it
unfoldable pub after_prefix : Text → Text → Option Text
after_prefix [] s = some s
after_prefix (p ∷ ps) [] = none
after_prefix (p ∷ ps) (c ∷ cs) = let rest = after_prefix ps cs in if p == c then rest else none

abbrev pub starts_with : Text → Text → Bool
starts_with prefix s = elim (after_prefix prefix s) [ none ↦ false | some rest ↦ true ]

-- `Market(raw)`
unfoldable pub parse_market : Text → Option Market
parse_market raw =
    if eq_text raw (codes "CRYPTO")
    then some Market.crypto
    else if eq_text raw (codes "FOREX")
    then some Market.forex
    else none

abbrev pub or_empty : Option Text → Text
or_empty none = []
or_empty (some t) = t

abbrev pub is_set_up :
    ProviderType → List ReferralProgramConfig → List TelegramChannel → Market → Bool
is_set_up provider_type configs channels market =
    any
      (λ c. c.is_active && (eq_provider c.provider_type provider_type && eq_market c.market market))
      configs
    && any (λ c. c.is_active && eq_market c.market market) channels

-- `_available_markets`: the values of the two markets sort in this order.
unfoldable pub available_markets : ProviderType → ℕ → Action (List Market)
available_markets provider_type tenant_id = do
  configs ← list_all configs_table tenant_id
  channels ← list_all channels_table tenant_id
  pure (select (is_set_up provider_type configs channels) (Market.crypto ∷ Market.forex ∷ []))

-- `_ensure_user`, which leaves the names of a known user as they are
unfoldable pub found_user : ℕ → IncomingUpdate → Option TelegramUser → Action TelegramUser
found_user tenant_id update (some user) = pure user
found_user tenant_id update none = do
  id ← uuid4
  save users_table tenant_id (record {
    id = id;
    tenant_id = tenant_id;
    telegram_user_id = update.user_id;
    pending_market = none;
    username = update.username;
    first_name = update.first_name;
  })

unfoldable pub ensure_known : ℕ → IncomingUpdate → Action TelegramUser
ensure_known tenant_id update = do
  user ← get_by_telegram_id tenant_id update.user_id
  found_user tenant_id update user

unfoldable pub offer :
    ℕ → IncomingUpdate → Market → Option ReferralProgramConfig → Action (List Reply)
offer tenant_id update market none = pure (say Message.not_configured)
offer tenant_id update market (some config) =
    if config.is_active
    then (do
      user ← ensure_known tenant_id update
      flush_row users_table (record user { pending_market = some market })
      pure (say (Message.welcome (or_empty update.first_name) config.referral_link)))
    else pure (say Message.not_configured)

-- `_offer_referral_link`
unfoldable pub offer_referral_link :
    ProviderType → ℕ → IncomingUpdate → Market → Action (List Reply)
offer_referral_link provider_type tenant_id update market = do
  config ← get_for tenant_id provider_type market
  offer tenant_id update market config

unfoldable pub greet : ProviderType → ℕ → IncomingUpdate → List Market → Action (List Reply)
greet provider_type tenant_id update [] = pure (say Message.not_configured)
greet provider_type tenant_id update (market ∷ []) =
    offer_referral_link provider_type tenant_id update market
greet provider_type tenant_id update markets =
    pure (record { text = Message.choose_market; buttons = markets } ∷ [])

-- `_start`
unfoldable pub start : ProviderType → ℕ → IncomingUpdate → Action (List Reply)
start provider_type tenant_id update = do
  markets ← available_markets provider_type tenant_id
  greet provider_type tenant_id update markets

abbrev pub link_of : Option ReferralProgramConfig → Text
link_of none = []
link_of (some config) = config.referral_link

abbrev pub names_of : IncomingUpdate → Names
names_of update = record { username = update.username; first_name = update.first_name }

-- the end of `_handle_uid`, once the market is known
unfoldable pub submit : ProviderType → ℕ → IncomingUpdate → Text → Market → Action (List Reply)
submit provider_type tenant_id update uid market = do
  config ← get_for tenant_id provider_type market
  result ← submit_uid provider_type tenant_id update.user_id market uid (names_of update)
  message ← lift (render result (link_of config))
  pure (say message)

unfoldable pub submit_to_only :
    ProviderType → ℕ → IncomingUpdate → Text → List Market → Action (List Reply)
submit_to_only provider_type tenant_id update uid (market ∷ []) =
    submit provider_type tenant_id update uid market
submit_to_only provider_type tenant_id update uid _ = start provider_type tenant_id update

abbrev pub pending_of : Option TelegramUser → Option Market
pending_of none = none
pending_of (some user) = user.pending_market

unfoldable pub submit_to_pending :
    ProviderType → ℕ → IncomingUpdate → Text → Option Market → Action (List Reply)
submit_to_pending provider_type tenant_id update uid (some market) =
    submit provider_type tenant_id update uid market
submit_to_pending provider_type tenant_id update uid none = do
  available ← available_markets provider_type tenant_id
  submit_to_only provider_type tenant_id update uid available

-- `_handle_uid`
unfoldable pub handle_uid : ProviderType → ℕ → IncomingUpdate → Text → Action (List Reply)
handle_uid provider_type tenant_id update raw_text =
    let uid = normalize_uid (some raw_text) in
    if is_valid_bitunix_uid uid
    then (do
      user ← get_by_telegram_id tenant_id update.user_id
      submit_to_pending provider_type tenant_id update uid (pending_of user))
    else pure (say Message.invalid_uid)

unfoldable pub press : ProviderType → ℕ → IncomingUpdate → Option Market → Action (List Reply)
press provider_type tenant_id update none = pure (say Message.not_configured)
press provider_type tenant_id update (some market) =
    offer_referral_link provider_type tenant_id update market

unfoldable pub read : ProviderType → ℕ → IncomingUpdate → Action (List Reply)
read provider_type tenant_id update =
    let text = strip (or_empty update.text) in
    if starts_with (codes "/start") text
    then start provider_type tenant_id update
    else if isdigit (normalize_uid (some text))
    then handle_uid provider_type tenant_id update text
    else pure (say Message.ask_for_uid)

unfoldable pub dispatch : ProviderType → ℕ → IncomingUpdate → Option Text → Action (List Reply)
dispatch provider_type tenant_id update (some raw) =
    press provider_type tenant_id update (parse_market raw)
dispatch provider_type tenant_id update none = read provider_type tenant_id update

unfoldable pub handle : ProviderType → ℕ → IncomingUpdate → Action (List Reply)
handle provider_type tenant_id update =
    dispatch provider_type tenant_id update
      (after_prefix market_callback_prefix (or_empty update.callback_data))
