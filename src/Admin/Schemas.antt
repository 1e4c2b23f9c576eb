-- ===== src/Admin/Schemas.antt =====
-- app/adapters/web/schemas/admin_schemas.py: the requests, with the constraints on their fields, and
-- the responses. A number that a constraint keeps from being negative is a natural number.
use vip_channel_management_s.Prelude.{
  ℕ, Bool, true, false, not, ◌&&◌, Option, none, some, Text, List, [], ◌∷◌, length, leb,
  if◌then◌else◌,
}
use vip_channel_management_s.Prelude.Int.{ℤ, pos, ltb_ℤ}
use vip_channel_management_s.Time.{Datetime}
use vip_channel_management_s.Enums.{Market, ProviderType}
use vip_channel_management_s.Errors.{Error}
use vip_channel_management_s.World.{Action, raise}

pub record CredentialUpsertRequest : Type 0 where
  pub provider_type : ProviderType
  pub credential_name : Text
  pub secret : Text

pub record CredentialResponse : Type 0 where
  pub id : ℕ
  pub provider_type : ProviderType
  pub credential_name : Text
  pub last_four : Option Text
  pub verified_at : Option Datetime

pub record ReferralConfigRequest : Type 0 where
  pub provider_type : ProviderType
  pub market : Market
  pub referral_link : Text
  pub ib_id : Option Text
  pub minimum_balance : ℤ
  pub minimum_trades_per_period : ℕ
  pub trade_period_days : ℕ
  pub compliance_grace_period_days : ℕ
  pub is_active : Bool

pub record ReferralConfigResponse : Type 0 where
  pub id : ℕ
  pub provider_type : ProviderType
  pub market : Market
  pub referral_link : Text
  pub ib_id : Option Text
  pub minimum_balance : ℤ
  pub minimum_trades_per_period : ℕ
  pub trade_period_days : ℕ
  pub compliance_grace_period_days : ℕ
  pub is_active : Bool

pub record ChannelRequest : Type 0 where
  pub market : Market
  pub chat_id : ℤ
  pub title : Option Text
  pub is_active : Bool

pub record ChannelResponse : Type 0 where
  pub id : ℕ
  pub market : Market
  pub chat_id : ℤ
  pub title : Option Text
  pub is_active : Bool

pub record BotConfigResponse : Type 0 where
  pub id : ℕ
  pub bot_username : Option Text
  pub token_last_four : Option Text
  pub verified_at : Option Datetime
  pub webhook_path : Text

-- one for each message of `problems`
pub data Problem : Type 0 where
  bot_token_missing telegram_rejected referral_credential_missing no_active_channel : Problem
  no_program : Market → Problem

pub record IntegrationCheckResponse : Type 0 where
  pub bot_ok : Bool
  pub bot_username : Option Text
  pub referral_ok : Bool
  pub channels_checked : List Market
  pub problems : List Problem

-- `IntegrationCheckResponse.ready`
abbrev pub ready : IntegrationCheckResponse → Bool
ready r = r.bot_ok && (r.referral_ok && elim r.problems [ [] ↦ true | p ∷ ps ↦ false ])

-- `Field(min_length=low, max_length=high)`
abbrev pub fits : ℕ → ℕ → Text → Bool
fits low high text = leb low (length text) && leb (length text) high

abbrev pub fits_if : ℕ → Option Text → Bool
fits_if high none = true
fits_if high (some text) = leb (length text) high

abbrev pub is_credential_request : CredentialUpsertRequest → Bool
is_credential_request p = fits 1 100 p.credential_name && fits 1 2048 p.secret

abbrev pub is_referral_request : ReferralConfigRequest → Bool
is_referral_request p =
    fits 1 500 p.referral_link
    && (fits_if 100 p.ib_id && (not (ltb_ℤ p.minimum_balance (pos 0)) && leb 1 p.trade_period_days))

abbrev pub is_channel_request : ChannelRequest → Bool
is_channel_request p = fits_if 255 p.title

-- A request that breaks a constraint is answered with 422 and does not reach its handler.
abbrev pub validated : {A : Type 0} → Bool → Action A → Action A
validated valid handler = if valid then handler else raise (Error.http_error 422)
