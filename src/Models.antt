-- ===== src/Models.antt =====
-- The tables of app/adapters/persistence/models: their rows and the database that holds them. An
-- identifier is a number. `created_at` is kept where the program reads it.
use vip_channel_management_s.Prelude.{ℕ, Bool, Option, List, Text}
use vip_channel_management_s.Prelude.Int.{ℤ}
use vip_channel_management_s.Time.{Datetime}
use vip_channel_management_s.Eligibility.{EligibilityReason}
use vip_channel_management_s.Errors.{Error}
use vip_channel_management_s.Enums.{
  Market, AccessType, SubscriptionStatus, MembershipStatus, ReferralAccountStatus, ComplianceState,
  ProviderType, JobRunState,
}

pub record Tenant : Type 0 where
  pub id : ℕ
  pub slug : Text
  pub is_active : Bool

pub record TelegramUser : Type 0 where
  pub id : ℕ
  pub tenant_id : ℕ
  pub telegram_user_id : ℕ
  pub pending_market : Option Market
  pub username : Option Text
  pub first_name : Option Text

-- The rejection reason is the text of a reason of the referral rule.
pub record ReferralAccount : Type 0 where
  pub id : ℕ
  pub tenant_id : ℕ
  pub user_id : ℕ
  pub provider_type : ProviderType
  pub market : Market
  pub uid : Text
  pub status : ReferralAccountStatus
  pub compliance_state : ComplianceState
  pub last_known_balance : Option ℤ
  pub last_checked_at : Option Datetime
  pub verified_at : Option Datetime
  pub rejection_reason : Option EligibilityReason

pub record Subscription : Type 0 where
  pub id : ℕ
  pub tenant_id : ℕ
  pub user_id : ℕ
  pub market : Market
  pub access_type : AccessType
  pub plan_code : Text
  pub status : SubscriptionStatus
  pub starts_at : Option Datetime
  pub ends_at : Option Datetime

pub record VipMembership : Type 0 where
  pub id : ℕ
  pub tenant_id : ℕ
  pub created_at : Datetime
  pub user_id : ℕ
  pub channel_id : ℕ
  pub subscription_id : Option ℕ
  pub status : MembershipStatus
  pub invite_link : Option Text
  pub invite_issued_at : Option Datetime
  pub joined_at : Option Datetime
  pub revoked_at : Option Datetime
  pub revocation_reason : Option EligibilityReason
  pub warnings_sent : ℕ
  pub last_warning_at : Option Datetime

pub record TradingActivitySnapshot : Type 0 where
  pub id : ℕ
  pub tenant_id : ℕ
  pub referral_account_id : ℕ
  pub period_start : ℕ
  pub period_end : ℕ
  pub qualifying_trades : ℕ
  pub balance : ℤ
  pub still_under_referral : Bool
  pub provider_state : ComplianceState

pub record ReferralProgramConfig : Type 0 where
  pub id : ℕ
  pub tenant_id : ℕ
  pub provider_type : ProviderType
  pub market : Market
  pub referral_link : Text
  pub ib_id : Option Text
  pub minimum_balance : ℤ
  pub minimum_trades_per_period : ℕ
  pub trade_period_days : ℕ
  pub compliance_grace_period_days : ℕ
  pub is_active : Bool

pub record TelegramChannel : Type 0 where
  pub id : ℕ
  pub tenant_id : ℕ
  pub market : Market
  pub chat_id : ℤ
  pub title : Option Text
  pub is_active : Bool

pub record TelegramBotConfig : Type 0 where
  pub id : ℕ
  pub tenant_id : ℕ
  pub credential_id : ℕ
  pub bot_username : Option Text
  pub verified_at : Option Datetime

pub record ProviderCredential : Type 0 where
  pub id : ℕ
  pub tenant_id : ℕ
  pub provider_type : ProviderType
  pub credential_name : Text
  pub encrypted_secret : Text
  pub last_four : Option Text
  pub verified_at : Option Datetime

pub record JobExecution : Type 0 where
  pub id : ℕ
  pub tenant_id : ℕ
  pub job_name : Text
  pub period_start : ℕ
  pub state : JobRunState
  pub started_at : Option Datetime
  pub finished_at : Option Datetime
  pub processed : ℕ
  pub warned : ℕ
  pub revoked : ℕ
  pub skipped_unavailable : ℕ
  pub error : Option Error

pub record WebhookRoute : Type 0 where
  pub id : ℕ
  pub token : Text
  pub tenant_id : ℕ
  pub provider : Text

-- Telegram routes and tenants are not scoped to a tenant; all else is.
pub record PaymentRecordTable : Type 0 where
  pub id : ℕ
  pub tenant_id : ℕ
  pub user_id : ℕ
  pub tx_hash : Text
  pub amount : ℤ
  pub currency : Text
  pub status : Text

pub record Db : Type 0 where
  pub users : List TelegramUser
  pub accounts : List ReferralAccount
  pub subscriptions : List Subscription
  pub memberships : List VipMembership
  pub snapshots : List TradingActivitySnapshot
  pub configs : List ReferralProgramConfig
  pub channels : List TelegramChannel
  pub bot_configs : List TelegramBotConfig
  pub credentials : List ProviderCredential
  pub executions : List JobExecution
  pub payments : List PaymentRecordTable
  pub routes : List WebhookRoute
  pub tenants : List Tenant
