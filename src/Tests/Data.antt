-- ===== src/Tests/Data.antt =====
-- The rows and worlds of the tests.
use vip_channel_management_s.Prelude.{refl}
use vip_channel_management_s.Prelude.{ℕ, Text, Option, none, some, [], ◌∷◌, codes, true}
use vip_channel_management_s.Models.{
  Db, VipMembership, TelegramChannel, WebhookRoute, ReferralProgramConfig, ReferralAccount,
  TelegramBotConfig, Tenant, TelegramUser, ProviderCredential,
}
use vip_channel_management_s.Eligibility.{ReferralCheck, ReferralRules}
use vip_channel_management_s.Monitor.Report.{Pass, Settings}
use vip_channel_management_s.Onboarding.Rows.{Names}
use vip_channel_management_s.Enums.{
  ProviderType, Market, MembershipStatus, ReferralAccountStatus, ComplianceState,
}
use vip_channel_management_s.Bot.Flow.{IncomingUpdate}
use vip_channel_management_s.World.{Outside, World}
use vip_channel_management_s.Tables.Constraints.{AllKeyed}
use vip_channel_management_s.Compliance.{default_policy}
use vip_channel_management_s.Time.{aware}
use vip_channel_management_s.Prelude.Int.{pos, negsuc}
use vip_channel_management_s.Errors.{err, ok, Error}

abbrev pub rules : ReferralRules
rules = record {
  minimum_balance = pos 30000000000;
  minimum_trades_per_period = 1;
  trade_period_days = 7;
}

abbrev pub funded : ReferralCheck
funded = record {
  uid = codes "123456789";
  registered = true;
  deposit_total = pos 50000000000;
  qualifying_trades = none;
}

abbrev pub poor : ReferralCheck
poor = record funded { deposit_total = pos 10000000000 }

abbrev pub user : TelegramUser
user = record {
  id = 10;
  tenant_id = 1;
  telegram_user_id = 55;
  pending_market = some Market.crypto;
  username = none;
  first_name = some (codes "Sara");
}

abbrev pub config : ReferralProgramConfig
config = record {
  id = 20;
  tenant_id = 1;
  provider_type = ProviderType.bitunix;
  market = Market.crypto;
  referral_link = codes "https://ref";
  ib_id = none;
  minimum_balance = pos 30000000000;
  minimum_trades_per_period = 1;
  trade_period_days = 7;
  compliance_grace_period_days = 7;
  is_active = true;
}

abbrev pub channel : TelegramChannel
channel = record {
  id = 30;
  tenant_id = 1;
  market = Market.crypto;
  chat_id = negsuc 1000;
  title = none;
  is_active = true;
}

abbrev pub account : ReferralAccount
account = record {
  id = 40;
  tenant_id = 1;
  user_id = 10;
  provider_type = ProviderType.bitunix;
  market = Market.crypto;
  uid = codes "123456789";
  status = ReferralAccountStatus.verified;
  compliance_state = ComplianceState.compliant;
  last_known_balance = none;
  last_checked_at = none;
  verified_at = none;
  rejection_reason = none;
}

abbrev pub membership : VipMembership
membership = record {
  id = 50;
  tenant_id = 1;
  created_at = aware 0;
  user_id = 10;
  channel_id = 30;
  subscription_id = none;
  status = MembershipStatus.active;
  invite_link = none;
  invite_issued_at = none;
  joined_at = none;
  revoked_at = none;
  revocation_reason = none;
  warnings_sent = 0;
  last_warning_at = none;
}

abbrev pub tenant : Tenant
tenant = record { id = 1; slug = codes "vip"; is_active = true }

abbrev pub route : WebhookRoute
route = record { id = 60; token = codes "t"; tenant_id = 1; provider = codes "TELEGRAM" }

abbrev pub bot_config : TelegramBotConfig
bot_config = record {
  id = 70;
  tenant_id = 1;
  credential_id = 81;
  bot_username = none;
  verified_at = none;
}

abbrev pub credential : ℕ → ProviderType → Text → ProviderCredential
credential id provider_type name = record {
  id = id;
  tenant_id = 1;
  provider_type = provider_type;
  credential_name = name;
  encrypted_secret = codes "sealed";
  last_four = none;
  verified_at = none;
}

-- a tenant with a user, a program, a channel, and no member yet
abbrev pub db : Db
db = record {
  users = user ∷ [];
  accounts = [];
  subscriptions = [];
  memberships = [];
  snapshots = [];
  configs = config ∷ [];
  channels = channel ∷ [];
  bot_configs = bot_config ∷ [];
  credentials =
      credential 81 ProviderType.telegram (codes "bot_token")
      ∷ credential 82 ProviderType.bitunix (codes "api_key")
      ∷ credential 83 ProviderType.bitunix (codes "api_secret")
      ∷ [];
  executions = [];
  payments = [];
  routes = route ∷ [];
  tenants = tenant ∷ [];
}

-- the same tenant with a member
abbrev pub member_db : Db
member_db = record db { accounts = account ∷ []; memberships = membership ∷ [] }

-- Telegram answers, and so does the exchange.
abbrev pub answering : ReferralCheck → Outside
answering check = record {
  telegram = λ calls c. ok (codes "link");
  exchange = λ calls uid. ok check;
}

-- Neither answers.
abbrev pub silent : Outside
silent = record {
  telegram = λ calls c. err Error.provider_unavailable;
  exchange = λ calls uid. err Error.provider_unavailable;
}

-- 1970-02-10
abbrev pub world : Db → Outside → World
world db outside = record {
  db = db;
  bound = some 1;
  now = 3456000000000;
  next_id = 100;
  outside = outside;
  calls = [];
}

-- a decryption that opens every secret
abbrev pub decrypt : Text → Option Text
decrypt sealed = some (codes "plain")

abbrev pub settings : Settings
settings = record { policy = default_policy; period = 604800 }

abbrev pub pass : Pass
pass = record { tenant_id = 1; period_start = 3024000000000; moment = 3456000000000 }

abbrev pub update : IncomingUpdate
update = record {
  chat_id = pos 55;
  user_id = 55;
  text = some (codes "123 456 789");
  callback_data = none;
  username = none;
  first_name = some (codes "Sara");
}

abbrev pub names : Names
names = record { username = none; first_name = some (codes "Sara") }

pub AllKeyed-db : AllKeyed db
AllKeyed-db = record {
  users = (refl, tt);
  accounts = tt;
  subscriptions = tt;
  memberships = tt;
  snapshots = tt;
  configs = (refl, tt);
  channels = (refl, tt);
  bot_configs = (refl, tt);
  credentials = (refl, (refl, (refl, tt)));
  executions = tt;
  payments = tt;
}

pub AllKeyed-member_db : AllKeyed member_db
AllKeyed-member_db = record {
  users = (refl, tt);
  accounts = (refl, tt);
  subscriptions = tt;
  memberships = (refl, tt);
  snapshots = tt;
  configs = (refl, tt);
  channels = (refl, tt);
  bot_configs = (refl, tt);
  credentials = (refl, (refl, (refl, tt)));
  executions = tt;
  payments = tt;
}
