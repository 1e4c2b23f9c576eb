-- ===== src/Tables/Instances.antt =====
-- The scoped tables of app/adapters/persistence/models, with their unique constraints.
use vip_channel_management_s.Prelude.{true, false, ◌&&◌, ◌||◌, ◌==◌, eq_text}
use vip_channel_management_s.Prelude.Int.{eq_ℤ}
use vip_channel_management_s.Enums.{eq_market, eq_provider}
use vip_channel_management_s.Models.{
  TelegramUser, ReferralAccount, Subscription, VipMembership, TradingActivitySnapshot,
  ReferralProgramConfig, TelegramChannel, TelegramBotConfig, ProviderCredential, JobExecution,
  PaymentRecordTable,
}
use vip_channel_management_s.Tables.Interface.{Table}

-- UNIQUE (tenant_id, telegram_user_id)
abbrev pub users_table : Table TelegramUser
users_table = record {
  rows = λ db. db.users;
  write = λ xs db. record db { users = xs };
  row_id = λ r. r.id;
  tenant = λ r. r.tenant_id;
  assign = λ t r. record r { tenant_id = t };
  same_key = λ a b. a.telegram_user_id == b.telegram_user_id;
}

-- UNIQUE (tenant_id, provider_type, uid)
abbrev pub accounts_table : Table ReferralAccount
accounts_table = record {
  rows = λ db. db.accounts;
  write = λ xs db. record db { accounts = xs };
  row_id = λ r. r.id;
  tenant = λ r. r.tenant_id;
  assign = λ t r. record r { tenant_id = t };
  same_key = λ a b. eq_provider a.provider_type b.provider_type && eq_text a.uid b.uid;
}

-- no constraint
abbrev pub subscriptions_table : Table Subscription
subscriptions_table = record {
  rows = λ db. db.subscriptions;
  write = λ xs db. record db { subscriptions = xs };
  row_id = λ r. r.id;
  tenant = λ r. r.tenant_id;
  assign = λ t r. record r { tenant_id = t };
  same_key = λ a b. false;
}

-- UNIQUE (tenant_id, user_id, channel_id)
abbrev pub memberships_table : Table VipMembership
memberships_table = record {
  rows = λ db. db.memberships;
  write = λ xs db. record db { memberships = xs };
  row_id = λ r. r.id;
  tenant = λ r. r.tenant_id;
  assign = λ t r. record r { tenant_id = t };
  same_key = λ a b. a.user_id == b.user_id && a.channel_id == b.channel_id;
}

-- UNIQUE (tenant_id, referral_account_id, period_start)
abbrev pub snapshots_table : Table TradingActivitySnapshot
snapshots_table = record {
  rows = λ db. db.snapshots;
  write = λ xs db. record db { snapshots = xs };
  row_id = λ r. r.id;
  tenant = λ r. r.tenant_id;
  assign = λ t r. record r { tenant_id = t };
  same_key =
      λ a b. a.referral_account_id == b.referral_account_id && a.period_start == b.period_start;
}

-- UNIQUE (tenant_id, provider_type, market)
abbrev pub configs_table : Table ReferralProgramConfig
configs_table = record {
  rows = λ db. db.configs;
  write = λ xs db. record db { configs = xs };
  row_id = λ r. r.id;
  tenant = λ r. r.tenant_id;
  assign = λ t r. record r { tenant_id = t };
  same_key = λ a b. eq_provider a.provider_type b.provider_type && eq_market a.market b.market;
}

-- UNIQUE (tenant_id, market) and UNIQUE (tenant_id, chat_id)
abbrev pub channels_table : Table TelegramChannel
channels_table = record {
  rows = λ db. db.channels;
  write = λ xs db. record db { channels = xs };
  row_id = λ r. r.id;
  tenant = λ r. r.tenant_id;
  assign = λ t r. record r { tenant_id = t };
  same_key = λ a b. eq_market a.market b.market || eq_ℤ a.chat_id b.chat_id;
}

-- UNIQUE (tenant_id)
abbrev pub bot_configs_table : Table TelegramBotConfig
bot_configs_table = record {
  rows = λ db. db.bot_configs;
  write = λ xs db. record db { bot_configs = xs };
  row_id = λ r. r.id;
  tenant = λ r. r.tenant_id;
  assign = λ t r. record r { tenant_id = t };
  same_key = λ a b. true;
}

-- UNIQUE (tenant_id, provider_type, credential_name)
abbrev pub credentials_table : Table ProviderCredential
credentials_table = record {
  rows = λ db. db.credentials;
  write = λ xs db. record db { credentials = xs };
  row_id = λ r. r.id;
  tenant = λ r. r.tenant_id;
  assign = λ t r. record r { tenant_id = t };
  same_key = λ a b.
      eq_provider a.provider_type b.provider_type && eq_text a.credential_name b.credential_name;
}

-- UNIQUE (tenant_id, job_name, period_start)
abbrev pub executions_table : Table JobExecution
executions_table = record {
  rows = λ db. db.executions;
  write = λ xs db. record db { executions = xs };
  row_id = λ r. r.id;
  tenant = λ r. r.tenant_id;
  assign = λ t r. record r { tenant_id = t };
  same_key = λ a b. eq_text a.job_name b.job_name && a.period_start == b.period_start;
}

-- no constraint
abbrev pub payments_table : Table PaymentRecordTable
payments_table = record {
  rows = λ db. db.payments;
  write = λ xs db. record db { payments = xs };
  row_id = λ r. r.id;
  tenant = λ r. r.tenant_id;
  assign = λ t r. record r { tenant_id = t };
  same_key = λ a b. false;
}
