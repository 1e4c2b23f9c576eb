-- ===== src/Repositories/Keep.antt =====
-- The queries and writes of app/adapters/persistence/repositories.py keep to their session.
use vip_channel_management_s.Prelude.{ℕ, Bool, Text}
use vip_channel_management_s.Enums.{Market, ProviderType, MembershipStatus}
use vip_channel_management_s.Tables.Interface.{Table, IsTable}
use vip_channel_management_s.Tables.Laws.{
  users_table-IsTable, accounts_table-IsTable, subscriptions_table-IsTable,
  memberships_table-IsTable, snapshots_table-IsTable, configs_table-IsTable, channels_table-IsTable,
  bot_configs_table-IsTable, credentials_table-IsTable, executions_table-IsTable,
  payments_table-IsTable,
}
use vip_channel_management_s.Tables.Constraints.{
  IsConstrained, users_table-IsConstrained, accounts_table-IsConstrained,
  subscriptions_table-IsConstrained, memberships_table-IsConstrained, snapshots_table-IsConstrained,
  configs_table-IsConstrained, channels_table-IsConstrained, bot_configs_table-IsConstrained,
  credentials_table-IsConstrained, executions_table-IsConstrained, payments_table-IsConstrained,
}
use vip_channel_management_s.Session.Defs.{Keeps}
use vip_channel_management_s.Session.Rules.{session_rules, Keeps-flush_row}
use vip_channel_management_s.Repositories.{
  one_or_none, get_by_id, list_all, save, get_by_telegram_id, get_by_uid, list_for_user,
  get_active_for_user, get_for_user_and_channel, list_by_status, get_for_market, get_for, get_named,
  get_bot_config,
}

module _ {A : Type 0} {t : ℕ} (tbl : Table A) where
  pub Keeps-one_or_none : (test : A → Bool) → Keeps t (one_or_none tbl test)
  unfolding one_or_none
  Keeps-one_or_none test = search session_rules

  pub Keeps-get_by_id : (tenant_id id : ℕ) → Keeps t (get_by_id tbl tenant_id id)
  unfolding get_by_id
  Keeps-get_by_id tenant_id id = search session_rules

  pub Keeps-list_all : (tenant_id : ℕ) → Keeps t (list_all tbl tenant_id)
  unfolding list_all
  Keeps-list_all tenant_id = search session_rules

  pub Keeps-save :
      IsTable tbl → IsConstrained tbl → (tenant_id : ℕ) (a : A) → Keeps t (save tbl tenant_id a)
  unfolding save
  Keeps-save laws cons tenant_id a = Keeps-flush_row tbl laws cons (tbl.assign tenant_id a)

module _ {t : ℕ} where
  pub Keeps-get_by_telegram_id :
      (tenant_id telegram_user_id : ℕ) → Keeps t (get_by_telegram_id tenant_id telegram_user_id)
  unfolding get_by_telegram_id
  Keeps-get_by_telegram_id tenant_id telegram_user_id = search session_rules

  pub Keeps-get_by_uid :
      (tenant_id : ℕ) (p : ProviderType) (uid : Text) → Keeps t (get_by_uid tenant_id p uid)
  unfolding get_by_uid
  Keeps-get_by_uid tenant_id p uid = search session_rules

  pub Keeps-list_for_user : (tenant_id user_id : ℕ) → Keeps t (list_for_user tenant_id user_id)
  unfolding list_for_user
  Keeps-list_for_user tenant_id user_id = search session_rules

  pub Keeps-get_active_for_user :
      (tenant_id user_id : ℕ) (m : Market) → Keeps t (get_active_for_user tenant_id user_id m)
  unfolding get_active_for_user
  Keeps-get_active_for_user tenant_id user_id m = search session_rules

  pub Keeps-get_for_user_and_channel :
      (tenant_id user_id channel_id : ℕ)
      → Keeps t (get_for_user_and_channel tenant_id user_id channel_id)
  unfolding get_for_user_and_channel
  Keeps-get_for_user_and_channel tenant_id user_id channel_id = search session_rules

  pub Keeps-list_by_status :
      (tenant_id : ℕ) (statuses : MembershipStatus → Bool)
      → Keeps t (list_by_status tenant_id statuses)
  unfolding list_by_status
  Keeps-list_by_status tenant_id statuses = search session_rules

  pub Keeps-get_for_market : (tenant_id : ℕ) (m : Market) → Keeps t (get_for_market tenant_id m)
  unfolding get_for_market
  Keeps-get_for_market tenant_id m = search session_rules

  pub Keeps-get_for :
      (tenant_id : ℕ) (p : ProviderType) (m : Market) → Keeps t (get_for tenant_id p m)
  unfolding get_for
  Keeps-get_for tenant_id p m = search session_rules

  pub Keeps-get_named :
      (tenant_id : ℕ) (p : ProviderType) (name : Text) → Keeps t (get_named tenant_id p name)
  unfolding get_named
  Keeps-get_named tenant_id p name = search session_rules

  pub Keeps-get_bot_config : (tenant_id : ℕ) → Keeps t (get_bot_config tenant_id)
  unfolding get_bot_config
  Keeps-get_bot_config tenant_id = search session_rules

pub ruleset repository_rules = (
  session_rules, Keeps-one_or_none, Keeps-get_by_id, Keeps-list_all, Keeps-save, Keeps-flush_row,
  Keeps-get_by_telegram_id, Keeps-get_by_uid, Keeps-list_for_user, Keeps-get_active_for_user,
  Keeps-get_for_user_and_channel, Keeps-list_by_status, Keeps-get_for_market, Keeps-get_for,
  Keeps-get_named, Keeps-get_bot_config, users_table-IsTable, users_table-IsConstrained,
  accounts_table-IsTable, accounts_table-IsConstrained, subscriptions_table-IsTable,
  subscriptions_table-IsConstrained, memberships_table-IsTable, memberships_table-IsConstrained,
  snapshots_table-IsTable, snapshots_table-IsConstrained, configs_table-IsTable,
  configs_table-IsConstrained, channels_table-IsTable, channels_table-IsConstrained,
  bot_configs_table-IsTable, bot_configs_table-IsConstrained, credentials_table-IsTable,
  credentials_table-IsConstrained, executions_table-IsTable, executions_table-IsConstrained,
  payments_table-IsTable, payments_table-IsConstrained,
)
