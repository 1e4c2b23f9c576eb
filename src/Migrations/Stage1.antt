-- ===== src/Migrations/Stage1.antt =====
-- migrations/versions/0003_stage1_referral_membership.py: the tables of the first stage.
pub mod Referral
pub mod Membership
use vip_channel_management_s.Prelude.{
  true, false, none, some, List, [], ◌∷◌, codes, Bool, ◌++◌, if◌then◌else◌, Text,
}
use vip_channel_management_s.Migrations.{
  Operation, create_table, create_index, drop_table, drop_index, add_column, drop_column,
  alter_column, enable_row_security, force_row_security, create_policy, drop_policy_if_exists,
  no_force_row_security, disable_row_security, uuid, big_integer, integer, boolean, timestamp,
  string, numeric, Column, ColumnType,
}
use vip_channel_management_s.Migrations.Columns.{
  column, unique_constraint, provider_type_enum, market_enum, referral_account_status_enum,
  compliance_state_enum, access_type_enum, subscription_status_enum, membership_status_enum,
  job_run_state_enum,
}
use vip_channel_management_s.Migrations.Policies.{enable_policies, disable_policies}
use vip_channel_management_s.Migrations.Stage1.Referral.{
  create_provider_credentials, create_referral_accounts, create_referral_program_configs,
  create_subscriptions, create_telegram_bot_configs,
}
use vip_channel_management_s.Migrations.Stage1.Membership.{
  create_telegram_channels, create_telegram_users, create_tenants,
  create_trading_activity_snapshots, create_vip_memberships,
}

abbrev pub new_tenant_scoped_tables : List Text
new_tenant_scoped_tables =
    codes "provider_credentials"
    ∷ codes "referral_accounts"
    ∷ codes "referral_program_configs"
    ∷ codes "subscriptions"
    ∷ codes "telegram_bot_configs"
    ∷ codes "telegram_channels"
    ∷ codes "telegram_users"
    ∷ codes "trading_activity_snapshots"
    ∷ codes "vip_memberships"
    ∷ []

abbrev pub upgrade_0003 : Bool → List Operation
upgrade_0003 postgresql =
    create_provider_credentials
    ++ create_referral_accounts
    ++ create_referral_program_configs
    ++ create_subscriptions
    ++ create_telegram_bot_configs
    ++ create_telegram_channels
    ++ create_telegram_users
    ++ create_tenants
    ++ create_trading_activity_snapshots
    ++ create_vip_memberships
    ++ (alter_column (codes "payment_records") (codes "amount") (numeric 30 8)
        ∷ (if postgresql then enable_policies new_tenant_scoped_tables else []))

abbrev drop_tables : List Operation
drop_tables =
    drop_index (codes "ix_vip_memberships_tenant_status") (codes "vip_memberships")
    ∷ drop_index (codes "ix_vip_memberships_tenant_id") (codes "vip_memberships")
    ∷ drop_table (codes "vip_memberships")
    ∷ drop_index (codes "ix_trading_activity_snapshots_tenant_id")
        (codes "trading_activity_snapshots")
    ∷ drop_table (codes "trading_activity_snapshots")
    ∷ drop_table (codes "tenants")
    ∷ drop_index (codes "ix_telegram_users_tenant_id") (codes "telegram_users")
    ∷ drop_table (codes "telegram_users")
    ∷ drop_index (codes "ix_telegram_channels_tenant_id") (codes "telegram_channels")
    ∷ drop_table (codes "telegram_channels")
    ∷ drop_index (codes "ix_telegram_bot_configs_tenant_id") (codes "telegram_bot_configs")
    ∷ drop_table (codes "telegram_bot_configs")
    ∷ drop_index (codes "ix_subscriptions_tenant_user") (codes "subscriptions")
    ∷ drop_index (codes "ix_subscriptions_tenant_status") (codes "subscriptions")
    ∷ drop_index (codes "ix_subscriptions_tenant_id") (codes "subscriptions")
    ∷ drop_table (codes "subscriptions")
    ∷ drop_index (codes "ix_referral_program_configs_tenant_id") (codes "referral_program_configs")
    ∷ drop_table (codes "referral_program_configs")
    ∷ drop_index (codes "ix_referral_accounts_tenant_user") (codes "referral_accounts")
    ∷ drop_index (codes "ix_referral_accounts_tenant_id") (codes "referral_accounts")
    ∷ drop_table (codes "referral_accounts")
    ∷ drop_index (codes "ix_provider_credentials_tenant_id") (codes "provider_credentials")
    ∷ drop_table (codes "provider_credentials")
    ∷ []

abbrev pub downgrade_0003 : Bool → List Operation
downgrade_0003 postgresql =
    (if postgresql then disable_policies new_tenant_scoped_tables else [])
    ++ (alter_column (codes "payment_records") (codes "amount") (numeric 12 2) ∷ drop_tables)
