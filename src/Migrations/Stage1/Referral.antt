-- ===== src/Migrations/Stage1/Referral.antt =====
-- The tables of migrations/versions/0003_stage1_referral_membership.py: from the credentials to the
-- bots.
use vip_channel_management_s.Prelude.{true, false, some, List, [], ◌∷◌, codes}
use vip_channel_management_s.Migrations.{
  Operation, create_table, create_index, uuid, integer, boolean, timestamp, string, numeric,
}
use vip_channel_management_s.Migrations.Columns.{
  column, unique_constraint, provider_type_enum, market_enum, referral_account_status_enum,
  compliance_state_enum, access_type_enum, subscription_status_enum,
}

abbrev pub create_provider_credentials : List Operation
create_provider_credentials =
    create_table (codes "provider_credentials")
      (column "provider_type" provider_type_enum false
        ∷ column "credential_name" (string 100) false
        ∷ column "encrypted_secret" (string 4096) false
        ∷ column "last_four" (string 4) true
        ∷ column "verified_at" timestamp true
        ∷ column "tenant_id" uuid false
        ∷ column "id" uuid false
        ∷ column "created_at" timestamp false
        ∷ column "updated_at" timestamp false
        ∷ [])
      (codes "id" ∷ [])
      (unique_constraint (codes "tenant_id" ∷ codes "provider_type" ∷ codes "credential_name" ∷ [])
          (some (codes "uq_provider_credentials_tenant_provider_name"))
        ∷ [])
    ∷ create_index (codes "ix_provider_credentials_tenant_id") (codes "provider_credentials")
        (codes "tenant_id" ∷ []) false
    ∷ []

abbrev pub create_referral_accounts : List Operation
create_referral_accounts =
    create_table (codes "referral_accounts")
      (column "user_id" uuid false
        ∷ column "provider_type" provider_type_enum false
        ∷ column "market" market_enum false
        ∷ column "uid" (string 128) false
        ∷ column "status" referral_account_status_enum false
        ∷ column "compliance_state" compliance_state_enum false
        ∷ column "last_known_balance" (numeric 30 8) true
        ∷ column "last_checked_at" timestamp true
        ∷ column "verified_at" timestamp true
        ∷ column "rejection_reason" (string 500) true
        ∷ column "tenant_id" uuid false
        ∷ column "id" uuid false
        ∷ column "created_at" timestamp false
        ∷ column "updated_at" timestamp false
        ∷ [])
      (codes "id" ∷ [])
      (unique_constraint (codes "tenant_id" ∷ codes "provider_type" ∷ codes "uid" ∷ [])
          (some (codes "uq_referral_accounts_tenant_provider_uid"))
        ∷ [])
    ∷ create_index (codes "ix_referral_accounts_tenant_id") (codes "referral_accounts")
        (codes "tenant_id" ∷ []) false
    ∷ create_index (codes "ix_referral_accounts_tenant_user") (codes "referral_accounts")
        (codes "tenant_id" ∷ codes "user_id" ∷ []) false
    ∷ []

abbrev pub create_referral_program_configs : List Operation
create_referral_program_configs =
    create_table (codes "referral_program_configs")
      (column "provider_type" provider_type_enum false
        ∷ column "market" market_enum false
        ∷ column "referral_link" (string 500) false
        ∷ column "ib_id" (string 100) true
        ∷ column "minimum_balance" (numeric 30 8) false
        ∷ column "minimum_trades_per_period" integer false
        ∷ column "trade_period_days" integer false
        ∷ column "compliance_grace_period_days" integer false
        ∷ column "is_active" boolean false
        ∷ column "tenant_id" uuid false
        ∷ column "id" uuid false
        ∷ column "created_at" timestamp false
        ∷ column "updated_at" timestamp false
        ∷ [])
      (codes "id" ∷ [])
      (unique_constraint (codes "tenant_id" ∷ codes "provider_type" ∷ codes "market" ∷ [])
          (some (codes "uq_referral_config_tenant_provider_market"))
        ∷ [])
    ∷ create_index (codes "ix_referral_program_configs_tenant_id")
        (codes "referral_program_configs") (codes "tenant_id" ∷ []) false
    ∷ []

abbrev pub create_subscriptions : List Operation
create_subscriptions =
    create_table (codes "subscriptions")
      (column "user_id" uuid false
        ∷ column "market" market_enum false
        ∷ column "access_type" access_type_enum false
        ∷ column "plan_code" (string 50) false
        ∷ column "status" subscription_status_enum false
        ∷ column "starts_at" timestamp true
        ∷ column "ends_at" timestamp true
        ∷ column "source_reference" (string 200) true
        ∷ column "tenant_id" uuid false
        ∷ column "id" uuid false
        ∷ column "created_at" timestamp false
        ∷ column "updated_at" timestamp false
        ∷ [])
      (codes "id" ∷ []) ([])
    ∷ create_index (codes "ix_subscriptions_tenant_id") (codes "subscriptions")
        (codes "tenant_id" ∷ []) false
    ∷ create_index (codes "ix_subscriptions_tenant_status") (codes "subscriptions")
        (codes "tenant_id" ∷ codes "status" ∷ []) false
    ∷ create_index (codes "ix_subscriptions_tenant_user") (codes "subscriptions")
        (codes "tenant_id" ∷ codes "user_id" ∷ []) false
    ∷ []

abbrev pub create_telegram_bot_configs : List Operation
create_telegram_bot_configs =
    create_table (codes "telegram_bot_configs")
      (column "credential_id" uuid false
        ∷ column "bot_username" (string 100) true
        ∷ column "verified_at" timestamp true
        ∷ column "tenant_id" uuid false
        ∷ column "id" uuid false
        ∷ column "created_at" timestamp false
        ∷ column "updated_at" timestamp false
        ∷ [])
      (codes "id" ∷ [])
      (unique_constraint (codes "tenant_id" ∷ []) (some (codes "uq_telegram_bot_configs_tenant"))
        ∷ [])
    ∷ create_index (codes "ix_telegram_bot_configs_tenant_id") (codes "telegram_bot_configs")
        (codes "tenant_id" ∷ []) false
    ∷ []
