-- ===== src/Migrations/Stage1/Membership.antt =====
-- The tables of migrations/versions/0003_stage1_referral_membership.py: from the channels to the
-- memberships.
use vip_channel_management_s.Prelude.{true, false, none, some, List, [], ◌∷◌, codes}
use vip_channel_management_s.Migrations.{
  Operation, create_table, create_index, uuid, big_integer, integer, boolean, timestamp, string,
  numeric,
}
use vip_channel_management_s.Migrations.Columns.{
  column, unique_constraint, market_enum, compliance_state_enum, membership_status_enum,
}

abbrev pub create_telegram_channels : List Operation
create_telegram_channels =
    create_table (codes "telegram_channels")
      (column "market" market_enum false
        ∷ column "chat_id" big_integer false
        ∷ column "title" (string 255) true
        ∷ column "is_active" boolean false
        ∷ column "tenant_id" uuid false
        ∷ column "id" uuid false
        ∷ column "created_at" timestamp false
        ∷ column "updated_at" timestamp false
        ∷ [])
      (codes "id" ∷ [])
      (unique_constraint (codes "tenant_id" ∷ codes "chat_id" ∷ [])
          (some (codes "uq_telegram_channels_tenant_chat"))
        ∷ unique_constraint (codes "tenant_id" ∷ codes "market" ∷ [])
            (some (codes "uq_telegram_channels_tenant_market"))
        ∷ [])
    ∷ create_index (codes "ix_telegram_channels_tenant_id") (codes "telegram_channels")
        (codes "tenant_id" ∷ []) false
    ∷ []

abbrev pub create_telegram_users : List Operation
create_telegram_users =
    create_table (codes "telegram_users")
      (column "telegram_user_id" big_integer false
        ∷ column "username" (string 100) true
        ∷ column "first_name" (string 200) true
        ∷ column "language_code" (string 16) true
        ∷ column "tenant_id" uuid false
        ∷ column "id" uuid false
        ∷ column "created_at" timestamp false
        ∷ column "updated_at" timestamp false
        ∷ [])
      (codes "id" ∷ [])
      (unique_constraint (codes "tenant_id" ∷ codes "telegram_user_id" ∷ [])
          (some (codes "uq_telegram_users_tenant_tg_id"))
        ∷ [])
    ∷ create_index (codes "ix_telegram_users_tenant_id") (codes "telegram_users")
        (codes "tenant_id" ∷ []) false
    ∷ []

abbrev pub create_tenants : List Operation
create_tenants =
    create_table (codes "tenants")
      (column "name" (string 200) false
        ∷ column "slug" (string 100) false
        ∷ column "is_active" boolean false
        ∷ column "id" uuid false
        ∷ column "created_at" timestamp false
        ∷ column "updated_at" timestamp false
        ∷ [])
      (codes "id" ∷ []) (unique_constraint (codes "slug" ∷ []) none ∷ [])
    ∷ []

abbrev pub create_trading_activity_snapshots : List Operation
create_trading_activity_snapshots =
    create_table (codes "trading_activity_snapshots")
      (column "referral_account_id" uuid false
        ∷ column "period_start" timestamp false
        ∷ column "period_end" timestamp false
        ∷ column "qualifying_trades" integer false
        ∷ column "balance" (numeric 30 8) true
        ∷ column "still_under_referral" boolean true
        ∷ column "provider_state" compliance_state_enum false
        ∷ column "tenant_id" uuid false
        ∷ column "id" uuid false
        ∷ column "created_at" timestamp false
        ∷ column "updated_at" timestamp false
        ∷ [])
      (codes "id" ∷ [])
      (unique_constraint
          (codes "tenant_id" ∷ codes "referral_account_id" ∷ codes "period_start" ∷ [])
          (some (codes "uq_trading_snapshots_account_period"))
        ∷ [])
    ∷ create_index (codes "ix_trading_activity_snapshots_tenant_id")
        (codes "trading_activity_snapshots") (codes "tenant_id" ∷ []) false
    ∷ []

abbrev pub create_vip_memberships : List Operation
create_vip_memberships =
    create_table (codes "vip_memberships")
      (column "user_id" uuid false
        ∷ column "channel_id" uuid false
        ∷ column "subscription_id" uuid true
        ∷ column "status" membership_status_enum false
        ∷ column "invite_link" (string 500) true
        ∷ column "invite_issued_at" timestamp true
        ∷ column "joined_at" timestamp true
        ∷ column "revoked_at" timestamp true
        ∷ column "revocation_reason" (string 500) true
        ∷ column "warnings_sent" integer false
        ∷ column "last_warning_at" timestamp true
        ∷ column "tenant_id" uuid false
        ∷ column "id" uuid false
        ∷ column "created_at" timestamp false
        ∷ column "updated_at" timestamp false
        ∷ [])
      (codes "id" ∷ [])
      (unique_constraint (codes "tenant_id" ∷ codes "user_id" ∷ codes "channel_id" ∷ [])
          (some (codes "uq_vip_memberships_tenant_user_channel"))
        ∷ [])
    ∷ create_index (codes "ix_vip_memberships_tenant_id") (codes "vip_memberships")
        (codes "tenant_id" ∷ []) false
    ∷ create_index (codes "ix_vip_memberships_tenant_status") (codes "vip_memberships")
        (codes "tenant_id" ∷ codes "status" ∷ []) false
    ∷ []
