-- ===== src/Migrations/Revisions.antt =====
-- The revisions of migrations/versions but the third, whose tables are in `Stage1`.
use vip_channel_management_s.Prelude.{
  true, false, some, List, [], ◌∷◌, codes, Bool, ◌++◌, if◌then◌else◌, Text,
}
use vip_channel_management_s.Migrations.{
  Operation, create_table, create_index, drop_table, drop_index, add_column, drop_column, uuid,
  integer, timestamp, string, numeric,
}
use vip_channel_management_s.Migrations.Columns.{
  column, unique_constraint, market_enum, job_run_state_enum,
}
use vip_channel_management_s.Migrations.Policies.{enable_policies, disable_policies}

abbrev pub upgrade_0001 : List Operation
upgrade_0001 =
    create_table (codes "payment_records")
      (column "id" uuid false
        ∷ column "tenant_id" uuid false
        ∷ column "user_id" uuid false
        ∷ column "tx_hash" (string 255) false
        ∷ column "amount" (numeric 12 2) false
        ∷ column "currency" (string 10) false
        ∷ column "status" (string 50) false
        ∷ column "created_at" timestamp false
        ∷ column "updated_at" timestamp false
        ∷ [])
      (codes "id" ∷ []) ([])
    ∷ create_index (codes "ix_payment_records_tenant_id") (codes "payment_records")
        (codes "tenant_id" ∷ []) false
    ∷ create_index (codes "ix_payments_tenant_id_id") (codes "payment_records")
        (codes "tenant_id" ∷ codes "id" ∷ []) false
    ∷ create_index (codes "ix_payments_tenant_user") (codes "payment_records")
        (codes "tenant_id" ∷ codes "user_id" ∷ []) false
    ∷ []

abbrev pub downgrade_0001 : List Operation
downgrade_0001 =
    drop_index (codes "ix_payments_tenant_user") (codes "payment_records")
    ∷ drop_index (codes "ix_payments_tenant_id_id") (codes "payment_records")
    ∷ drop_index (codes "ix_payment_records_tenant_id") (codes "payment_records")
    ∷ drop_table (codes "payment_records")
    ∷ []

abbrev pub tenant_scoped_tables : List Text
tenant_scoped_tables = codes "payment_records" ∷ []

abbrev pub upgrade_0002 : Bool → List Operation
upgrade_0002 postgresql = if postgresql then enable_policies tenant_scoped_tables else []

abbrev pub downgrade_0002 : Bool → List Operation
downgrade_0002 postgresql = if postgresql then disable_policies tenant_scoped_tables else []

abbrev create_job_executions : List Operation
create_job_executions =
    create_table (codes "job_executions")
      (column "job_name" (string 100) false
        ∷ column "period_start" timestamp false
        ∷ column "state" job_run_state_enum false
        ∷ column "started_at" timestamp true
        ∷ column "finished_at" timestamp true
        ∷ column "processed" integer false
        ∷ column "warned" integer false
        ∷ column "revoked" integer false
        ∷ column "skipped_unavailable" integer false
        ∷ column "error" (string 1000) true
        ∷ column "tenant_id" uuid false
        ∷ column "id" uuid false
        ∷ column "created_at" timestamp false
        ∷ column "updated_at" timestamp false
        ∷ [])
      (codes "id" ∷ [])
      (unique_constraint (codes "tenant_id" ∷ codes "job_name" ∷ codes "period_start" ∷ [])
          (some (codes "uq_job_executions_tenant_job_period"))
        ∷ [])
    ∷ create_index (codes "ix_job_executions_tenant_id") (codes "job_executions")
        (codes "tenant_id" ∷ []) false
    ∷ []

abbrev drop_job_executions : List Operation
drop_job_executions =
    drop_index (codes "ix_job_executions_tenant_id") (codes "job_executions")
    ∷ drop_table (codes "job_executions")
    ∷ []

abbrev pub upgrade_0004 : Bool → List Operation
upgrade_0004 postgresql =
    create_job_executions
    ++ (if postgresql then enable_policies (codes "job_executions" ∷ []) else [])

abbrev pub downgrade_0004 : Bool → List Operation
downgrade_0004 postgresql =
    (if postgresql then disable_policies (codes "job_executions" ∷ []) else [])
    ++ drop_job_executions

abbrev pub upgrade_0005 : List Operation
upgrade_0005 =
    create_table (codes "webhook_routes")
      (column "token" (string 64) false
        ∷ column "tenant_id" uuid false
        ∷ column "provider" (string 32) false
        ∷ column "id" uuid false
        ∷ column "created_at" timestamp false
        ∷ column "updated_at" timestamp false
        ∷ [])
      (codes "id" ∷ []) ([])
    ∷ create_index (codes "ix_webhook_routes_tenant_id") (codes "webhook_routes")
        (codes "tenant_id" ∷ []) false
    ∷ create_index (codes "ix_webhook_routes_token") (codes "webhook_routes") (codes "token" ∷ [])
        true
    ∷ add_column (codes "telegram_users") (column "pending_market" market_enum true)
    ∷ []

abbrev pub downgrade_0005 : List Operation
downgrade_0005 =
    drop_column (codes "telegram_users") (codes "pending_market")
    ∷ drop_index (codes "ix_webhook_routes_token") (codes "webhook_routes")
    ∷ drop_index (codes "ix_webhook_routes_tenant_id") (codes "webhook_routes")
    ∷ drop_table (codes "webhook_routes")
    ∷ []
