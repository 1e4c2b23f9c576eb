-- ===== src/Tables/Interface.antt =====
-- A tenant-scoped table, and the laws that each of the tables has.
use vip_channel_management_s.Prelude.{ℕ, Bool, not, List, ◌≡◌, ◌==◌, select}
use vip_channel_management_s.Models.{Db}

-- Its place in the database, the identity and the tenant of a row, and the key that its unique
-- constraint compares within one tenant.
pub record Table (A : Type 0) : Type 0 where
  pub rows : Db → List A
  pub write : List A → Db → Db
  pub row_id : A → ℕ
  pub tenant : A → ℕ
  pub assign : ℕ → A → A
  pub same_key : A → A → Bool

-- What the database holds of all tenants but one, and of the tables that are not scoped.
abbrev pub others : ℕ → Db → Db
others t db = record {
  users = select (λ r. not (r.tenant_id == t)) db.users;
  accounts = select (λ r. not (r.tenant_id == t)) db.accounts;
  subscriptions = select (λ r. not (r.tenant_id == t)) db.subscriptions;
  memberships = select (λ r. not (r.tenant_id == t)) db.memberships;
  snapshots = select (λ r. not (r.tenant_id == t)) db.snapshots;
  configs = select (λ r. not (r.tenant_id == t)) db.configs;
  channels = select (λ r. not (r.tenant_id == t)) db.channels;
  bot_configs = select (λ r. not (r.tenant_id == t)) db.bot_configs;
  credentials = select (λ r. not (r.tenant_id == t)) db.credentials;
  executions = select (λ r. not (r.tenant_id == t)) db.executions;
  payments = select (λ r. not (r.tenant_id == t)) db.payments;
  routes = db.routes;
  tenants = db.tenants;
}

pub record IsTable {A : Type 0} (tbl : Table A) : Type 0 where
  pub rows-write : (xs : List A) (db : Db) → tbl.rows (tbl.write xs db) ≡ xs
  pub tenant-assign : (t : ℕ) (a : A) → tbl.tenant (tbl.assign t a) ≡ t
  pub row_id-assign : (t : ℕ) (a : A) → tbl.row_id (tbl.assign t a) ≡ tbl.row_id a
  pub same_key_comm : (a b : A) → tbl.same_key a b ≡ tbl.same_key b a
  pub others-write :
      (t : ℕ) (xs : List A) (db : Db)
      → select (λ r. not (tbl.tenant r == t)) xs
        ≡ select (λ r. not (tbl.tenant r == t)) (tbl.rows db)
      → others t (tbl.write xs db) ≡ others t db
