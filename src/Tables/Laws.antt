-- ===== src/Tables/Laws.antt =====
-- Each scoped table meets the laws of a table: a write reaches its own rows and nothing else.
use vip_channel_management_s.Prelude.{ℕ, ◌≡◌, refl, ap, ◌==◌, Text, [], ◌∷◌, eq_text, arith}
use vip_channel_management_s.Prelude.Int.{ℤ, eq_ℤ}
use vip_channel_management_s.Enums.{Market, eq_market, ProviderType, eq_provider}
use vip_channel_management_s.Tables.Interface.{IsTable, others}
use vip_channel_management_s.Tables.Instances.{
  users_table, accounts_table, subscriptions_table, memberships_table, snapshots_table,
  configs_table, channels_table, bot_configs_table, credentials_table, executions_table,
  payments_table,
}

pub ==_comm : (a b : ℕ) → (a == b) ≡ (b == a)
==_comm a b = ground arith

eq_ℤ_comm : (a b : ℤ) → eq_ℤ a b ≡ eq_ℤ b a
eq_ℤ_comm a b = ground arith

eq_market_comm : (a b : Market) → eq_market a b ≡ eq_market b a
eq_market_comm a b = ground arith

eq_provider_comm : (a b : ProviderType) → eq_provider a b ≡ eq_provider b a
eq_provider_comm a b = ground arith

pub eq_text_comm : (a b : Text) → eq_text a b ≡ eq_text b a
eq_text_comm [] [] = refl
eq_text_comm [] (y ∷ ys) = refl
eq_text_comm (x ∷ xs) [] = refl
eq_text_comm (x ∷ xs) (y ∷ ys) = ground (arith, eq_text_comm xs ys)

pub users_table-IsTable : IsTable users_table
users_table-IsTable = record {
  rows-write = λ xs db. refl;
  tenant-assign = λ t a. refl;
  row_id-assign = λ t a. refl;
  same_key_comm = λ a b. ground arith;
  others-write = λ t xs db h. ap (λ ys. record (others t db) { users = ys }) h;
}

pub accounts_table-IsTable : IsTable accounts_table
accounts_table-IsTable = record {
  rows-write = λ xs db. refl;
  tenant-assign = λ t a. refl;
  row_id-assign = λ t a. refl;
  same_key_comm = λ a b.
      ground (arith, eq_provider_comm a.provider_type b.provider_type, eq_text_comm a.uid b.uid);
  others-write = λ t xs db h. ap (λ ys. record (others t db) { accounts = ys }) h;
}

pub subscriptions_table-IsTable : IsTable subscriptions_table
subscriptions_table-IsTable = record {
  rows-write = λ xs db. refl;
  tenant-assign = λ t a. refl;
  row_id-assign = λ t a. refl;
  same_key_comm = λ a b. refl;
  others-write = λ t xs db h. ap (λ ys. record (others t db) { subscriptions = ys }) h;
}

pub memberships_table-IsTable : IsTable memberships_table
memberships_table-IsTable = record {
  rows-write = λ xs db. refl;
  tenant-assign = λ t a. refl;
  row_id-assign = λ t a. refl;
  same_key_comm = λ a b. ground arith;
  others-write = λ t xs db h. ap (λ ys. record (others t db) { memberships = ys }) h;
}

pub snapshots_table-IsTable : IsTable snapshots_table
snapshots_table-IsTable = record {
  rows-write = λ xs db. refl;
  tenant-assign = λ t a. refl;
  row_id-assign = λ t a. refl;
  same_key_comm = λ a b. ground arith;
  others-write = λ t xs db h. ap (λ ys. record (others t db) { snapshots = ys }) h;
}

pub configs_table-IsTable : IsTable configs_table
configs_table-IsTable = record {
  rows-write = λ xs db. refl;
  tenant-assign = λ t a. refl;
  row_id-assign = λ t a. refl;
  same_key_comm = λ a b.
      ground
        (arith, eq_provider_comm a.provider_type b.provider_type, eq_market_comm a.market b.market);
  others-write = λ t xs db h. ap (λ ys. record (others t db) { configs = ys }) h;
}

pub channels_table-IsTable : IsTable channels_table
channels_table-IsTable = record {
  rows-write = λ xs db. refl;
  tenant-assign = λ t a. refl;
  row_id-assign = λ t a. refl;
  same_key_comm =
      λ a b. ground (arith, eq_market_comm a.market b.market, eq_ℤ_comm a.chat_id b.chat_id);
  others-write = λ t xs db h. ap (λ ys. record (others t db) { channels = ys }) h;
}

pub bot_configs_table-IsTable : IsTable bot_configs_table
bot_configs_table-IsTable = record {
  rows-write = λ xs db. refl;
  tenant-assign = λ t a. refl;
  row_id-assign = λ t a. refl;
  same_key_comm = λ a b. refl;
  others-write = λ t xs db h. ap (λ ys. record (others t db) { bot_configs = ys }) h;
}

pub credentials_table-IsTable : IsTable credentials_table
credentials_table-IsTable = record {
  rows-write = λ xs db. refl;
  tenant-assign = λ t a. refl;
  row_id-assign = λ t a. refl;
  same_key_comm = λ a b. ground (
    arith,
    eq_provider_comm a.provider_type b.provider_type,
    eq_text_comm a.credential_name b.credential_name,
  );
  others-write = λ t xs db h. ap (λ ys. record (others t db) { credentials = ys }) h;
}

pub executions_table-IsTable : IsTable executions_table
executions_table-IsTable = record {
  rows-write = λ xs db. refl;
  tenant-assign = λ t a. refl;
  row_id-assign = λ t a. refl;
  same_key_comm = λ a b. ground (arith, eq_text_comm a.job_name b.job_name);
  others-write = λ t xs db h. ap (λ ys. record (others t db) { executions = ys }) h;
}

pub payments_table-IsTable : IsTable payments_table
payments_table-IsTable = record {
  rows-write = λ xs db. refl;
  tenant-assign = λ t a. refl;
  row_id-assign = λ t a. refl;
  same_key_comm = λ a b. refl;
  others-write = λ t xs db h. ap (λ ys. record (others t db) { payments = ys }) h;
}
