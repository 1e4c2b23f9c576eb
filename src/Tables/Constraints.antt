-- ===== src/Tables/Constraints.antt =====
-- The unique constraints of all the tables at once.
use vip_channel_management_s.Prelude.{List}
use vip_channel_management_s.Models.{Db}
use vip_channel_management_s.Tables.Interface.{Table}
use vip_channel_management_s.Tables.Instances.{
  users_table, accounts_table, subscriptions_table, memberships_table, snapshots_table,
  configs_table, channels_table, bot_configs_table, credentials_table, executions_table,
  payments_table,
}
use vip_channel_management_s.Tables.Writes.{IsKeyed}

-- In every scoped table no two rows clash.
pub record AllKeyed (db : Db) : Type 0 where
  pub users : IsKeyed users_table db.users
  pub accounts : IsKeyed accounts_table db.accounts
  pub subscriptions : IsKeyed subscriptions_table db.subscriptions
  pub memberships : IsKeyed memberships_table db.memberships
  pub snapshots : IsKeyed snapshots_table db.snapshots
  pub configs : IsKeyed configs_table db.configs
  pub channels : IsKeyed channels_table db.channels
  pub bot_configs : IsKeyed bot_configs_table db.bot_configs
  pub credentials : IsKeyed credentials_table db.credentials
  pub executions : IsKeyed executions_table db.executions
  pub payments : IsKeyed payments_table db.payments

-- What the constraints of all tables say of one, and what a write of that one has to show.
pub record IsConstrained {A : Type 0} (tbl : Table A) : Type 0 where
  pub of_all : (db : Db) → AllKeyed db → IsKeyed tbl (tbl.rows db)
  pub to_all : (xs : List A) (db : Db) → AllKeyed db → IsKeyed tbl xs → AllKeyed (tbl.write xs db)

pub users_table-IsConstrained : IsConstrained users_table
users_table-IsConstrained = record {
  of_all = λ db h. h.users;
  to_all = λ xs db h k. record {
    users = k;
    accounts = h.accounts;
    subscriptions = h.subscriptions;
    memberships = h.memberships;
    snapshots = h.snapshots;
    configs = h.configs;
    channels = h.channels;
    bot_configs = h.bot_configs;
    credentials = h.credentials;
    executions = h.executions;
    payments = h.payments;
  };
}

pub accounts_table-IsConstrained : IsConstrained accounts_table
accounts_table-IsConstrained = record {
  of_all = λ db h. h.accounts;
  to_all = λ xs db h k. record {
    users = h.users;
    accounts = k;
    subscriptions = h.subscriptions;
    memberships = h.memberships;
    snapshots = h.snapshots;
    configs = h.configs;
    channels = h.channels;
    bot_configs = h.bot_configs;
    credentials = h.credentials;
    executions = h.executions;
    payments = h.payments;
  };
}

pub subscriptions_table-IsConstrained : IsConstrained subscriptions_table
subscriptions_table-IsConstrained = record {
  of_all = λ db h. h.subscriptions;
  to_all = λ xs db h k. record {
    users = h.users;
    accounts = h.accounts;
    subscriptions = k;
    memberships = h.memberships;
    snapshots = h.snapshots;
    configs = h.configs;
    channels = h.channels;
    bot_configs = h.bot_configs;
    credentials = h.credentials;
    executions = h.executions;
    payments = h.payments;
  };
}

pub memberships_table-IsConstrained : IsConstrained memberships_table
memberships_table-IsConstrained = record {
  of_all = λ db h. h.memberships;
  to_all = λ xs db h k. record {
    users = h.users;
    accounts = h.accounts;
    subscriptions = h.subscriptions;
    memberships = k;
    snapshots = h.snapshots;
    configs = h.configs;
    channels = h.channels;
    bot_configs = h.bot_configs;
    credentials = h.credentials;
    executions = h.executions;
    payments = h.payments;
  };
}

pub snapshots_table-IsConstrained : IsConstrained snapshots_table
snapshots_table-IsConstrained = record {
  of_all = λ db h. h.snapshots;
  to_all = λ xs db h k. record {
    users = h.users;
    accounts = h.accounts;
    subscriptions = h.subscriptions;
    memberships = h.memberships;
    snapshots = k;
    configs = h.configs;
    channels = h.channels;
    bot_configs = h.bot_configs;
    credentials = h.credentials;
    executions = h.executions;
    payments = h.payments;
  };
}

pub configs_table-IsConstrained : IsConstrained configs_table
configs_table-IsConstrained = record {
  of_all = λ db h. h.configs;
  to_all = λ xs db h k. record {
    users = h.users;
    accounts = h.accounts;
    subscriptions = h.subscriptions;
    memberships = h.memberships;
    snapshots = h.snapshots;
    configs = k;
    channels = h.channels;
    bot_configs = h.bot_configs;
    credentials = h.credentials;
    executions = h.executions;
    payments = h.payments;
  };
}

pub channels_table-IsConstrained : IsConstrained channels_table
channels_table-IsConstrained = record {
  of_all = λ db h. h.channels;
  to_all = λ xs db h k. record {
    users = h.users;
    accounts = h.accounts;
    subscriptions = h.subscriptions;
    memberships = h.memberships;
    snapshots = h.snapshots;
    configs = h.configs;
    channels = k;
    bot_configs = h.bot_configs;
    credentials = h.credentials;
    executions = h.executions;
    payments = h.payments;
  };
}

pub bot_configs_table-IsConstrained : IsConstrained bot_configs_table
bot_configs_table-IsConstrained = record {
  of_all = λ db h. h.bot_configs;
  to_all = λ xs db h k. record {
    users = h.users;
    accounts = h.accounts;
    subscriptions = h.subscriptions;
    memberships = h.memberships;
    snapshots = h.snapshots;
    configs = h.configs;
    channels = h.channels;
    bot_configs = k;
    credentials = h.credentials;
    executions = h.executions;
    payments = h.payments;
  };
}

pub credentials_table-IsConstrained : IsConstrained credentials_table
credentials_table-IsConstrained = record {
  of_all = λ db h. h.credentials;
  to_all = λ xs db h k. record {
    users = h.users;
    accounts = h.accounts;
    subscriptions = h.subscriptions;
    memberships = h.memberships;
    snapshots = h.snapshots;
    configs = h.configs;
    channels = h.channels;
    bot_configs = h.bot_configs;
    credentials = k;
    executions = h.executions;
    payments = h.payments;
  };
}

pub executions_table-IsConstrained : IsConstrained executions_table
executions_table-IsConstrained = record {
  of_all = λ db h. h.executions;
  to_all = λ xs db h k. record {
    users = h.users;
    accounts = h.accounts;
    subscriptions = h.subscriptions;
    memberships = h.memberships;
    snapshots = h.snapshots;
    configs = h.configs;
    channels = h.channels;
    bot_configs = h.bot_configs;
    credentials = h.credentials;
    executions = k;
    payments = h.payments;
  };
}

pub payments_table-IsConstrained : IsConstrained payments_table
payments_table-IsConstrained = record {
  of_all = λ db h. h.payments;
  to_all = λ xs db h k. record {
    users = h.users;
    accounts = h.accounts;
    subscriptions = h.subscriptions;
    memberships = h.memberships;
    snapshots = h.snapshots;
    configs = h.configs;
    channels = h.channels;
    bot_configs = h.bot_configs;
    credentials = h.credentials;
    executions = h.executions;
    payments = k;
  };
}
