-- ===== src/Monitor/Keep.antt =====
-- One pass of app/jobs/membership_monitor.py keeps to its session.
use vip_channel_management_s.Session.Defs.{
  Keeps, Respects-IsPreorder, Isolated, Keeps-Isolated, Respects,
}
use vip_channel_management_s.World.{World}
use vip_channel_management_s.Prelude.{ℕ, Option, some, ◌≡◌}
use vip_channel_management_s.Monitor.Report.{Settings}
use vip_channel_management_s.Monitor.Run.{run}
use vip_channel_management_s.Time.{Datetime}
use vip_channel_management_s.Session.Rules.{
  Keeps-flush_row, Keeps-uuid4, Keeps-ask_telegram, Keeps-ask_exchange,
}
use vip_channel_management_s.Tables.Instances.{
  executions_table, accounts_table, subscriptions_table, memberships_table, snapshots_table,
}
use vip_channel_management_s.Tables.Laws.{
  executions_table-IsTable, accounts_table-IsTable, subscriptions_table-IsTable,
  memberships_table-IsTable, snapshots_table-IsTable,
}
use vip_channel_management_s.Tables.Constraints.{
  executions_table-IsConstrained, AllKeyed, accounts_table-IsConstrained,
  subscriptions_table-IsConstrained, memberships_table-IsConstrained, snapshots_table-IsConstrained,
}
use vip_channel_management_s.Monitor.Steps.{Follows-run, MonitorRules}

pub Keeps-MonitorRules : (t : ℕ) → MonitorRules (Respects t)
Keeps-MonitorRules t = record {
  order = Respects-IsPreorder t;
  uuid4 = Keeps-uuid4;
  ask_telegram = Keeps-ask_telegram;
  ask_exchange = Keeps-ask_exchange;
  accounts = Keeps-flush_row accounts_table accounts_table-IsTable accounts_table-IsConstrained;
  subscriptions =
      Keeps-flush_row subscriptions_table subscriptions_table-IsTable
        subscriptions_table-IsConstrained;
  memberships =
      Keeps-flush_row memberships_table memberships_table-IsTable memberships_table-IsConstrained;
  snapshots = Keeps-flush_row snapshots_table snapshots_table-IsTable snapshots_table-IsConstrained;
  executions =
      Keeps-flush_row executions_table executions_table-IsTable executions_table-IsConstrained;
}

pub run-Keeps :
    {t : ℕ} (settings : Settings) (tenant_id : ℕ) (now : Option Datetime)
    → Keeps t (run settings tenant_id now)
run-Keeps {t} = Follows-run (Keeps-MonitorRules t)

-- In a session of tenant `t` on a database that meets the unique constraints, whatever Telegram and
-- the exchange answer, a pass changes no row of another tenant and no unscoped row, keeps the unique
-- constraints, and only adds calls, whether it returns or raises.
pub run-Isolated :
    (t : ℕ) (settings : Settings) (tenant_id : ℕ) (now : Option Datetime) (w : World)
    → w.bound ≡ some t
    → AllKeyed w.db
    → Isolated t w (run settings tenant_id now w).1
run-Isolated t settings tenant_id now w =
    Keeps-Isolated t (run settings tenant_id now) w (run-Keeps settings tenant_id now)
