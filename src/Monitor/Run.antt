-- ===== src/Monitor/Run.antt =====
-- `run` and `_process` of app/jobs/membership_monitor.py.
use vip_channel_management_s.Monitor.Report.{job_name}
use vip_channel_management_s.World.{◌>>=◌, ◌>>◌, Action, utcnow, pure, uuid4}
use vip_channel_management_s.Prelude.{◌*◌, ◌∷◌, [], Option, ℕ, List, some, ◌+◌, false, true, none}
use vip_channel_management_s.Monitor.Report.{Settings, Pass, MonitorReport, blank_report}
use vip_channel_management_s.Models.{
  JobExecution, VipMembership, ReferralProgramConfig, ReferralAccount,
}
use vip_channel_management_s.Compliance.{
  CompliancePolicy, MembershipSnapshot, is_monitored, decide_compliance,
}
use vip_channel_management_s.Time.{Datetime, aware, instant}
use vip_channel_management_s.Errors.{ok, err}
use vip_channel_management_s.Repositories.{list_for_user, get_for, list_by_status}
use vip_channel_management_s.Eligibility.{ReferralCheck, evaluate_referral}
use vip_channel_management_s.Onboarding.Flow.{check_uid, rules_of, checked}
use vip_channel_management_s.Tables.{flush_row, first}
use vip_channel_management_s.Enums.{ComplianceState}
use vip_channel_management_s.PeriodLock.{period_start_for, finish, claim_period}
use vip_channel_management_s.Tables.Instances.{executions_table, snapshots_table, accounts_table}
use vip_channel_management_s.Monitor.Actions.{or_zero, apply}

abbrev pub or_moment : Option Datetime → Datetime → Datetime
or_moment none d = d
or_moment (some d) _ = d

-- the snapshot that `decide_compliance` is given
abbrev pub snapshot_of : VipMembership → MembershipSnapshot
snapshot_of m = record {
  status = m.status;
  member_since = or_moment m.joined_at m.created_at;
  warnings_sent = m.warnings_sent;
  last_warning_at = m.last_warning_at;
}

abbrev pub policy_for : CompliancePolicy → ReferralProgramConfig → CompliancePolicy
policy_for policy config = record policy {
  onboarding_grace_days = config.compliance_grace_period_days;
}

-- `session.add(TradingActivitySnapshot(...))`, flushed before the next query
unfoldable pub record_activity :
    Settings → Pass → ReferralAccount → Option ReferralCheck → ComplianceState → Action (Unit {0})
record_activity settings pass account none state = pure tt
record_activity settings pass account (some check) state = do
  id ← uuid4
  flush_row snapshots_table (record {
    id = id;
    tenant_id = pass.tenant_id;
    referral_account_id = account.id;
    period_start = pass.period_start;
    period_end = pass.period_start + settings.period * 1000000;
    qualifying_trades = or_zero check.qualifying_trades;
    balance = check.deposit_total;
    still_under_referral = check.registered;
    provider_state = state;
  })
  pure tt

-- the rest of `_process`, once the exchange has answered or failed to
unfoldable pub judge :
    Settings
    → Pass
    → VipMembership
    → ReferralAccount
    → ReferralProgramConfig
    → MonitorReport
    → Option ReferralCheck
    → Action MonitorReport
judge settings pass m account config report check = do
  let verdict = evaluate_referral check (rules_of config) true
  flush_row accounts_table (checked account check verdict pass.moment)
  record_activity settings pass account check verdict.compliance_state
  apply pass m account.market
      (decide_compliance (snapshot_of m) verdict (policy_for settings.policy config) pass.moment)
      (policy_for settings.policy config) report

unfoldable pub examine :
    Settings
    → Pass
    → VipMembership
    → ReferralAccount
    → MonitorReport
    → Option ReferralProgramConfig
    → Action MonitorReport
examine settings pass m account report none = pure report
examine settings pass m account report (some config) = do
  check ← check_uid account.uid
  judge settings pass m account config report check

unfoldable pub examine_first :
    Settings → Pass → VipMembership → MonitorReport → Option ReferralAccount → Action MonitorReport
examine_first settings pass m report none = pure report
examine_first settings pass m report (some account) = do
  config ← get_for pass.tenant_id account.provider_type account.market
  examine settings pass m account report config

-- `_process`
unfoldable pub process : Settings → Pass → VipMembership → MonitorReport → Action MonitorReport
process settings pass m report = do
  accounts ← list_for_user pass.tenant_id m.user_id
  examine_first settings pass m (record report { processed = report.processed + 1 })
      (first accounts)

unfoldable pub process_all :
    Settings → Pass → List VipMembership → MonitorReport → Action MonitorReport
process_all settings pass [] report = pure report
process_all settings pass (m ∷ ms) report = do
  report' ← process settings pass m report
  process_all settings pass ms report'

-- `except Exception as exc: finish(execution, error=...); raise`
unfoldable pub failing : {A : Type 0} → JobExecution → Action A → Action A
failing execution m w =
    let (r, w') = m w in
    elim r [
      | ok a ↦ (ok a, w')
      | err e ↦ (err e, (flush_row executions_table (finish execution (some e) w'.now) w').1)
    ]

unfoldable pub run_claimed : Settings → Pass → Option JobExecution → Action MonitorReport
run_claimed settings pass none = pure (blank_report false pass.period_start)
run_claimed settings pass (some execution) = do
  report ← failing execution (do
    members ← list_by_status pass.tenant_id is_monitored
    process_all settings pass members (blank_report true pass.period_start))
  now ← utcnow
  flush_row executions_table (
      finish
        (record execution {
          processed = report.processed;
          warned = report.warned;
          revoked = report.revoked;
          skipped_unavailable = report.skipped_unavailable;
        })
        none now)
  pure report

unfoldable pub run : Settings → ℕ → Option Datetime → Action MonitorReport
run settings tenant_id now = do
  clock ← utcnow
  let moment = or_moment now (aware clock)
  let period_start = period_start_for moment settings.period
  execution ← claim_period tenant_id job_name period_start
  run_claimed settings
      (record { tenant_id = tenant_id; period_start = period_start; moment = instant moment })
      execution
