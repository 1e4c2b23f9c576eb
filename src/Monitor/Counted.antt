-- ===== src/Monitor/Counted.antt =====
-- A pass of app/jobs/membership_monitor.py, its report and its job row.
use vip_channel_management_s.Prelude.{
  ℕ, Bool, true, false, Option, none, some, List, ◌≡◌, ap, ◌∙◌, subst, sym, select, any, ◌==◌, ◌&&◌,
  eq_text, ◌≤◌, arith, length,
}
use vip_channel_management_s.Errors.{ok, ok-inj}
use vip_channel_management_s.World.{World, pure}
use vip_channel_management_s.World.Bind.{bind_ok}
use vip_channel_management_s.Models.{VipMembership, JobExecution}
use vip_channel_management_s.Enums.{JobRunState}
use vip_channel_management_s.Compliance.{is_monitored}
use vip_channel_management_s.Tables.{flush_row, in_scope, query}
use vip_channel_management_s.Tables.Instances.{executions_table}
use vip_channel_management_s.PeriodLock.{finish}
use vip_channel_management_s.Session.Follows.{along}
use vip_channel_management_s.Monitor.Report.{MonitorReport, job_name, Settings, Pass, blank_report}
use vip_channel_management_s.Monitor.Run.{run_claimed, run}
use vip_channel_management_s.Monitor.Tally.{outcomes, Tally-process_all, Tally}
use vip_channel_management_s.Repositories.{list_by_status}
use vip_channel_management_s.Time.{Datetime}
use vip_channel_management_s.Tables.Writes.{any-put_row_found}
use vip_channel_management_s.Monitor.Claimed.{
  flush_row-wrote, failing_ok, SameMembers, SameMembers-claim_period, Is, claim_period-Is,
}

-- The members that a pass of the tenant looks at.
abbrev pub members : ℕ → World → List VipMembership
members t w =
    select (λ r. r.tenant_id == t && is_monitored r.status)
      (select (λ r. in_scope w.bound r.tenant_id) w.db.memberships)

abbrev pub is_succeeded : JobRunState → Bool
is_succeeded JobRunState.succeeded = true
is_succeeded _ = false

-- The job row of the tenant's pass is closed as succeeded, with the counts of the report.
abbrev pub says : ℕ → MonitorReport → JobExecution → Bool
says t r e =
    e.tenant_id == t
    && (eq_text e.job_name job_name
        && (e.processed == r.processed
            && (e.warned == r.warned
                && (e.revoked == r.revoked
                    && (e.skipped_unavailable == r.skipped_unavailable && is_succeeded e.state)))))

-- What a pass of tenant `t` from `w` to `w'` reports. A pass that stood down counts nothing.
pub record Counted (t : ℕ) (w w' : World) (report : MonitorReport) : Type 0 where
  pub bounded : outcomes report ≤ report.processed
  pub complete : report.claimed ≡ true → report.processed ≡ length (members t w)
  pub recorded : report.claimed ≡ true → any (says t report) w'.db.executions ≡ true

-- the job row with the counts of the report
abbrev counting : JobExecution → MonitorReport → JobExecution
counting e r = record e {
  processed = r.processed;
  warned = r.warned;
  revoked = r.revoked;
  skipped_unavailable = r.skipped_unavailable;
}

says_closed :
    (t now : ℕ) (r : MonitorReport) (e : JobExecution)
    → e.tenant_id ≡ t
    → e.job_name ≡ job_name
    → says t r (finish (counting e r) none now) ≡ true
unfolding finish
says_closed t now r e h k =
    let j : eq_text e.job_name job_name ≡ true = ap (λ n. eq_text n job_name) k in ground arith

list_by_status-members :
    (t : ℕ) (w v : World) (ms : List VipMembership)
    → list_by_status t is_monitored w ≡ (ok ms, v)
    → members t w ≡ ms
unfolding list_by_status query
list_by_status-members t w v ms h = ok-inj (ap (λ q. q.0) h)

closed-Counted :
    (t now period : ℕ) (ms : List VipMembership) (r report : MonitorReport) (e row : JobExecution)
    (w v u w' : World)
    → Tally (length ms) (blank_report true period) r
    → members t w ≡ ms
    → e.tenant_id ≡ t
    → e.job_name ≡ job_name
    → flush_row executions_table (finish (counting e r) none now) v ≡ (ok row, u)
    → pure r u ≡ (ok report, w')
    → Counted t w w' report
closed-Counted t now period ms r report e row w v u w' tally all h k f g =
    let same : r ≡ report = cc in
    let end : u ≡ w' = cc in
    let written = (flush_row-wrote executions_table (finish (counting e r) none now) row v u f).1 in
    subst (Counted t w w') same (record {
      bounded = omega (arith, tally.counted, tally.processed);
      complete = λ c.
          let count : r.processed ≡ length ms = omega (arith, tally.processed) in
          count ∙ ap length (sym all);
      recorded = λ c.
          subst (λ x. any (says t r) x.db.executions ≡ true) (written ∙ end)
            (any-put_row_found executions_table (says t r) (finish (counting e r) none now)
              v.db.executions (says_closed t now r e h k));
    })

module _ (settings : Settings) (pass : Pass) where
  run_claimed-Counted :
      (o : Option JobExecution) (report : MonitorReport) (w w' : World)
      → Is pass.tenant_id job_name o
      → run_claimed settings pass o w ≡ (ok report, w')
      → Counted pass.tenant_id w w' report
  unfolding run_claimed Is
  run_claimed-Counted none report w w' k h =
      let same : blank_report false pass.period_start ≡ report = cc in
      subst (Counted pass.tenant_id w w') same
        (record { bounded = omega arith; complete = λ e. cc e; recorded = λ e. cc e })
  run_claimed-Counted (some e) report w w' k h =
      let (r, u, e1, h1) = bind_ok _ _ w h in
      let (ms, v, e2, h2) =
        bind_ok (list_by_status pass.tenant_id is_monitored) _ w (failing_ok e _ w u r e1) in
      let (now, u1, e3, h3) = bind_ok _ _ u h1 in
      let (row, u2, e4, h4) = bind_ok _ _ u1 h3 in
      closed-Counted pass.tenant_id now pass.period_start ms r report e row w u1 u2 w'
        (Tally-process_all settings pass ms (blank_report true pass.period_start) r v u h2)
        (list_by_status-members pass.tenant_id w v ms e2) k.0 k.1 e4 h4

Counted-before :
    (t : ℕ) (report : MonitorReport) (w v w' : World)
    → SameMembers w v
    → Counted t v w' report
    → Counted t w w' report
Counted-before t report w v w' s c = record {
  bounded = c.bounded;
  complete = λ e. c.complete e ∙ (λ i. length (
      select (λ r. r.tenant_id == t && is_monitored r.status)
        (select (λ r. in_scope (s.bound i) r.tenant_id) (s.memberships i))));
  recorded = c.recorded;
}

-- When a pass returns, its report counts every member at most once among the warned, the revoked,
-- the restored and those that could not be judged, and no more of them than it processed; and when
-- it claimed its period, it has processed every member that the session sees with a status that is
-- monitored, and the database holds a job row of the tenant, closed as succeeded, with its counts.
pub run-Counted :
    (settings : Settings) (t : ℕ) (now : Option Datetime) (report : MonitorReport) (w w' : World)
    → run settings t now w ≡ (ok report, w')
    → Counted t w w' report
unfolding run
run-Counted settings t now report w w' h =
    let (clock, u, e1, h1) = bind_ok _ _ w h in
    let same : w ≡ u = cc in
    let (o, v, e2, h2) = bind_ok _ _ u h1 in
    subst (λ x. Counted t x w' report) (sym same)
      (Counted-before t report u v w'
        (along SameMembers _ u (SameMembers-claim_period t job_name _) e2)
        (run_claimed-Counted settings _ o report v w' (claim_period-Is t job_name _ o u v e2) h2))
