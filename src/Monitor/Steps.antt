-- ===== src/Monitor/Steps.antt =====
-- What every step of a pass of app/jobs/membership_monitor.py follows, the pass follows: `run` from
-- its writes and calls, for any relation of worlds.
use vip_channel_management_s.Errors.{ok, err, Result}
use vip_channel_management_s.World.{lift, Action, World, Call, uuid4, ask_telegram, ask_exchange}
use vip_channel_management_s.Prelude.{ℕ, Option, none, some, List, [], ◌∷◌, Text, suc, zero, Bool}
use vip_channel_management_s.Session.Follows.{Follows-bind, Follows, IsPreorder, follows_rules}
use vip_channel_management_s.Monitor.Report.{Settings, Pass, MonitorReport}
use vip_channel_management_s.Monitor.Actions.{remove_from, apply, revoke_member, tell, act, expire}
use vip_channel_management_s.PeriodLock.{claim_period, finish}
use vip_channel_management_s.Monitor.Run.{
  run, examine, process_all, run_claimed, judge, record_activity, failing, examine_first, process,
}
use vip_channel_management_s.Time.{Datetime}
use vip_channel_management_s.Models.{
  TelegramChannel, Subscription, VipMembership, ReferralAccount, JobExecution,
  ReferralProgramConfig, TradingActivitySnapshot,
}
use vip_channel_management_s.Compliance.{ComplianceAction, ComplianceDecision, CompliancePolicy}
use vip_channel_management_s.Messages.{Message}
use vip_channel_management_s.Enums.{Market, ComplianceState, MembershipStatus, ProviderType}
use vip_channel_management_s.Eligibility.{ReferralCheck}
use vip_channel_management_s.Tables.Instances.{
  executions_table, subscriptions_table, memberships_table, snapshots_table, accounts_table,
}
use vip_channel_management_s.Repositories.{
  list_by_status, get_by_id, one_or_none, get_for, get_active_for_user, get_for_market,
  list_for_user,
}
use vip_channel_management_s.Onboarding.Flow.{check_uid}
use vip_channel_management_s.Tables.{query, flush_row}
use vip_channel_management_s.Tables.Interface.{Table}

-- A rule for each of the ways in which a pass changes the world.
pub record MonitorRules (R : World → World → Type 0) : Type 0 where
  pub order : IsPreorder R
  pub uuid4 : Follows R uuid4
  pub ask_telegram : (c : Call) → Follows R (ask_telegram c)
  pub ask_exchange : (uid : Text) → Follows R (ask_exchange uid)
  pub accounts : (a : ReferralAccount) → Follows R (flush_row accounts_table a)
  pub subscriptions : (s : Subscription) → Follows R (flush_row subscriptions_table s)
  pub memberships : (m : VipMembership) → Follows R (flush_row memberships_table m)
  pub snapshots : (s : TradingActivitySnapshot) → Follows R (flush_row snapshots_table s)
  pub executions : (e : JobExecution) → Follows R (flush_row executions_table e)

module _ {R : World → World → Type 0} (rules : MonitorRules R) where
  order : IsPreorder R
  order = rules.order

  Follows-uuid4 : Follows R uuid4
  Follows-uuid4 = rules.uuid4

  Follows-ask_telegram : (c : Call) → Follows R (ask_telegram c)
  Follows-ask_telegram = rules.ask_telegram

  Follows-ask_exchange : (uid : Text) → Follows R (ask_exchange uid)
  Follows-ask_exchange = rules.ask_exchange

  Follows-accounts : (a : ReferralAccount) → Follows R (flush_row accounts_table a)
  Follows-accounts = rules.accounts

  Follows-subscriptions : (s : Subscription) → Follows R (flush_row subscriptions_table s)
  Follows-subscriptions = rules.subscriptions

  Follows-memberships : (m : VipMembership) → Follows R (flush_row memberships_table m)
  Follows-memberships = rules.memberships

  Follows-snapshots : (s : TradingActivitySnapshot) → Follows R (flush_row snapshots_table s)
  Follows-snapshots = rules.snapshots

  Follows-executions : (e : JobExecution) → Follows R (flush_row executions_table e)
  Follows-executions = rules.executions

  Follows-query : {A : Type 0} (tbl : Table A) (test : A → Bool) → Follows R (query tbl test)
  unfolding query
  Follows-query tbl test = record { at = order.reflexive }

  Follows-one_or_none :
      {A : Type 0} (tbl : Table A) (test : A → Bool) → Follows R (one_or_none tbl test)
  unfolding one_or_none
  Follows-one_or_none tbl test = search (follows_rules, order, Follows-query)

  ruleset monitor_rules = (
    follows_rules, order, Follows-uuid4, Follows-ask_telegram, Follows-ask_exchange, Follows-query,
    Follows-one_or_none, Follows-accounts, Follows-subscriptions, Follows-memberships,
    Follows-snapshots, Follows-executions,
  )

  Follows-tell : (chat_id : Option ℕ) (message : Message) → Follows R (tell chat_id message)
  unfolding tell
  Follows-tell none message = search monitor_rules
  Follows-tell (some zero) message = search monitor_rules
  Follows-tell (some (suc n)) message = search monitor_rules

  Follows-remove_from :
      (channel : Option TelegramChannel) (chat_id : Option ℕ)
      → Follows R (remove_from channel chat_id)
  unfolding remove_from
  Follows-remove_from none chat_id = search monitor_rules
  Follows-remove_from (some channel) chat_id = search monitor_rules

  Follows-expire : (s : Option Subscription) (moment : ℕ) → Follows R (expire s moment)
  unfolding expire
  Follows-expire none moment = search monitor_rules
  Follows-expire (some s) moment = search monitor_rules

  Follows-get_by_id : {A : Type 0} (tbl : Table A) (t id : ℕ) → Follows R (get_by_id tbl t id)
  unfolding get_by_id
  Follows-get_by_id tbl t id = search monitor_rules

  Follows-get_for_market : (t : ℕ) (m : Market) → Follows R (get_for_market t m)
  unfolding get_for_market
  Follows-get_for_market t m = search monitor_rules

  Follows-get_active_for_user : (t u : ℕ) (m : Market) → Follows R (get_active_for_user t u m)
  unfolding get_active_for_user
  Follows-get_active_for_user t u m = search monitor_rules

  Follows-list_for_user : (t u : ℕ) → Follows R (list_for_user t u)
  unfolding list_for_user
  Follows-list_for_user t u = search monitor_rules

  Follows-list_by_status : (t : ℕ) (s : MembershipStatus → Bool) → Follows R (list_by_status t s)
  unfolding list_by_status
  Follows-list_by_status t s = search monitor_rules

  Follows-get_for : (t : ℕ) (p : ProviderType) (m : Market) → Follows R (get_for t p m)
  unfolding get_for
  Follows-get_for t p m = search monitor_rules

  Follows-check_uid : (uid : Text) → Follows R (check_uid uid)
  unfolding check_uid
  Follows-check_uid uid = search monitor_rules

  ruleset query_rules = (
    monitor_rules, Follows-get_by_id, Follows-get_for_market, Follows-get_active_for_user,
    Follows-list_for_user, Follows-list_by_status, Follows-get_for, Follows-check_uid,
  )

  Follows-revoke_member :
      (pass : Pass) (m : VipMembership) (market : Market) (d : ComplianceDecision)
      → (chat_id : Option ℕ) (report : MonitorReport)
      → Follows R (revoke_member pass m market d chat_id report)
  unfolding revoke_member
  Follows-revoke_member pass m market d chat_id report =
      search (query_rules, Follows-tell, Follows-remove_from, Follows-expire) depth 10

  Follows-act :
      (action : ComplianceAction) (pass : Pass) (m : VipMembership) (market : Market)
      → (d : ComplianceDecision) (policy : CompliancePolicy) (chat_id : Option ℕ)
      → (report : MonitorReport) → Follows R (act action pass m market d policy chat_id report)
  unfolding act
  Follows-act ComplianceAction.restore pass m market d policy chat_id report =
      search (query_rules, Follows-tell)
  Follows-act ComplianceAction.warn pass m market d policy chat_id report =
      search (query_rules, Follows-tell)
  Follows-act _ pass m market d policy chat_id report =
      Follows-revoke_member pass m market d chat_id report

  Follows-apply :
      (pass : Pass) (m : VipMembership) (market : Market) (d : ComplianceDecision)
      → (policy : CompliancePolicy) (report : MonitorReport)
      → Follows R (apply pass m market d policy report)
  unfolding apply
  Follows-apply pass m market d policy report = search (query_rules, Follows-act)

  module _ (settings : Settings) (pass : Pass) where
    Follows-record_activity :
        (account : ReferralAccount) (check : Option ReferralCheck) (state : ComplianceState)
        → Follows R (record_activity settings pass account check state)
    unfolding record_activity
    Follows-record_activity account none state = search query_rules
    Follows-record_activity account (some check) state = search query_rules

    Follows-judge :
        (m : VipMembership) (account : ReferralAccount) (config : ReferralProgramConfig)
        → (report : MonitorReport) (check : Option ReferralCheck)
        → Follows R (judge settings pass m account config report check)
    unfolding judge
    Follows-judge m account config report check =
        search (query_rules, Follows-record_activity, Follows-apply) depth 8

    Follows-examine :
        (m : VipMembership) (account : ReferralAccount) (report : MonitorReport)
        → (config : Option ReferralProgramConfig)
        → Follows R (examine settings pass m account report config)
    unfolding examine
    Follows-examine m account report none = search query_rules
    Follows-examine m account report (some config) = search (query_rules, Follows-judge)

    Follows-examine_first :
        (m : VipMembership) (report : MonitorReport) (account : Option ReferralAccount)
        → Follows R (examine_first settings pass m report account)
    unfolding examine_first
    Follows-examine_first m report none = search query_rules
    Follows-examine_first m report (some account) = search (query_rules, Follows-examine)

    pub Follows-process :
        (m : VipMembership) (report : MonitorReport) → Follows R (process settings pass m report)
    unfolding process
    Follows-process m report = search (query_rules, Follows-examine_first)

    Follows-process_all :
        (ms : List VipMembership) (report : MonitorReport)
        → Follows R (process_all settings pass ms report)
    unfolding process_all
    Follows-process_all [] report = search query_rules
    Follows-process_all (m ∷ ms) report =
        Follows-bind order (process settings pass m report) _ (Follows-process m report)
          (λ r. Follows-process_all ms r)

    Follows-failed : {A : Type 0} (e : JobExecution) (r : Result A) → Follows R (failing e (lift r))
    unfolding failing
    Follows-failed e (ok a) = record { at = order.reflexive }
    Follows-failed e (err x) = record {
      at = λ w. (Follows-executions (finish e (some x) w.now)).at w;
    }

    Follows-failing :
        {A : Type 0} (e : JobExecution) (m : Action A) → Follows R m → Follows R (failing e m)
    unfolding failing
    Follows-failing e m k = record {
      at = λ w.
          let (r, w') = m w in
          order.transitive w w' (failing e (lift r) w').1 (k.at w) ((Follows-failed e r).at w');
    }

    Follows-run_claimed : (e : Option JobExecution) → Follows R (run_claimed settings pass e)
    unfolding run_claimed
    Follows-run_claimed none = search query_rules
    Follows-run_claimed (some e) =
        search (query_rules, Follows-failing, Follows-process_all) depth 8

  Follows-claim_period :
      (tenant_id : ℕ) (job : Text) (period_start : ℕ)
      → Follows R (claim_period tenant_id job period_start)
  unfolding claim_period
  Follows-claim_period tenant_id job period_start = search query_rules depth 10

  pub Follows-run :
      (settings : Settings) (tenant_id : ℕ) (now : Option Datetime)
      → Follows R (run settings tenant_id now)
  unfolding run
  Follows-run settings tenant_id now =
      search (query_rules, Follows-claim_period, Follows-run_claimed)
