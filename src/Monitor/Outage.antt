-- ===== src/Monitor/Outage.antt =====
-- What a pass of app/jobs/membership_monitor.py does while the exchange cannot be asked.
pub mod Rules
use vip_channel_management_s.Prelude.{
  ℕ, Bool, true, false, ◌≡◌, refl, ◌∙◌, List, ◌∷◌, select, Text, Option, none, some, Bool-cases,
  inr, inl, any, arith, [],
}
use vip_channel_management_s.World.{
  World, Outside, Call, validate_user, ◌>>=◌, uuid4, catch, ask_exchange, Action, lift,
}
use vip_channel_management_s.Errors.{Error, err, ok, Result}
use vip_channel_management_s.Session.Follows.{IsPreorder, Follows, follows_rules, Follows-bind}
use vip_channel_management_s.Repositories.{list_by_status, list_for_user, get_for, one_or_none}
use vip_channel_management_s.Monitor.Report.{Settings, Pass, MonitorReport}
use vip_channel_management_s.Models.{
  JobExecution, ReferralAccount, Db, VipMembership, ReferralProgramConfig,
}
use vip_channel_management_s.PeriodLock.{claim_period, finish}
use vip_channel_management_s.Tables.Interface.{Table}
use vip_channel_management_s.Tables.{flush_row, query, in_scope, conflicts, put_row}
use vip_channel_management_s.Enums.{MembershipStatus, ProviderType, Market}
use vip_channel_management_s.Monitor.Run.{
  judge, examine, record_activity, run, process, examine_first, run_claimed, failing, process_all,
}
use vip_channel_management_s.Tables.Instances.{executions_table, accounts_table}
use vip_channel_management_s.Onboarding.Flow.{check_uid}
use vip_channel_management_s.Monitor.Actions.{apply}
use vip_channel_management_s.Compliance.{
  ComplianceDecision, CompliancePolicy, ComplianceAction, MembershipSnapshot, decide_compliance,
}
use vip_channel_management_s.Eligibility.{
  evaluate_referral, ReferralRules, EligibilityVerdict, EligibilityReason,
}
use vip_channel_management_s.Compliance.Decision.{outage_decides_nothing}
use vip_channel_management_s.World.Bind.{bind_run}
use vip_channel_management_s.Time.{Datetime}
use vip_channel_management_s.Monitor.Outage.Rules.{
  IsDown, Spares, spares_rules, Spares-flush_row, Untouched, Spares-IsPreorder, Untouched-trans,
}

pub Spares-accounts : (a : ReferralAccount) → Follows Spares (flush_row accounts_table a)
Spares-accounts a = Spares-flush_row accounts_table (λ xs db. refl) (λ xs db. refl) a

Spares-executions : (a : JobExecution) → Follows Spares (flush_row executions_table a)
Spares-executions a = Spares-flush_row executions_table (λ xs db. refl) (λ xs db. refl) a

Spares-list_for_user : (t u : ℕ) → Follows Spares (list_for_user t u)
unfolding list_for_user
Spares-list_for_user t u = search spares_rules

Spares-list_by_status : (t : ℕ) (s : MembershipStatus → Bool) → Follows Spares (list_by_status t s)
unfolding list_by_status
Spares-list_by_status t s = search spares_rules

pub Spares-get_for : (t : ℕ) (p : ProviderType) (m : Market) → Follows Spares (get_for t p m)
unfolding get_for one_or_none
Spares-get_for t p m = search spares_rules

Spares-claim_period : (t : ℕ) (job : Text) (period : ℕ) → Follows Spares (claim_period t job period)
unfolding claim_period
Spares-claim_period t job period = search (spares_rules, Spares-executions) depth 10

Spares-apply :
    (pass : Pass) (m : VipMembership) (market : Market) (d : ComplianceDecision)
    → (policy : CompliancePolicy) (report : MonitorReport) → d.action ≡ ComplianceAction.nothing
    → Follows Spares (apply pass m market d policy report)
unfolding apply
Spares-apply pass m market d policy report h = rw h (search spares_rules)

Spares-apply_untold :
    (pass : Pass) (m : VipMembership) (market : Market) (shot : MembershipSnapshot)
    → (v : EligibilityVerdict) (policy : CompliancePolicy) (now : ℕ) (report : MonitorReport)
    → v.reason ≡ EligibilityReason.provider_unavailable
    → Follows Spares (apply pass m market (decide_compliance shot v policy now) policy report)
Spares-apply_untold pass m market shot v policy now report h =
    Spares-apply pass m market (decide_compliance shot v policy now) policy report
      (outage_decides_nothing shot v policy now h).0

-- While the exchange is down, asking it adds a call that is not Telegram's.
pub check_uid-IsDown :
    (uid : Text) (w : World)
    → IsDown w.outside
    → check_uid uid w ≡ (ok none, record w { calls = validate_user uid ∷ w.calls })
unfolding check_uid catch ◌>>=◌ ask_exchange
check_uid-IsDown uid w d = ground (arith, d w.calls uid)

unavailable_reason :
    (rules : ReferralRules) (trading : Bool)
    → (evaluate_referral none rules trading).reason ≡ EligibilityReason.provider_unavailable
unfolding evaluate_referral
unavailable_reason rules trading = refl

module _ (settings : Settings) (pass : Pass) where
  Spares-judge :
      (m : VipMembership) (account : ReferralAccount) (config : ReferralProgramConfig)
      → (report : MonitorReport) → Follows Spares (judge settings pass m account config report none)
  unfolding judge record_activity
  Spares-judge m account config report =
      search (spares_rules, Spares-accounts, Spares-apply_untold, unavailable_reason) depth 8

  Spares-examine :
      (m : VipMembership) (account : ReferralAccount) (report : MonitorReport)
      → (config : Option ReferralProgramConfig)
      → Follows Spares (examine settings pass m account report config)
  unfolding examine
  Spares-examine m account report none = search spares_rules
  Spares-examine m account report (some config) = record {
    at = λ w. record {
      when_down = λ d.
          rw
            (bind_run (check_uid account.uid) (judge settings pass m account config report) w
              (check_uid-IsDown account.uid w d))
            (Untouched-trans
              (record {
                memberships = refl;
                subscriptions = refl;
                telegram = refl;
                environment = refl;
              })
              (((Spares-judge m account config report).at
                  (record w { calls = validate_user account.uid ∷ w.calls })).when_down
                d));
    };
  }

  Spares-examine_first :
      (m : VipMembership) (report : MonitorReport) (account : Option ReferralAccount)
      → Follows Spares (examine_first settings pass m report account)
  unfolding examine_first
  Spares-examine_first m report none = search spares_rules
  Spares-examine_first m report (some account) =
      search (spares_rules, Spares-get_for, Spares-examine)

  Spares-process :
      (m : VipMembership) (report : MonitorReport) → Follows Spares (process settings pass m report)
  unfolding process
  Spares-process m report = search (spares_rules, Spares-list_for_user, Spares-examine_first)

  Spares-process_all :
      (ms : List VipMembership) (report : MonitorReport)
      → Follows Spares (process_all settings pass ms report)
  unfolding process_all
  Spares-process_all [] report = search spares_rules
  Spares-process_all (m ∷ ms) report =
      Follows-bind Spares-IsPreorder (process settings pass m report) _ (Spares-process m report)
        (λ r. Spares-process_all ms r)

  Spares-failed :
      {A : Type 0} (e : JobExecution) (r : Result A) → Follows Spares (failing e (lift r))
  unfolding failing
  Spares-failed e (ok a) = record { at = Spares-IsPreorder.reflexive }
  Spares-failed e (err x) = record { at = λ w. (Spares-executions (finish e (some x) w.now)).at w }

  Spares-failing :
      {A : Type 0} (e : JobExecution) (m : Action A)
      → Follows Spares m
      → Follows Spares (failing e m)
  unfolding failing
  Spares-failing e m k = record {
    at = λ w.
        let (r, w') = m w in
        Spares-IsPreorder.transitive w w' (failing e (lift r) w').1 (k.at w)
          ((Spares-failed e r).at w');
  }

  Spares-run_claimed : (e : Option JobExecution) → Follows Spares (run_claimed settings pass e)
  unfolding run_claimed
  Spares-run_claimed none = search spares_rules
  Spares-run_claimed (some e) =
      search
        (spares_rules, Spares-failing, Spares-list_by_status, Spares-process_all, Spares-executions)
        depth 8

Spares-run :
    (settings : Settings) (tenant_id : ℕ) (now : Option Datetime)
    → Follows Spares (run settings tenant_id now)
unfolding run
Spares-run settings tenant_id now = search (spares_rules, Spares-claim_period, Spares-run_claimed)

-- While every call of the exchange fails as unreachable, a whole pass, whether it returns or
-- raises, leaves every membership and every subscription of every tenant as it is, and makes no
-- call of Telegram.
pub run-Spares :
    (settings : Settings) (tenant_id : ℕ) (now : Option Datetime) (w : World)
    → IsDown w.outside
    → Untouched w (run settings tenant_id now w).1
run-Spares settings tenant_id now w down = ((Spares-run settings tenant_id now).at w).when_down down
