-- ===== src/Tests/Rules.antt =====
-- The rules of app/domain at concrete inputs.
use vip_channel_management_s.Prelude.{
  refl, ◌≡◌, ◌↔◌, ◌≤◌, ◌<◌, ◌⊎◌, ◌+◌, true, false, some, arith, ◌*◌,
}
use vip_channel_management_s.Tests.Data.{rules, funded, poor, membership, settings, config}
use vip_channel_management_s.Eligibility.{evaluate_referral, EligibilityVerdict, EligibilityReason}
use vip_channel_management_s.Compliance.{
  MembershipSnapshot, decide_compliance, default_policy, ComplianceAction, is_monitored,
}
use vip_channel_management_s.Models.{VipMembership}
use vip_channel_management_s.Prelude.Int.{pos, ◌+ℤ◌, ◌≤ℤ◌}
use vip_channel_management_s.Time.{days, aware}
use vip_channel_management_s.Monitor.Patience.{complied, patience, visit, start}
use vip_channel_management_s.Eligibility.Rule.{
  Qualifies, evaluate_referral-eligible_iff, shortfall_exact,
}
use vip_channel_management_s.Compliance.Decision.{
  Actionable, decide_compliance-revoke_iff, decide_compliance-warn_iff,
  decide_compliance-restore_iff,
}
use vip_channel_management_s.Enums.{MembershipStatus, ComplianceState}

evaluate_referral-eligible_iff_example :
    ((evaluate_referral (some funded) rules false).reason ≡ EligibilityReason.eligible)
    ↔ Qualifies funded rules false
evaluate_referral-eligible_iff_example = evaluate_referral-eligible_iff funded rules false

shortfall_exact_example :
    let v = evaluate_referral (some poor) rules false in
    (v.balance +ℤ v.shortfall ≡ rules.minimum_balance) × (pos 1 ≤ℤ v.shortfall)
unfolding evaluate_referral
shortfall_exact_example = shortfall_exact poor rules false refl

abbrev shot : MembershipSnapshot
shot = record {
  status = MembershipStatus.active;
  member_since = aware 0;
  warnings_sent = 3;
  last_warning_at = some (aware (days 50));
}

abbrev at_fault : EligibilityVerdict
at_fault = record {
  reason = EligibilityReason.insufficient_balance;
  compliance_state = ComplianceState.non_compliant;
  balance = pos 1;
  shortfall = pos 2;
}

decide_compliance-revoke_iff_example :
    ((decide_compliance shot at_fault default_policy (days 60)).action ≡ ComplianceAction.revoke)
    ↔ (Actionable shot at_fault default_policy (days 60) × (3 ≤ 3))
decide_compliance-revoke_iff_example =
    decide_compliance-revoke_iff shot at_fault default_policy (days 60)

decide_compliance-warn_iff_example :
    ((decide_compliance shot at_fault default_policy (days 60)).action ≡ ComplianceAction.warn)
    ↔ (Actionable shot at_fault default_policy (days 60) × (3 < 3))
decide_compliance-warn_iff_example =
    decide_compliance-warn_iff shot at_fault default_policy (days 60)

decide_compliance-restore_iff_example :
    ((decide_compliance shot at_fault default_policy (days 60)).action ≡ ComplianceAction.restore)
    ↔ ((is_monitored shot.status ≡ true)
        × (at_fault.reason ≡ EligibilityReason.eligible)
        × ((0 < shot.warnings_sent) ⊎ (shot.status ≡ MembershipStatus.suspended)))
decide_compliance-restore_iff_example =
    decide_compliance-restore_iff shot at_fault default_policy (days 60)

-- 3 warnings, 5 days apart: no removal before 15 days after the first visit
abbrev three_warned : VipMembership
three_warned = complied settings.policy config at_fault (days 20) (
    complied settings.policy config at_fault (days 15)
      (complied settings.policy config at_fault (days 10) membership))

patience_example : days 10 + 3 * days 5 ≤ days 25
unfolding decide_compliance
patience_example =
    patience settings.policy (days 10) membership three_warned refl
      (visit _
        (visit _ (visit _ start config at_fault (days 10) (omega arith)) config at_fault (days 15)
          (omega arith))
        config at_fault (days 20) (omega arith))
      config at_fault (days 25) (omega arith) refl
