-- ===== src/Compliance.antt =====
-- The decision of app/domain/compliance.py: what happens to a member who stopped qualifying.
pub mod Decision
use vip_channel_management_s.Prelude.{
  ℕ, zero, ◌+◌, Bool, true, false, ◌||◌, Option, none, some, ltb, leb, if◌then◌else◌,
}
use vip_channel_management_s.Enums.{MembershipStatus, is_suspended_status}
use vip_channel_management_s.Time.{Datetime, instant, days}
use vip_channel_management_s.Eligibility.{
  EligibilityReason, EligibilityVerdict, is_eligible, is_provider_unavailable,
}

pub data ComplianceAction : Type 0 where
  nothing warn revoke restore : ComplianceAction

pub data ComplianceSkipReason : Type 0 where
  still_compliant provider_unavailable onboarding_grace : ComplianceSkipReason
  warning_interval_not_elapsed not_an_active_membership : ComplianceSkipReason

pub record CompliancePolicy : Type 0 where
  pub max_warnings : ℕ
  pub warning_interval_days : ℕ
  pub onboarding_grace_days : ℕ

abbrev pub default_policy : CompliancePolicy
default_policy = record { max_warnings = 3; warning_interval_days = 5; onboarding_grace_days = 30 }

pub record MembershipSnapshot : Type 0 where
  pub status : MembershipStatus
  pub member_since : Datetime
  pub warnings_sent : ℕ
  pub last_warning_at : Option Datetime

-- `detail` is the text of a reason; the reason itself stands for it.
pub record ComplianceDecision : Type 0 where
  pub action : ComplianceAction
  pub skip_reason : Option ComplianceSkipReason
  pub warnings_after : ℕ
  pub detail : Option EligibilityReason

-- `status in _MONITORED`
abbrev pub is_monitored : MembershipStatus → Bool
is_monitored MembershipStatus.invited = true
is_monitored MembershipStatus.active = true
is_monitored MembershipStatus.suspended = true
is_monitored _ = false

abbrev skip : ComplianceSkipReason → ℕ → ComplianceDecision
skip why sent = record {
  action = ComplianceAction.nothing;
  skip_reason = some why;
  warnings_after = sent;
  detail = none;
}

-- `now < next_allowed`, if there was a warning
too_soon : Option Datetime → CompliancePolicy → ℕ → Bool
too_soon none policy now = false
too_soon (some last) policy now = ltb now (instant last + days policy.warning_interval_days)

-- `now` is an aware moment, as `utcnow` returns.
unfoldable pub decide_compliance :
    MembershipSnapshot → EligibilityVerdict → CompliancePolicy → ℕ → ComplianceDecision
unfolding too_soon
decide_compliance membership verdict policy now =
    if is_monitored status
    then if is_provider_unavailable verdict.reason
      then skip ComplianceSkipReason.provider_unavailable warnings_sent
      else if is_eligible verdict.reason
      then if ltb 0 warnings_sent || is_suspended_status status
        then record {
          action = ComplianceAction.restore;
          skip_reason = none;
          warnings_after = 0;
          detail = none;
        }
        else skip ComplianceSkipReason.still_compliant 0
      else if ltb now (instant member_since + days policy.onboarding_grace_days)
      then skip ComplianceSkipReason.onboarding_grace warnings_sent
      else if too_soon last_warning_at policy now
      then skip ComplianceSkipReason.warning_interval_not_elapsed warnings_sent
      else if leb policy.max_warnings warnings_sent
      then record {
        action = ComplianceAction.revoke;
        skip_reason = none;
        warnings_after = warnings_sent;
        detail = some verdict.reason;
      }
      else record {
        action = ComplianceAction.warn;
        skip_reason = none;
        warnings_after = warnings_sent + 1;
        detail = some verdict.reason;
      }
    else skip ComplianceSkipReason.not_an_active_membership warnings_sent
  where
    open membership use {status, member_since, warnings_sent, last_warning_at}
