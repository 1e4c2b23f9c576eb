-- ===== src/Compliance/Decision.antt =====
-- When `decide_compliance` of app/domain/compliance.py warns, removes, restores, or does nothing.
use vip_channel_management_s.Prelude.{
  ℕ, ◌+◌, ◌≤◌, ◌<◌, ◌≡◌, ◌≢◌, ◌↔◌, ◌⊎◌, true, Option, none, some, arith,
}
use vip_channel_management_s.Enums.{MembershipStatus}
use vip_channel_management_s.Time.{Datetime, instant, days}
use vip_channel_management_s.Eligibility.{EligibilityReason, EligibilityVerdict}
use vip_channel_management_s.Compliance.{
  ComplianceAction, CompliancePolicy, MembershipSnapshot, is_monitored, decide_compliance,
}

-- A warning, if there was one, lies at least the configured interval back.
abbrev pub Spaced : Option Datetime → CompliancePolicy → ℕ → Type 0
Spaced none policy now = Unit
Spaced (some last) policy now = instant last + days policy.warning_interval_days ≤ now

-- A member may be warned or removed: monitored, found at fault, past the settling period, and not
-- warned within the interval.
pub record Actionable (m : MembershipSnapshot) (v : EligibilityVerdict) (policy : CompliancePolicy)
    (now : ℕ) : Type 0 where
  pub monitored : is_monitored m.status ≡ true
  pub told : v.reason ≢ EligibilityReason.provider_unavailable
  pub at_fault : v.reason ≢ EligibilityReason.eligible
  pub settled : instant m.member_since + days policy.onboarding_grace_days ≤ now
  pub spaced : Spaced m.last_warning_at policy now

module _ (m : MembershipSnapshot) (v : EligibilityVerdict) (policy : CompliancePolicy)
    (now : ℕ) where
  -- A member is removed exactly when action may be taken and all warnings have been sent.
  pub decide_compliance-revoke_iff :
      ((decide_compliance m v policy now).action ≡ ComplianceAction.revoke)
      ↔ (Actionable m v policy now × (policy.max_warnings ≤ m.warnings_sent))
  unfolding decide_compliance
  decide_compliance-revoke_iff = (λ h. ground arith, λ q. ground arith)

  -- A member is warned exactly when action may be taken and a warning is left.
  pub decide_compliance-warn_iff :
      ((decide_compliance m v policy now).action ≡ ComplianceAction.warn)
      ↔ (Actionable m v policy now × (m.warnings_sent < policy.max_warnings))
  unfolding decide_compliance
  decide_compliance-warn_iff = (λ h. ground arith, λ q. ground arith)

  -- A member is restored exactly when a monitored member qualifies again after a warning or while
  -- suspended.
  pub decide_compliance-restore_iff :
      ((decide_compliance m v policy now).action ≡ ComplianceAction.restore) ↔ (
        (is_monitored m.status ≡ true)
        × (v.reason ≡ EligibilityReason.eligible)
        × ((0 < m.warnings_sent) ⊎ (m.status ≡ MembershipStatus.suspended)))
  unfolding decide_compliance
  decide_compliance-restore_iff = (λ h. ground arith, λ q. ground arith)

  -- When the provider could not tell, nothing is done and the count of warnings stays, whatever
  -- the status, the dates and the policy are.
  pub outage_decides_nothing :
      v.reason ≡ EligibilityReason.provider_unavailable
      → let d = decide_compliance m v policy now in
        (d.action ≡ ComplianceAction.nothing) × (d.warnings_after ≡ m.warnings_sent)
  unfolding decide_compliance
  outage_decides_nothing h = ground arith

  -- Before the end of the settling period no member is warned or removed.
  pub settling_period_protects :
      now < instant m.member_since + days policy.onboarding_grace_days
      → let d = decide_compliance m v policy now in
        (d.action ≢ ComplianceAction.warn) × (d.action ≢ ComplianceAction.revoke)
  unfolding decide_compliance
  settling_period_protects h = (λ e. ground arith, λ e. ground arith)

  -- A decision names a reason to skip exactly when it takes no action, and a reason against the
  -- member exactly when it warns or removes.
  pub decision_explained :
      let d = decide_compliance m v policy now in
      ((d.skip_reason ≢ none) ↔ (d.action ≡ ComplianceAction.nothing))
      × ((d.detail ≢ none)
          ↔ ((d.action ≡ ComplianceAction.warn) ⊎ (d.action ≡ ComplianceAction.revoke)))
  unfolding decide_compliance
  decision_explained =
      ((λ h. ground arith, λ h e. ground arith), (λ h. ground arith, λ h e. ground arith))
