-- ===== src/Monitor/Patience.antt =====
-- How long a member has, over many passes of app/jobs/membership_monitor.py.
use vip_channel_management_s.Prelude.{ℕ, ◌≤◌, ◌+◌, ◌*◌, ◌≡◌, refl, arith, suc, zero, some}
use vip_channel_management_s.Compliance.{
  decide_compliance, CompliancePolicy, ComplianceAction, ComplianceDecision, MembershipSnapshot,
}
use vip_channel_management_s.Models.{VipMembership, ReferralProgramConfig}
use vip_channel_management_s.Monitor.Actions.{warned, revoked, restored}
use vip_channel_management_s.Eligibility.{EligibilityVerdict}
use vip_channel_management_s.Time.{aware, days}
use vip_channel_management_s.Monitor.Run.{snapshot_of, policy_for}
use vip_channel_management_s.Compliance.Decision.{
  Spaced, decide_compliance-warn_iff, decide_compliance-revoke_iff,
}

-- what `_apply` writes into the membership
abbrev pub follow : ComplianceAction → ComplianceDecision → ℕ → VipMembership → VipMembership
follow ComplianceAction.nothing decision now m = m
follow ComplianceAction.warn decision now m = warned m decision now
follow ComplianceAction.revoke decision now m = revoked m decision now
follow ComplianceAction.restore decision now m = restored m

abbrev pub decide :
    CompliancePolicy
    → ReferralProgramConfig
    → EligibilityVerdict
    → ℕ
    → VipMembership
    → ComplianceDecision
decide policy config v now m = decide_compliance (snapshot_of m) v (policy_for policy config) now

abbrev pub complied :
    CompliancePolicy
    → ReferralProgramConfig
    → EligibilityVerdict
    → ℕ
    → VipMembership
    → VipMembership
complied policy config v now m =
    let decision = decide policy config v now m in follow decision.action decision now m

-- A membership after any number of visits, none of them earlier than `since`. The verdict, the
-- moment and the configuration of each visit are any.
pub data Visited (policy : CompliancePolicy) (since : ℕ) (m : VipMembership)
    : VipMembership → Type 0 where
  start : Visited policy since m m
  visit :
      (m' : VipMembership)
      → Visited policy since m m'
      → (config : ReferralProgramConfig) → (v : EligibilityVerdict) → (now : ℕ) → since ≤ now
      → Visited policy since m (complied policy config v now m')

-- After `k + 1` warnings the last one is at least `k` intervals after `since`.
abbrev SpacedSince : CompliancePolicy → ℕ → VipMembership → Type 0
SpacedSince policy since m =
    (k : ℕ)
    → m.warnings_sent ≡ suc k
    → (l : ℕ) × (m.last_warning_at ≡ some (aware l))
      × (since + k * days policy.warning_interval_days ≤ l)

warn_counts :
    (m : MembershipSnapshot) (v : EligibilityVerdict) (policy : CompliancePolicy) (now : ℕ)
    → (decide_compliance m v policy now).action ≡ ComplianceAction.warn
    → (decide_compliance m v policy now).warnings_after ≡ m.warnings_sent + 1
unfolding decide_compliance
warn_counts m v policy now h = ground arith

module _ (policy : CompliancePolicy) (since : ℕ) where
  Spaced-on :
      (m : VipMembership) (now k : ℕ) (config : ReferralProgramConfig)
      → since ≤ now
      → SpacedSince policy since m
      → Spaced m.last_warning_at (policy_for policy config) now
      → m.warnings_sent ≡ k
      → since + k * days policy.warning_interval_days ≤ now
  Spaced-on m now zero config o h s e = omega arith
  Spaced-on m now (suc j) config o h s e =
      let (l, last, bound) = h j e in
      let spaced : l + days policy.warning_interval_days ≤ now = rw last at s in grind arith

  follow-SpacedSince :
      (a : ComplianceAction) (d : ComplianceDecision) (config : ReferralProgramConfig) (now : ℕ)
      (m : VipMembership)
      → since ≤ now
      → SpacedSince policy since m
      → (a ≡ ComplianceAction.warn
          → Spaced m.last_warning_at (policy_for policy config) now
            × (d.warnings_after ≡ m.warnings_sent + 1))
      → SpacedSince policy since (follow a d now m)
  follow-SpacedSince ComplianceAction.nothing d config now m o h q = h
  follow-SpacedSince ComplianceAction.revoke d config now m o h q = h
  follow-SpacedSince ComplianceAction.restore d config now m o h q = λ k e. absurd (ground arith)
  follow-SpacedSince ComplianceAction.warn d config now m o h q = λ k e.
      let (spaced, count) = q refl in (now, refl, Spaced-on m now k config o h spaced (omega arith))

  complied-SpacedSince :
      (config : ReferralProgramConfig) (v : EligibilityVerdict) (now : ℕ) (m : VipMembership)
      → since ≤ now
      → SpacedSince policy since m
      → SpacedSince policy since (complied policy config v now m)
  complied-SpacedSince config v now m o h =
      let d : ComplianceDecision = decide policy config v now m in
      follow-SpacedSince d.action d config now m o h (λ e. (
        ((decide_compliance-warn_iff (snapshot_of m) v (policy_for policy config) now).0
            e).0.spaced,
        warn_counts (snapshot_of m) v (policy_for policy config) now e,
      ))

  Visited-SpacedSince :
      {m m' : VipMembership}
      → m.warnings_sent ≡ 0
      → Visited policy since m m'
      → SpacedSince policy since m'
  Visited-SpacedSince z start = λ k e. absurd (ground arith)
  Visited-SpacedSince z (visit m' before config v now o) =
      complied-SpacedSince config v now m' o (Visited-SpacedSince z before)

  -- Nobody is removed in haste: whatever the visits, their order, their verdicts and the
  -- configurations were, a member that starts without warnings and is not visited before `since`
  -- is not removed before `since` plus the warning interval times the number of warnings that the
  -- policy grants.
  pub patience :
      (m m' : VipMembership)
      → m.warnings_sent ≡ 0
      → Visited policy since m m'
      → (config : ReferralProgramConfig) (v : EligibilityVerdict) (now : ℕ) → since ≤ now
      → (decide policy config v now m').action ≡ ComplianceAction.revoke
      → since + policy.max_warnings * days policy.warning_interval_days ≤ now
  patience m m' z visits config v now o h =
      let (may, spent) =
        (decide_compliance-revoke_iff (snapshot_of m') v (policy_for policy config) now).0 h in
      let long : since + m'.warnings_sent * days policy.warning_interval_days ≤ now =
        Spaced-on m' now m'.warnings_sent config o (Visited-SpacedSince z visits) may.spaced refl in
      grind arith
