-- ===== src/Monitor/Tally.antt =====
-- What the report of a pass of app/jobs/membership_monitor.py counts.
use vip_channel_management_s.Prelude.{
  ℕ, Bool, true, false, Option, none, some, List, [], ◌∷◌, ◌≡◌, refl, ◌∙◌, ◌≤◌, ◌+◌, length, arith,
  subst, if◌then◌else◌,
}
use vip_channel_management_s.Errors.{ok}
use vip_channel_management_s.World.{World}
use vip_channel_management_s.World.Bind.{bind_ok}
use vip_channel_management_s.World.Ensures.{Ensures, ensures_rules}
use vip_channel_management_s.Models.{VipMembership, ReferralAccount, ReferralProgramConfig}
use vip_channel_management_s.Enums.{Market}
use vip_channel_management_s.Eligibility.{ReferralCheck}
use vip_channel_management_s.Compliance.{ComplianceAction, ComplianceDecision, CompliancePolicy}
use vip_channel_management_s.Monitor.Report.{Settings, Pass, MonitorReport}
use vip_channel_management_s.Monitor.Actions.{apply, act, revoke_member}
use vip_channel_management_s.Monitor.Run.{judge, examine, examine_first, process, process_all}

-- the members that something was done with or that could not be judged
abbrev pub outcomes : MonitorReport → ℕ
outcomes r = r.warned + r.revoked + r.restored + r.skipped_unavailable

-- From the first report to the second `n` members were processed, and each was counted at most once.
pub record Tally (n : ℕ) (r r' : MonitorReport) : Type 0 where
  pub claimed : r'.claimed ≡ r.claimed
  pub processed : r'.processed ≡ r.processed + n
  pub counted : outcomes r' ≤ outcomes r + n

-- One member was processed, and counted at most once.
record One (r r' : MonitorReport) : Type 0 where
  claimed : r'.claimed ≡ r.claimed
  processed : r'.processed ≡ r.processed
  counted : outcomes r' ≤ outcomes r + 1

One-same : (r : MonitorReport) → One r r
One-same r = record { claimed = refl; processed = refl; counted = omega arith }

One-skipped :
    (r : MonitorReport) → One r (record r { skipped_unavailable = r.skipped_unavailable + 1 })
One-skipped r = record { claimed = refl; processed = refl; counted = omega arith }

One-warned : (r : MonitorReport) → One r (record r { warned = r.warned + 1 })
One-warned r = record { claimed = refl; processed = refl; counted = omega arith }

One-revoked : (r : MonitorReport) → One r (record r { revoked = r.revoked + 1 })
One-revoked r = record { claimed = refl; processed = refl; counted = omega arith }

One-restored : (r : MonitorReport) → One r (record r { restored = r.restored + 1 })
One-restored r = record { claimed = refl; processed = refl; counted = omega arith }

ruleset one_rules = (ensures_rules, One-same, One-skipped, One-warned, One-revoked, One-restored)

Ensures-revoke_member :
    (pass : Pass) (m : VipMembership) (market : Market) (d : ComplianceDecision)
    → (chat_id : Option ℕ) (report : MonitorReport)
    → Ensures (One report) (revoke_member pass m market d chat_id report)
unfolding revoke_member
Ensures-revoke_member pass m market d chat_id report = search one_rules depth 12

Ensures-act :
    (action : ComplianceAction) (pass : Pass) (m : VipMembership) (market : Market)
    → (d : ComplianceDecision) (policy : CompliancePolicy) (chat_id : Option ℕ)
    → (report : MonitorReport)
    → Ensures (One report) (act action pass m market d policy chat_id report)
unfolding act
Ensures-act ComplianceAction.restore pass m market d policy chat_id report =
    search one_rules depth 8
Ensures-act ComplianceAction.warn pass m market d policy chat_id report = search one_rules depth 8
Ensures-act _ pass m market d policy chat_id report =
    Ensures-revoke_member pass m market d chat_id report

One-if :
    (b : Bool) (r : MonitorReport)
    → One r (if b then record r { skipped_unavailable = r.skipped_unavailable + 1 } else r)
One-if true r = One-skipped r
One-if false r = One-same r

Ensures-apply :
    (pass : Pass) (m : VipMembership) (market : Market) (d : ComplianceDecision)
    → (policy : CompliancePolicy) (report : MonitorReport)
    → Ensures (One report) (apply pass m market d policy report)
unfolding apply
Ensures-apply pass m market d policy report = search (ensures_rules, One-if, Ensures-act) depth 8

module _ (settings : Settings) (pass : Pass) where
  Ensures-judge :
      (m : VipMembership) (account : ReferralAccount) (config : ReferralProgramConfig)
      → (report : MonitorReport) (check : Option ReferralCheck)
      → Ensures (One report) (judge settings pass m account config report check)
  unfolding judge
  Ensures-judge m account config report check = search (ensures_rules, Ensures-apply) depth 8

  Ensures-examine :
      (m : VipMembership) (account : ReferralAccount) (report : MonitorReport)
      → (config : Option ReferralProgramConfig)
      → Ensures (One report) (examine settings pass m account report config)
  unfolding examine
  Ensures-examine m account report none = search (ensures_rules, One-same)
  Ensures-examine m account report (some config) = search (ensures_rules, Ensures-judge)

  Ensures-examine_first :
      (m : VipMembership) (report : MonitorReport) (account : Option ReferralAccount)
      → Ensures (One report) (examine_first settings pass m report account)
  unfolding examine_first
  Ensures-examine_first m report none = search (ensures_rules, One-same)
  Ensures-examine_first m report (some account) = search (ensures_rules, Ensures-examine)

  Tally-One :
      (r r' : MonitorReport) → One (record r { processed = r.processed + 1 }) r' → Tally 1 r r'
  Tally-One r r' o = record { claimed = o.claimed; processed = o.processed; counted = o.counted }

  Tally-process :
      (m : VipMembership) (report r : MonitorReport) (w w' : World)
      → process settings pass m report w ≡ (ok r, w')
      → Tally 1 report r
  unfolding process
  Tally-process m report r w w' e =
      let (accounts, u, e1, e2) = bind_ok _ _ w e in
      Tally-One report r ((Ensures-examine_first m _ _).holds u r w' e2)

  -- Of the members that a loop went through, each was processed, and counted at most once.
  pub Tally-process_all :
      (ms : List VipMembership) (report r : MonitorReport) (w w' : World)
      → process_all settings pass ms report w ≡ (ok r, w')
      → Tally (length ms) report r
  unfolding process_all
  Tally-process_all [] report r w w' e =
      let same : report ≡ r = cc in
      subst (Tally 0 report) same
        (record { claimed = refl; processed = omega arith; counted = omega arith })
  Tally-process_all (m ∷ ms) report r w w' e =
      let (r1, u, e1, e2) = bind_ok (process settings pass m report) _ w e in
      let one = Tally-process m report r1 w u e1 in
      let rest = Tally-process_all ms r1 r u w' e2 in
      record {
        claimed = rest.claimed ∙ one.claimed;
        processed = omega (arith, rest.processed, one.processed);
        counted = omega (arith, rest.counted, one.counted);
      }
