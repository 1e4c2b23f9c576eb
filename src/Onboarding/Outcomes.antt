-- ===== src/Onboarding/Outcomes.antt =====
-- Who is admitted by `submit_uid` of app/services/referral_onboarding.py.
use vip_channel_management_s.Prelude.{
  refl, none, Bool, true, false, Text, ◌≡◌, some, arith, Option, List, ℕ, Bool-cases, inr, inl,
}
use vip_channel_management_s.Onboarding.Flow.{
  OnboardingOutcome, check_uid, conclude, Submission, OnboardingResult, rejected_for, verify,
  new_or_claimed, rules_of, checked, enrol, with_setup, claimed_by_another, refusal, submit_uid,
}
use vip_channel_management_s.World.{ask_exchange, World, Call, utcnow, catch, ◌>>=◌, pure}
use vip_channel_management_s.Eligibility.{
  EligibilityReason, EligibilityVerdict, ReferralCheck, evaluate_referral,
}
use vip_channel_management_s.Models.{ReferralAccount, ReferralProgramConfig, TelegramChannel}
use vip_channel_management_s.Errors.{ok}
use vip_channel_management_s.World.Bind.{bind_ok}
use vip_channel_management_s.Repositories.{save, get_by_uid, get_for, get_for_market}
use vip_channel_management_s.Tables.Instances.{accounts_table}
use vip_channel_management_s.Enums.{ProviderType, ReferralAccountStatus, Market}
use vip_channel_management_s.Eligibility.Rule.{Qualifies, evaluate_referral-eligible_iff}
use vip_channel_management_s.Onboarding.Keep.{Keeps-new_or_claimed, Keeps-ensure_user}
use vip_channel_management_s.Session.Defs.{Respects}
use vip_channel_management_s.Session.Follows.{along}
use vip_channel_management_s.Onboarding.Rows.{Names, ensure_user}
use vip_channel_management_s.Repositories.Keep.{
  Keeps-get_by_uid, Keeps-get_for, Keeps-get_for_market,
}
use vip_channel_management_s.Uid.{is_valid_bitunix_uid, normalize_uid}

-- INVITED or ALREADY_MEMBER, the outcomes that `succeeded` names
abbrev pub admitted : OnboardingOutcome → Bool
admitted OnboardingOutcome.invited = true
admitted OnboardingOutcome.already_member = true
admitted _ = false

-- Only a verdict of ELIGIBLE admits.
conclude-admitted :
    (s : Submission) (reason : EligibilityReason) (v : EligibilityVerdict) (a : ReferralAccount)
    (w : World)
    → {r : OnboardingResult} {w' : World} → conclude s reason v a w ≡ (ok r, w')
    → admitted r.outcome ≡ true
    → reason ≡ EligibilityReason.eligible
unfolding conclude
conclude-admitted s EligibilityReason.eligible v a w e h = refl
conclude-admitted s EligibilityReason.not_registered v a w e h =
    let (_, _, _, e') = bind_ok (save accounts_table s.tenant_id (rejected_for a v.reason)) _ w e in
    cc
conclude-admitted s EligibilityReason.insufficient_balance v a w e h =
    let (_, _, _, e') = bind_ok (save accounts_table s.tenant_id (rejected_for a v.reason)) _ w e in
    cc
conclude-admitted s EligibilityReason.insufficient_trading v a w e h =
    let (_, _, _, e') = bind_ok (save accounts_table s.tenant_id (rejected_for a v.reason)) _ w e in
    cc
conclude-admitted s EligibilityReason.provider_unavailable v a w e h =
    let (_, _, _, e') =
      bind_ok
        (save accounts_table s.tenant_id (record a { status = ReferralAccountStatus.unverified })) _
        w e in
    cc

-- An answer that `check_uid` returns is the exchange's, to a call made now.
check_uid-some :
    (uid : Text) (w : World) {check : ReferralCheck} {w' : World}
    → check_uid uid w ≡ (ok (some check), w')
    → w.outside.exchange w.calls uid ≡ ok check
unfolding check_uid ask_exchange catch ◌>>=◌
check_uid-some uid w e = ground arith

-- The exchange confirmed this account now: it answered, and the account qualifies under the rules
-- of the configuration, trading left aside.
abbrev Confirms : Text → ReferralProgramConfig → World → Type 0
Confirms uid config w =
    (history : List Call) × (check : ReferralCheck) × (w.outside.exchange history uid ≡ ok check)
    × Qualifies check (rules_of config) false

-- What an admission rests on.
pub record Admission (p : ProviderType) (t : ℕ) (m : Market) (uid : Text) (w : World) : Type 0 where
  pub valid : is_valid_bitunix_uid uid ≡ true
  pub config : ReferralProgramConfig
  pub found : (w1 : World) × (get_for t p m w ≡ (ok (some config), w1))
  pub active : config.is_active ≡ true
  pub confirmed : Confirms uid config w

-- The exchange is the same before and after a step that keeps to its session.
Confirms-back :
    (uid : Text) (config : ReferralProgramConfig) (w v : World)
    → Respects 0 w v
    → Confirms uid config v
    → Confirms uid config w
Confirms-back uid config w v k (history, check, e, q) = (history, check, rw (← k.environment) e, q)

-- A refusal is no admission.
refused :
    {o : OnboardingOutcome} {uid : Text} {w : World} {r : OnboardingResult} {w' : World}
    → pure (refusal o none uid) w ≡ (ok r, w')
    → admitted r.outcome ≡ true
    → admitted o ≡ false
    → ⊥
refused e h n = ground arith

module _ (p : ProviderType) (s : Submission) where
  confirmed :
      (answer : Option ReferralCheck) (w u : World)
      → check_uid s.uid w ≡ (ok answer, u)
      → (evaluate_referral answer (rules_of s.config) false).reason ≡ EligibilityReason.eligible
      → Confirms s.uid s.config w
  unfolding evaluate_referral
  confirmed none w u e h = absurd (ground arith)
  confirmed (some check) w u e h = (
    w.calls,
    check,
    check_uid-some s.uid w e,
    (evaluate_referral-eligible_iff check (rules_of s.config) false).0 h,
  )

  verify-admitted :
      (claimed : Option ReferralAccount) (w : World) {r : OnboardingResult} {w' : World}
      → verify p s claimed w ≡ (ok r, w')
      → admitted r.outcome ≡ true
      → Confirms s.uid s.config w
  unfolding verify
  verify-admitted claimed w e h =
      let (account, w1, e1, k1) = bind_ok (new_or_claimed p s claimed) _ w e in
      let (answer, w2, e2, k2) = bind_ok (check_uid s.uid) _ w1 k1 in
      let (now, w3, e3, k3) = bind_ok utcnow _ w2 k2 in
      let v : EligibilityVerdict = evaluate_referral answer (rules_of s.config) false in
      Confirms-back s.uid s.config w w1
        (along (Respects 0) (new_or_claimed p s claimed) w (Keeps-new_or_claimed p s claimed) e1)
        (confirmed answer w1 w2 e2
          (conclude-admitted s v.reason v (checked account answer v now) w3 k3 h))

  enrol-admitted :
      (w : World) {r : OnboardingResult} {w' : World}
      → enrol p s w ≡ (ok r, w')
      → admitted r.outcome ≡ true
      → Confirms s.uid s.config w
  unfolding enrol
  enrol-admitted w e h =
      let (claimed, w1, e1, k1) = bind_ok (get_by_uid s.tenant_id p s.uid) _ w e in
      elim (Bool-cases (claimed_by_another s.user_id claimed)) [
        | inl other ↦ absurd (refused (rw other at k1) h refl)
        | inr own ↦
            Confirms-back s.uid s.config w w1
              (along (Respects 0) (get_by_uid s.tenant_id p s.uid) w
                (Keeps-get_by_uid s.tenant_id p s.uid) e1)
              (verify-admitted claimed w1 (rw own at k1) h)
      ]

module _ (p : ProviderType) (t tg : ℕ) (m : Market) (names : Names) where
  with_setup-admitted :
      (uid : Text) (config : Option ReferralProgramConfig) (channel : Option TelegramChannel)
      → (w : World) {r : OnboardingResult} {w' : World}
      → with_setup t p tg m uid names config channel w ≡ (ok r, w')
      → admitted r.outcome ≡ true
      → (c : ReferralProgramConfig) × (config ≡ some c) × (c.is_active ≡ true) × Confirms uid c w
  unfolding with_setup
  with_setup-admitted uid none channel w e h = cc
  with_setup-admitted uid (some config) none w e h = cc
  with_setup-admitted uid (some config) (some channel) w e h = elim (Bool-cases config.is_active) [
    | inr off ↦ absurd (refused (rw off at e) h refl)
    | inl on ↦
        let (user, w1, e1, k1) = bind_ok (ensure_user t tg names) _ w (rw on at e) in
        (
          config,
          refl,
          on,
          Confirms-back uid config w w1
              (along (Respects 0) (ensure_user t tg names) w (Keeps-ensure_user t tg names) e1)
              (enrol-admitted p _ w1 k1 h),
        )
  ]

  -- Nobody is let in unless the exchange confirmed it: when a submission ends in INVITED or
  -- ALREADY_MEMBER, the UID was valid, the tenant's configuration for the market was found and is
  -- active, and to a call for this UID the exchange answered with a registered account that holds
  -- at least the minimum of that configuration.
  pub submit_uid-admitted :
      (raw : Text) (w : World) {r : OnboardingResult} {w' : World}
      → submit_uid p t tg m raw names w ≡ (ok r, w')
      → admitted r.outcome ≡ true
      → Admission p t m (normalize_uid (some raw)) w
  unfolding submit_uid
  submit_uid-admitted raw w e h =
      let uid : Text = normalize_uid (some raw) in
      elim (Bool-cases (is_valid_bitunix_uid uid)) [
        | inr bad ↦ absurd (refused (rw bad at e) h refl)
        | inl good ↦
            let (config, w1, e1, k1) = bind_ok (get_for t p m) _ w (rw good at e) in
            let (channel, w2, e2, k2) = bind_ok (get_for_market t m) _ w1 k1 in
            let (c, found, active, confirms) = with_setup-admitted uid config channel w2 k2 h in
            record {
              valid = good;
              config = c;
              found = (w1, rw found at e1);
              active = active;
              confirmed =
                  Confirms-back uid c w w1
                    (along (Respects 0) (get_for t p m) w (Keeps-get_for t p m) e1)
                    (Confirms-back uid c w1 w2
                      (along (Respects 0) (get_for_market t m) w1 (Keeps-get_for_market t m) e2)
                      confirms);
            }
      ]
