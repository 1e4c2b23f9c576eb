-- ===== src/Onboarding/Flow.antt =====
-- `submit_uid` of app/services/referral_onboarding.py, cut where its guards return.
use vip_channel_management_s.Prelude.{
  ℕ, ◌==◌, Bool, false, not, Option, none, some, Text, if◌then◌else◌,
}
use vip_channel_management_s.Time.{aware}
use vip_channel_management_s.Enums.{
  Market, ReferralAccountStatus, ComplianceState, ProviderType, is_active_status,
}
use vip_channel_management_s.Errors.{is_provider_unavailable_error}
use vip_channel_management_s.Eligibility.{
  ReferralCheck, ReferralRules, EligibilityReason, EligibilityVerdict, evaluate_referral,
}
use vip_channel_management_s.Uid.{normalize_uid, is_valid_bitunix_uid}
use vip_channel_management_s.Models.{ReferralAccount, ReferralProgramConfig, TelegramChannel}
use vip_channel_management_s.World.{Action, pure, ◌>>=◌, ◌>>◌, catch, utcnow, uuid4, ask_exchange}
use vip_channel_management_s.Tables.Instances.{accounts_table, memberships_table}
use vip_channel_management_s.Repositories.{save, get_by_uid, get_for_market, get_for}
use vip_channel_management_s.Invite.{issue}
use vip_channel_management_s.Onboarding.Rows.{
  Names, ensure_user, ensure_subscription, ensure_membership,
}

pub data OnboardingOutcome : Type 0 where
  invited already_member invalid_uid uid_claimed_by_another_user : OnboardingOutcome
  not_registered insufficient_balance provider_unavailable not_configured : OnboardingOutcome

pub record OnboardingResult : Type 0 where
  pub outcome : OnboardingOutcome
  pub invite_link : Option Text
  pub verdict : Option EligibilityVerdict
  pub uid : Option Text

abbrev pub refusal : OnboardingOutcome → Option EligibilityVerdict → Text → OnboardingResult
refusal outcome verdict uid = record {
  outcome = outcome;
  invite_link = none;
  verdict = verdict;
  uid = some uid;
}

-- `ReferralRules(...)` from a row
abbrev pub rules_of : ReferralProgramConfig → ReferralRules
rules_of config = record {
  minimum_balance = config.minimum_balance;
  minimum_trades_per_period = config.minimum_trades_per_period;
  trade_period_days = config.trade_period_days;
}

-- `try: check = ... except ProviderUnavailableError: check = None`
unfoldable pub check_uid : Text → Action (Option ReferralCheck)
check_uid uid =
    catch is_provider_unavailable_error (do check ← ask_exchange uid; pure (some check)) (pure none)

-- What one submission is about, once the guards have passed
pub record Submission : Type 0 where
  pub tenant_id : ℕ
  pub market : Market
  pub uid : Text
  pub config : ReferralProgramConfig
  pub channel : TelegramChannel
  pub user_id : ℕ

-- `claimed or ReferralAccount(...)`
unfoldable pub new_or_claimed :
    ProviderType → Submission → Option ReferralAccount → Action ReferralAccount
new_or_claimed provider_type s (some claimed) = pure claimed
new_or_claimed provider_type s none = do
  id ← uuid4
  pure (record {
    id = id;
    tenant_id = s.tenant_id;
    user_id = s.user_id;
    provider_type = provider_type;
    market = s.market;
    uid = s.uid;
    status = ReferralAccountStatus.unverified;
    compliance_state = ComplianceState.verification_pending;
    last_known_balance = none;
    last_checked_at = none;
    verified_at = none;
    rejection_reason = none;
  })

-- The balance is overwritten only when the provider told one.
unfoldable pub checked :
    ReferralAccount → Option ReferralCheck → EligibilityVerdict → ℕ → ReferralAccount
checked account none verdict now = record account {
  compliance_state = verdict.compliance_state;
  last_checked_at = some (aware now);
}
checked account (some check) verdict now = record account {
  compliance_state = verdict.compliance_state;
  last_checked_at = some (aware now);
  last_known_balance = some verdict.balance;
}

-- the steps after the account is verified
unfoldable pub admit : Submission → EligibilityVerdict → Action OnboardingResult
admit s verdict = do
  subscription ← ensure_subscription s.tenant_id s.user_id s.market
  membership ← ensure_membership s.tenant_id s.user_id s.channel.id subscription.id
  (invite, invited_membership) ← issue s.tenant_id membership s.channel
  save memberships_table s.tenant_id invited_membership
  pure (record {
    outcome =
        if is_active_status membership.status
        then OnboardingOutcome.already_member
        else OnboardingOutcome.invited;
    invite_link = some invite.link;
    verdict = some verdict;
    uid = some s.uid;
  })

abbrev pub rejected_for : ReferralAccount → EligibilityReason → ReferralAccount
rejected_for account reason = record account {
  status = ReferralAccountStatus.rejected;
  rejection_reason = some reason;
}

-- the three ways on from a verdict
unfoldable pub conclude :
    Submission → EligibilityReason → EligibilityVerdict → ReferralAccount → Action OnboardingResult
conclude s EligibilityReason.provider_unavailable verdict account = do
  save accounts_table s.tenant_id (record account { status = ReferralAccountStatus.unverified })
  pure (refusal OnboardingOutcome.provider_unavailable (some verdict) s.uid)
conclude s EligibilityReason.eligible verdict account = do
  now ← utcnow
  save accounts_table s.tenant_id (record account {
    status = ReferralAccountStatus.verified;
    rejection_reason = none;
    verified_at = some (aware now);
  })
  admit s verdict
conclude s EligibilityReason.not_registered verdict account = do
  save accounts_table s.tenant_id (rejected_for account verdict.reason)
  pure (refusal OnboardingOutcome.not_registered (some verdict) s.uid)
conclude s _ verdict account = do
  save accounts_table s.tenant_id (rejected_for account verdict.reason)
  pure (refusal OnboardingOutcome.insufficient_balance (some verdict) s.uid)

unfoldable pub verify : ProviderType → Submission → Option ReferralAccount → Action OnboardingResult
unfolding new_or_claimed
verify provider_type s claimed = do
  account ← new_or_claimed provider_type s claimed
  check ← check_uid s.uid
  now ← utcnow
  let verdict = evaluate_referral check (rules_of s.config) false
  conclude s verdict.reason verdict (checked account check verdict now)

-- `claimed is not None and claimed.user_id != user.id`
abbrev pub claimed_by_another : ℕ → Option ReferralAccount → Bool
claimed_by_another user_id none = false
claimed_by_another user_id (some claimed) = not (claimed.user_id == user_id)

unfoldable pub enrol : ProviderType → Submission → Action OnboardingResult
enrol provider_type s = do
  claimed ← get_by_uid s.tenant_id provider_type s.uid
  (if claimed_by_another s.user_id claimed
      then pure (refusal OnboardingOutcome.uid_claimed_by_another_user none s.uid)
      else verify provider_type s claimed)

-- the guards on the tenant's setup, and `_ensure_user`
unfoldable pub with_setup :
    ℕ
    → ProviderType
    → ℕ
    → Market
    → Text
    → Names
    → Option ReferralProgramConfig
    → Option TelegramChannel
    → Action OnboardingResult
with_setup tenant_id provider_type telegram_user_id market uid names (some config) (some channel) =
    if config.is_active
    then (do
      user ← ensure_user tenant_id telegram_user_id names
      enrol provider_type (record {
        tenant_id = tenant_id;
        market = market;
        uid = uid;
        config = config;
        channel = channel;
        user_id = user.id;
      }))
    else pure (refusal OnboardingOutcome.not_configured none uid)
with_setup tenant_id provider_type telegram_user_id market uid names _ _ =
    pure (refusal OnboardingOutcome.not_configured none uid)

-- `provider_type` is that of the referral provider the service was built with.
unfoldable pub submit_uid : ProviderType → ℕ → ℕ → Market → Text → Names → Action OnboardingResult
submit_uid provider_type tenant_id telegram_user_id market raw_uid names =
    let uid = normalize_uid (some raw_uid) in
    if is_valid_bitunix_uid uid
    then (do
      config ← get_for tenant_id provider_type market
      channel ← get_for_market tenant_id market
      with_setup tenant_id provider_type telegram_user_id market uid names config channel)
    else pure (refusal OnboardingOutcome.invalid_uid none uid)
