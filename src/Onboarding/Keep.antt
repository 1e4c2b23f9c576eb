-- ===== src/Onboarding/Keep.antt =====
-- `submit_uid` of app/services/referral_onboarding.py keeps to its session.
use vip_channel_management_s.Prelude.{ℕ, Option, none, some, Text, ◌≡◌}
use vip_channel_management_s.Models.{
  TelegramUser, VipMembership, TelegramChannel, ReferralProgramConfig, Subscription,
  ReferralAccount,
}
use vip_channel_management_s.Session.Defs.{Keeps, Isolated, Keeps-Isolated}
use vip_channel_management_s.Repositories.Keep.{repository_rules}
use vip_channel_management_s.Onboarding.Rows.{
  Names, known_user, ensure_user, known_subscription, ensure_subscription, known_membership,
  ensure_membership,
}
use vip_channel_management_s.Onboarding.Flow.{
  submit_uid, enrol, new_or_claimed, admit, with_setup, check_uid, conclude, verify, Submission,
}
use vip_channel_management_s.Invite.{mint, issue}
use vip_channel_management_s.Enums.{Market, ProviderType}
use vip_channel_management_s.Eligibility.{EligibilityVerdict, EligibilityReason}
use vip_channel_management_s.Session.Rules.{session_rules}
use vip_channel_management_s.World.{World}
use vip_channel_management_s.Tables.Constraints.{AllKeyed}

module _ {t : ℕ} where
  Keeps-known_user :
      (tenant_id telegram_user_id : ℕ) (names : Names) (u : Option TelegramUser)
      → Keeps t (known_user tenant_id telegram_user_id names u)
  unfolding known_user
  Keeps-known_user tenant_id telegram_user_id names none = search repository_rules
  Keeps-known_user tenant_id telegram_user_id names (some u) = search repository_rules

  pub Keeps-ensure_user :
      (tenant_id telegram_user_id : ℕ) (names : Names)
      → Keeps t (ensure_user tenant_id telegram_user_id names)
  unfolding ensure_user
  Keeps-ensure_user tenant_id telegram_user_id names = search (repository_rules, Keeps-known_user)

  Keeps-known_subscription :
      (tenant_id user_id : ℕ) (m : Market) (o : Option Subscription)
      → Keeps t (known_subscription tenant_id user_id m o)
  unfolding known_subscription
  Keeps-known_subscription tenant_id user_id m none = search repository_rules
  Keeps-known_subscription tenant_id user_id m (some o) = search repository_rules

  Keeps-ensure_subscription :
      (tenant_id user_id : ℕ) (m : Market) → Keeps t (ensure_subscription tenant_id user_id m)
  unfolding ensure_subscription
  Keeps-ensure_subscription tenant_id user_id m =
      search (repository_rules, Keeps-known_subscription)

  Keeps-known_membership :
      (tenant_id user_id channel_id subscription_id : ℕ) (o : Option VipMembership)
      → Keeps t (known_membership tenant_id user_id channel_id subscription_id o)
  unfolding known_membership
  Keeps-known_membership tenant_id user_id channel_id subscription_id none = search repository_rules
  Keeps-known_membership tenant_id user_id channel_id subscription_id (some o) =
      search repository_rules

  Keeps-ensure_membership :
      (tenant_id user_id channel_id subscription_id : ℕ)
      → Keeps t (ensure_membership tenant_id user_id channel_id subscription_id)
  unfolding ensure_membership
  Keeps-ensure_membership tenant_id user_id channel_id subscription_id =
      search (repository_rules, Keeps-known_membership)

  Keeps-mint :
      (tenant_id : ℕ) (m : VipMembership) (c : TelegramChannel) (moment : ℕ) (o : Option Text)
      → Keeps t (mint tenant_id m c moment o)
  unfolding mint
  Keeps-mint tenant_id m c moment none = search session_rules
  Keeps-mint tenant_id m c moment (some link) = search session_rules

  pub Keeps-issue :
      (tenant_id : ℕ) (m : VipMembership) (c : TelegramChannel) → Keeps t (issue tenant_id m c)
  unfolding issue
  Keeps-issue tenant_id m c = search (session_rules, Keeps-mint)

  pub Keeps-check_uid : (uid : Text) → Keeps t (check_uid uid)
  unfolding check_uid
  Keeps-check_uid uid = search session_rules

  Keeps-admit : (s : Submission) (v : EligibilityVerdict) → Keeps t (admit s v)
  unfolding admit
  Keeps-admit s v =
      search (repository_rules, Keeps-ensure_subscription, Keeps-ensure_membership, Keeps-issue)
        depth 8

  Keeps-conclude :
      (s : Submission) (r : EligibilityReason) (v : EligibilityVerdict) (a : ReferralAccount)
      → Keeps t (conclude s r v a)
  unfolding conclude
  Keeps-conclude s EligibilityReason.eligible v a = search (repository_rules, Keeps-admit)
  Keeps-conclude s _ v a = search repository_rules

  pub Keeps-new_or_claimed :
      (p : ProviderType) (s : Submission) (o : Option ReferralAccount)
      → Keeps t (new_or_claimed p s o)
  unfolding new_or_claimed
  Keeps-new_or_claimed p s none = search session_rules
  Keeps-new_or_claimed p s (some a) = search session_rules

  Keeps-verify :
      (p : ProviderType) (s : Submission) (o : Option ReferralAccount) → Keeps t (verify p s o)
  unfolding verify
  Keeps-verify p s o = search (session_rules, Keeps-new_or_claimed, Keeps-check_uid, Keeps-conclude)

  Keeps-enrol : (p : ProviderType) (s : Submission) → Keeps t (enrol p s)
  unfolding enrol
  Keeps-enrol p s = search (repository_rules, Keeps-verify)

  Keeps-with_setup :
      (tenant_id : ℕ) (p : ProviderType) (tg : ℕ) (m : Market) (uid : Text) (names : Names)
      → (config : Option ReferralProgramConfig) (channel : Option TelegramChannel)
      → Keeps t (with_setup tenant_id p tg m uid names config channel)
  unfolding with_setup
  Keeps-with_setup tenant_id p tg m uid names (some config) (some channel) =
      search (session_rules, Keeps-ensure_user, Keeps-enrol)
  Keeps-with_setup tenant_id p tg m uid names _ _ = search session_rules

  pub submit_uid-Keeps :
      (p : ProviderType) (tenant_id tg : ℕ) (m : Market) (raw_uid : Text) (names : Names)
      → Keeps t (submit_uid p tenant_id tg m raw_uid names)
  unfolding submit_uid
  submit_uid-Keeps p tenant_id tg m raw_uid names = search (repository_rules, Keeps-with_setup)

-- In a session of tenant `t` on a database that meets the unique constraints, whatever is
-- submitted, and whatever Telegram and the exchange answer, a submission changes no row of another
-- tenant and no unscoped row, keeps the unique constraints, and only adds calls, whether it returns
-- or raises.
submit_uid-Isolated :
    (t : ℕ) (p : ProviderType) (tenant_id tg : ℕ) (m : Market) (raw_uid : Text) (names : Names)
    → (w : World) → w.bound ≡ some t
    → AllKeyed w.db
    → Isolated t w (submit_uid p tenant_id tg m raw_uid names w).1
submit_uid-Isolated t p tenant_id tg m raw_uid names w =
    Keeps-Isolated t (submit_uid p tenant_id tg m raw_uid names) w
      (submit_uid-Keeps p tenant_id tg m raw_uid names)
