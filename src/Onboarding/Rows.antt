-- ===== src/Onboarding/Rows.antt =====
-- The rows that app/services/referral_onboarding.py finds or makes for a member.
use vip_channel_management_s.Prelude.{
  ℕ, Bool, true, false, Option, none, some, Text, codes, if◌then◌else◌,
}
use vip_channel_management_s.Time.{Datetime, aware}
use vip_channel_management_s.Enums.{Market, AccessType, SubscriptionStatus, MembershipStatus}
use vip_channel_management_s.Models.{TelegramUser, Subscription, VipMembership}
use vip_channel_management_s.World.{Action, pure, ◌>>=◌, utcnow, uuid4}
use vip_channel_management_s.Tables.{flush_row}
use vip_channel_management_s.Tables.Instances.{users_table, subscriptions_table, memberships_table}
use vip_channel_management_s.Repositories.{
  save, get_by_telegram_id, get_active_for_user, get_for_user_and_channel,
}
use vip_channel_management_s.Invite.{truthy}

abbrev pub referral_plan_code : Text
referral_plan_code = codes "REFERRAL_FREE"

-- `a or b` on texts
abbrev pub or_else : Option Text → Option Text → Option Text
or_else a b = elim (truthy a) [ none ↦ b | some t ↦ some t ]

-- `datetime or utcnow()`
abbrev pub or_now : Option Datetime → ℕ → Option Datetime
or_now none now = some (aware now)
or_now (some d) now = some d

-- The names that a message carries
pub record Names : Type 0 where
  pub username : Option Text
  pub first_name : Option Text

unfoldable pub known_user : ℕ → ℕ → Names → Option TelegramUser → Action TelegramUser
known_user tenant_id telegram_user_id names none = do
  id ← uuid4
  save users_table tenant_id (record {
    id = id;
    tenant_id = tenant_id;
    telegram_user_id = telegram_user_id;
    pending_market = none;
    username = names.username;
    first_name = names.first_name;
  })
known_user tenant_id telegram_user_id names (some user) = flush_row users_table (record user {
  username = or_else names.username user.username;
  first_name = or_else names.first_name user.first_name;
})

-- `_ensure_user`
unfoldable pub ensure_user : ℕ → ℕ → Names → Action TelegramUser
unfolding known_user
ensure_user tenant_id telegram_user_id names = do
  user ← get_by_telegram_id tenant_id telegram_user_id
  known_user tenant_id telegram_user_id names user

unfoldable pub known_subscription : ℕ → ℕ → Market → Option Subscription → Action Subscription
known_subscription tenant_id user_id market (some existing) = do
  now ← utcnow
  flush_row subscriptions_table (record existing {
    status = SubscriptionStatus.active;
    starts_at = or_now existing.starts_at now;
  })
known_subscription tenant_id user_id market none = do
  id ← uuid4
  now ← utcnow
  save subscriptions_table tenant_id (record {
    id = id;
    tenant_id = tenant_id;
    user_id = user_id;
    market = market;
    access_type = AccessType.referral;
    plan_code = referral_plan_code;
    status = SubscriptionStatus.active;
    starts_at = some (aware now);
    ends_at = none;
  })

-- `_ensure_subscription`
unfoldable pub ensure_subscription : ℕ → ℕ → Market → Action Subscription
unfolding known_subscription
ensure_subscription tenant_id user_id market = do
  existing ← get_active_for_user tenant_id user_id market
  known_subscription tenant_id user_id market existing

abbrev is_over : MembershipStatus → Bool
is_over MembershipStatus.revoked = true
is_over MembershipStatus.expired = true
is_over _ = false

-- what `_ensure_membership` makes of a row that exists
unfoldable pub rejoined : VipMembership → ℕ → VipMembership
rejoined existing subscription_id =
    if is_over existing.status
    then record existing {
      subscription_id = some subscription_id;
      status = MembershipStatus.pending;
      revoked_at = none;
      revocation_reason = none;
      warnings_sent = 0;
      last_warning_at = none;
    }
    else record existing { subscription_id = some subscription_id }

unfoldable pub known_membership : ℕ → ℕ → ℕ → ℕ → Option VipMembership → Action VipMembership
unfolding rejoined
known_membership tenant_id user_id channel_id subscription_id (some existing) =
    pure (rejoined existing subscription_id)
known_membership tenant_id user_id channel_id subscription_id none = do
  id ← uuid4
  now ← utcnow
  save memberships_table tenant_id (record {
    id = id;
    tenant_id = tenant_id;
    created_at = aware now;
    user_id = user_id;
    channel_id = channel_id;
    subscription_id = some subscription_id;
    status = MembershipStatus.pending;
    invite_link = none;
    invite_issued_at = none;
    joined_at = none;
    revoked_at = none;
    revocation_reason = none;
    warnings_sent = 0;
    last_warning_at = none;
  })

-- `_ensure_membership`; the changes to an existing row are saved by the caller.
unfoldable pub ensure_membership : ℕ → ℕ → ℕ → ℕ → Action VipMembership
unfolding known_membership
ensure_membership tenant_id user_id channel_id subscription_id = do
  existing ← get_for_user_and_channel tenant_id user_id channel_id
  known_membership tenant_id user_id channel_id subscription_id existing
