-- ===== src/Monitor/Actions.antt =====
-- `_apply` of app/jobs/membership_monitor.py: what a decision does to a member.
use vip_channel_management_s.Prelude.Int.{pos}
use vip_channel_management_s.World.{
  ◌>>=◌, ◌>>◌, Action, pure, ask_telegram, send_message, ban_chat_member, unban_chat_member,
}
use vip_channel_management_s.Prelude.{
  [], Option, Bool, ℕ, none, true, some, if◌then◌else◌, false, suc, ◌+◌, zero,
}
use vip_channel_management_s.Monitor.Report.{Pass, MonitorReport}
use vip_channel_management_s.Models.{VipMembership, Subscription, TelegramChannel, TelegramUser}
use vip_channel_management_s.Compliance.{
  ComplianceAction, ComplianceDecision, ComplianceSkipReason, CompliancePolicy,
}
use vip_channel_management_s.Enums.{
  Market, MembershipStatus, is_suspended_status, SubscriptionStatus,
}
use vip_channel_management_s.Messages.{
  Message, membership_revoked, membership_restored, reason_text, compliance_warning,
}
use vip_channel_management_s.Tables.{flush_row}
use vip_channel_management_s.Repositories.{get_for_market, get_active_for_user, get_by_id}
use vip_channel_management_s.Time.{aware}
use vip_channel_management_s.Tables.Instances.{subscriptions_table, memberships_table, users_table}

-- the membership after each action
abbrev pub restored : VipMembership → VipMembership
restored m = record m {
  warnings_sent = 0;
  last_warning_at = none;
  status = if is_suspended_status m.status then MembershipStatus.active else m.status;
}

abbrev pub warned : VipMembership → ComplianceDecision → ℕ → VipMembership
warned m decision moment = record m {
  warnings_sent = decision.warnings_after;
  last_warning_at = some (aware moment);
}

abbrev pub revoked : VipMembership → ComplianceDecision → ℕ → VipMembership
revoked m decision moment = record m {
  status = MembershipStatus.revoked;
  revoked_at = some (aware moment);
  revocation_reason = decision.detail;
  invite_link = none;
}

-- `if chat_id: await self._telegram.send_message(chat_id, ...)`
unfoldable pub tell : Option ℕ → Message → Action (Unit {0})
tell none message = pure tt
tell (some zero) message = pure tt
tell (some (suc n)) message = do ask_telegram (send_message (pos (suc n)) message []); pure tt

-- `chat_id or 0`
abbrev pub or_zero : Option ℕ → ℕ
or_zero none = 0
or_zero (some n) = n

-- the channel of the account's market is the one that is acted on
unfoldable pub remove_from : Option TelegramChannel → Option ℕ → Action (Unit {0})
remove_from none chat_id = pure tt
remove_from (some channel) chat_id = do
  ask_telegram (ban_chat_member channel.chat_id (or_zero chat_id))
  ask_telegram (unban_chat_member channel.chat_id (or_zero chat_id))
  pure tt

unfoldable pub expire : Option Subscription → ℕ → Action (Unit {0})
expire none moment = pure tt
expire (some subscription) moment = do
  flush_row subscriptions_table
      (record subscription { status = SubscriptionStatus.expired; ends_at = some (aware moment) })
  pure tt

abbrev pub chat_of : Option TelegramUser → Option ℕ
chat_of none = none
chat_of (some user) = some user.telegram_user_id

unfoldable pub revoke_member :
    Pass
    → VipMembership
    → Market
    → ComplianceDecision
    → Option ℕ
    → MonitorReport
    → Action MonitorReport
revoke_member pass m market decision chat_id report = do
  channel ← get_for_market pass.tenant_id market
  remove_from channel chat_id
  flush_row memberships_table (revoked m decision pass.moment)
  subscription ← get_active_for_user pass.tenant_id m.user_id market
  expire subscription pass.moment
  tell chat_id (membership_revoked (reason_text decision.detail))
  pure (record report { revoked = report.revoked + 1 })

-- the actions below the early return
unfoldable pub act :
    ComplianceAction
    → Pass
    → VipMembership
    → Market
    → ComplianceDecision
    → CompliancePolicy
    → Option ℕ
    → MonitorReport
    → Action MonitorReport
act ComplianceAction.restore pass m market decision policy chat_id report = do
  flush_row memberships_table (restored m)
  tell chat_id membership_restored
  pure (record report { restored = report.restored + 1 })
act ComplianceAction.warn pass m market decision policy chat_id report = do
  flush_row memberships_table (warned m decision pass.moment)
  tell chat_id
      (compliance_warning decision.warnings_after policy.max_warnings (reason_text decision.detail))
  pure (record report { warned = report.warned + 1 })
act _ pass m market decision policy chat_id report =
    revoke_member pass m market decision chat_id report

abbrev pub is_unavailable_skip : Option ComplianceSkipReason → Bool
is_unavailable_skip (some ComplianceSkipReason.provider_unavailable) = true
is_unavailable_skip _ = false

abbrev pub is_nothing : ComplianceAction → Bool
is_nothing ComplianceAction.nothing = true
is_nothing _ = false

-- `_apply`
unfoldable pub apply :
    Pass
    → VipMembership
    → Market
    → ComplianceDecision
    → CompliancePolicy
    → MonitorReport
    → Action MonitorReport
apply pass m market decision policy report =
    if is_nothing decision.action
    then pure (
        if is_unavailable_skip decision.skip_reason
        then record report { skipped_unavailable = report.skipped_unavailable + 1 }
        else report)
    else (do
      user ← get_by_id users_table pass.tenant_id m.user_id
      act decision.action pass m market decision policy (chat_of user) report)
