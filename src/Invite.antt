-- ===== src/Invite.antt =====
-- app/services/invite_service.py: the one place where an invite link is created. The membership
-- object that `issue` changes comes back beside its result, and the caller saves it.
pub mod Live
use vip_channel_management_s.Prelude.{
  ℕ, ◌+◌, Bool, true, false, Option, none, some, Text, [], ◌∷◌, leb, if◌then◌else◌,
}
use vip_channel_management_s.Time.{Datetime, aware, instant, days}
use vip_channel_management_s.Enums.{MembershipStatus, is_active_status}
use vip_channel_management_s.Models.{VipMembership, TelegramChannel}
use vip_channel_management_s.World.{
  World, Action, create_invite_link, pure, ◌>>=◌, ◌>>◌, utcnow, ask_telegram,
}

-- DEFAULT_INVITE_TTL
abbrev pub default_invite_ttl : ℕ
default_invite_ttl = days 1

-- `status in _LINK_IS_LIVE`
abbrev pub link_is_live : MembershipStatus → Bool
link_is_live MembershipStatus.invited = true
link_is_live MembershipStatus.active = true
link_is_live _ = false

pub record IssuedInvite : Type 0 where
  pub link : Text
  pub reused : Bool

-- An empty text is no link.
abbrev pub truthy : Option Text → Option Text
truthy none = none
truthy (some []) = none
truthy (some (c ∷ cs)) = some (c ∷ cs)

fresh : Option Datetime → ℕ → ℕ → Bool
fresh none moment ttl = false
fresh (some issued) moment ttl = if leb (instant issued + ttl) moment then false else true

unfoldable pub live_link : VipMembership → ℕ → ℕ → Option Text
unfolding fresh
live_link membership moment ttl =
    if link_is_live membership.status
    then if fresh membership.invite_issued_at moment ttl
      then truthy membership.invite_link
      else none
    else none

-- the membership after a new link
abbrev pub issued : VipMembership → ℕ → ℕ → Text → VipMembership
issued membership tenant_id moment link = record membership {
  invite_link = some link;
  invite_issued_at = some (aware moment);
  status =
      if is_active_status membership.status then membership.status else MembershipStatus.invited;
  tenant_id = tenant_id;
}

unfoldable pub mint :
    ℕ → VipMembership → TelegramChannel → ℕ → Option Text → Action (IssuedInvite × VipMembership)
mint tenant_id membership channel moment (some link) =
    pure (record { link = link; reused = true }, membership)
mint tenant_id membership channel moment none = do
  link ←
      ask_telegram
        (create_invite_link channel.chat_id 1 (moment + default_invite_ttl) membership.user_id)
  pure (record { link = link; reused = false }, issued membership tenant_id moment link)

unfoldable pub issue : ℕ → VipMembership → TelegramChannel → Action (IssuedInvite × VipMembership)
unfolding mint ask_telegram
issue tenant_id membership channel = do
  moment ← utcnow
  mint tenant_id membership channel moment (live_link membership moment default_invite_ttl)
