-- ===== src/Bot/Plain.antt =====
-- Replies of app/services/bot_conversation.py that carry no invite link.
use vip_channel_management_s.Prelude.{
  ℕ, Bool, true, false, Option, none, some, List, [], ◌∷◌, ◌≡◌, refl, any,
}
use vip_channel_management_s.Messages.{Message}
use vip_channel_management_s.World.Ensures.{Ensures, ensures_rules, Ensures-pure}
use vip_channel_management_s.Enums.{ProviderType, Market}
use vip_channel_management_s.Bot.Render.{Reply}
use vip_channel_management_s.Bot.Flow.{
  offer, IncomingUpdate, offer_referral_link, start, press, greet,
}
use vip_channel_management_s.Models.{ReferralProgramConfig}

abbrev pub is_invitation : Message → Bool
is_invitation (Message.invited link) = true
is_invitation (Message.already_member link) = true
is_invitation _ = false

-- Some reply carries an invite link.
abbrev pub invites : List Reply → Bool
invites replies = any (λ r. is_invitation r.text) replies

-- No reply does.
abbrev pub Plain : List Reply → Type 0
Plain replies = invites replies ≡ false

Plain-offer :
    (t : ℕ) (u : IncomingUpdate) (m : Market) (c : Option ReferralProgramConfig)
    → Ensures Plain (offer t u m c)
unfolding offer
Plain-offer t u m none = Ensures-pure _ refl
Plain-offer t u m (some c) = search ensures_rules depth 8

module _ (p : ProviderType) (t : ℕ) (u : IncomingUpdate) where
  Plain-offer_referral_link : (m : Market) → Ensures Plain (offer_referral_link p t u m)
  unfolding offer_referral_link
  Plain-offer_referral_link m = search (ensures_rules, Plain-offer)

  Plain-greet : (ms : List Market) → Ensures Plain (greet p t u ms)
  unfolding greet
  Plain-greet [] = Ensures-pure _ refl
  Plain-greet (m ∷ []) = Plain-offer_referral_link m
  Plain-greet (m ∷ n ∷ ms) = Ensures-pure _ refl

  pub Plain-start : Ensures Plain (start p t u)
  unfolding start
  Plain-start = search (ensures_rules, Plain-greet)

  pub Plain-press : (o : Option Market) → Ensures Plain (press p t u o)
  unfolding press
  Plain-press none = Ensures-pure _ refl
  Plain-press (some m) = Plain-offer_referral_link m
