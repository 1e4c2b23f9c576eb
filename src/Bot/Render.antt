-- ===== src/Bot/Render.antt =====
-- The replies of app/services/bot_conversation.py, and `render`.
use vip_channel_management_s.Prelude.{Text, Option, none, some, List, [], ◌∷◌}
use vip_channel_management_s.Prelude.Int.{◌+ℤ◌}
use vip_channel_management_s.Messages.{Message}
use vip_channel_management_s.Enums.{Market}
use vip_channel_management_s.Onboarding.Flow.{OnboardingOutcome, OnboardingResult}
use vip_channel_management_s.Eligibility.{EligibilityVerdict}
use vip_channel_management_s.Errors.{Error, Result, ok, err}

-- The inline keyboard is the list of markets that it offers.
pub record Reply : Type 0 where
  pub text : Message
  pub buttons : List Market

-- `ConversationResult([Reply(text)])`
abbrev pub say : Message → List Reply
say message = record { text = message; buttons = [] } ∷ []

-- `assert verdict is not None`
unfoldable pub shortfall_message : Option EligibilityVerdict → Result Message
shortfall_message none = err Error.assertion_error
shortfall_message (some verdict) = ok (
    Message.insufficient_balance (verdict.balance +ℤ verdict.shortfall) verdict.balance
      verdict.shortfall)

unfoldable pub message_for : OnboardingOutcome → OnboardingResult → Text → Result Message
unfolding shortfall_message
message_for OnboardingOutcome.invited result referral_link = ok (Message.invited result.invite_link)
message_for OnboardingOutcome.already_member result referral_link =
    ok (Message.already_member result.invite_link)
message_for OnboardingOutcome.invalid_uid result referral_link = ok Message.invalid_uid
message_for OnboardingOutcome.uid_claimed_by_another_user result referral_link =
    ok Message.uid_claimed
message_for OnboardingOutcome.not_registered result referral_link =
    ok (Message.not_registered referral_link)
message_for OnboardingOutcome.insufficient_balance result referral_link =
    shortfall_message result.verdict
message_for OnboardingOutcome.provider_unavailable result referral_link =
    ok Message.provider_unavailable
message_for OnboardingOutcome.not_configured result referral_link = ok Message.not_configured

unfoldable pub render : OnboardingResult → Text → Result Message
unfolding message_for
render result referral_link = message_for result.outcome result referral_link
