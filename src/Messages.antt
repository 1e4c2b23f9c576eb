-- ===== src/Messages.antt =====
-- What the bot says (app/domain/messages.py): one constructor for each template, with the values
-- that are filled in. The Persian wording is left out.
pub mod Amounts
use vip_channel_management_s.Prelude.Int.{ℤ}
use vip_channel_management_s.Prelude.{ℕ, Option, some, Text}
use vip_channel_management_s.Eligibility.{EligibilityReason}

-- The entries of `REASON_TEXT`
pub data ReasonText : Type 0 where
  no_longer_registered balance_below_minimum no_qualifying_trade : ReasonText
  blank : ReasonText

pub data Message : Type 0 where
  welcome : (name : Text) → (referral_link : Text) → Message
  choose_market ask_for_uid invalid_uid uid_claimed : Message
  not_registered : (referral_link : Text) → Message
  insufficient_balance : (minimum : ℤ) → (balance : ℤ) → (shortfall : ℤ) → Message
  provider_unavailable not_configured : Message
  invited already_member : (invite_link : Option Text) → Message
  compliance_warning :
      (warning_number : ℕ) → (max_warnings : ℕ) → (reason_text : ReasonText) → Message
  membership_revoked : (reason_text : ReasonText) → Message
  membership_restored : Message

-- `REASON_TEXT.get(detail or "", "")`
unfoldable pub reason_text : Option EligibilityReason → ReasonText
reason_text (some EligibilityReason.not_registered) = no_longer_registered
reason_text (some EligibilityReason.insufficient_balance) = balance_below_minimum
reason_text (some EligibilityReason.insufficient_trading) = no_qualifying_trade
reason_text _ = blank
