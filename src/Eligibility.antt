-- ===== src/Eligibility.antt =====
-- The referral rule of app/domain/eligibility.py and the provider's answer of
-- app/application/ports/referral_provider.py. An amount is an integer count of 10⁻⁸ dollars, the
-- scale of the Numeric(30, 8) columns.
pub mod Rule
use vip_channel_management_s.Prelude.{
  ℕ, Bool, true, false, not, Option, none, some, Text, ltb, if◌then◌else◌,
}
use vip_channel_management_s.Prelude.Int.{ℤ, pos, ltb_ℤ, ◌-ℤ◌}
use vip_channel_management_s.Enums.{ComplianceState}

-- `ReferralCheck`; `raw` is only kept for logs.
pub record ReferralCheck : Type 0 where
  pub uid : Text
  pub registered : Bool
  pub deposit_total : ℤ
  pub qualifying_trades : Option ℕ

pub data EligibilityReason : Type 0 where
  eligible not_registered insufficient_balance insufficient_trading : EligibilityReason
  provider_unavailable : EligibilityReason

pub record ReferralRules : Type 0 where
  pub minimum_balance : ℤ
  pub minimum_trades_per_period : ℕ
  pub trade_period_days : ℕ

pub record EligibilityVerdict : Type 0 where
  pub reason : EligibilityReason
  pub compliance_state : ComplianceState
  pub balance : ℤ
  pub shortfall : ℤ

abbrev pub is_eligible : EligibilityReason → Bool
is_eligible EligibilityReason.eligible = true
is_eligible _ = false

abbrev pub is_provider_unavailable : EligibilityReason → Bool
is_provider_unavailable EligibilityReason.provider_unavailable = true
is_provider_unavailable _ = false

-- the last return of `evaluate_referral`
abbrev passed : ReferralCheck → EligibilityVerdict
passed check = record {
  reason = EligibilityReason.eligible;
  compliance_state = ComplianceState.compliant;
  balance = check.deposit_total;
  shortfall = pos 0;
}

-- the branch under `if require_trading`
evaluate_trading : Option ℕ → ReferralCheck → ReferralRules → EligibilityVerdict
evaluate_trading none check rules = record {
  reason = EligibilityReason.provider_unavailable;
  compliance_state = ComplianceState.provider_unavailable;
  balance = check.deposit_total;
  shortfall = pos 0;
}
evaluate_trading (some trades) check rules =
    if ltb trades rules.minimum_trades_per_period
    then record {
      reason = EligibilityReason.insufficient_trading;
      compliance_state = ComplianceState.non_compliant;
      balance = check.deposit_total;
      shortfall = pos 0;
    }
    else passed check

evaluate_check : ReferralCheck → ReferralRules → Bool → EligibilityVerdict
unfolding evaluate_trading
evaluate_check check rules require_trading =
    if not check.registered
    then record {
      reason = EligibilityReason.not_registered;
      compliance_state = ComplianceState.non_compliant;
      balance = check.deposit_total;
      shortfall = pos 0;
    }
    else if ltb_ℤ check.deposit_total rules.minimum_balance
    then record {
      reason = EligibilityReason.insufficient_balance;
      compliance_state = ComplianceState.non_compliant;
      balance = check.deposit_total;
      shortfall = rules.minimum_balance -ℤ check.deposit_total;
    }
    else if require_trading
    then evaluate_trading check.qualifying_trades check rules
    else passed check

unfoldable pub evaluate_referral : Option ReferralCheck → ReferralRules → Bool → EligibilityVerdict
unfolding evaluate_check
evaluate_referral none rules require_trading = record {
  reason = EligibilityReason.provider_unavailable;
  compliance_state = ComplianceState.provider_unavailable;
  balance = pos 0;
  shortfall = pos 0;
}
evaluate_referral (some check) rules require_trading = evaluate_check check rules require_trading
