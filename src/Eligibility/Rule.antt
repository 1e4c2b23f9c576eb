-- ===== src/Eligibility/Rule.antt =====
-- What `evaluate_referral` of app/domain/eligibility.py decides, branch by branch.
use vip_channel_management_s.Prelude.{
  false, ℕ, ◌≤◌, ◌≡◌, ◌↔◌, refl, Bool, true, Option, none, some, arith,
}
use vip_channel_management_s.Prelude.Int.{ℤ, pos, ◌≤ℤ◌, ◌+ℤ◌, ◌-ℤ◌}
use vip_channel_management_s.Enums.{ComplianceState}
use vip_channel_management_s.Eligibility.{
  ReferralCheck, ReferralRules, EligibilityReason, evaluate_referral,
}

-- The trading rule on the number of trades that the provider reported, if any.
abbrev pub Trades : Option ℕ → ℕ → Type 0
Trades none least = ⊥
Trades (some n) least = least ≤ n

-- The rule where trading is required, and nothing where it is not.
abbrev pub TradedIf : Bool → Option ℕ → ℕ → Type 0
TradedIf false trades least = Unit
TradedIf true trades least = Trades trades least

-- Who qualifies: a registered account at or above the minimum that, where trading is required,
-- is known to have made enough trades.
pub record Qualifies (check : ReferralCheck) (rules : ReferralRules) (trading : Bool) : Type 0 where
  pub registered : check.registered ≡ true
  pub funded : rules.minimum_balance ≤ℤ check.deposit_total
  pub traded : TradedIf trading check.qualifying_trades rules.minimum_trades_per_period

-- What the provider left open: everything, or the trades of an account that is otherwise in order.
abbrev pub Untold : Option ReferralCheck → ReferralRules → Bool → Type 0
Untold none rules trading = Unit
Untold (some check) rules trading =
    (trading ≡ true)
    × (check.registered ≡ true)
    × (rules.minimum_balance ≤ℤ check.deposit_total)
    × (check.qualifying_trades ≡ none)

abbrev pub state_of : EligibilityReason → ComplianceState
state_of EligibilityReason.eligible = ComplianceState.compliant
state_of EligibilityReason.provider_unavailable = ComplianceState.provider_unavailable
state_of _ = ComplianceState.non_compliant

-- A verdict is ELIGIBLE exactly for an account that qualifies; there is no upper bound.
pub evaluate_referral-eligible_iff :
    (check : ReferralCheck) (rules : ReferralRules) (trading : Bool)
    → ((evaluate_referral (some check) rules trading).reason ≡ EligibilityReason.eligible)
      ↔ Qualifies check rules trading
unfolding evaluate_referral
evaluate_referral-eligible_iff check rules trading = (λ h. ground arith, λ q. ground arith)

-- A richer account with the same registration and trades stays eligible.
pub richer_stays_eligible :
    (check : ReferralCheck) (rules : ReferralRules) (trading : Bool) (deposit : ℤ)
    → check.deposit_total ≤ℤ deposit
    → (evaluate_referral (some check) rules trading).reason ≡ EligibilityReason.eligible
    → (evaluate_referral (some (record check { deposit_total = deposit })) rules trading).reason
      ≡ EligibilityReason.eligible
unfolding evaluate_referral
richer_stays_eligible check rules trading deposit h e = ground arith

-- A verdict of INSUFFICIENT_BALANCE reports the balance and a shortfall above zero that together
-- make the minimum exactly.
pub shortfall_exact :
    (check : ReferralCheck) (rules : ReferralRules) (trading : Bool)
    → (evaluate_referral (some check) rules trading).reason ≡ EligibilityReason.insufficient_balance
    → let v = evaluate_referral (some check) rules trading in
      (v.balance +ℤ v.shortfall ≡ rules.minimum_balance) × (pos 1 ≤ℤ v.shortfall)
unfolding evaluate_referral ◌+ℤ◌ ◌-ℤ◌
shortfall_exact check rules trading h = ground arith

-- A failed call, and an answer without trades where trading is required of a registered account
-- that is funded, give PROVIDER_UNAVAILABLE, and nothing else does.
pub evaluate_referral-unavailable_iff :
    (answer : Option ReferralCheck) (rules : ReferralRules) (trading : Bool)
    → ((evaluate_referral answer rules trading).reason ≡ EligibilityReason.provider_unavailable)
      ↔ Untold answer rules trading
unfolding evaluate_referral
evaluate_referral-unavailable_iff none rules trading = (λ h. tt, λ q. refl)
evaluate_referral-unavailable_iff (some check) rules trading =
    (λ h. ground arith, λ q. ground arith)

-- The state that is recorded follows the reason: COMPLIANT for ELIGIBLE, PROVIDER_UNAVAILABLE for
-- PROVIDER_UNAVAILABLE, and NON_COMPLIANT for the three faults of the account.
pub compliance_state_of_reason :
    (answer : Option ReferralCheck) (rules : ReferralRules) (trading : Bool)
    → let v = evaluate_referral answer rules trading in v.compliance_state ≡ state_of v.reason
unfolding evaluate_referral
compliance_state_of_reason none rules trading = refl
compliance_state_of_reason (some check) rules trading = ground arith
