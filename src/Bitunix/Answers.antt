-- ===== src/Bitunix/Answers.antt =====
-- What a check that `validate_user` of app/adapters/providers/bitunix.py returns can lead to.
use vip_channel_management_s.Errors.{ok}
use vip_channel_management_s.Prelude.{
  subst, ℕ, Option, some, none, true, Text, ◌≡◌, codes, ◌≢◌, ◌^◌,
}
use vip_channel_management_s.Bitunix.{validate_user, Form, form}
use vip_channel_management_s.Json.{Json, Members, get, find}
use vip_channel_management_s.Eligibility.{
  ReferralCheck, ReferralRules, evaluate_referral, EligibilityReason,
}
use vip_channel_management_s.Prelude.Int.{ℤ, ◌≤ℤ◌}
use vip_channel_management_s.Providers.{BitunixCredentials}
use vip_channel_management_s.Eligibility.Rule.{evaluate_referral-eligible_iff, Qualifies, Trades}
use vip_channel_management_s.Bitunix.Parsed.{Answered, Parsed, answered-Answered, Deposits}
use vip_channel_management_s.Decimal.{Amount, times}

-- The body of the answer says that the account is registered, and its deposits make the minimum,
-- which counts in 10⁻⁸ dollars: the sum is compared exactly.
pub record Confirms (payload : Json) (minimum : ℤ) : Type 0 where
  pub result : Members
  pub total : Amount
  pub body : get (codes "result") payload ≡ ok (Json.obj result)
  pub flag : find (codes "result") result ≡ Json.bool true
  pub deposits : Deposits result total
  pub funded : times minimum (10 ^ total.places) ≤ℤ times total.coefficient (10 ^ 8)

-- The body that was answered confirms the account.
abbrev pub Confirmed : Option Json → ℤ → Type 0
Confirmed none minimum = ⊥
Confirmed (some payload) minimum = Confirms payload minimum

-- A check that Bitunix gave never counts as eligible where trading is required, whatever it says.
pub validate_user-trading :
    (sha1 : Text → Text) (post : Form → Option Json) (credentials : BitunixCredentials) (uid : Text)
    (time : ℕ) (check : ReferralCheck) (rules : ReferralRules)
    → validate_user sha1 post credentials uid time ≡ ok check
    → (evaluate_referral (some check) rules true).reason ≢ EligibilityReason.eligible
unfolding validate_user
validate_user-trading sha1 post credentials uid time check rules h e =
    let a : Answered uid (post (form sha1 credentials uid time)) check =
      answered-Answered uid (post (form sha1 credentials uid time)) check h in
    let q : Qualifies check rules true = (evaluate_referral-eligible_iff check rules true).0 e in
    subst (λ n. Trades n rules.minimum_trades_per_period) a.parsed.trades q.traded
