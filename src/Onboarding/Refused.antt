-- ===== src/Onboarding/Refused.antt =====
-- What `submit_uid` of app/services/referral_onboarding.py leaves alone where it admits nobody.
use vip_channel_management_s.Prelude.{
  ℕ, Bool, true, false, Option, none, some, Text, ◌≡◌, refl, if◌then◌else◌,
}
use vip_channel_management_s.Errors.{ok}
use vip_channel_management_s.World.{World, Action, pure, ◌>>=◌}
use vip_channel_management_s.World.Bind.{bind_ok}
use vip_channel_management_s.World.Ensures.{Ensures, ensures_rules}
use vip_channel_management_s.Session.Follows.{Follows, along}
use vip_channel_management_s.Monitor.Outage.Rules.{
  Untouched, Untouched-trans, Untouched-flush_row, untouched_rules,
}
use vip_channel_management_s.Onboarding.Flow.{
  OnboardingOutcome, OnboardingResult, Submission, check_uid, conclude, verify, enrol, with_setup,
  submit_uid, admit, new_or_claimed,
}
use vip_channel_management_s.Onboarding.Rows.{Names, ensure_user, known_user}
use vip_channel_management_s.Onboarding.Outcomes.{admitted}
use vip_channel_management_s.Models.{
  TelegramUser, ReferralAccount, ReferralProgramConfig, TelegramChannel,
}
use vip_channel_management_s.Eligibility.{EligibilityReason, EligibilityVerdict}
use vip_channel_management_s.Enums.{ProviderType, Market}
use vip_channel_management_s.Tables.{flush_row}
use vip_channel_management_s.Tables.Instances.{users_table, accounts_table}
use vip_channel_management_s.Repositories.{
  one_or_none, save, get_by_uid, get_by_telegram_id, get_for, get_for_market,
}

-- Where the action returns a result that admits nobody, it has left memberships, subscriptions and
-- Telegram alone.
record Refuses (m : Action OnboardingResult) : Type 0 where
  holds :
      (w : World) (r : OnboardingResult) (w' : World)
      → m w ≡ (ok r, w')
      → admitted r.outcome ≡ false
      → Untouched w w'

Refuses-Untouched : (m : Action OnboardingResult) → Follows Untouched m → Refuses m
Refuses-Untouched m k = record { holds = λ w r w' e h. along Untouched m w k e }

Refuses-pure : (r : OnboardingResult) → Refuses (pure r)
Refuses-pure r = Refuses-Untouched (pure r) (search untouched_rules)

Refuses-if :
    (b : Bool) (m n : Action OnboardingResult)
    → Refuses m
    → Refuses n
    → Refuses (if b then m else n)
Refuses-if true m n km kn = km
Refuses-if false m n km kn = kn

Refuses-bind :
    {A : Type 0} (m : Action A) (f : A → Action OnboardingResult)
    → Follows Untouched m
    → ((a : A) → Refuses (f a))
    → Refuses (m >>= f)
Refuses-bind m f km kf = record {
  holds = λ w r w' e h.
      let (a, u, e1, e2) = bind_ok m f w e in
      Untouched-trans (along Untouched m w km e1) ((kf a).holds u r w' e2 h);
}

ruleset refuses_rules = (untouched_rules, Refuses-pure, Refuses-if, Refuses-bind)

Untouched-users : (u : TelegramUser) → Follows Untouched (flush_row users_table u)
Untouched-users u = Untouched-flush_row users_table (λ xs db. refl) (λ xs db. refl) u

Untouched-accounts : (a : ReferralAccount) → Follows Untouched (flush_row accounts_table a)
Untouched-accounts a = Untouched-flush_row accounts_table (λ xs db. refl) (λ xs db. refl) a

Untouched-save : (t : ℕ) (a : ReferralAccount) → Follows Untouched (save accounts_table t a)
unfolding save
Untouched-save t a = search Untouched-accounts

Untouched-get_for : (t : ℕ) (p : ProviderType) (m : Market) → Follows Untouched (get_for t p m)
unfolding get_for one_or_none
Untouched-get_for t p m = search untouched_rules

Untouched-get_for_market : (t : ℕ) (m : Market) → Follows Untouched (get_for_market t m)
unfolding get_for_market one_or_none
Untouched-get_for_market t m = search untouched_rules

Untouched-get_by_uid :
    (t : ℕ) (p : ProviderType) (uid : Text) → Follows Untouched (get_by_uid t p uid)
unfolding get_by_uid one_or_none
Untouched-get_by_uid t p uid = search untouched_rules

Untouched-get_by_telegram_id : (t id : ℕ) → Follows Untouched (get_by_telegram_id t id)
unfolding get_by_telegram_id one_or_none
Untouched-get_by_telegram_id t id = search untouched_rules

Untouched-known_user :
    (t id : ℕ) (names : Names) (o : Option TelegramUser)
    → Follows Untouched (known_user t id names o)
unfolding known_user save
Untouched-known_user t id names none = search (untouched_rules, Untouched-users)
Untouched-known_user t id names (some u) = search (untouched_rules, Untouched-users)

Untouched-ensure_user : (t id : ℕ) (names : Names) → Follows Untouched (ensure_user t id names)
unfolding ensure_user
Untouched-ensure_user t id names =
    search (untouched_rules, Untouched-get_by_telegram_id, Untouched-known_user)

Untouched-check_uid : (uid : Text) → Follows Untouched (check_uid uid)
unfolding check_uid
Untouched-check_uid uid = search untouched_rules

Untouched-new_or_claimed :
    (p : ProviderType) (s : Submission) (o : Option ReferralAccount)
    → Follows Untouched (new_or_claimed p s o)
unfolding new_or_claimed
Untouched-new_or_claimed p s none = search untouched_rules
Untouched-new_or_claimed p s (some a) = search untouched_rules

admitted_either :
    (b : Bool)
    → admitted (if b then OnboardingOutcome.already_member else OnboardingOutcome.invited) ≡ true
admitted_either true = refl
admitted_either false = refl

Ensures-admit :
    (s : Submission) (v : EligibilityVerdict) → Ensures (λ r. admitted r.outcome ≡ true) (admit s v)
unfolding admit
Ensures-admit s v = search (ensures_rules, admitted_either) depth 10

Refuses-admit : (s : Submission) (v : EligibilityVerdict) → Refuses (admit s v)
Refuses-admit s v = record { holds = λ w r w' e h. cc ((Ensures-admit s v).holds w r w' e, h) }

Refuses-conclude :
    (s : Submission) (reason : EligibilityReason) (v : EligibilityVerdict) (a : ReferralAccount)
    → Refuses (conclude s reason v a)
unfolding conclude
Refuses-conclude s EligibilityReason.eligible v a =
    search (refuses_rules, Untouched-save, Refuses-admit) depth 8
Refuses-conclude s EligibilityReason.provider_unavailable v a =
    search (refuses_rules, Untouched-save) depth 8
Refuses-conclude s _ v a = search (refuses_rules, Untouched-save) depth 8

Refuses-verify :
    (p : ProviderType) (s : Submission) (o : Option ReferralAccount) → Refuses (verify p s o)
unfolding verify
Refuses-verify p s o =
    search (refuses_rules, Untouched-new_or_claimed, Untouched-check_uid, Refuses-conclude) depth 8

Refuses-enrol : (p : ProviderType) (s : Submission) → Refuses (enrol p s)
unfolding enrol
Refuses-enrol p s = search (refuses_rules, Untouched-get_by_uid, Refuses-verify) depth 8

Refuses-with_setup :
    (p : ProviderType) (t tg : ℕ) (m : Market) (names : Names) (uid : Text)
    (config : Option ReferralProgramConfig) (channel : Option TelegramChannel)
    → Refuses (with_setup t p tg m uid names config channel)
unfolding with_setup
Refuses-with_setup p t tg m names uid (some config) (some channel) =
    search (refuses_rules, Untouched-ensure_user, Refuses-enrol) depth 8
Refuses-with_setup p t tg m names uid none channel = search refuses_rules
Refuses-with_setup p t tg m names uid (some config) none = search refuses_rules

Refuses-submit_uid :
    (p : ProviderType) (t tg : ℕ) (m : Market) (names : Names) (raw : Text)
    → Refuses (submit_uid p t tg m raw names)
unfolding submit_uid
Refuses-submit_uid p t tg m names raw =
    search (refuses_rules, Untouched-get_for, Untouched-get_for_market, Refuses-with_setup) depth 8

-- A submission that returns an outcome other than INVITED and ALREADY_MEMBER, whatever the exchange
-- answered, has left every membership and every subscription as it was, and has made no call of
-- Telegram.
pub submit_uid-Untouched :
    (p : ProviderType) (t tg : ℕ) (m : Market) (names : Names) (raw : Text) (r : OnboardingResult)
    (w w' : World)
    → submit_uid p t tg m raw names w ≡ (ok r, w')
    → admitted r.outcome ≡ false
    → Untouched w w'
submit_uid-Untouched p t tg m names raw r w w' e h =
    (Refuses-submit_uid p t tg m names raw).holds w r w' e h
