-- ===== src/Onboarding/Outage.antt =====
-- What `submit_uid` of app/services/referral_onboarding.py does while the exchange cannot be asked.
use vip_channel_management_s.Prelude.{ℕ, Option, none, some, Text, refl, ◌∷◌, false}
use vip_channel_management_s.World.{World, validate_user, ◌>>=◌, utcnow, Action}
use vip_channel_management_s.World.Bind.{bind_run}
use vip_channel_management_s.Session.Follows.{Follows}
use vip_channel_management_s.Monitor.Outage.Rules.{
  Spares, Spares-flush_row, Untouched, Untouched-trans, IsDown, spares_rules,
}
use vip_channel_management_s.Repositories.{
  get_by_telegram_id, get_for_market, get_by_uid, save, one_or_none,
}
use vip_channel_management_s.Onboarding.Flow.{
  new_or_claimed, Submission, submit_uid, verify, enrol, with_setup, check_uid, conclude,
  OnboardingResult, rules_of, checked,
}
use vip_channel_management_s.Onboarding.Rows.{known_user, ensure_user, Names}
use vip_channel_management_s.Models.{
  TelegramUser, ReferralAccount, ReferralProgramConfig, TelegramChannel,
}
use vip_channel_management_s.Enums.{ProviderType, Market}
use vip_channel_management_s.Tables.{flush_row}
use vip_channel_management_s.Tables.Instances.{users_table}
use vip_channel_management_s.Eligibility.{evaluate_referral, ReferralCheck}
use vip_channel_management_s.Monitor.Outage.{Spares-get_for, Spares-accounts, check_uid-IsDown}

Spares-users : (u : TelegramUser) → Follows Spares (flush_row users_table u)
Spares-users u = Spares-flush_row users_table (λ xs db. refl) (λ xs db. refl) u

Spares-get_by_uid : (t : ℕ) (p : ProviderType) (uid : Text) → Follows Spares (get_by_uid t p uid)
unfolding get_by_uid one_or_none
Spares-get_by_uid t p uid = search spares_rules

Spares-get_for_market : (t : ℕ) (m : Market) → Follows Spares (get_for_market t m)
unfolding get_for_market one_or_none
Spares-get_for_market t m = search spares_rules

Spares-get_by_telegram_id : (t id : ℕ) → Follows Spares (get_by_telegram_id t id)
unfolding get_by_telegram_id one_or_none
Spares-get_by_telegram_id t id = search spares_rules

Spares-known_user :
    (t id : ℕ) (names : Names) (o : Option TelegramUser) → Follows Spares (known_user t id names o)
unfolding known_user save
Spares-known_user t id names none = search (spares_rules, Spares-users)
Spares-known_user t id names (some u) = search (spares_rules, Spares-users)

Spares-ensure_user : (t id : ℕ) (names : Names) → Follows Spares (ensure_user t id names)
unfolding ensure_user
Spares-ensure_user t id names = search (spares_rules, Spares-get_by_telegram_id, Spares-known_user)

Spares-new_or_claimed :
    (p : ProviderType) (s : Submission) (o : Option ReferralAccount)
    → Follows Spares (new_or_claimed p s o)
unfolding new_or_claimed
Spares-new_or_claimed p s none = search spares_rules
Spares-new_or_claimed p s (some a) = search spares_rules

module _ (p : ProviderType) (s : Submission) where
  -- the steps after the exchange was asked in vain
  abbrev unanswered : ReferralAccount → Option ReferralCheck → Action OnboardingResult
  unanswered account check = do
    now ← utcnow
    let verdict = evaluate_referral check (rules_of s.config) false
    conclude s verdict.reason verdict (checked account check verdict now)

  Spares-unanswered : (account : ReferralAccount) → Follows Spares (unanswered account none)
  unfolding evaluate_referral conclude save
  Spares-unanswered account = search (spares_rules, Spares-accounts) depth 8

  Spares-asked :
      (account : ReferralAccount)
      → Follows Spares (check_uid s.uid >>= λ check. unanswered account check)
  Spares-asked account = record {
    at = λ w. record {
      when_down = λ d.
          rw
            (bind_run (check_uid s.uid) (λ check. unanswered account check) w
              (check_uid-IsDown s.uid w d))
            (Untouched-trans
              (record {
                memberships = refl;
                subscriptions = refl;
                telegram = refl;
                environment = refl;
              })
              (((Spares-unanswered account).at
                  (record w { calls = validate_user s.uid ∷ w.calls })).when_down
                d));
    };
  }

  Spares-verify : (o : Option ReferralAccount) → Follows Spares (verify p s o)
  unfolding verify
  Spares-verify o = search (spares_rules, Spares-new_or_claimed, Spares-asked)

  Spares-enrol : Follows Spares (enrol p s)
  unfolding enrol
  Spares-enrol = search (spares_rules, Spares-get_by_uid, Spares-verify)

module _ (p : ProviderType) (t tg : ℕ) (m : Market) (names : Names) where
  Spares-with_setup :
      (uid : Text) (config : Option ReferralProgramConfig) (channel : Option TelegramChannel)
      → Follows Spares (with_setup t p tg m uid names config channel)
  unfolding with_setup
  Spares-with_setup uid (some config) (some channel) =
      search (spares_rules, Spares-ensure_user, Spares-enrol)
  Spares-with_setup uid none channel = search spares_rules
  Spares-with_setup uid (some config) none = search spares_rules

  Spares-submit_uid : (raw : Text) → Follows Spares (submit_uid p t tg m raw names)
  unfolding submit_uid
  Spares-submit_uid raw =
      search (spares_rules, Spares-get_for, Spares-get_for_market, Spares-with_setup) depth 8

-- While every call of the exchange fails as unreachable, a submission, whatever it is and whether
-- it returns or raises, leaves every membership and every subscription as it is, and makes no call
-- of Telegram.
pub submit_uid-Spares :
    (p : ProviderType) (t tg : ℕ) (m : Market) (names : Names) (raw : Text) (w : World)
    → IsDown w.outside
    → Untouched w (submit_uid p t tg m raw names w).1
submit_uid-Spares p t tg m names raw w down =
    ((Spares-submit_uid p t tg m names raw).at w).when_down down
