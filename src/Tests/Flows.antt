-- ===== src/Tests/Flows.antt =====
-- Submissions, updates and passes at concrete inputs.
use vip_channel_management_s.Prelude.{refl, ◌≡◌, false, some, none, codes, List}
use vip_channel_management_s.Tests.Data.{
  world, db, member_db, answering, silent, funded, poor, rules, settings, update, names,
  AllKeyed-db, AllKeyed-member_db, config,
}
use vip_channel_management_s.Onboarding.Outcomes.{Admission, submit_uid-admitted}
use vip_channel_management_s.Onboarding.Flow.{
  submit_uid, OnboardingResult, OnboardingOutcome, with_setup, enrol, rules_of, verify, conclude,
  admit, new_or_claimed, checked, check_uid,
}
use vip_channel_management_s.World.{World, catch, ◌>>=◌, ask_telegram, ask_exchange}
use vip_channel_management_s.Bot.Render.{Reply, say, render, message_for}
use vip_channel_management_s.Enums.{ProviderType, Market}
use vip_channel_management_s.Eligibility.{evaluate_referral}
use vip_channel_management_s.Messages.{Message}
use vip_channel_management_s.Uid.{
  normalize_uid, isdigit, is_valid_bitunix_uid, digits_to_end, fold_digit, is_separator, strip,
  left_strip,
}
use vip_channel_management_s.Session.Defs.{Isolated}
use vip_channel_management_s.Bot.Admission.{LetIn, handle-LetIn}
use vip_channel_management_s.Monitor.Outage.Rules.{Untouched}
use vip_channel_management_s.Bot.Flow.{
  handle, dispatch, read, handle_uid, submit_to_pending, submit, after_prefix,
}
use vip_channel_management_s.Onboarding.Rows.{
  ensure_user, known_user, ensure_subscription, known_subscription, ensure_membership,
  known_membership, rejoined,
}
use vip_channel_management_s.Monitor.Run.{run}
use vip_channel_management_s.Bot.Keep.{handle-Isolated}
use vip_channel_management_s.Errors.{ok}
use vip_channel_management_s.Monitor.Keep.{run-Isolated}
use vip_channel_management_s.Monitor.Outage.{run-Spares}
use vip_channel_management_s.Repositories.{
  get_for, get_for_market, get_by_telegram_id, get_by_uid, get_active_for_user,
  get_for_user_and_channel, one_or_none, save,
}
use vip_channel_management_s.Uid.Characters.{is_digit, is_space, is_decimal}
use vip_channel_management_s.Tables.{query, flush_row, put_row}
use vip_channel_management_s.Invite.{issue, mint, live_link}
use vip_channel_management_s.Onboarding.Outage.{submit_uid-Spares}
use vip_channel_management_s.Onboarding.Refused.{submit_uid-Untouched}

abbrev start_world : World
start_world = world db (answering funded)

abbrev member_world : World
member_world = world member_db silent

abbrev reply : List Reply
reply = say (Message.invited (some (codes "link")))

abbrev admitted_result : OnboardingResult
admitted_result = record {
  outcome = OnboardingOutcome.invited;
  invite_link = some (codes "link");
  verdict = some (evaluate_referral (some funded) (rules_of config) false);
  uid = some (codes "123456789");
}

-- A member who submits a UID is invited.
submit_runs :
    submit_uid ProviderType.bitunix 1 55 Market.crypto (codes "123456789") names start_world ≡ (
      ok admitted_result,
      (submit_uid ProviderType.bitunix 1 55 Market.crypto (codes "123456789") names start_world).1,
    )
unfolding submit_uid with_setup enrol verify conclude admit new_or_claimed checked check_uid
    ensure_user known_user get_for get_for_market get_by_telegram_id get_by_uid get_active_for_user
    get_for_user_and_channel one_or_none query flush_row put_row save ensure_subscription
    known_subscription ensure_membership known_membership rejoined issue mint live_link ask_telegram
    ask_exchange catch ◌>>=◌ evaluate_referral normalize_uid is_valid_bitunix_uid digits_to_end
    fold_digit is_separator strip left_strip is_space is_decimal
submit_runs = refl

submit_uid-admitted_example :
    Admission ProviderType.bitunix 1 Market.crypto
      (normalize_uid (some (codes "123456789")))
      start_world
submit_uid-admitted_example =
    submit_uid-admitted ProviderType.bitunix 1 55 Market.crypto names (codes "123456789")
      start_world submit_runs refl

handle_runs :
    handle ProviderType.bitunix 1 update start_world
    ≡ (ok reply, (handle ProviderType.bitunix 1 update start_world).1)
unfolding handle dispatch read handle_uid submit_to_pending submit after_prefix isdigit is_digit
    render message_for submit_uid with_setup enrol verify conclude admit new_or_claimed checked
    check_uid ensure_user known_user get_for get_for_market get_by_telegram_id get_by_uid
    get_active_for_user get_for_user_and_channel one_or_none query flush_row put_row save
    ensure_subscription known_subscription ensure_membership known_membership rejoined issue mint
    live_link ask_telegram ask_exchange catch ◌>>=◌ evaluate_referral normalize_uid
    is_valid_bitunix_uid digits_to_end fold_digit is_separator strip left_strip is_space is_decimal
handle_runs = refl

handle-LetIn_example : LetIn ProviderType.bitunix 1 update start_world
handle-LetIn_example = handle-LetIn ProviderType.bitunix 1 update start_world handle_runs refl

handle-Isolated_example :
    Isolated 1 start_world (handle ProviderType.bitunix 1 update start_world).1
handle-Isolated_example =
    handle-Isolated 1 ProviderType.bitunix 1 update start_world refl AllKeyed-db

run-Isolated_example : Isolated 1 member_world (run settings 1 none member_world).1
run-Isolated_example = run-Isolated 1 settings 1 none member_world refl AllKeyed-member_db

run-Spares_example : Untouched member_world (run settings 1 none member_world).1
run-Spares_example = run-Spares settings 1 none member_world (λ history uid. refl)

submit_uid-Spares_example :
    Untouched member_world
      (submit_uid ProviderType.bitunix 1 55 Market.crypto (codes "123456789") names member_world).1
submit_uid-Spares_example =
    submit_uid-Spares ProviderType.bitunix 1 55 Market.crypto names (codes "123456789") member_world
      (λ history uid. refl)

abbrev poor_world : World
poor_world = world db (answering poor)

abbrev refused_result : OnboardingResult
refused_result = record {
  outcome = OnboardingOutcome.insufficient_balance;
  invite_link = none;
  verdict = some (evaluate_referral (some poor) rules false);
  uid = some (codes "123456789");
}

submit_refused :
    submit_uid ProviderType.bitunix 1 55 Market.crypto (codes "123456789") names poor_world ≡ (
      ok refused_result,
      (submit_uid ProviderType.bitunix 1 55 Market.crypto (codes "123456789") names poor_world).1,
    )
unfolding submit_uid with_setup enrol verify conclude admit new_or_claimed checked check_uid
    ensure_user known_user get_for get_for_market get_by_telegram_id get_by_uid get_active_for_user
    get_for_user_and_channel one_or_none query flush_row put_row save ensure_subscription
    known_subscription ensure_membership known_membership rejoined issue mint live_link ask_telegram
    ask_exchange catch ◌>>=◌ evaluate_referral normalize_uid is_valid_bitunix_uid digits_to_end
    fold_digit is_separator strip left_strip is_space is_decimal
submit_refused = refl

submit_uid-Untouched_example :
    Untouched poor_world
      (submit_uid ProviderType.bitunix 1 55 Market.crypto (codes "123456789") names poor_world).1
submit_uid-Untouched_example =
    submit_uid-Untouched ProviderType.bitunix 1 55 Market.crypto names (codes "123456789")
      refused_result poor_world
      (submit_uid ProviderType.bitunix 1 55 Market.crypto (codes "123456789") names poor_world).1
      submit_refused refl
