-- ===== src/Tests/Requests.antt =====
-- Sweeps and webhook requests at concrete inputs.
use vip_channel_management_s.Prelude.{refl, ◌≡◌, true, none, [], ◌∷◌, Text, Option, ℕ, codes, some}
use vip_channel_management_s.Tests.Data.{
  world, db, member_db, silent, funded, decrypt, settings, update, poor, AllKeyed-member_db,
  answering, credential,
}
use vip_channel_management_s.Onboarding.Flow.{
  submit_uid, with_setup, enrol, verify, conclude, admit, new_or_claimed, checked, check_uid,
}
use vip_channel_management_s.World.{
  World, catch, ◌>>=◌, ask_telegram, ask_exchange, send_message, Outside,
}
use vip_channel_management_s.Providers.{
  telegram, referral_provider, token_of, secret, opened, decrypted,
}
use vip_channel_management_s.Bot.Render.{render, message_for}
use vip_channel_management_s.Enums.{ProviderType}
use vip_channel_management_s.Eligibility.{evaluate_referral, ReferralCheck}
use vip_channel_management_s.Messages.{Message, reason_text}
use vip_channel_management_s.Uid.{
  normalize_uid, isdigit, is_valid_bitunix_uid, digits_to_end, fold_digit, is_separator, strip,
  left_strip,
}
use vip_channel_management_s.Webhook.{serve}
use vip_channel_management_s.Transactions.{providers}
use vip_channel_management_s.Bot.Flow.{
  handle, dispatch, read, handle_uid, submit_to_pending, submit, after_prefix,
}
use vip_channel_management_s.Sweep.Live.{AllOpen, run_compliance_sweep-returns}
use vip_channel_management_s.Sweep.{run_compliance_sweep, sweep_tenant, sweep_all, settings_for}
use vip_channel_management_s.Onboarding.Rows.{
  ensure_user, known_user, ensure_subscription, known_subscription, ensure_membership,
  known_membership, rejoined,
}
use vip_channel_management_s.Monitor.Run.{
  run, run_claimed, failing, process_all, process, examine_first, examine, judge, record_activity,
}
use vip_channel_management_s.Errors.{ok, err, Error}
use vip_channel_management_s.Webhook.Answers.{serve-returns, serve-rolled_back}
use vip_channel_management_s.Sweep.Contained.{sweep_all-stopped, sweep_tenant-rolled_back}
use vip_channel_management_s.Repositories.{
  get_for, get_for_market, get_by_telegram_id, get_by_uid, get_named, get_active_for_user,
  get_for_user_and_channel, get_bot_config, one_or_none, save, list_by_status, list_for_user,
  get_by_id,
}
use vip_channel_management_s.Uid.Characters.{is_digit, is_space, is_decimal}
use vip_channel_management_s.Tables.{query, flush_row, put_row}
use vip_channel_management_s.Invite.{issue, mint, live_link}
use vip_channel_management_s.PeriodLock.{claim_period, period_start_for, finish}
use vip_channel_management_s.Prelude.Int.{pos}
use vip_channel_management_s.Monitor.Actions.{apply, act, tell}
use vip_channel_management_s.Compliance.{decide_compliance}
use vip_channel_management_s.Monitor.Report.{MonitorReport}
use vip_channel_management_s.Monitor.Counted.{Counted, run-Counted}

abbrev member_world : World
member_world = world member_db silent

abbrev visitor_world : World
visitor_world = record member_world { bound = none }

secrets_open : AllOpen decrypt visitor_world
secrets_open = record {
  keyed = AllKeyed-member_db;
  opens = ((codes "plain", refl), ((codes "plain", refl), ((codes "plain", refl), tt)));
}

run_compliance_sweep-returns_example :
    (w' : World) × (run_compliance_sweep decrypt ProviderType.bitunix settings.period visitor_world
      ≡ (ok tt, w'))
    × AllOpen decrypt w'
run_compliance_sweep-returns_example =
    run_compliance_sweep-returns decrypt ProviderType.bitunix settings.period visitor_world
      secrets_open

-- no secret can be decrypted
abbrev lost : Text → Option Text
lost sealed = none

sweep_all-stopped_example :
    sweep_all lost ProviderType.bitunix settings.period (1 ∷ 2 ∷ []) visitor_world
    ≡ (err Error.credential_encryption, visitor_world)
unfolding get_named one_or_none query ◌>>=◌
sweep_all-stopped_example =
    sweep_all-stopped lost settings.period 1 (2 ∷ []) visitor_world
      (credential 82 ProviderType.bitunix (codes "api_key")) refl refl

serve-returns_example : (serve decrypt 1 update visitor_world).0 ≡ ok tt
unfolding providers referral_provider telegram token_of secret opened decrypted get_named
    get_bot_config one_or_none query catch ◌>>=◌
serve-returns_example =
    serve-returns decrypt 1 update true visitor_world member_world (λ h c m b. refl) refl

-- The exchange tells of a poor account, and Telegram cannot be reached: the warning raises.
abbrev mute : ReferralCheck → Outside
mute check = record {
  telegram = λ calls c. err Error.provider_unavailable;
  exchange = λ calls uid. ok check;
}

abbrev mute_world : World
mute_world = world member_db (mute poor)

abbrev mute_visitor : World
mute_visitor = record mute_world { bound = none }

abbrev period : ℕ
period = settings.period

built : providers decrypt 1 ProviderType.bitunix mute_world ≡ (ok true, mute_world)
unfolding providers referral_provider telegram token_of secret opened decrypted get_named
    get_bot_config one_or_none query catch ◌>>=◌
built = refl

pass_raises :
    run (settings_for period) 1 none mute_world
    ≡ (err Error.provider_unavailable, (run (settings_for period) 1 none mute_world).1)
unfolding run claim_period period_start_for flush_row put_row run_claimed failing list_by_status
    query process_all process list_for_user examine_first get_for one_or_none examine check_uid
    ask_exchange judge evaluate_referral checked record_activity apply decide_compliance get_by_id
    act tell ask_telegram finish reason_text catch ◌>>=◌
pass_raises = refl

sweep_tenant-rolled_back_example :
    let u = (run (settings_for period) 1 none mute_world).1 in
    sweep_tenant decrypt ProviderType.bitunix period 1 mute_visitor
    ≡ (ok tt, record u { db = member_db; bound = none })
sweep_tenant-rolled_back_example =
    sweep_tenant-rolled_back decrypt ProviderType.bitunix period 1 mute_visitor mute_world
      (run (settings_for period) 1 none mute_world).1 Error.provider_unavailable built pass_raises

abbrev shy_world : World
shy_world = world db (mute funded)

abbrev shy_visitor : World
shy_visitor = record shy_world { bound = none }

ready : providers decrypt 1 ProviderType.bitunix shy_world ≡ (ok true, shy_world)
unfolding providers referral_provider telegram token_of secret opened decrypted get_named
    get_bot_config one_or_none query catch ◌>>=◌
ready = refl

flow_raises :
    handle ProviderType.bitunix 1 update shy_world
    ≡ (err Error.provider_unavailable, (handle ProviderType.bitunix 1 update shy_world).1)
unfolding handle dispatch read handle_uid submit_to_pending submit after_prefix isdigit is_digit
    render message_for submit_uid with_setup enrol verify conclude admit new_or_claimed checked
    check_uid ensure_user known_user get_for get_for_market get_by_telegram_id get_by_uid
    get_active_for_user get_for_user_and_channel one_or_none query flush_row put_row save
    ensure_subscription known_subscription ensure_membership known_membership rejoined issue mint
    live_link ask_telegram ask_exchange catch ◌>>=◌ evaluate_referral normalize_uid
    is_valid_bitunix_uid digits_to_end fold_digit is_separator strip left_strip is_space is_decimal
flow_raises = refl

serve-rolled_back_example :
    let w' = (handle ProviderType.bitunix 1 update shy_world).1 in
    serve decrypt 1 update shy_visitor ≡ (
      ok tt,
      record w' {
        db = db;
        bound = none;
        calls = send_message (pos 55) Message.provider_unavailable [] ∷ w'.calls;
      },
    )
serve-rolled_back_example =
    serve-rolled_back decrypt 1 update shy_visitor shy_world
      (handle ProviderType.bitunix 1 update shy_world).1 Error.provider_unavailable refl ready
      flow_raises (λ h c m b. refl)

-- a member who lacks balance, seen long after the last period
abbrev poor_world : World
poor_world = world member_db (answering poor)

abbrev warning_report : MonitorReport
warning_report = record {
  claimed = true;
  period_start = some 3024000000000;
  processed = 1;
  warned = 1;
  revoked = 0;
  restored = 0;
  skipped_unavailable = 0;
}

pass_warns :
    run settings 1 none poor_world ≡ (ok warning_report, (run settings 1 none poor_world).1)
unfolding run claim_period period_start_for flush_row put_row run_claimed failing list_by_status
    query process_all process list_for_user examine_first get_for one_or_none examine check_uid
    ask_exchange judge evaluate_referral checked record_activity apply decide_compliance get_by_id
    act tell ask_telegram finish reason_text catch ◌>>=◌
pass_warns = refl

run-Counted_example : Counted 1 poor_world (run settings 1 none poor_world).1 warning_report
run-Counted_example =
    run-Counted settings 1 none warning_report poor_world (run settings 1 none poor_world).1
      pass_warns
