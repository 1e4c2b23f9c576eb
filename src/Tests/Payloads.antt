-- ===== src/Tests/Payloads.antt =====
-- The payloads of Telegram and of Bitunix at concrete inputs.
use vip_channel_management_s.Tests.Data.{
  rules, decrypt, update, route, db, world, answering, funded,
}
use mathlib.Core.List.{Permᴰ}
use vip_channel_management_s.Prelude.Int.{◌+ℤ◌, pos, negsuc}
use vip_channel_management_s.Bitunix.{
  validate_user, answered, sign, Form, param_type, code_sum, sorted, parse, Param, ordered_insert,
  parse_result, deposit_onchain, before, check_of, deposit_otc, joined, deposit_total, plus,
  to_decimal,
}
use vip_channel_management_s.Uid.{strip, left_strip}
use vip_channel_management_s.Errors.{ok, err, Error}
use vip_channel_management_s.Prelude.{
  ◌∷◌, [], refl, Text, List, Option, some, codes, none, ◌≡◌, true, ◌≢◌,
}
use vip_channel_management_s.Json.{Json, Members, get, find, or_default, truth}
use vip_channel_management_s.Providers.{BitunixCredentials}
use vip_channel_management_s.Eligibility.{ReferralCheck, evaluate_referral, EligibilityReason}
use vip_channel_management_s.World.{World}
use vip_channel_management_s.Webhook.Update.{parse_update}
use vip_channel_management_s.Webhook.{receive_update}
use vip_channel_management_s.Webhook.Format.{message_update, parse_update-message_update}
use vip_channel_management_s.Uid.Characters.{is_digit, is_decimal, digit_value, is_space}
use vip_channel_management_s.Bitunix.Answers.{validate_user-trading}
use vip_channel_management_s.Bitunix.Signature.{sign_perm}
use vip_channel_management_s.Decimal.{decimal, read_sign, read_digits, read_fraction, read_exponent}
use vip_channel_management_s.Telegram.{
  get_chat_member, call, read_answer, item_of, has_key, ChatMemberStatus, read_status,
}
use vip_channel_management_s.Webhook.Malformed.{receive_update-Malformed, Malformed}

-- stands for SHA-1
abbrev same : Text → Text
same text = text

abbrev keys : BitunixCredentials
keys = record { api_key = codes "k"; api_secret = codes "s" }

abbrev first_order : List Param
first_order = (codes "account", codes "7") ∷ (codes "timestamp", codes "9") ∷ []

abbrev second_order : List Param
second_order = (codes "timestamp", codes "9") ∷ (codes "account", codes "7") ∷ []

sign_perm_example : sign same first_order (codes "s") ≡ sign same second_order (codes "s")
unfolding param_type code_sum is_digit is_decimal
sign_perm_example = sign_perm same (codes "s") (Permᴰ.swap refl refl) ((refl, tt), (tt, tt))

signed_text : sign same second_order (codes "s") ≡ codes "79s"
unfolding sign sorted ordered_insert before param_type code_sum joined is_digit is_decimal
signed_text = refl

-- The body of an account with $300.25 in two deposits.
abbrev body : Json
body = Json.obj (
    Members.member (codes "result")
      (Json.obj (
        Members.member (codes "result") (Json.bool true) (
          Members.member deposit_onchain (Json.str (codes "300.25"))
            (Members.member deposit_otc (Json.int (pos 10)) Members.end))))
      Members.end)

abbrev post : Form → Option Json
post f = some body

abbrev check : ReferralCheck
check = record {
  uid = codes "7";
  registered = true;
  deposit_total = pos 31025000000;
  qualifying_trades = none;
}

answer : validate_user same post keys (codes "7") 9 ≡ ok check
unfolding validate_user answered parse parse_result check_of deposit_total plus to_decimal decimal
    find get or_default truth read_sign read_digits read_fraction read_exponent strip left_strip
    digit_value is_space ◌+ℤ◌
answer = refl

validate_user-trading_example :
    (evaluate_referral (some check) rules true).reason ≢ EligibilityReason.eligible
validate_user-trading_example =
    validate_user-trading same post keys (codes "7") 9 check rules answer

parse_update-message_update_example : parse_update (message_update update) ≡ ok (some update)
parse_update-message_update_example = parse_update-message_update update refl

abbrev visitor_world : World
visitor_world = record (world db (answering funded)) { bound = none }

-- a message that is a text
abbrev broken : Members
broken = Members.member (codes "message") (Json.str (codes "hello")) Members.end

receive_update-Malformed_example :
    receive_update decrypt (codes "t") (some (Json.obj broken)) visitor_world
    ≡ (err Error.attribute_error, visitor_world)
unfolding find truth
receive_update-Malformed_example =
    receive_update-Malformed decrypt (codes "t") (Json.obj broken) route visitor_world refl
      (Malformed.message_no_dict broken refl refl refl)

-- Telegram tells that the user has left.
abbrev gone : Json
gone = Json.obj (Members.member (codes "status") (Json.str (codes "left")) Members.end)

abbrev ask : Text → Members → Option Json
ask method payload = some (
    Json.obj (
      Members.member (codes "ok") (Json.bool true)
        (Members.member (codes "result") gone Members.end)))

abbrev repr : Json → Text
repr v = []

has_left : get_chat_member ask repr (negsuc 1000) (pos 55) ≡ ok ChatMemberStatus.left
unfolding get_chat_member call read_answer item_of has_key read_status get find truth
has_left = refl
