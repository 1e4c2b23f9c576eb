-- ===== src/Webhook/Update.antt =====
-- `parse_update` of app/adapters/web/routers/telegram_webhook.py.
use vip_channel_management_s.Errors.{◌>>=◌, Error, Result, ok, err}
use vip_channel_management_s.Prelude.{
  ◌^◌, ℕ, suc, ◌==◌, ◌/◌, not, ◌&&◌, Text, Option, none, some, [], codes, eq_text, if◌then◌else◌,
  Bool, true, false,
}
use vip_channel_management_s.Prelude.Int.{ℤ, pos, negsuc}
use vip_channel_management_s.Json.{Json, Members, get, or_default, truth}
use vip_channel_management_s.Decimal.{
  Read, number, read_digits, read_sign, signed, negated, decimal,
}
use vip_channel_management_s.Uid.{strip}
use vip_channel_management_s.Bot.Flow.{IncomingUpdate}

-- `int(text)`; one underscore between two digits is let through by the standard library, and any
-- other one refused, which is left out: a text with an underscore is refused.
unfoldable pub integer : Text → Result ℤ
unfolding read_sign read_digits strip
integer text =
    let (minus, body) = read_sign (strip text) in
    let d = read_digits body 0 0 in
    if not (d.count == 0) && eq_text d.rest []
    then ok (signed minus d.value)
    else err Error.value_error

-- what stands before the point
abbrev pub truncated : ℤ → ℕ → ℤ
truncated (pos n) d = pos (n / d)
truncated (negsuc n) d = negated (suc n / d)

-- The integer part of a number; that of Infinity and of NaN raises.
abbrev pub whole : Read → Result ℤ
whole (number a) = ok (truncated a.coefficient (10 ^ a.places))
whole _ = err Error.value_error

-- `int(value)`
unfoldable pub to_integer : Json → Result ℤ
unfolding integer decimal
to_integer (Json.int n) = ok n
to_integer (Json.bool b) = ok (if b then pos 1 else pos 0)
to_integer (Json.float text) = whole (decimal text)
to_integer (Json.str text) = integer text
to_integer _ = err Error.type_error

-- A field that should hold a text: what is no text is read as None.
abbrev pub text_of : Json → Option Text
text_of (Json.str text) = some text
text_of _ = none

-- The identifier of a user; no user of Telegram has a negative one.
abbrev pub user_of : ℤ → Result ℕ
user_of (pos n) = ok n
user_of (negsuc n) = err Error.value_error

abbrev pub nothing : Json
nothing = Json.obj Members.end

-- `int(value or 0)`
abbrev pub identifier : Json → Result ℤ
identifier value = to_integer (or_default value (Json.int (pos 0)))

-- A button that was pressed.
unfoldable pub parse_callback : Json → Result (Option IncomingUpdate)
unfolding get or_default to_integer
parse_callback callback = do
  from ← get (codes "from") callback
  let sender = or_default from nothing
  message ← get (codes "message") callback
  found ← get (codes "chat") (or_default message nothing)
  let chat = or_default found nothing
  chat_id ← get (codes "id") chat
  sender_id ← get (codes "id") sender
  chat_id ← identifier (or_default chat_id sender_id)
  found_id ← identifier sender_id
  user_id ← user_of found_id
  pressed ← get (codes "data") callback
  username ← get (codes "username") sender
  first_name ← get (codes "first_name") sender
  ok (
      some (record {
        chat_id = chat_id;
        user_id = user_id;
        text = none;
        callback_data = text_of pressed;
        username = text_of username;
        first_name = text_of first_name;
      }))

-- `chat.get("type") in (None, "private")`
abbrev pub is_private : Json → Bool
is_private Json.null = true
is_private (Json.str text) = eq_text text (codes "private")
is_private _ = false

unfoldable pub read_message : Json → Json → Json → Result (Option IncomingUpdate)
unfolding get or_default to_integer
read_message message sender chat = do
  chat_id ← get (codes "id") chat
  chat_id ← identifier chat_id
  sender_id ← get (codes "id") sender
  found_id ← identifier sender_id
  user_id ← user_of found_id
  text ← get (codes "text") message
  username ← get (codes "username") sender
  first_name ← get (codes "first_name") sender
  ok (
      some (record {
        chat_id = chat_id;
        user_id = user_id;
        text = text_of text;
        callback_data = none;
        username = text_of username;
        first_name = text_of first_name;
      }))

-- A message: one of a group is left aside.
unfoldable pub parse_message : Json → Result (Option IncomingUpdate)
unfolding read_message get or_default
parse_message message = do
  from ← get (codes "from") message
  found ← get (codes "chat") message
  let chat = or_default found nothing
  type ← get (codes "type") chat
  if is_private type then read_message message (or_default from nothing) chat else ok none

abbrev pub is_null : Json → Bool
is_null Json.null = true
is_null _ = false

unfoldable pub parse_update : Json → Result (Option IncomingUpdate)
unfolding parse_callback parse_message get or_default truth
parse_update payload = do
  callback ← get (codes "callback_query") payload
  message ← get (codes "message") payload
  edited ← get (codes "edited_message") payload
  let chosen = or_default message edited
  if not (is_null callback)
      then parse_callback callback
      else if truth chosen
      then parse_message chosen
      else ok none
