-- ===== src/Telegram.antt =====
-- app/application/ports/telegram_provider.py and app/adapters/providers/telegram.py. The HTTP client
-- is a parameter: `post` is given the method and the body, and is `none` where the request fails or
-- the answer is no JSON. Chats and users are identified by integers.
pub mod Presence
pub mod Mock
use vip_channel_management_s.Errors.{◌>>=◌, Error, Result, ok, err}
use vip_channel_management_s.Prelude.{
  Text, Option, none, some, codes, eq_text, if◌then◌else◌, Bool, true, false, ◌||◌,
}
use vip_channel_management_s.Prelude.Int.{ℤ, pos}
use vip_channel_management_s.Json.{Json, Members, get, find, truth}
use vip_channel_management_s.Webhook.Update.{to_integer, text_of}

pub data ChatMemberStatus : Type 0 where
  creator administrator member restricted left kicked : ChatMemberStatus

abbrev pub status_text : ChatMemberStatus → Text
status_text ChatMemberStatus.creator = codes "creator"
status_text ChatMemberStatus.administrator = codes "administrator"
status_text ChatMemberStatus.member = codes "member"
status_text ChatMemberStatus.restricted = codes "restricted"
status_text ChatMemberStatus.left = codes "left"
status_text ChatMemberStatus.kicked = codes "kicked"

abbrev pub is_present : ChatMemberStatus → Bool
is_present ChatMemberStatus.left = false
is_present ChatMemberStatus.kicked = false
is_present _ = true

pub record BotIdentity : Type 0 where
  pub id : ℤ
  pub username : Option Text

-- `{k: v for k, v in payload.items() if v is not None}`
unfoldable pub body_of : Members → Members
body_of Members.end = Members.end
body_of (Members.member key Json.null rest) = body_of rest
body_of (Members.member key value rest) = Members.member key value (body_of rest)

-- `ChatMemberStatus(text)`
abbrev pub status_named : Text → Option ChatMemberStatus
status_named text =
    if eq_text text (codes "creator")
    then some ChatMemberStatus.creator
    else if eq_text text (codes "administrator")
    then some ChatMemberStatus.administrator
    else if eq_text text (codes "member")
    then some ChatMemberStatus.member
    else if eq_text text (codes "restricted")
    then some ChatMemberStatus.restricted
    else if eq_text text (codes "left")
    then some ChatMemberStatus.left
    else if eq_text text (codes "kicked")
    then some ChatMemberStatus.kicked
    else none

abbrev pub known_status : Option ChatMemberStatus → Result ChatMemberStatus
known_status none = err Error.provider_unavailable
known_status (some status) = ok status

-- A status that is no text is unknown too.
unfoldable pub read_status : Json → Result ChatMemberStatus
read_status (Json.str text) = known_status (status_named text)
read_status _ = err Error.provider_unavailable

-- whether a dict has the key
unfoldable pub has_key : Text → Members → Bool
has_key key Members.end = false
has_key key (Members.member k v rest) = eq_text k key || has_key key rest

-- `result[key]`
unfoldable pub item_of : Text → Json → Result Json
unfolding has_key find
item_of key (Json.obj members) =
    if has_key key members then ok (find key members) else err Error.key_error
item_of key _ = err Error.type_error

-- The end of `_call`.
unfoldable pub read_answer : Option Json → Result Json
unfolding get truth
read_answer none = err Error.provider_unavailable
read_answer (some answer) = do
  accepted ← get (codes "ok") answer
  if truth accepted then get (codes "result") answer else err Error.provider_unavailable

abbrev pub field_of : Text → Json → Members → Members
field_of key value rest = Members.member key value rest

abbrev pub chat_and_user : ℤ → ℤ → Members → Members
chat_and_user chat_id user_id rest =
    field_of (codes "chat_id") (Json.int chat_id)
      (field_of (codes "user_id") (Json.int user_id) rest)

abbrev pub optional_int : Option ℤ → Json
optional_int none = Json.null
optional_int (some n) = Json.int n

abbrev pub optional_text : Option Text → Json
optional_text none = Json.null
optional_text (some text) = Json.str text

-- `repr` is what `str` gives of a value.
module _ (post : Text → Members → Option Json) (repr : Json → Text) where
  -- `_call`
  unfoldable pub call : Text → Members → Result Json
  unfolding read_answer body_of
  call method payload = read_answer (post method (body_of payload))

  unfoldable pub get_me : Result BotIdentity
  unfolding call item_of to_integer get
  get_me = do
    result ← call (codes "getMe") Members.end
    id ← item_of (codes "id") result
    id ← to_integer id
    username ← get (codes "username") result
    ok (record { id = id; username = text_of username })

  -- `expire_date` is the second of the moment.
  unfoldable pub create_invite_link : ℤ → ℤ → Option ℤ → Option Text → Result Text
  unfolding call item_of
  create_invite_link chat_id member_limit expire_date name = do
    result ← call (codes "createChatInviteLink") (
        field_of (codes "chat_id") (Json.int chat_id) (
          field_of (codes "member_limit") (Json.int member_limit) (
            field_of (codes "expire_date") (optional_int expire_date)
              (field_of (codes "name") (optional_text name) Members.end))))
    link ← item_of (codes "invite_link") result
    ok (repr link)

  unfoldable pub get_chat_member : ℤ → ℤ → Result ChatMemberStatus
  unfolding call item_of read_status
  get_chat_member chat_id user_id = do
    result ← call (codes "getChatMember") (chat_and_user chat_id user_id Members.end)
    status ← item_of (codes "status") result
    read_status status

  unfoldable pub ban_chat_member : ℤ → ℤ → Result (Unit {0})
  unfolding call
  ban_chat_member chat_id user_id = do
    result ← call (codes "banChatMember") (chat_and_user chat_id user_id Members.end)
    ok tt

  unfoldable pub unban_chat_member : ℤ → ℤ → Result (Unit {0})
  unfolding call
  unban_chat_member chat_id user_id = do
    result ← call (codes "unbanChatMember") (
        chat_and_user chat_id user_id
          (field_of (codes "only_if_banned") (Json.bool true) Members.end))
    ok tt

  unfoldable pub send_message : ℤ → Text → Json → Result (Unit {0})
  unfolding call
  send_message chat_id text reply_markup = do
    result ← call (codes "sendMessage") (
        field_of (codes "chat_id") (Json.int chat_id) (
          field_of (codes "text") (Json.str text) (
            field_of (codes "parse_mode") (Json.str (codes "HTML"))
              (field_of (codes "reply_markup") reply_markup Members.end))))
    ok tt
