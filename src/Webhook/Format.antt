-- ===== src/Webhook/Format.antt =====
-- The updates that Telegram sends of a private message and of a pressed button, and what
-- `parse_update` reads of them.
use vip_channel_management_s.Webhook.Update.{
  parse_update, parse_message, read_message, to_integer, parse_callback,
}
use vip_channel_management_s.Json.{get, or_default, truth, find, Json, Members}
use vip_channel_management_s.Prelude.{
  ◌∙◌, sym, refl, ℕ, Text, Option, none, some, codes, ◌≡◌, suc, zero, ◌≢◌,
}
use vip_channel_management_s.Bot.Flow.{IncomingUpdate}
use vip_channel_management_s.Prelude.Int.{ℤ, pos, negsuc}
use vip_channel_management_s.Errors.{ok}

-- a field that is left out where there is none
abbrev field : Text → Option Text → Members → Members
field key none rest = rest
field key (some text) rest = Members.member key (Json.str text) rest

-- the sender
abbrev user : ℕ → Option Text → Option Text → Json
user id username first_name = Json.obj (
    Members.member (codes "id") (Json.int (pos id))
      (field (codes "username") username (field (codes "first_name") first_name Members.end)))

abbrev private_chat : ℤ → Json
private_chat id = Json.obj (
    Members.member (codes "id") (Json.int id)
      (Members.member (codes "type") (Json.str (codes "private")) Members.end))

-- The update of a message; `callback_data` plays no part.
abbrev pub message_update : IncomingUpdate → Json
message_update u = Json.obj (
    Members.member (codes "message")
      (Json.obj (
        Members.member (codes "from") (user u.user_id u.username u.first_name) (
          Members.member (codes "chat") (private_chat u.chat_id)
            (field (codes "text") u.text Members.end))))
      Members.end)

-- The update of a button; `text` plays no part.
abbrev pub callback_update : IncomingUpdate → Json
callback_update u = Json.obj (
    Members.member (codes "callback_query")
      (Json.obj (
        Members.member (codes "from") (user u.user_id u.username u.first_name) (
          Members.member (codes "message")
            (Json.obj (Members.member (codes "chat") (private_chat u.chat_id) Members.end))
            (field (codes "data") u.callback_data Members.end))))
      Members.end)

or_default_zero : (n : ℤ) → to_integer (or_default (Json.int n) (Json.int (pos 0))) ≡ ok n
unfolding to_integer or_default truth
or_default_zero (pos zero) = refl
or_default_zero (pos (suc n)) = refl
or_default_zero (negsuc n) = refl

abbrev update_of : ℤ → ℕ → Option Text → Option Text → Option Text → Option Text → IncomingUpdate
update_of chat_id user_id text pressed username first_name = record {
  chat_id = chat_id;
  user_id = user_id;
  text = text;
  callback_data = pressed;
  username = username;
  first_name = first_name;
}

read_private_message :
    (c : ℤ) (n : ℕ) (text username first_name : Option Text)
    → let u = update_of c n text none username first_name in
      parse_update (message_update u) ≡ ok (some u)
unfolding parse_update parse_message read_message get find or_default truth
read_private_message c n none none none = rw (or_default_zero c, or_default_zero (pos n)) refl
read_private_message c n none none (some y) = rw (or_default_zero c, or_default_zero (pos n)) refl
read_private_message c n none (some x) none = rw (or_default_zero c, or_default_zero (pos n)) refl
read_private_message c n none (some x) (some y) =
    rw (or_default_zero c, or_default_zero (pos n)) refl
read_private_message c n (some t) none none = rw (or_default_zero c, or_default_zero (pos n)) refl
read_private_message c n (some t) none (some y) =
    rw (or_default_zero c, or_default_zero (pos n)) refl
read_private_message c n (some t) (some x) none =
    rw (or_default_zero c, or_default_zero (pos n)) refl
read_private_message c n (some t) (some x) (some y) =
    rw (or_default_zero c, or_default_zero (pos n)) refl

-- A message of a private chat is read back as it was sent: its text, its chat and its sender.
pub parse_update-message_update :
    (u : IncomingUpdate) → u.callback_data ≡ none → parse_update (message_update u) ≡ ok (some u)
parse_update-message_update u h =
    read_private_message u.chat_id u.user_id u.text u.username u.first_name
    ∙ (λ i. ok (some (record u { callback_data = sym h i })))

read_press :
    (c : ℤ) (n : ℕ) (pressed username first_name : Option Text)
    → c ≢ pos 0
    → let u = update_of c n none pressed username first_name in
      parse_update (callback_update u) ≡ ok (some u)
unfolding parse_update parse_callback get find or_default truth
read_press (pos zero) n d x y h = absurd (h refl)
read_press (pos (suc k)) n none none none h = rw (or_default_zero (pos n)) refl
read_press (negsuc k) n none none none h = rw (or_default_zero (pos n)) refl
read_press (pos (suc k)) n none none (some y) h = rw (or_default_zero (pos n)) refl
read_press (negsuc k) n none none (some y) h = rw (or_default_zero (pos n)) refl
read_press (pos (suc k)) n none (some x) none h = rw (or_default_zero (pos n)) refl
read_press (negsuc k) n none (some x) none h = rw (or_default_zero (pos n)) refl
read_press (pos (suc k)) n none (some x) (some y) h = rw (or_default_zero (pos n)) refl
read_press (negsuc k) n none (some x) (some y) h = rw (or_default_zero (pos n)) refl
read_press (pos (suc k)) n (some d) none none h = rw (or_default_zero (pos n)) refl
read_press (negsuc k) n (some d) none none h = rw (or_default_zero (pos n)) refl
read_press (pos (suc k)) n (some d) none (some y) h = rw (or_default_zero (pos n)) refl
read_press (negsuc k) n (some d) none (some y) h = rw (or_default_zero (pos n)) refl
read_press (pos (suc k)) n (some d) (some x) none h = rw (or_default_zero (pos n)) refl
read_press (negsuc k) n (some d) (some x) none h = rw (or_default_zero (pos n)) refl
read_press (pos (suc k)) n (some d) (some x) (some y) h = rw (or_default_zero (pos n)) refl
read_press (negsuc k) n (some d) (some x) (some y) h = rw (or_default_zero (pos n)) refl

-- A pressed button is read back as it was sent: its data, its chat and its sender.
pub parse_update-callback_update :
    (u : IncomingUpdate)
    → u.text ≡ none
    → u.chat_id ≢ pos 0
    → parse_update (callback_update u) ≡ ok (some u)
parse_update-callback_update u h c =
    read_press u.chat_id u.user_id u.callback_data u.username u.first_name c
    ∙ (λ i. ok (some (record u { text = sym h i })))
