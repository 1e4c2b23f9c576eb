-- ===== src/Webhook.antt =====
-- app/adapters/web/routers/telegram_webhook.py: the entry of Telegram's updates. Returning stands
-- for the answer 200, raising for an answer 500.
pub mod Answers
pub mod Malformed
pub mod Update
pub mod Format
use vip_channel_management_s.Messages.{Message}
use vip_channel_management_s.Prelude.{
  ℕ, zero, suc, Text, Option, none, some, List, [], ◌∷◌, select, if◌then◌else◌, Bool, eq_text, ◌==◌,
}
use vip_channel_management_s.Json.{Json}
use vip_channel_management_s.Webhook.Update.{parse_update}
use vip_channel_management_s.World.{
  raise, Action, pure, lift, World, ◌>>=◌, ◌>>◌, catch, ask_telegram, send_message,
}
use vip_channel_management_s.Enums.{ProviderType}
use vip_channel_management_s.Bot.Flow.{IncomingUpdate, handle}
use vip_channel_management_s.Prelude.Int.{ℤ}
use vip_channel_management_s.Models.{WebhookRoute}
use vip_channel_management_s.Tables.{scalar_one_or_none}
use vip_channel_management_s.Bot.Render.{Reply}
use vip_channel_management_s.Transactions.{attempt, in_session, providers}
use vip_channel_management_s.Errors.{Error, is_provider_unavailable_error}

-- The lookup of the token runs in a session that is bound to no tenant, on the one table that is
-- not scoped.
unfoldable pub find_route : Text → Action (Option WebhookRoute)
find_route token w = (scalar_one_or_none (select (λ r. eq_text r.token token) w.db.routes), w)

-- `try: send_message(...) except ProviderUnavailableError: ...`
unfoldable pub send_reply : ℤ → Reply → Action (Unit {0})
send_reply chat_id reply =
    catch is_provider_unavailable_error
      (do ask_telegram (send_message chat_id reply.text reply.buttons); pure tt) (pure tt)

unfoldable pub send_all : ℤ → List Reply → Action (Unit {0})
send_all chat_id [] = pure tt
send_all chat_id (reply ∷ rest) = do send_reply chat_id reply; send_all chat_id rest

unfoldable pub deliver : ℤ → Option (List Reply) → Action (Unit {0})
unfolding send_reply
deliver chat_id none =
    send_reply chat_id (record { text = Message.provider_unavailable; buttons = [] })
deliver chat_id (some replies) = send_all chat_id replies

unfoldable pub converse : Bool → ℕ → IncomingUpdate → Action (Unit {0})
converse ready tenant_id update =
    if ready
    then (do
      result ← attempt (handle ProviderType.bitunix tenant_id update)
      deliver update.chat_id result)
    else pure tt

-- an update of a sender for a tenant
unfoldable pub serve : (decrypt : Text → Option Text) → ℕ → IncomingUpdate → Action (Unit {0})
serve decrypt tenant_id update =
    if update.user_id == 0
    then pure tt
    else in_session tenant_id (do
      ready ← providers decrypt tenant_id ProviderType.bitunix
      converse ready tenant_id update)

unfoldable pub taken :
    (decrypt : Text → Option Text) → ℕ → Option IncomingUpdate → Action (Unit {0})
unfolding serve
taken decrypt tenant_id none = pure tt
taken decrypt tenant_id (some update) = serve decrypt tenant_id update

unfoldable pub routed :
    (decrypt : Text → Option Text) → Option WebhookRoute → Json → Action (Unit {0})
unfolding taken parse_update
routed decrypt none payload = pure tt
routed decrypt (some route) payload = do
  update ← lift (parse_update payload)
  taken decrypt route.tenant_id update

-- A body that is no JSON is `none`.
unfoldable pub receive_update :
    (decrypt : Text → Option Text) → Text → Option Json → Action (Unit {0})
receive_update decrypt token none = raise Error.value_error
receive_update decrypt token (some payload) = do
  route ← find_route token
  routed decrypt route payload
