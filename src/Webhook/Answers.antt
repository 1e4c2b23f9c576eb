-- ===== src/Webhook/Answers.antt =====
-- What app/adapters/web/routers/telegram_webhook.py answers, and what it sends.
use vip_channel_management_s.Prelude.{
  ℕ, Text, Option, none, some, ◌≡◌, refl, true, false, Bool, List, [], ◌∷◌, ◌==◌, ap, ◌∙◌, any,
  Bool-cases, eq_text, inl, select-none, inr, subst, sym, arith,
}
use vip_channel_management_s.World.{World, ◌>>=◌, catch, ask_telegram, send_message, Outside, Call}
use vip_channel_management_s.Errors.{Error, ok, err, Result-cases, Result}
use vip_channel_management_s.Webhook.{
  send_all, send_reply, converse, deliver, receive_update, serve, find_route, routed,
}
use vip_channel_management_s.Bot.Flow.{IncomingUpdate, handle}
use vip_channel_management_s.Transactions.Laws.{
  attempt-returns, attempt-raised, Keeps-attempt, Keeps-providers,
}
use vip_channel_management_s.Prelude.Int.{ℤ}
use vip_channel_management_s.Bot.Render.{Reply}
use vip_channel_management_s.Transactions.{in_session, providers, attempt}
use vip_channel_management_s.Messages.{Message}
use vip_channel_management_s.World.Bind.{bind_run}
use vip_channel_management_s.Enums.{ProviderType, Market}
use vip_channel_management_s.Json.{Json}
use vip_channel_management_s.Session.Follows.{along}
use vip_channel_management_s.Session.Defs.{Respects}
use vip_channel_management_s.Bot.Keep.{handle-Keeps}

-- The call returns, or raises ProviderUnavailableError.
abbrev pub IsAnswer : Result Text → Type 0
IsAnswer (ok text) = Unit {0}
IsAnswer (err e) = e ≡ Error.provider_unavailable

-- What Telegram may do to messages: it delivers them, or is unreachable, or refuses them.
abbrev pub Sends : Outside → Type 0
Sends o =
    (history : List Call) (chat_id : ℤ) (text : Message) (buttons : List Market)
    → IsAnswer (o.telegram history (send_message chat_id text buttons))

-- An unreachable Telegram is let go.
send_reply-returns :
    (chat_id : ℤ) (reply : Reply) (w : World)
    → IsAnswer (w.outside.telegram w.calls (send_message chat_id reply.text reply.buttons))
    → send_reply chat_id reply w
      ≡ (ok tt, record w { calls = send_message chat_id reply.text reply.buttons ∷ w.calls })
unfolding send_reply catch ◌>>=◌ ask_telegram
send_reply-returns chat_id reply w h =
    elim (Result-cases
      (w.outside.telegram w.calls (send_message chat_id reply.text reply.buttons))) [
        | inl (x, e) ↦
            let k : x ≡ Error.provider_unavailable = subst IsAnswer e h in
            let d = e ∙ ap err k in ground (arith, d)
        | inr (link, e) ↦ ground (arith, e)
      ]

send_all-returns :
    (chat_id : ℤ) (replies : List Reply) (w : World)
    → Sends w.outside
    → (send_all chat_id replies w).0 ≡ ok tt
unfolding send_all
send_all-returns chat_id [] w h = refl
send_all-returns chat_id (reply ∷ rest) w h =
    ap (λ q. q.0)
      (bind_run (send_reply chat_id reply) (λ _. send_all chat_id rest) w
        (send_reply-returns chat_id reply w (h _ _ _ _)))
    ∙ send_all-returns chat_id rest
        (record w { calls = send_message chat_id reply.text reply.buttons ∷ w.calls }) h

deliver-returns :
    (chat_id : ℤ) (o : Option (List Reply)) (w : World)
    → Sends w.outside
    → (deliver chat_id o w).0 ≡ ok tt
unfolding deliver
deliver-returns chat_id none w h =
    ap (λ q. q.0)
      (send_reply-returns chat_id (record { text = Message.provider_unavailable; buttons = [] }) w
        (h _ _ _ _))
deliver-returns chat_id (some replies) w h = send_all-returns chat_id replies w h

attempt-Keeps-environment :
    (t : ℕ) (u : IncomingUpdate) (w v : World) (o : Option (List Reply))
    → attempt (handle ProviderType.bitunix t u) w ≡ (ok o, v)
    → v.outside ≡ w.outside
attempt-Keeps-environment t u w v o e =
    (along (Respects t) (attempt (handle ProviderType.bitunix t u)) w
      (Keeps-attempt (handle ProviderType.bitunix t u) (handle-Keeps ProviderType.bitunix t u))
      e).environment

converse-returns :
    (ready : Bool) (t : ℕ) (u : IncomingUpdate) (w : World)
    → Sends w.outside
    → (converse ready t u w).0 ≡ ok tt
unfolding converse
converse-returns false t u w h = refl
converse-returns true t u w h =
    let (o, v, e) = attempt-returns (handle ProviderType.bitunix t u) w in
    ap (λ q. q.0)
      (bind_run (attempt (handle ProviderType.bitunix t u)) (λ r. deliver u.chat_id r) w e)
    ∙ deliver-returns u.chat_id o v (subst Sends (sym (attempt-Keeps-environment t u w v o e)) h)

module _ (decrypt : Text → Option Text) (t : ℕ) (u : IncomingUpdate) where
  -- While Telegram answers a message or fails as unavailable, an update for a tenant whose
  -- providers can be built, or whose setup is not finished, is answered with 200, whatever the
  -- flow raises.
  pub serve-returns :
      (ready : Bool) (w v : World)
      → Sends w.outside
      → providers decrypt t ProviderType.bitunix (record w { bound = some t }) ≡ (ok ready, v)
      → (serve decrypt t u w).0 ≡ ok tt
  unfolding serve in_session
  serve-returns ready w v h e = elim (Bool-cases (u.user_id == 0)) [
    | inl z ↦ rw z refl
    | inr s ↦ rw s (
        ap (λ q. q.0)
          (bind_run (providers decrypt t ProviderType.bitunix) (λ r. converse r t u)
            (record w { bound = some t }) e)
        ∙ converse-returns ready t u v (
            subst Sends
              (sym (
                (along (Respects t) (providers decrypt t ProviderType.bitunix)
                  (record w { bound = some t }) (Keeps-providers decrypt t ProviderType.bitunix)
                  e).environment))
              h))
  ]

  environment-flow :
      (w v w' : World) (x : Error)
      → providers decrypt t ProviderType.bitunix (record w { bound = some t }) ≡ (ok true, v)
      → handle ProviderType.bitunix t u v ≡ (err x, w')
      → w'.outside ≡ w.outside
  environment-flow w v w' x e f =
      (along (Respects t) (handle ProviderType.bitunix t u) v
        (handle-Keeps ProviderType.bitunix t u) f).environment
      ∙ (along (Respects t) (providers decrypt t ProviderType.bitunix) (record w { bound = some t })
          (Keeps-providers decrypt t ProviderType.bitunix) e).environment

  -- When the flow raises on an update of a sender, while Telegram answers a message or fails as
  -- unavailable: the database is as it was before the flow, the one message sent to the chat after
  -- it is that the provider is unavailable, and the answer is 200.
  pub serve-rolled_back :
      (w v w' : World) (x : Error)
      → (u.user_id == 0) ≡ false
      → providers decrypt t ProviderType.bitunix (record w { bound = some t }) ≡ (ok true, v)
      → handle ProviderType.bitunix t u v ≡ (err x, w')
      → Sends w.outside
      → serve decrypt t u w ≡ (
        ok tt,
        record w' {
          db = v.db;
          bound = w.bound;
          calls = send_message u.chat_id Message.provider_unavailable [] ∷ w'.calls;
        },
      )
  unfolding serve in_session converse deliver
  serve-rolled_back w v w' x s e f h = rw s (
      ap (λ q. (q.0, record q.1 { bound = w.bound }))
        (bind_run (providers decrypt t ProviderType.bitunix) (λ r. converse r t u)
            (record w { bound = some t }) e
          ∙ (bind_run (attempt (handle ProviderType.bitunix t u)) (λ r. deliver u.chat_id r) v
                (attempt-raised (handle ProviderType.bitunix t u) v f)
              ∙ send_reply-returns u.chat_id
                  (record { text = Message.provider_unavailable; buttons = [] })
                  (record w' { db = v.db })
                  (subst Sends (sym (environment-flow w v w' x e f)) h _ _ _ _))))

find_route-unknown :
    (token : Text) (w : World)
    → any (λ r. eq_text r.token token) w.db.routes ≡ false
    → find_route token w ≡ (ok none, w)
unfolding find_route
find_route-unknown token w h = rw (select-none (λ r. eq_text r.token token) w.db.routes h) refl

-- An unknown token is answered with 200 whatever the payload is, and nothing is changed, sent or
-- asked.
pub unknown_token_ignored :
    (decrypt : Text → Option Text) (token : Text) (payload : Json) (w : World)
    → any (λ r. eq_text r.token token) w.db.routes ≡ false
    → receive_update decrypt token (some payload) w ≡ (ok tt, w)
unfolding receive_update routed
unknown_token_ignored decrypt token payload w h =
    bind_run (find_route token) (λ route. routed decrypt route payload) w
      (find_route-unknown token w h)
