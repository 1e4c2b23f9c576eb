-- ===== src/Bot/Offered.antt =====
-- The replies of app/services/bot_conversation.py: how many there are, and which markets the
-- buttons of `_start` offer.
use vip_channel_management_s.World.{World, pure}
use vip_channel_management_s.Prelude.{
  refl, ℕ, true, Option, none, some, List, [], ◌∷◌, ◌&&◌, ◌≡◌, All, ap, Text, subst,
}
use vip_channel_management_s.Bot.Flow.{
  offer, IncomingUpdate, start, submit, greet, available_markets, offer_referral_link, handle,
  press, is_set_up,
}
use vip_channel_management_s.Enums.{ProviderType, Market, eq_provider, eq_market}
use vip_channel_management_s.Messages.{Message}
use vip_channel_management_s.Bot.Render.{Reply, say}
use vip_channel_management_s.World.Ensures.{Ensures, Ensures-bind, Ensures-pure, Ensures-if}
use vip_channel_management_s.Bot.Every.{
  AnswerRules, Holds, handle-Holds, same_world, list_all-reads, uid_of,
}
use vip_channel_management_s.Models.{ReferralProgramConfig, TelegramChannel}
use vip_channel_management_s.Errors.{ok, ok-inj}
use vip_channel_management_s.Repositories.{list_all}
use vip_channel_management_s.Tables.Instances.{configs_table, channels_table}
use vip_channel_management_s.World.Bind.{bind_ok}
use vip_channel_management_s.Prelude.Has.{both_tests, select-All, Has, any-Has}

-- The tenant has an active program of the provider for the market, and an active channel of it,
-- among those that it lists.
pub record SetUp (p : ProviderType) (t : ℕ) (w : World) (m : Market) : Type 0 where
  pub configs : List ReferralProgramConfig
  pub listed_configs : (list_all configs_table t w).0 ≡ ok configs
  pub program :
      Has (λ c. c.is_active && (eq_provider c.provider_type p && eq_market c.market m)) configs
  pub channels : List TelegramChannel
  pub listed_channels : (list_all channels_table t w).0 ≡ ok channels
  pub channel : Has (λ c. c.is_active && eq_market c.market m) channels

-- The answer is one reply, which offers markets that are set up.
pub record OneReply (p : ProviderType) (t : ℕ) (w : World) (rs : List Reply) : Type 0 where
  pub reply : Reply
  pub only : rs ≡ reply ∷ []
  pub offered : All (SetUp p t w) reply.buttons

-- One reply without buttons
abbrev Told : List Reply → Type 0
Told rs = (message : Message) × (rs ≡ say message)

Told-OneReply :
    (p : ProviderType) (t : ℕ) (w : World) (rs : List Reply) → Told rs → OneReply p t w rs
Told-OneReply p t w rs (message, e) = record {
  reply = record { text = message; buttons = [] };
  only = e;
  offered = tt;
}

Told-say : (message : Message) → Ensures Told (pure (say message))
Told-say message = Ensures-pure _ (message, refl)

Told-offer :
    (t : ℕ) (u : IncomingUpdate) (m : Market) (c : Option ReferralProgramConfig)
    → Ensures Told (offer t u m c)
unfolding offer
Told-offer t u m none = Told-say _
Told-offer t u m (some c) =
    Ensures-if c.is_active _ _ (Ensures-bind _ _ (λ user. Ensures-bind _ _ (λ done. Told-say _)))
      (Told-say _)

module _ (p : ProviderType) (t : ℕ) (u : IncomingUpdate) where
  Told-offer_referral_link : (m : Market) → Ensures Told (offer_referral_link p t u m)
  unfolding offer_referral_link
  Told-offer_referral_link m = Ensures-bind _ _ (Told-offer t u m)

  Told-press : (o : Option Market) → Ensures Told (press p t u o)
  unfolding press
  Told-press none = Told-say _
  Told-press (some m) = Told-offer_referral_link m

  Told-submit : (uid : Text) (m : Market) → Ensures Told (submit p t u uid m)
  unfolding submit
  Told-submit uid m =
      Ensures-bind _ _
        (λ config. Ensures-bind _ _ (λ result. Ensures-bind _ _ (λ message. Told-say message)))

  is_set_up-SetUp :
      (w : World) (configs : List ReferralProgramConfig) (channels : List TelegramChannel)
      → (list_all configs_table t w).0 ≡ ok configs
      → (list_all channels_table t w).0 ≡ ok channels
      → (m : Market) → is_set_up p configs channels m ≡ true
      → SetUp p t w m
  is_set_up-SetUp w configs channels e f m h =
      let (a, b) = both_tests _ _ h in
      record {
        configs = configs;
        listed_configs = e;
        program = any-Has _ configs a;
        channels = channels;
        listed_channels = f;
        channel = any-Has _ channels b;
      }

  available_markets-SetUp :
      (w : World) (ms : List Market) (w' : World)
      → available_markets p t w ≡ (ok ms, w')
      → All (SetUp p t w) ms
  unfolding available_markets
  available_markets-SetUp w ms w' e =
      let (configs, w1, e1, k1) = bind_ok (list_all configs_table t) _ w e in
      let (channels, w2, e2, k2) = bind_ok (list_all channels_table t) _ w1 k1 in
      let same : w1 ≡ w =
        same_world (list_all configs_table t) w (list_all-reads p t w configs_table) e1 in
      subst (All (SetUp p t w)) (ok-inj (ap (λ q. q.0) k2)) (
        select-All (is_set_up p configs channels) (Market.crypto ∷ Market.forex ∷ []) (
          is_set_up-SetUp w configs channels (ap (λ q. q.0) e1)
            (subst (λ x. (list_all channels_table t x).0 ≡ ok channels) same (ap (λ q. q.0) e2))))

  greet-OneReply :
      (w v : World) (ms : List Market)
      → All (SetUp p t w) ms
      → (rs : List Reply) (w' : World) → greet p t u ms v ≡ (ok rs, w')
      → OneReply p t w rs
  unfolding greet
  greet-OneReply w v [] k rs w' e = Told-OneReply p t w rs ((Told-say _).holds v rs w' e)
  greet-OneReply w v (m ∷ []) k rs w' e =
      Told-OneReply p t w rs ((Told-offer_referral_link m).holds v rs w' e)
  greet-OneReply w v (m ∷ n ∷ ms) k rs w' e = record {
    reply = record { text = Message.choose_market; buttons = m ∷ n ∷ ms };
    only = cc;
    offered = k;
  }

  start-OneReply : Holds (OneReply p t) (start p t u)
  unfolding start
  start-OneReply w rs w' e =
      let (ms, v, e1, e2) = bind_ok (available_markets p t) (greet p t u) w e in
      greet-OneReply w v ms (available_markets-SetUp w ms v e1) rs w' e2

  OneReply-answers : AnswerRules (OneReply p t) p t u
  OneReply-answers = record {
    started = start-OneReply;
    submitted =
        λ m w c rs w' e. Told-OneReply p t w rs ((Told-submit (uid_of u) m).holds w rs w' e);
    pressed = λ o w rs w' e. Told-OneReply p t w rs ((Told-press o).holds w rs w' e);
    said = λ message plain w rs w' e. Told-OneReply p t w rs ((Told-say message).holds w rs w' e);
  }

  -- When the bot answers an update, it sends exactly one reply, and each market that the buttons
  -- of the reply offer was completely set up: among the programs and the channels that the tenant
  -- lists there are an active program of the provider for the market and an active channel of it.
  pub handle-OneReply :
      (w : World) (rs : List Reply) (w' : World) → handle p t u w ≡ (ok rs, w') → OneReply p t w rs
  handle-OneReply = handle-Holds OneReply-answers
