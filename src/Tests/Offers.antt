-- ===== src/Tests/Offers.antt =====
-- /start of app/services/bot_conversation.py in a tenant with two markets.
use vip_channel_management_s.Prelude.{refl, none, some, List, [], ◌∷◌, codes, ◌≡◌}
use vip_channel_management_s.World.{World, ◌>>=◌}
use vip_channel_management_s.Tests.Data.{config, channel, db, world, silent}
use vip_channel_management_s.Bot.Render.{Reply}
use vip_channel_management_s.Bot.Flow.{
  handle, IncomingUpdate, dispatch, read, after_prefix, start, available_markets, greet,
}
use vip_channel_management_s.Enums.{Market, ProviderType}
use vip_channel_management_s.Messages.{Message}
use vip_channel_management_s.Prelude.Int.{pos}
use vip_channel_management_s.Bot.Offered.{handle-OneReply, OneReply}
use vip_channel_management_s.Uid.{strip, left_strip}
use vip_channel_management_s.Uid.Characters.{is_space}
use vip_channel_management_s.Repositories.{list_all, list_page}
use vip_channel_management_s.Tables.{query}
use vip_channel_management_s.Errors.{ok}

abbrev two_markets : World
two_markets =
    world
      (record db {
        configs = config ∷ record config { id = 21; market = Market.forex } ∷ [];
        channels = channel ∷ record channel { id = 31; market = Market.forex } ∷ [];
      })
      silent

abbrev start_update : IncomingUpdate
start_update = record {
  chat_id = pos 55;
  user_id = 55;
  text = some (codes " /start");
  callback_data = none;
  username = none;
  first_name = none;
}

abbrev choice : List Reply
choice = record { text = Message.choose_market; buttons = Market.crypto ∷ Market.forex ∷ [] } ∷ []

start_runs :
    handle ProviderType.bitunix 1 start_update two_markets
    ≡ (ok choice, (handle ProviderType.bitunix 1 start_update two_markets).1)
unfolding handle dispatch read after_prefix strip left_strip is_space start available_markets greet
    list_all list_page query ◌>>=◌
start_runs = refl

handle-OneReply_example : OneReply ProviderType.bitunix 1 two_markets choice
handle-OneReply_example =
    handle-OneReply ProviderType.bitunix 1 start_update two_markets choice _ start_runs
