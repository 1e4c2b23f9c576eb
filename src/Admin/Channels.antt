-- ===== src/Admin/Channels.antt =====
-- The channels of app/adapters/web/routers/admin.py.
use vip_channel_management_s.Admin.Schemas.{
  ChannelRequest, ChannelResponse, is_channel_request, validated,
}
use vip_channel_management_s.Models.{TelegramChannel}
use vip_channel_management_s.Repositories.{get_for_market, list_all, save}
use vip_channel_management_s.Tables.{flush_row}
use vip_channel_management_s.Tables.Instances.{channels_table}
use vip_channel_management_s.World.{Action, pure, uuid4, ◌>>=◌}
use vip_channel_management_s.Prelude.{ℕ, List, none, Option, some, map, true}

-- a new row, with the defaults of the columns
abbrev pub channel_row : ℕ → ℕ → ChannelRequest → TelegramChannel
channel_row id tenant_id payload = record {
  id = id;
  tenant_id = tenant_id;
  market = payload.market;
  chat_id = payload.chat_id;
  title = none;
  is_active = true;
}

unfoldable pub channel_or_new : ℕ → ChannelRequest → Option TelegramChannel → Action TelegramChannel
channel_or_new tenant_id payload (some channel) = pure channel
channel_or_new tenant_id payload none = do
  id ← uuid4
  save channels_table tenant_id (channel_row id tenant_id payload)

abbrev pub channel_of : TelegramChannel → ChannelRequest → TelegramChannel
channel_of channel payload = record channel {
  chat_id = payload.chat_id;
  title = payload.title;
  is_active = payload.is_active;
}

abbrev pub channel_response : TelegramChannel → ChannelResponse
channel_response c = record {
  id = c.id;
  market = c.market;
  chat_id = c.chat_id;
  title = c.title;
  is_active = c.is_active;
}

unfoldable pub upsert_channel : ℕ → ChannelRequest → Action ChannelResponse
unfolding channel_or_new
upsert_channel tenant_id payload = validated (is_channel_request payload) (do
  found ← get_for_market tenant_id payload.market
  channel ← channel_or_new tenant_id payload found
  written ← flush_row channels_table (channel_of channel payload)
  pure (channel_response written))

unfoldable pub list_channels : ℕ → Action (List ChannelResponse)
list_channels tenant_id = do
  channels ← list_all channels_table tenant_id
  pure (map channel_response channels)
