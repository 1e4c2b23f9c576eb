-- ===== src/Tests/Setup.antt =====
-- The admin routes at concrete inputs.
use vip_channel_management_s.Bot.Flow.{after_prefix}
use vip_channel_management_s.Providers.{
  telegram, secret, token_of, opened, decrypted, referral_provider,
}
use vip_channel_management_s.Admin.Secrets.{
  last_four, upsert_credential, store_secret, encrypt_secret, write_secret,
}
use vip_channel_management_s.World.{◌>>=◌, World, ask_telegram}
use vip_channel_management_s.Prelude.{
  refl, ◌∷◌, sym, [], codes, some, none, Text, Option, false, true, ◌≡◌,
}
use vip_channel_management_s.Tests.Data.{
  db, world, answering, funded, AllKeyed-db, decrypt, channel,
}
use vip_channel_management_s.Admin.Check.{
  check_integration, check_bot, check_referral, noting, active_markets, programs_missing,
}
use vip_channel_management_s.Admin.Schemas.{
  ChannelRequest, IntegrationCheckResponse, CredentialUpsertRequest, CredentialResponse,
}
use vip_channel_management_s.Admin.Ready.{Complete, check_integration-ready}
use vip_channel_management_s.Admin.Channels.{upsert_channel}
use vip_channel_management_s.Enums.{Market, ProviderType}
use vip_channel_management_s.Admin.Keep.{upsert, Upsert}
use vip_channel_management_s.Errors.{ok, err, Error}
use vip_channel_management_s.Admin.Stored.{upsert_credential-secret}
use vip_channel_management_s.Repositories.{
  get_named, one_or_none, list_all, list_page, save, get_bot_config,
}
use vip_channel_management_s.Admin.Reactivation.{upsert_channel-inactive}
use vip_channel_management_s.Tables.{query, flush_row, put_row}
use vip_channel_management_s.Web.{
  HttpRequest, uuid_of, without, request_route, drop_braces, read_hex,
}
use vip_channel_management_s.Web.Contained.{Confined, request_route-Confined}

-- a cipher that leaves every text as it is
abbrev plain : Text → Option Text
plain text = some text

abbrev admin_world : World
admin_world = world db (answering funded)

abbrev request : CredentialUpsertRequest
request = record {
  provider_type = ProviderType.eplanet;
  credential_name = codes "token";
  secret = codes "abcdef";
}

abbrev stored_response : CredentialResponse
stored_response = record {
  id = 100;
  provider_type = ProviderType.eplanet;
  credential_name = codes "token";
  last_four = some (codes "cdef");
  verified_at = none;
}

stored :
    upsert_credential plain 1 request admin_world
    ≡ (ok stored_response, (upsert_credential plain 1 request admin_world).1)
unfolding upsert_credential store_secret encrypt_secret write_secret get_named one_or_none query
    flush_row put_row save last_four ◌>>=◌
stored = refl

upsert_credential-secret_example :
    secret plain 1 ProviderType.eplanet
      (codes "token")
      (upsert_credential plain 1 request admin_world).1
    ≡ (ok (codes "abcdef"), (upsert_credential plain 1 request admin_world).1)
upsert_credential-secret_example =
    upsert_credential-secret plain plain 1 request stored_response admin_world
      (upsert_credential plain 1 request admin_world).1 (λ s c h. sym h) refl AllKeyed-db stored

abbrev closed_world : World
closed_world = record admin_world {
  db = record db { channels = record channel { is_active = false } ∷ [] };
}

abbrev reopened : ChannelRequest
reopened = record {
  market = Market.crypto;
  chat_id = channel.chat_id;
  title = none;
  is_active = true;
}

upsert_channel-inactive_example :
    upsert_channel 1 reopened closed_world
    ≡ (err Error.integrity_error, record closed_world { next_id = 101 })
upsert_channel-inactive_example =
    upsert_channel-inactive 1 reopened closed_world refl refl refl refl refl

abbrev answer : IntegrationCheckResponse
answer = record {
  bot_ok = true;
  bot_username = some (codes "link");
  referral_ok = true;
  channels_checked = Market.crypto ∷ [];
  problems = [];
}

answered :
    check_integration decrypt 1 admin_world
    ≡ (ok answer, (check_integration decrypt 1 admin_world).1)
unfolding check_integration check_bot check_referral noting active_markets programs_missing list_all
    list_page query ask_telegram telegram token_of secret opened decrypted get_named get_bot_config
    one_or_none referral_provider ◌>>=◌
answered = refl

check_integration-ready_example : Complete decrypt 1 admin_world
check_integration-ready_example =
    check_integration-ready decrypt 1 answer admin_world (check_integration decrypt 1 admin_world).1
      answered refl

abbrev http_request : HttpRequest
http_request = record {
  path = codes "/api/v1/admin/credentials";
  tenant_header = some (codes "00000000-0000-0000-0000-000000000001");
}

header_read : uuid_of (codes "{00000000-0000-0000-0000-0000000000aF}") ≡ some 175
unfolding uuid_of without drop_braces read_hex after_prefix
header_read = refl

request_route-Confined_example :
    Confined http_request admin_world
      (request_route http_request (λ t. upsert plain t (Upsert.credential request)) admin_world)
request_route-Confined_example =
    request_route-Confined plain http_request (Upsert.credential request) admin_world AllKeyed-db
