-- ===== src/Tests/Stores.antt =====
-- The abstract store of a table at concrete rows.
use vip_channel_management_s.Prelude.{none, some, List, [], ◌∷◌, ◌≡◌, refl, true, ◌↔◌, codes}
use vip_channel_management_s.Prelude.Int.{pos}
use vip_channel_management_s.Models.{TelegramChannel, Subscription}
use vip_channel_management_s.World.{World, ◌>>=◌}
use vip_channel_management_s.Errors.{ok, err, Error}
use vip_channel_management_s.Enums.{Market, AccessType, SubscriptionStatus}
use vip_channel_management_s.Tables.Instances.{channels_table, subscriptions_table}
use vip_channel_management_s.Tables.Laws.{channels_table-IsTable, subscriptions_table-IsTable}
use vip_channel_management_s.Repositories.Calls.{
  RepositoryCall, CallAnswer, all_calls, replay, one_call,
}
use vip_channel_management_s.Repositories.Refinement.{IsReady, store_of}
use vip_channel_management_s.Repositories.Totals.{save-refused_iff, all_calls_return}
use vip_channel_management_s.Tests.Data.{world, db, silent, channel}
use vip_channel_management_s.Repositories.{save, delete, get_by_id, one_or_none}
use vip_channel_management_s.Tables.{flush_row, put_row, query}
use vip_channel_management_s.Repositories.Refused.{Taken}

abbrev here : World
here = world db silent

-- the other market's channel
abbrev forex : TelegramChannel
forex = record channel { id = 31; market = Market.forex; chat_id = pos 7 }

abbrev calls : List (RepositoryCall TelegramChannel)
calls =
    RepositoryCall.put forex
    ∷ RepositoryCall.find 30
    ∷ RepositoryCall.remove 30
    ∷ RepositoryCall.find 30
    ∷ RepositoryCall.find 31
    ∷ []

IsReady-here : IsReady channels_table 1 here
IsReady-here = record { bound = refl; keyed = (refl, tt) }

made : all_calls channels_table 1 calls here ≡ (
  ok (
      CallAnswer.written forex
      ∷ CallAnswer.row (some channel)
      ∷ CallAnswer.was_there true
      ∷ CallAnswer.row none
      ∷ CallAnswer.row (some forex)
      ∷ []),
  (all_calls channels_table 1 calls here).1,
)
unfolding all_calls one_call save flush_row put_row delete get_by_id one_or_none query ◌>>=◌
made = refl

-- a second channel of a market that has one
abbrev second : TelegramChannel
second = record channel { id = 32; chat_id = pos 8 }

save-refused_iff_example :
    (save channels_table 1 second here ≡ (err Error.integrity_error, here))
    ↔ Taken channels_table second (store_of channels_table 1 here)
save-refused_iff_example =
    save-refused_iff channels_table 1 channels_table-IsTable second here IsReady-here

abbrev subscription : Subscription
subscription = record {
  id = 90;
  tenant_id = 1;
  user_id = 10;
  market = Market.crypto;
  access_type = AccessType.referral;
  plan_code = codes "referral";
  status = SubscriptionStatus.active;
  starts_at = none;
  ends_at = none;
}

abbrev renewals : List (RepositoryCall Subscription)
renewals =
    RepositoryCall.put subscription
    ∷ RepositoryCall.find 90
    ∷ RepositoryCall.remove 90
    ∷ RepositoryCall.find 90
    ∷ []

all_calls_return_example :
    (w' : World) × (all_calls subscriptions_table 1 renewals here
      ≡ (ok (replay subscriptions_table 1 renewals (store_of subscriptions_table 1 here)).0, w'))
    × (store_of subscriptions_table 1 w'
        ≡ (replay subscriptions_table 1 renewals (store_of subscriptions_table 1 here)).1)
all_calls_return_example =
    all_calls_return subscriptions_table 1 subscriptions_table-IsTable renewals here
      (record { bound = refl; keyed = tt }) ((λ k. cc k.same_key), (tt, (tt, (tt, tt))))
