-- ===== src/Tests/Payments.antt =====
-- A payment at a concrete database.
use vip_channel_management_s.Prelude.{none, some, ◌≡◌, refl, codes}
use vip_channel_management_s.Prelude.Int.{pos}
use vip_channel_management_s.Errors.{ok, err, Error}
use vip_channel_management_s.World.{World}
use vip_channel_management_s.Tables.Instances.{payments_table}
use vip_channel_management_s.Repositories.{get_by_id}
use vip_channel_management_s.Repositories.Refinement.{IsReady}
use vip_channel_management_s.Payments.{
  PaymentIngestRequest, payment_record, ingest_payment_webhook, payment_response,
}
use vip_channel_management_s.Payments.Recorded.{process_payment_twice, ingest_twice}
use vip_channel_management_s.Tests.Data.{world, db, silent}

abbrev payment : PaymentIngestRequest
payment = record { tx_hash = codes "0xabc"; user_id = 10; amount = pos 5000000000; currency = none }

abbrev till : World
till = world db silent

IsReady-till : IsReady payments_table 1 till
IsReady-till = record { bound = refl; keyed = tt }

-- an amount of nothing is refused
refused :
    ingest_payment_webhook 1 (record payment { amount = pos 0 }) till
    ≡ (err (Error.http_error 422), till)
unfolding ingest_payment_webhook
refused = refl

process_payment_twice_example :
    let once = payment_record 100 1 payment in
    let again = payment_record 101 1 payment in
    (w' : World) × (ingest_twice 1 payment till
      ≡ (ok (payment_response once, payment_response again), w'))
    × (get_by_id payments_table 1 100 w' ≡ (ok (some once), w'))
    × (get_by_id payments_table 1 101 w' ≡ (ok (some again), w'))
process_payment_twice_example = process_payment_twice 1 payment till IsReady-till
