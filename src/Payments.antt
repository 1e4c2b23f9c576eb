-- ===== src/Payments.antt =====
-- The ingestion of payments: app/services/payment_service.py, its schemas in app/schemas/payment.py
-- and its route in app/adapters/web/routers/webhooks.py.
pub mod Recorded
use vip_channel_management_s.Prelude.{ℕ, Bool, ◌&&◌, Option, none, some, Text, codes, length, leb}
use vip_channel_management_s.Prelude.Int.{ℤ, pos, ltb_ℤ}
use vip_channel_management_s.Models.{PaymentRecordTable}
use vip_channel_management_s.World.{Action, pure, uuid4, ◌>>=◌}
use vip_channel_management_s.Tables.Instances.{payments_table}
use vip_channel_management_s.Repositories.{save}
use vip_channel_management_s.Admin.Schemas.{fits, validated}

-- An amount is a count of 10⁻⁸. The currency is `none` where the body has none.
pub record PaymentIngestRequest : Type 0 where
  pub tx_hash : Text
  pub user_id : ℕ
  pub amount : ℤ
  pub currency : Option Text

pub record PaymentIngestResponse : Type 0 where
  pub status : Text
  pub payment_id : ℕ
  pub tx_hash : Text

-- `Field(default="USDT")`
abbrev pub currency_or_default : Option Text → Text
currency_or_default none = codes "USDT"
currency_or_default (some currency) = currency

abbrev pub is_payment_request : PaymentIngestRequest → Bool
is_payment_request p =
    leb 1 (length p.tx_hash)
    && (ltb_ℤ (pos 0) p.amount && fits 2 10 (currency_or_default p.currency))

abbrev pub payment_record : ℕ → ℕ → PaymentIngestRequest → PaymentRecordTable
payment_record id tenant_id payload = record {
  id = id;
  tenant_id = tenant_id;
  user_id = payload.user_id;
  tx_hash = payload.tx_hash;
  amount = payload.amount;
  currency = currency_or_default payload.currency;
  status = codes "PROCESSED";
}

abbrev pub payment_response : PaymentRecordTable → PaymentIngestResponse
payment_response r = record { status = r.status; payment_id = r.id; tx_hash = r.tx_hash }

-- `PaymentProcessingService.process_payment`
unfoldable pub process_payment : ℕ → PaymentIngestRequest → Action PaymentIngestResponse
process_payment tenant_id payload = do
  id ← uuid4
  saved_record ← save payments_table tenant_id (payment_record id tenant_id payload)
  pure (payment_response saved_record)

-- the route
unfoldable pub ingest_payment_webhook : ℕ → PaymentIngestRequest → Action PaymentIngestResponse
unfolding process_payment
ingest_payment_webhook tenant_id payload =
    validated (is_payment_request payload) (process_payment tenant_id payload)
