-- ===== src/Payments/Recorded.antt =====
-- What the ingestion of a payment leaves in the table of payments.
use vip_channel_management_s.Prelude.{
  ℕ, Bool, true, false, some, List, [], ◌∷◌, ◌≡◌, refl, any, arith, ◌+◌, ◌==◌, if◌then◌else◌, codes,
  ap, ◌∙◌, sym,
}
use vip_channel_management_s.Errors.{ok, ok-inj}
use vip_channel_management_s.Models.{PaymentRecordTable}
use vip_channel_management_s.World.{World, pure, ◌>>=◌, Action}
use vip_channel_management_s.World.Bind.{bind_run}
use vip_channel_management_s.Tables.{conflicts, put_row}
use vip_channel_management_s.Tables.Instances.{payments_table}
use vip_channel_management_s.Tables.Laws.{payments_table-IsTable}
use vip_channel_management_s.Repositories.{save, get_by_id}
use vip_channel_management_s.Repositories.Refinement.{IsReady, store_of}
use vip_channel_management_s.Repositories.Totals.{save-writes, save-get_by_id, get_by_id-view}
use vip_channel_management_s.Payments.{
  PaymentIngestRequest, payment_record, payment_response, process_payment, PaymentIngestResponse,
  currency_or_default,
}

no_conflict :
    (a : PaymentRecordTable) (xs : List PaymentRecordTable)
    → any (conflicts payments_table a) xs ≡ false
no_conflict a [] = refl
no_conflict a (x ∷ xs) = ground (arith, no_conflict a xs)

module _ (t : ℕ) (payload : PaymentIngestRequest) (w : World) (h : IsReady payments_table t w) where
  abbrev row : PaymentRecordTable
  row = payment_record w.next_id t payload

  abbrev numbered : World
  numbered = record w { next_id = w.next_id + 1 }

  -- the world after the payment
  abbrev pub paid : World
  paid = record numbered {
    db = record w.db { payments = put_row payments_table row w.db.payments };
  }

  saved : save payments_table t row numbered ≡ (ok row, paid)
  saved =
      save-writes payments_table t payments_table-IsTable row numbered
        (record { bound = h.bound; keyed = h.keyed }) (no_conflict row w.db.payments)

  pub process_payment-paid : process_payment t payload w ≡ (ok (payment_response row), paid)
  unfolding process_payment ◌>>=◌
  process_payment-paid =
      bind_run (save payments_table t row) (λ r. pure (payment_response r)) numbered saved

  -- Under its identifier the payment is found next, and under every other what was there.
  pub get_by_id-paid :
      IsReady payments_table t paid
      × ((id : ℕ)
          → get_by_id payments_table t id paid
            ≡ (ok (if w.next_id == id then some row else store_of payments_table t w id), paid))
  get_by_id-paid =
      save-get_by_id payments_table t payments_table-IsTable row row numbered paid
        (record { bound = h.bound; keyed = h.keyed }) saved

  pub own_found : get_by_id payments_table t w.next_id paid ≡ (ok (some row), paid)
  own_found =
      let self : (w.next_id == w.next_id) ≡ true = ground arith in
      get_by_id-paid.1 w.next_id
      ∙ ap
          (λ (b : Bool). (ok (if b then some row else store_of payments_table t w w.next_id), paid))
          self

  pub others_found :
      (id : ℕ) (r : PaymentRecordTable)
      → (w.next_id == id) ≡ false
      → get_by_id payments_table t id w ≡ (ok (some r), w)
      → get_by_id payments_table t id paid ≡ (ok (some r), paid)
  others_found id r other e =
      let there : store_of payments_table t w id ≡ some r =
        ok-inj (
          ap (λ p. p.0)
            (sym (get_by_id-view payments_table t payments_table-IsTable id w h) ∙ e)) in
      get_by_id-paid.1 id ∙ (λ i. (ok (if other i then some row else there i), paid))

-- In a session of a tenant, the ingestion of a payment always returns: its response has the
-- payment's hash, the status PROCESSED and the identifier under which the record is found next.
pub process_payment-recorded :
    (t : ℕ) (payload : PaymentIngestRequest) (w : World)
    → IsReady payments_table t w
    → (w' : World) × (process_payment t payload w ≡ (
      ok (record { status = codes "PROCESSED"; payment_id = w.next_id; tx_hash = payload.tx_hash }),
      w',
    ))
      × (get_by_id payments_table t w.next_id w'
          ≡ (ok (some (payment_record w.next_id t payload)), w'))
process_payment-recorded t payload w h =
    (paid t payload w h, process_payment-paid t payload w h, own_found t payload w h)

-- the payment, ingested twice
abbrev pub ingest_twice :
    ℕ → PaymentIngestRequest → Action (PaymentIngestResponse × PaymentIngestResponse)
ingest_twice t payload = do
  r ← process_payment t payload
  s ← process_payment t payload
  pure (r, s)

-- The same payment, ingested twice in a session of a tenant, is recorded twice: both requests
-- return, each with its own identifier, and under the two identifiers two records with the hash,
-- the user, the amount and the currency of the payment are found.
pub process_payment_twice :
    (t : ℕ) (payload : PaymentIngestRequest) (w : World)
    → IsReady payments_table t w
    → let record_of : ℕ → PaymentRecordTable = λ id. record {
      id = id;
      tenant_id = t;
      user_id = payload.user_id;
      tx_hash = payload.tx_hash;
      amount = payload.amount;
      currency = currency_or_default payload.currency;
      status = codes "PROCESSED";
    } in
      let once = record_of w.next_id in
      let again = record_of (w.next_id + 1) in
      (w' : World) × (ingest_twice t payload w
        ≡ (ok (payment_response once, payment_response again), w'))
      × (get_by_id payments_table t w.next_id w' ≡ (ok (some once), w'))
      × (get_by_id payments_table t (w.next_id + 1) w' ≡ (ok (some again), w'))
process_payment_twice t payload w h =
    let first = paid t payload w h in
    let ready = (get_by_id-paid t payload w h).0 in
    let other : (w.next_id + 1 == w.next_id) ≡ false = ground arith in
    (
      paid t payload first ready,
      bind_run (process_payment t payload) _ w (process_payment-paid t payload w h)
          ∙ bind_run (process_payment t payload) _ first
              (process_payment-paid t payload first ready),
      others_found t payload first ready w.next_id (payment_record w.next_id t payload) other
          (own_found t payload w h),
      own_found t payload first ready,
    )
