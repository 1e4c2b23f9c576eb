-- ===== src/Admin/Reactivation.antt =====
-- `upsert_channel` of app/adapters/web/routers/admin.py on a channel that was switched off.
use vip_channel_management_s.World.{◌>>=◌, World, pure}
use vip_channel_management_s.Admin.Channels.{
  upsert_channel, channel_or_new, channel_row, channel_of, channel_response,
}
use vip_channel_management_s.Admin.Schemas.{ChannelRequest, is_channel_request}
use vip_channel_management_s.Tables.{conflicts, flush_row, in_scope, query}
use vip_channel_management_s.Tables.Instances.{channels_table}
use vip_channel_management_s.Enums.{Market, eq_market}
use vip_channel_management_s.Prelude.{
  refl, ◌∷◌, [], ℕ, List, any, Bool, ◌≡◌, leb, ◌==◌, some, false, ◌&&◌, true, arith, ◌+◌, select,
  none, ◌∙◌, ap, select-none,
}
use vip_channel_management_s.Models.{TelegramChannel}
use vip_channel_management_s.Errors.{err, Error, ok}
use vip_channel_management_s.World.Bind.{bind_run, bind_raise}
use vip_channel_management_s.Repositories.{save, get_for_market, one_or_none}

-- the channels of a tenant for a market
abbrev pub is_channel_of : ℕ → Market → TelegramChannel → Bool
is_channel_of t market c = c.tenant_id == t && eq_market c.market market

-- those that are switched on
abbrev pub is_active_channel : ℕ → Market → TelegramChannel → Bool
is_active_channel t market c = c.tenant_id == t && (eq_market c.market market && c.is_active)

abbrev pub is_newer : ℕ → TelegramChannel → Bool
is_newer n c = leb n c.id

eq_market_comm : (a b : Market) → eq_market a b ≡ eq_market b a
eq_market_comm Market.crypto Market.crypto = refl
eq_market_comm Market.crypto Market.forex = refl
eq_market_comm Market.forex Market.crypto = refl
eq_market_comm Market.forex Market.forex = refl

conflicts-channel_row :
    (t n : ℕ) (payload : ChannelRequest) (c : TelegramChannel)
    → is_newer n c ≡ false
    → is_channel_of t payload.market c ≡ true
    → conflicts channels_table (channel_row n t payload) c ≡ true
conflicts-channel_row t n payload c h k = ground (arith, eq_market_comm payload.market c.market)

any-conflicts :
    (t n : ℕ) (payload : ChannelRequest) (xs : List TelegramChannel)
    → any (is_newer n) xs ≡ false
    → any (is_channel_of t payload.market) xs ≡ true
    → any (conflicts channels_table (channel_row n t payload)) xs ≡ true
any-conflicts t n payload [] h k = cc
any-conflicts t n payload (c ∷ cs) h k =
    ground (arith, conflicts-channel_row t n payload c, any-conflicts t n payload cs)

any-select_none :
    {A : Type 0} (p q : A → Bool) (xs : List A) → any p xs ≡ false → any p (select q xs) ≡ false
any-select_none p q [] h = refl
any-select_none p q (x ∷ xs) h = ground (arith, any-select_none p q xs)

get_for_market-none :
    (t : ℕ) (market : Market) (w : World)
    → any (is_active_channel t market) w.db.channels ≡ false
    → get_for_market t market w ≡ (ok none, w)
unfolding get_for_market one_or_none query ◌>>=◌
get_for_market-none t market w h =
    rw
      (select-none (is_active_channel t market)
        (select (λ r. in_scope w.bound r.tenant_id) w.db.channels)
        (any-select_none (is_active_channel t market) (λ r. in_scope w.bound r.tenant_id)
          w.db.channels h))
      refl

channel_refused :
    (t : ℕ) (payload : ChannelRequest) (w : World)
    → w.bound ≡ some t
    → any (is_newer w.next_id) w.db.channels ≡ false
    → any (is_channel_of t payload.market) w.db.channels ≡ true
    → channel_or_new t payload none w
      ≡ (err Error.integrity_error, record w { next_id = w.next_id + 1 })
unfolding channel_or_new save flush_row ◌>>=◌
channel_refused t payload w b n h =
    let s : in_scope w.bound t ≡ true = ap (λ o. in_scope o t) b ∙ ground arith in
    rw (s, any-conflicts t w.next_id payload w.db.channels n h) refl

-- In a session of tenant `t`, when all channels have older identifiers: a tenant that has a channel
-- of a market, but no active one, is refused every channel of that market by the unique constraint,
-- so that the channel cannot be switched on again; nothing is written.
pub upsert_channel-inactive :
    (t : ℕ) (payload : ChannelRequest) (w : World)
    → w.bound ≡ some t
    → any (is_newer w.next_id) w.db.channels ≡ false
    → is_channel_request payload ≡ true
    → any (is_channel_of t payload.market) w.db.channels ≡ true
    → any (is_active_channel t payload.market) w.db.channels ≡ false
    → upsert_channel t payload w ≡ (err Error.integrity_error, record w { next_id = w.next_id + 1 })
unfolding upsert_channel
upsert_channel-inactive t payload w b n v h k = rw v (
    bind_run (get_for_market t payload.market)
      (λ found. channel_or_new t payload found >>= λ channel.
        flush_row channels_table (channel_of channel payload) >>= λ written.
        pure (channel_response written))
      w (get_for_market-none t payload.market w k)
    ∙ bind_raise (channel_or_new t payload none)
        (λ channel. flush_row channels_table (channel_of channel payload) >>= λ written.
          pure (channel_response written))
        w (channel_refused t payload w b n h))
