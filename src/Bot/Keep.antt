-- ===== src/Bot/Keep.antt =====
-- The chat flow of app/services/bot_conversation.py keeps to its session.
use vip_channel_management_s.Prelude.{ℕ, Option, none, some, List, [], ◌∷◌, Text, ◌≡◌}
use vip_channel_management_s.Bot.Flow.{
  offer, available_markets, ensure_known, found_user, IncomingUpdate, read, greet, press,
  submit_to_pending, start, dispatch, handle, handle_uid, submit, submit_to_only,
  offer_referral_link, parse_market, after_prefix, market_callback_prefix, or_empty,
}
use vip_channel_management_s.Enums.{ProviderType, Market}
use vip_channel_management_s.Session.Defs.{Keeps, Isolated, Keeps-Isolated}
use vip_channel_management_s.Repositories.Keep.{repository_rules}
use vip_channel_management_s.Models.{TelegramUser, ReferralProgramConfig}
use vip_channel_management_s.Onboarding.Keep.{submit_uid-Keeps}
use vip_channel_management_s.World.{World}
use vip_channel_management_s.Tables.Constraints.{AllKeyed}

module _ {t : ℕ} where
  Keeps-available_markets :
      (p : ProviderType) (tenant_id : ℕ) → Keeps t (available_markets p tenant_id)
  unfolding available_markets
  Keeps-available_markets p tenant_id = search repository_rules

  Keeps-found_user :
      (tenant_id : ℕ) (u : IncomingUpdate) (o : Option TelegramUser)
      → Keeps t (found_user tenant_id u o)
  unfolding found_user
  Keeps-found_user tenant_id u none = search repository_rules
  Keeps-found_user tenant_id u (some user) = search repository_rules

  Keeps-ensure_known : (tenant_id : ℕ) (u : IncomingUpdate) → Keeps t (ensure_known tenant_id u)
  unfolding ensure_known
  Keeps-ensure_known tenant_id u = search (repository_rules, Keeps-found_user)

  Keeps-offer :
      (tenant_id : ℕ) (u : IncomingUpdate) (m : Market) (c : Option ReferralProgramConfig)
      → Keeps t (offer tenant_id u m c)
  unfolding offer
  Keeps-offer tenant_id u m none = search repository_rules
  Keeps-offer tenant_id u m (some c) = search (repository_rules, Keeps-ensure_known) depth 8

module _ {t : ℕ} (p : ProviderType) (tenant_id : ℕ) (u : IncomingUpdate) where
  Keeps-offer_referral_link : (m : Market) → Keeps t (offer_referral_link p tenant_id u m)
  unfolding offer_referral_link
  Keeps-offer_referral_link m = search (repository_rules, Keeps-offer)

  Keeps-greet : (ms : List Market) → Keeps t (greet p tenant_id u ms)
  unfolding greet
  Keeps-greet [] = search repository_rules
  Keeps-greet (m ∷ []) = Keeps-offer_referral_link m
  Keeps-greet (m ∷ n ∷ ms) = search repository_rules

  Keeps-start : Keeps t (start p tenant_id u)
  unfolding start
  Keeps-start = search (repository_rules, Keeps-available_markets, Keeps-greet)

  Keeps-submit : (uid : Text) (m : Market) → Keeps t (submit p tenant_id u uid m)
  unfolding submit
  Keeps-submit uid m = search (repository_rules, submit_uid-Keeps)

  Keeps-submit_to_only :
      (uid : Text) (ms : List Market) → Keeps t (submit_to_only p tenant_id u uid ms)
  unfolding submit_to_only
  Keeps-submit_to_only uid [] = Keeps-start
  Keeps-submit_to_only uid (m ∷ []) = Keeps-submit uid m
  Keeps-submit_to_only uid (m ∷ n ∷ ms) = Keeps-start

  Keeps-submit_to_pending :
      (uid : Text) (o : Option Market) → Keeps t (submit_to_pending p tenant_id u uid o)
  unfolding submit_to_pending
  Keeps-submit_to_pending uid none =
      search (repository_rules, Keeps-available_markets, Keeps-submit_to_only)
  Keeps-submit_to_pending uid (some m) = Keeps-submit uid m

  Keeps-handle_uid : (raw : Text) → Keeps t (handle_uid p tenant_id u raw)
  unfolding handle_uid
  Keeps-handle_uid raw = search (repository_rules, Keeps-submit_to_pending)

  Keeps-press : (o : Option Market) → Keeps t (press p tenant_id u o)
  unfolding press
  Keeps-press none = search repository_rules
  Keeps-press (some m) = Keeps-offer_referral_link m

  Keeps-read : Keeps t (read p tenant_id u)
  unfolding read
  Keeps-read = search (repository_rules, Keeps-start, Keeps-handle_uid)

  Keeps-dispatch : (o : Option Text) → Keeps t (dispatch p tenant_id u o)
  unfolding dispatch
  Keeps-dispatch none = Keeps-read
  Keeps-dispatch (some raw) = Keeps-press (parse_market raw)

  pub handle-Keeps : Keeps t (handle p tenant_id u)
  unfolding handle
  handle-Keeps = Keeps-dispatch (after_prefix market_callback_prefix (or_empty u.callback_data))

-- In a session of tenant `t` on a database that meets the unique constraints, whatever is sent to
-- the bot, and whatever Telegram and the exchange answer, handling it changes no row of another
-- tenant and no unscoped row, keeps the unique constraints, and only adds calls, whether it returns
-- or raises.
pub handle-Isolated :
    (t : ℕ) (p : ProviderType) (tenant_id : ℕ) (u : IncomingUpdate) (w : World)
    → w.bound ≡ some t
    → AllKeyed w.db
    → Isolated t w (handle p tenant_id u w).1
handle-Isolated t p tenant_id u w =
    Keeps-Isolated t (handle p tenant_id u) w (handle-Keeps p tenant_id u)
