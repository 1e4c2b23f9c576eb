-- ===== src/Bot/Every.antt =====
-- What holds of every answer of `handle` of app/services/bot_conversation.py: what holds of the
-- answers to /start, to a submission and to a button, and of the bot's plain replies.
use vip_channel_management_s.Prelude.{
  refl, ℕ, false, Option, none, some, List, [], ◌∷◌, ◌≡◌, Text, Bool-cases, inr, codes, inl, ap,
}
use vip_channel_management_s.Enums.{ProviderType, Market}
use vip_channel_management_s.World.{World, Action, pure, ◌>>=◌}
use vip_channel_management_s.Errors.{Result, ok}
use vip_channel_management_s.Repositories.{
  get_by_telegram_id, get_for, one_or_none, list_all, list_page,
}
use vip_channel_management_s.Bot.Render.{Reply, say}
use vip_channel_management_s.Bot.Flow.{
  available_markets, IncomingUpdate, dispatch, read, submit_to_only, start, handle_uid, handle,
  submit_to_pending, after_prefix, parse_market, market_callback_prefix, submit, or_empty, press,
  starts_with, pending_of,
}
use vip_channel_management_s.Tables.{query}
use vip_channel_management_s.World.Bind.{bind_ok}
use vip_channel_management_s.Uid.{strip, normalize_uid, is_valid_bitunix_uid, isdigit}
use vip_channel_management_s.Messages.{Message}
use vip_channel_management_s.Bot.Plain.{is_invitation}
use vip_channel_management_s.Tables.Interface.{Table}
use vip_channel_management_s.Models.{TelegramUser}

-- The steps before a submission only read.
module _ (p : ProviderType) (t : ℕ) (w : World) where
  pub list_all-reads : {A : Type 0} (tbl : Table A) → (list_all tbl t w).1 ≡ w
  unfolding list_all list_page query ◌>>=◌
  list_all-reads tbl = refl

  pub get_for-reads : (m : Market) → (get_for t p m w).1 ≡ w
  unfolding get_for one_or_none query ◌>>=◌
  get_for-reads m = refl

  pub available_markets-reads : (available_markets p t w).1 ≡ w
  unfolding available_markets list_all list_page query ◌>>=◌
  available_markets-reads = refl

  get_by_telegram_id-reads : (id : ℕ) → (get_by_telegram_id t id w).1 ≡ w
  unfolding get_by_telegram_id one_or_none query ◌>>=◌
  get_by_telegram_id-reads id = refl

pub same_world :
    {A : Type 0} (m : Action A) (w : World) {r : Result A} {w' : World}
    → (m w).1 ≡ w
    → m w ≡ (r, w')
    → w' ≡ w
same_world m w reads e = rw e at reads

-- What Q says of the world before and of the answer, whenever the action returns one
abbrev pub Holds : (World → List Reply → Type 0) → Action (List Reply) → Type 0
Holds Q m = (w : World) (rs : List Reply) (w' : World) → m w ≡ (ok rs, w') → Q w rs

-- The same from one world
abbrev pub HoldsFrom : (World → List Reply → Type 0) → World → Action (List Reply) → Type 0
HoldsFrom Q w m = (rs : List Reply) (w' : World) → m w ≡ (ok rs, w') → Q w rs

-- The UID that an update sends
abbrev pub uid_of : IncomingUpdate → Text
uid_of u = normalize_uid (some (strip (or_empty u.text)))

-- The market is the one that the sender has chosen before, or the only one that is offered.
pub data Chosen (p : ProviderType) (t : ℕ) (u : IncomingUpdate) (w : World) (m : Market)
    : Type 0 where
  before :
      (user : TelegramUser)
      → (get_by_telegram_id t u.user_id w).0 ≡ ok (some user)
      → user.pending_market ≡ some m
      → Chosen p t u w m
  only : (available_markets p t w).0 ≡ ok (m ∷ []) → Chosen p t u w m

pub record AnswerRules (Q : World → List Reply → Type 0) (p : ProviderType) (t : ℕ)
    (u : IncomingUpdate) : Type 0 where
  pub started : Holds Q (start p t u)
  pub submitted :
      (m : Market) (w : World) → Chosen p t u w m → HoldsFrom Q w (submit p t u (uid_of u) m)
  pub pressed : (o : Option Market) → Holds Q (press p t u o)
  pub said : (message : Message) → is_invitation message ≡ false → Holds Q (pure (say message))

-- An action that only reads may come first.
pub after_reading :
    {A : Type 0} (Q : World → List Reply → Type 0) (m : Action A) (f : A → Action (List Reply))
    (w : World)
    → (m w).1 ≡ w
    → ((a : A) → (m w).0 ≡ ok a → HoldsFrom Q w (f a))
    → HoldsFrom Q w (m >>= f)
after_reading Q m f w reads k rs w' e =
    let (a, w1, e1, e2) = bind_ok m f w e in
    k a (ap (λ q. q.0) e1) rs w' (rw (same_world m w reads e1) at e2)

pending_of-Chosen :
    (p : ProviderType) (t : ℕ) (u : IncomingUpdate) (w : World) (o : Option TelegramUser)
    (m : Market)
    → (get_by_telegram_id t u.user_id w).0 ≡ ok o
    → pending_of o ≡ some m
    → Chosen p t u w m
pending_of-Chosen p t u w none m e h = cc
pending_of-Chosen p t u w (some user) m e h = Chosen.before user e h

module _ {Q : World → List Reply → Type 0} {p : ProviderType} {t : ℕ} {u : IncomingUpdate}
    (rules : AnswerRules Q p t u) (w : World) where
  submit_to_only-Holds :
      (ms : List Market)
      → (available_markets p t w).0 ≡ ok ms
      → HoldsFrom Q w (submit_to_only p t u (uid_of u) ms)
  unfolding submit_to_only
  submit_to_only-Holds [] e = rules.started w
  submit_to_only-Holds (m ∷ []) e = rules.submitted m w (Chosen.only e)
  submit_to_only-Holds (m ∷ n ∷ ms) e = rules.started w

  submit_to_pending-Holds :
      (o : Option Market)
      → ((m : Market) → o ≡ some m → Chosen p t u w m)
      → HoldsFrom Q w (submit_to_pending p t u (uid_of u) o)
  unfolding submit_to_pending
  submit_to_pending-Holds (some m) k = rules.submitted m w (k m refl)
  submit_to_pending-Holds none k =
      after_reading Q (available_markets p t) _ w (available_markets-reads p t w)
        submit_to_only-Holds

  handle_uid-Holds : HoldsFrom Q w (handle_uid p t u (strip (or_empty u.text)))
  unfolding handle_uid
  handle_uid-Holds rs w' e = elim (Bool-cases (is_valid_bitunix_uid (uid_of u))) [
    | inr bad ↦ rules.said Message.invalid_uid refl w rs w' (rw bad at e)
    | inl good ↦
        after_reading Q (get_by_telegram_id t u.user_id) _ w
          (get_by_telegram_id-reads p t w u.user_id)
          (λ user found.
            submit_to_pending-Holds (pending_of user) (λ m. pending_of-Chosen p t u w user m found))
          rs w' (rw good at e)
  ]

  read-Holds : HoldsFrom Q w (read p t u)
  unfolding read
  read-Holds rs w' e =
      let text : Text = strip (or_empty u.text) in
      elim (Bool-cases (starts_with (codes "/start") text)) [
        | inl is ↦ rules.started w rs w' (rw is at e)
        | inr fails ↦ elim (Bool-cases (isdigit (normalize_uid (some text)))) [
          | inl digits ↦ handle_uid-Holds rs w' (rw (fails, digits) at e)
          | inr other ↦ rules.said Message.ask_for_uid refl w rs w' (rw (fails, other) at e)
        ]
      ]

  dispatch-Holds : (o : Option Text) → HoldsFrom Q w (dispatch p t u o)
  unfolding dispatch
  dispatch-Holds none = read-Holds
  dispatch-Holds (some raw) = rules.pressed (parse_market raw) w

pub handle-Holds :
    {Q : World → List Reply → Type 0} {p : ProviderType} {t : ℕ} {u : IncomingUpdate}
    → AnswerRules Q p t u
    → Holds Q (handle p t u)
unfolding handle
handle-Holds {u = u} rules w =
    dispatch-Holds rules w (after_prefix market_callback_prefix (or_empty u.callback_data))
