-- ===== src/World.antt =====
-- What a request can read and change: the database behind a session, the tenant that the session
-- is bound to, the clock, and the calls made to Telegram and to the exchange. Neither of those
-- two is part of the repository: a pair of functions answers for them, from all calls so far.
pub mod Bind
pub mod Ensures
use vip_channel_management_s.Prelude.{
  ℕ, Option, none, some, List, Text, ◌∷◌, ◌+◌, Bool, if◌then◌else◌,
}
use vip_channel_management_s.Prelude.Int.{ℤ}
use vip_channel_management_s.Enums.{Market}
use vip_channel_management_s.Errors.{Error, Result, ok, err}
use vip_channel_management_s.Eligibility.{ReferralCheck}
use vip_channel_management_s.Messages.{Message}
use vip_channel_management_s.Models.{Db}

-- The methods of `TelegramProvider` and `ReferralProvider.validate_user`. The buttons of a message
-- are the markets that they offer.
pub data Call : Type 0 where
  get_me : Call
  create_invite_link : (chat_id : ℤ) → (member_limit : ℕ) → (expire_date : ℕ) → (user : ℕ) → Call
  ban_chat_member unban_chat_member : (chat_id : ℤ) → (user_id : ℕ) → Call
  send_message : (chat_id : ℤ) → (text : Message) → (buttons : List Market) → Call
  validate_user : (uid : Text) → Call

-- `telegram` is what the method returns, as a text (the link of an invite), or what it raises:
-- ProviderUnavailableError where Telegram could not be reached or refused, and another error for
-- an answer of another shape. `exchange` is what `validate_user` returns or raises.
pub record Outside : Type 0 where
  pub telegram : List Call → Call → Result Text
  pub exchange : List Call → Text → Result ReferralCheck

-- `bound` is the tenant of `bind_tenant`. The newest call stands first in `calls`. `next_id` gives
-- new rows an identifier that no row has. The clock stands still during one request.
pub record World : Type 0 where
  pub db : Db
  pub bound : Option ℕ
  pub now : ℕ
  pub next_id : ℕ
  pub outside : Outside
  pub calls : List Call

-- What was done before a raise stays done, until the caller rolls the session back.
abbrev pub Action : Type 0 → Type 0
Action A = World → Result A × World

module _ {A : Type 0} where
  abbrev pub pure : A → Action A
  pure a w = (ok a, w)

  abbrev pub raise : Error → Action A
  raise e w = (err e, w)

  abbrev pub gets : (World → A) → Action A
  gets f w = (ok (f w), w)

  abbrev pub lift : Result A → Action A
  lift r w = (r, w)

infixl 5 ◌>>=◌ ◌>>◌
unfoldable pub ◌>>=◌ : {A B : Type 0} → Action A → (A → Action B) → Action B
◌>>=◌ m f w = let (r, w') = m w in elim r [ ok a ↦ f a w' | err e ↦ (err e, w') ]

abbrev pub ◌>>◌ : {A B : Type 0} → Action A → Action B → Action B
m >> k = m >>= λ _. k

-- `try: m except <the errors that are caught>: handler`
unfoldable pub catch : {A : Type 0} → (Error → Bool) → Action A → Action A → Action A
catch caught m handler w =
    let (r, w') = m w in
    elim r [ ok a ↦ (ok a, w') | err e ↦ if caught e then handler w' else (err e, w') ]

abbrev pub utcnow : Action ℕ
utcnow = gets (λ w. w.now)

-- the default of a primary key
abbrev pub uuid4 : Action ℕ
uuid4 w = (ok w.next_id, record w { next_id = w.next_id + 1 })

-- a call of Telegram
unfoldable pub ask_telegram : Call → Action Text
ask_telegram call w = (w.outside.telegram w.calls call, record w { calls = call ∷ w.calls })

-- `ReferralProvider.validate_user`
unfoldable pub ask_exchange : Text → Action ReferralCheck
ask_exchange uid w =
    (w.outside.exchange w.calls uid, record w { calls = validate_user uid ∷ w.calls })
