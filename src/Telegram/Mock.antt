-- ===== src/Telegram/Mock.antt =====
-- app/adapters/providers/telegram_mock.py and app/adapters/providers/mock.py: the stand-ins for
-- Telegram and for an exchange.
use vip_channel_management_s.Errors.{Error, Result, ok, err}
use vip_channel_management_s.Prelude.{
  if◌then◌else◌, ◌∷◌, ◌+◌, ◌&&◌, Text, Bool, List, ℕ, Option, false, none, [], eq_text,
}
use vip_channel_management_s.Telegram.{ChatMemberStatus, BotIdentity}
use vip_channel_management_s.Prelude.Int.{ℤ, eq_ℤ, pos}
use vip_channel_management_s.Eligibility.{ReferralCheck}
use vip_channel_management_s.Json.{Json}

-- The newest entry stands first in every list; a link is its number.
pub record MockTelegram : Type 0 where
  pub identity : BotIdentity
  pub unavailable : Bool
  pub member_status : List ((ℤ × ℤ) × ChatMemberStatus)
  pub invites_created : List (ℤ × ℕ)
  pub banned : List (ℤ × ℤ)
  pub unbanned : List (ℤ × ℤ)
  pub messages : List (ℤ × Text × Json)
  pub counter : ℕ

-- a step of the stand-in: it raises or returns, and leaves the next state
abbrev pub Step : Type 0 → Type 0
Step A = MockTelegram → Result A × MockTelegram

-- `_guard`, and what follows it
abbrev pub guarded : {A : Type 0} → Step A → Step A
guarded step m = if m.unavailable then (err Error.provider_unavailable, m) else step m

abbrev pub same_pair : ℤ × ℤ → ℤ × ℤ → Bool
same_pair a b = eq_ℤ a.0 b.0 && eq_ℤ a.1 b.1

-- `member_status.get(key, LEFT)`; the newest entry counts
unfoldable pub status_at : ℤ × ℤ → List ((ℤ × ℤ) × ChatMemberStatus) → ChatMemberStatus
status_at key [] = ChatMemberStatus.left
status_at key (entry ∷ rest) =
    let older = status_at key rest in if same_pair entry.0 key then entry.1 else older

unfoldable pub mock_get_me : Step BotIdentity
mock_get_me = guarded (λ m. (ok m.identity, m))

unfoldable pub mock_create_invite_link : ℤ → ℕ → Step ℕ
mock_create_invite_link chat_id member_limit = guarded (λ m. (
  ok m.counter,
  record m {
    invites_created = (chat_id, member_limit) ∷ m.invites_created;
    counter = m.counter + 1;
  },
))

unfoldable pub mock_get_chat_member : ℤ → ℤ → Step ChatMemberStatus
unfolding status_at
mock_get_chat_member chat_id user_id =
    guarded (λ m. (ok (status_at (chat_id, user_id) m.member_status), m))

unfoldable pub mock_ban_chat_member : ℤ → ℤ → Step (Unit {0})
mock_ban_chat_member chat_id user_id = guarded (λ m. (
  ok tt,
  record m {
    banned = (chat_id, user_id) ∷ m.banned;
    member_status = ((chat_id, user_id), ChatMemberStatus.kicked) ∷ m.member_status;
  },
))

unfoldable pub mock_unban_chat_member : ℤ → ℤ → Step (Unit {0})
mock_unban_chat_member chat_id user_id = guarded (λ m. (
  ok tt,
  record m {
    unbanned = (chat_id, user_id) ∷ m.unbanned;
    member_status = ((chat_id, user_id), ChatMemberStatus.left) ∷ m.member_status;
  },
))

unfoldable pub mock_send_message : ℤ → Text → Json → Step (Unit {0})
mock_send_message chat_id text reply_markup =
    guarded (λ m. (ok tt, record m { messages = (chat_id, text, reply_markup) ∷ m.messages }))

pub record MockReferral : Type 0 where
  pub accounts : List ReferralCheck
  pub unavailable : Bool
  pub calls : List Text

unfoldable pub register : Text → ℤ → Bool → Option ℕ → MockReferral → MockReferral
register uid deposit_total registered qualifying_trades m = record m {
  accounts =
      record {
        uid = uid;
        registered = registered;
        deposit_total = deposit_total;
        qualifying_trades = qualifying_trades;
      }
      ∷ m.accounts;
}

-- `accounts.get(uid, ReferralCheck(uid=uid, registered=False))`
unfoldable pub account_at : Text → List ReferralCheck → ReferralCheck
account_at uid [] = record {
  uid = uid;
  registered = false;
  deposit_total = pos 0;
  qualifying_trades = none;
}
account_at uid (c ∷ cs) = let older = account_at uid cs in if eq_text c.uid uid then c else older

unfoldable pub mock_validate_user : Text → MockReferral → Result ReferralCheck × MockReferral
unfolding account_at
mock_validate_user uid m =
    let asked = record m { calls = uid ∷ m.calls } in
    if m.unavailable
    then (err Error.provider_unavailable, asked)
    else (ok (account_at uid m.accounts), asked)
