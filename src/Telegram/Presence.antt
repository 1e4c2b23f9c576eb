-- ===== src/Telegram/Presence.antt =====
-- Who is absent for app/adapters/providers/telegram.py, and for the stand-in.
use vip_channel_management_s.Errors.{◌>>=◌, Result, ok, err, ok-inj}
use vip_channel_management_s.Prelude.{
  if◌then◌else◌, refl, inl, inr, some, none, ap, ◌∙◌, arith, false, ◌≡◌, Text, Bool-cases, Option,
  eq_text, codes, eq_text_sound,
}
use vip_channel_management_s.Telegram.{
  call, ChatMemberStatus, status_text, status_named, known_status, read_status, get_chat_member,
  item_of, chat_and_user,
}
use vip_channel_management_s.Telegram.Mock.{
  MockTelegram, mock_ban_chat_member, mock_unban_chat_member, mock_get_chat_member, status_at,
}
use vip_channel_management_s.Json.{Json, Members}
use vip_channel_management_s.Prelude.Int.{ℤ}

bind-ok :
    {A B : Type 0} (r : Result A) (f : A → Result B) (b : B)
    → (r >>= f) ≡ ok b
    → (a : A) × (r ≡ ok a) × (f a ≡ ok b)
bind-ok (ok a) f b h = (a, refl, h)
bind-ok (err e) f b h = cc

some-inj : {A : Type 0} {a b : A} → some a ≡ some b → a ≡ b
some-inj {A} {a} {b} h = cc

-- one name of the chain
named_or :
    (text : Text) (s t : ChatMemberStatus) (rest : Option ChatMemberStatus)
    → (if eq_text text (status_text t) then some t else rest) ≡ some s
    → (rest ≡ some s → text ≡ status_text s)
    → text ≡ status_text s
named_or text s t rest h k = elim (Bool-cases (eq_text text (status_text t))) [
  | inl e ↦ eq_text_sound text (status_text t) e ∙ ap status_text (some-inj (rw e at h))
  | inr n ↦ k (rw n at h)
]

status_named-text :
    (text : Text) (s : ChatMemberStatus) → status_named text ≡ some s → text ≡ status_text s
status_named-text text s h = named_or text s ChatMemberStatus.creator _ h (λ h.
    named_or text s ChatMemberStatus.administrator _ h (λ h.
      named_or text s ChatMemberStatus.member _ h (λ h.
        named_or text s ChatMemberStatus.restricted _ h (λ h.
          named_or text s ChatMemberStatus.left _ h
            (λ h. named_or text s ChatMemberStatus.kicked _ h (λ h. cc))))))

known_status-ok :
    (o : Option ChatMemberStatus) (s : ChatMemberStatus) → known_status o ≡ ok s → o ≡ some s
known_status-ok none s h = cc
known_status-ok (some t) s h = ap some (ok-inj h)

read_status-text :
    (v : Json) (s : ChatMemberStatus) → read_status v ≡ ok s → v ≡ Json.str (status_text s)
unfolding read_status
read_status-text (Json.str text) s h =
    ap Json.str (status_named-text text s (known_status-ok (status_named text) s h))
read_status-text Json.null s h = cc
read_status-text (Json.bool x) s h = cc
read_status-text (Json.int x) s h = cc
read_status-text (Json.float x) s h = cc
read_status-text (Json.arr x) s h = cc
read_status-text (Json.obj x) s h = cc

-- When `get_chat_member` answers with a status, and so also when it takes somebody for absent,
-- Telegram has accepted the request and its answer holds the text of this very status.
pub get_chat_member-status :
    (post : Text → Members → Option Json) (repr : Json → Text) (chat_id user_id : ℤ)
    (s : ChatMemberStatus)
    → get_chat_member post repr chat_id user_id ≡ ok s
    → (result : Json) × (call post repr
          (codes "getChatMember")
          (chat_and_user chat_id user_id Members.end)
        ≡ ok result)
      × (item_of (codes "status") result ≡ ok (Json.str (status_text s)))
unfolding get_chat_member
get_chat_member-status post repr chat_id user_id s h =
    let (result, e, h1) =
      bind-ok (call post repr (codes "getChatMember") (chat_and_user chat_id user_id Members.end))
        (λ result. item_of (codes "status") result >>= λ status. read_status status) s h in
    let (v, f, h2) = bind-ok (item_of (codes "status") result) read_status s h1 in
    (result, e, f ∙ ap ok (read_status-text v s h2))

-- A ban followed by the lifting of the ban leaves the stand-in with an absent member, whoever it
-- was before, as long as it is available.
pub mock_ban_unban :
    (chat_id user_id : ℤ) (m : MockTelegram)
    → m.unavailable ≡ false
    → let banned = (mock_ban_chat_member chat_id user_id m).1 in
      let lifted = (mock_unban_chat_member chat_id user_id banned).1 in
      (mock_get_chat_member chat_id user_id lifted).0 ≡ ok ChatMemberStatus.left
unfolding mock_ban_chat_member mock_unban_chat_member mock_get_chat_member status_at
mock_ban_unban chat_id user_id m h = ground (arith, h)
