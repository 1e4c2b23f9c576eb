-- ===== src/Invite/Live.antt =====
-- `InviteService.issue` of app/services/invite_service.py: one link for as long as it is live.
use vip_channel_management_s.Prelude.{
  ℕ, ◌+◌, ◌≡◌, ◌≢◌, ◌∙◌, refl, Option-cases, inl, inr, true, false, none, some, Text, [], ◌∷◌,
  arith,
}
use vip_channel_management_s.Errors.{ok, err, Result-cases}
use vip_channel_management_s.Models.{VipMembership, TelegramChannel}
use vip_channel_management_s.World.{World, Call, create_invite_link, ◌>>=◌}
use vip_channel_management_s.Invite.{IssuedInvite, default_invite_ttl, live_link, issued, issue}

module _ (t : ℕ) (m : VipMembership) (c : TelegramChannel) (w : World) where
  -- While the member holds a live link, `issue` returns that link, changes nothing, and asks
  -- Telegram for nothing.
  pub live_link_reused :
      (link : Text)
      → live_link m w.now default_invite_ttl ≡ some link
      → issue t m c w ≡ (ok (record { link = link; reused = true }, m), w)
  unfolding issue ◌>>=◌
  live_link_reused link h = rw h refl

  -- With no live link, one single-use invite that expires in a day is asked of Telegram and
  -- nothing else is changed; what the call raises, `issue` raises.
  pub issue_without_link :
      live_link m w.now default_invite_ttl ≡ none
      → let call = create_invite_link c.chat_id 1 (w.now + default_invite_ttl) m.user_id in
        let w' : World = record w { calls = call ∷ w.calls } in
        issue t m c w ≡ elim (w.outside.telegram w.calls call) [
          | err e ↦ (err e, w')
          | ok link ↦ (ok (record { link = link; reused = false }, issued m t w.now link), w')
        ]
  unfolding issue ◌>>=◌
  issue_without_link h = rw h (elim (Result-cases (w.outside.telegram w.calls call)) [
    | inl (x, e) ↦ rw e refl
    | inr (link, e) ↦ rw e refl
  ])
    where
      call : Call
      call = create_invite_link c.chat_id 1 (w.now + default_invite_ttl) m.user_id

  live_link-issued :
      (link : Text)
      → link ≢ []
      → live_link (issued m t w.now link) w.now default_invite_ttl ≡ some link
  unfolding live_link
  live_link-issued [] h = absurd (h refl)
  live_link-issued (x ∷ xs) h = ground arith

-- A second `issue` for the membership that the first one returned gives the same link, marked as
-- reused, with no further call and no further change, unless Telegram sent an empty link.
pub issue_twice :
    (t : ℕ) (m : VipMembership) (c : TelegramChannel) (w : World)
    → (invite : IssuedInvite) (m' : VipMembership) (w' : World)
    → issue t m c w ≡ (ok (invite, m'), w')
    → invite.link ≢ []
    → issue t m' c w' ≡ (ok (record { link = invite.link; reused = true }, m'), w')
issue_twice t m c w invite m' w' e h = elim (Option-cases (live_link m w.now default_invite_ttl)) [
  | inl without ↦ elim (Result-cases (w.outside.telegram w.calls call)) [
    | inl (x, a) ↦ cc (rw a at (issue_without_link t m c w without))
    | inr (link, a) ↦
        let minted : issue t m c w ≡ (
          ok (record { link = link; reused = false }, issued m t w.now link),
          record w { calls = call ∷ w.calls },
        ) =
          rw a at (issue_without_link t m c w without) in
        let same : invite.link ≡ link = cc in
        cc (
          live_link_reused t (issued m t w.now link) c (record w { calls = call ∷ w.calls }) link
            (live_link-issued t m c w link (λ q. h (same ∙ q))))
  ]
  | inr (link, live) ↦ cc (live_link_reused t m c w link live)
]
  where
    call : Call
    call = create_invite_link c.chat_id 1 (w.now + default_invite_ttl) m.user_id
