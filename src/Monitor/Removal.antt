-- ===== src/Monitor/Removal.antt =====
-- What a removal by `_apply` of app/jobs/membership_monitor.py does to the member.
use mathlib.Core.List.{append_assoc}
use vip_channel_management_s.Prelude.{
  ℕ, Option, none, some, ◌≡◌, refl, ◌∙◌, List, ◌++◌, ◌∷◌, select, [], sym, suc, Bool-cases, zero,
  inr, inl, any, ap, ◌+◌,
}
use vip_channel_management_s.World.{
  World, Call, ◌>>=◌, ask_telegram, unban_chat_member, ban_chat_member, Action, ◌>>◌, pure,
}
use vip_channel_management_s.Errors.{ok, Result}
use vip_channel_management_s.Session.Follows.{Follows, IsPreorder, follows_rules, along}
use vip_channel_management_s.Monitor.Actions.{
  tell, remove_from, expire, or_zero, revoke_member, revoked,
}
use vip_channel_management_s.Tables.{
  flush_row, query, first, same_row, in_scope, conflicts, put_row,
}
use vip_channel_management_s.Repositories.{get_active_for_user, get_for_market, one_or_none}
use vip_channel_management_s.Models.{VipMembership, Subscription, TelegramChannel}
use vip_channel_management_s.Messages.{Message, membership_revoked, reason_text}
use vip_channel_management_s.Tables.Instances.{subscriptions_table, memberships_table}
use vip_channel_management_s.Enums.{Market, MembershipStatus}
use vip_channel_management_s.World.Bind.{bind_ok}
use vip_channel_management_s.Monitor.Report.{Pass, MonitorReport}
use vip_channel_management_s.Compliance.{ComplianceDecision}
use vip_channel_management_s.Tables.Writes.{put_row-found}
use vip_channel_management_s.World.Ensures.{Ensures, ensures_rules}
use vip_channel_management_s.Time.{aware}

-- The memberships are as they were, and calls were only added.
record Leaves (w w' : World) : Type 0 where
  memberships : w'.db.memberships ≡ w.db.memberships
  history : (new : List Call) × (w'.calls ≡ new ++ w.calls)

Leaves-refl : (w : World) → Leaves w w
Leaves-refl w = record { memberships = refl; history = ([], refl) }

Leaves-IsPreorder : IsPreorder Leaves
Leaves-IsPreorder = record {
  reflexive = Leaves-refl;
  transitive = λ u v w a b. record {
    memberships = b.memberships ∙ a.memberships;
    history = (
      b.history.0 ++ a.history.0,
      rw (b.history.1, a.history.1) (sym (append_assoc b.history.0 a.history.0 u.calls)),
    );
  };
}

Leaves-ask_telegram : (c : Call) → Follows Leaves (ask_telegram c)
unfolding ask_telegram
Leaves-ask_telegram c = record { at = λ w. record { memberships = refl; history = (c ∷ [], refl) } }

Leaves-subscriptions : (s : Subscription) → Follows Leaves (flush_row subscriptions_table s)
unfolding flush_row
Leaves-subscriptions s = record {
  at = λ w. elim (Bool-cases (in_scope w.bound s.tenant_id)) [
    | inr hidden ↦ rw hidden (Leaves-refl w)
    | inl visible ↦ elim (Bool-cases (any (conflicts subscriptions_table s) w.db.subscriptions)) [
      | inl taken ↦ rw (visible, taken) (Leaves-refl w)
      | inr free ↦ rw (visible, free) (record { memberships = refl; history = ([], refl) })
    ]
  ];
}

Leaves-get_active_for_user : (t u : ℕ) (m : Market) → Follows Leaves (get_active_for_user t u m)
unfolding get_active_for_user query ◌>>=◌
Leaves-get_active_for_user t u m = record { at = Leaves-refl }

ruleset leaves_rules = (
  follows_rules, Leaves-IsPreorder, Leaves-ask_telegram, Leaves-subscriptions,
  Leaves-get_active_for_user,
)

Leaves-expire : (s : Option Subscription) (moment : ℕ) → Follows Leaves (expire s moment)
unfolding expire
Leaves-expire none moment = search leaves_rules
Leaves-expire (some s) moment = search leaves_rules

Leaves-tell : (chat_id : Option ℕ) (message : Message) → Follows Leaves (tell chat_id message)
unfolding tell
Leaves-tell none message = search leaves_rules
Leaves-tell (some zero) message = search leaves_rules
Leaves-tell (some (suc n)) message = search leaves_rules

-- A membership row that was flushed is found under its identity.
flush_row-found :
    (m : VipMembership) (w : World) {a : VipMembership} {w' : World}
    → flush_row memberships_table m w ≡ (ok a, w')
    → (first (select (same_row memberships_table m) w'.db.memberships) ≡ some m)
      × (w'.calls ≡ w.calls)
unfolding flush_row
flush_row-found m w {w' = w'} e = elim (Bool-cases (in_scope w.bound m.tenant_id)) [
  | inr hidden ↦ absurd (cc (rw hidden at e))
  | inl visible ↦ elim (Bool-cases (any (conflicts memberships_table m) w.db.memberships)) [
    | inl taken ↦ absurd (cc (rw (visible, taken) at e))
    | inr free ↦
        let written : (record w {
          db = record w.db { memberships = put_row memberships_table m w.db.memberships };
        })
            ≡ w' =
          ap (λ q. q.1) (rw (visible, free) at e) in
        rw (← written) (put_row-found memberships_table m w.db.memberships, refl)
  ]
]

-- The ban, then the unban.
remove_from-calls :
    (channel : TelegramChannel) (chat_id : Option ℕ) (w : World) {w' : World}
    → remove_from (some channel) chat_id w ≡ (ok tt, w')
    → w'.calls
      ≡ unban_chat_member channel.chat_id (or_zero chat_id)
        ∷ ban_chat_member channel.chat_id (or_zero chat_id)
        ∷ w.calls
unfolding remove_from ask_telegram
remove_from-calls channel chat_id w e =
    let (x, w1, e1, k1) =
      bind_ok (ask_telegram (ban_chat_member channel.chat_id (or_zero chat_id))) _ w e in
    let (y, w2, e2, k2) =
      bind_ok (ask_telegram (unban_chat_member channel.chat_id (or_zero chat_id))) _ w1 k1 in
    cc (ap (λ q. q.1.calls) e1, ap (λ q. q.1.calls) e2, ap (λ q. q.1.calls) k2)

get_for_market-reads : (t : ℕ) (m : Market) (w : World) → (get_for_market t m w).1 ≡ w
unfolding get_for_market one_or_none query ◌>>=◌
get_for_market-reads t m w = refl

some_of :
    {A : Type 0} (o : Option A) (a : A) → Path (Result (Option A)) (ok o) (ok (some a)) → o ≡ some a
some_of o a h = cc

module _ (pass : Pass) (m : VipMembership) (market : Market) (d : ComplianceDecision)
    (chat_id : Option ℕ) (report : MonitorReport) where
  -- what follows the write of the membership
  abbrev ending : Action MonitorReport
  ending = do
    subscription ← get_active_for_user pass.tenant_id m.user_id market
    expire subscription pass.moment
    tell chat_id (membership_revoked (reason_text d.detail))
    pure (record report { revoked = report.revoked + 1 })

  Leaves-ending : Follows Leaves ending
  Leaves-ending = search (leaves_rules, Leaves-expire, Leaves-tell) depth 8

  Ensures-ending : Ensures (λ r. r.revoked ≡ report.revoked + 1) ending
  Ensures-ending = search ensures_rules depth 8

  removal-calls :
      (channel : Option TelegramChannel) (w v : World)
      → remove_from channel chat_id w ≡ (ok tt, v)
      → (c : TelegramChannel) → channel ≡ some c
      → v.calls
        ≡ unban_chat_member c.chat_id (or_zero chat_id)
          ∷ ban_chat_member c.chat_id (or_zero chat_id)
          ∷ w.calls
  removal-calls none w v e c h = cc
  removal-calls (some channel) w v e c h = cc (remove_from-calls channel chat_id w e)

  -- When a removal returns, the membership stands in the database with the status REVOKED, the
  -- moment of the pass, the reason of the decision and no invite link, and is else as it was; the
  -- report counts one more removal.
  pub revoke_member-removes :
      (w : World) (r : MonitorReport) (w' : World)
      → revoke_member pass m market d chat_id report w ≡ (ok r, w')
      → (first (select (same_row memberships_table m) w'.db.memberships)
          ≡ some (record m {
            status = MembershipStatus.revoked;
            revoked_at = some (aware pass.moment);
            revocation_reason = d.detail;
            invite_link = none;
          }))
        × (r.revoked ≡ report.revoked + 1)
  unfolding revoke_member
  revoke_member-removes w r w' e =
      let (channel, w1, e1, k1) = bind_ok (get_for_market pass.tenant_id market) _ w e in
      let (x, w2, e2, k2) = bind_ok (remove_from channel chat_id) _ w1 k1 in
      let (row, w3, e3, k3) =
        bind_ok (flush_row memberships_table (revoked m d pass.moment)) _ w2 k2 in
      let after : Leaves w3 w' = along Leaves ending w3 Leaves-ending k3 in
      (
        rw after.memberships (flush_row-found (revoked m d pass.moment) w2 e3).0,
        Ensures-ending.holds w3 r w' k3,
      )

  -- When a removal returns and the tenant has an active channel for the market, the first two calls
  -- were the ban of the member there and then the unban, without which no later invite works.
  pub revoke_member-bans :
      (w : World) (r : MonitorReport) (w' : World) (c : TelegramChannel)
      → revoke_member pass m market d chat_id report w ≡ (ok r, w')
      → (get_for_market pass.tenant_id market w).0 ≡ ok (some c)
      → (said : List Call) × (w'.calls
          ≡ said
            ++ (unban_chat_member c.chat_id (or_zero chat_id)
                ∷ ban_chat_member c.chat_id (or_zero chat_id)
                ∷ w.calls))
  unfolding revoke_member
  revoke_member-bans w r w' c e h =
      let (channel, w1, e1, k1) = bind_ok (get_for_market pass.tenant_id market) _ w e in
      let (x, w2, e2, k2) = bind_ok (remove_from channel chat_id) _ w1 k1 in
      let (row, w3, e3, k3) =
        bind_ok (flush_row memberships_table (revoked m d pass.moment)) _ w2 k2 in
      let after : Leaves w3 w' = along Leaves ending w3 Leaves-ending k3 in
      let w1_is : w1 ≡ w = ap (λ q. q.1) (sym e1) ∙ get_for_market-reads pass.tenant_id market w in
      let found : channel ≡ some c = some_of channel c (ap (λ q. q.0) (sym e1) ∙ h) in
      let earlier = removal-calls channel w1 w2 e2 c found in
      let same = (flush_row-found (revoked m d pass.moment) w2 e3).1 in
      (after.history.0, rw (after.history.1, same, earlier, w1_is) refl)
