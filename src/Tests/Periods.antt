-- ===== src/Tests/Periods.antt =====
-- Periods, invites and removals at concrete inputs.
use vip_channel_management_s.Monitor.Actions.{revoke_member, remove_from, expire, tell}
use vip_channel_management_s.Prelude.{
  ◌∷◌, [], ◌++◌, refl, ◌≡◌, ◌↔◌, ◌<◌, ◌+◌, true, false, some, none, codes, arith, List, select,
}
use vip_channel_management_s.Tests.Data.{
  world, db, answering, funded, member_db, membership, channel, pass,
}
use vip_channel_management_s.World.{
  World, ask_telegram, ◌>>=◌, Call, unban_chat_member, ban_chat_member,
}
use vip_channel_management_s.Invite.{issue, mint, live_link}
use vip_channel_management_s.PeriodLock.{claim_period, period_start_for}
use vip_channel_management_s.Compliance.{ComplianceDecision, ComplianceAction}
use vip_channel_management_s.Time.{aware, naive}
use vip_channel_management_s.Errors.{ok}
use vip_channel_management_s.Repositories.{get_for_market, one_or_none, get_active_for_user}
use vip_channel_management_s.PeriodLock.Claims.{next, claim_twice}
use vip_channel_management_s.PeriodLock.Periods.{period_start_for-eq_iff}
use vip_channel_management_s.Tables.{query, flush_row, put_row, first, same_row}
use vip_channel_management_s.Invite.Live.{issue_twice}
use vip_channel_management_s.Eligibility.{EligibilityReason}
use vip_channel_management_s.Enums.{Market, MembershipStatus}
use vip_channel_management_s.Monitor.Report.{blank_report}
use vip_channel_management_s.Messages.{reason_text}
use vip_channel_management_s.Tables.Instances.{memberships_table}
use vip_channel_management_s.Monitor.Removal.{revoke_member-removes, revoke_member-bans}

period_start_for-eq_iff_example :
    (period_start_for (aware 17000000) 5 ≡ period_start_for (naive 19000000) 5)
    ↔ (19000000 < period_start_for (aware 17000000) 5 + 5000000)
period_start_for-eq_iff_example =
    period_start_for-eq_iff (aware 17000000) (naive 19000000) 5 (omega arith) (omega arith)
      (omega arith)

claim_twice_example :
    let w = world db (answering funded) in
    let w' = (claim_period 1 (codes "job") 0 w).1 in
    claim_period 1 (codes "job") 0 w' ≡ (ok none, next w')
claim_twice_example = claim_twice 1 (codes "job") 0 (world db (answering funded)) refl refl

issue_twice_example :
    let (r, w') = issue 1 membership channel (world db (answering funded)) in
    issue 1
      (record membership {
        invite_link = some (codes "link");
        invite_issued_at = some (aware 3456000000000);
      })
      channel
      w'
    ≡ (
      ok (
        record { link = codes "link"; reused = true },
        record membership {
          invite_link = some (codes "link");
          invite_issued_at = some (aware 3456000000000);
        },
      ),
      w',
    )
unfolding issue mint live_link ask_telegram ◌>>=◌
issue_twice_example =
    issue_twice 1 membership channel (world db (answering funded))
      (record { link = codes "link"; reused = false })
      (record membership {
        invite_link = some (codes "link");
        invite_issued_at = some (aware 3456000000000);
      })
      (issue 1 membership channel (world db (answering funded))).1 refl (λ e. ground arith)

abbrev removal : ComplianceDecision
removal = record {
  action = ComplianceAction.revoke;
  skip_reason = none;
  warnings_after = 3;
  detail = some EligibilityReason.insufficient_balance;
}

abbrev before : World
before = world member_db (answering funded)

abbrev after_removal : World
after_removal =
    (revoke_member pass membership Market.crypto removal (some 55) (blank_report true 0) before).1

revoke_member-removes_example :
    (first (select (same_row memberships_table membership) after_removal.db.memberships)
      ≡ some (record membership {
        status = MembershipStatus.revoked;
        revoked_at = some (aware pass.moment);
        revocation_reason = removal.detail;
        invite_link = none;
      }))
    × (1 ≡ 0 + 1)
unfolding revoke_member get_for_market one_or_none query remove_from ask_telegram flush_row put_row
    get_active_for_user expire tell reason_text ◌>>=◌
revoke_member-removes_example =
    revoke_member-removes pass membership Market.crypto removal (some 55) (blank_report true 0)
      before (record (blank_report true 0) { revoked = 1 }) after_removal refl

revoke_member-bans_example :
    (said : List Call) × (after_removal.calls
      ≡ said ++ (unban_chat_member channel.chat_id 55 ∷ ban_chat_member channel.chat_id 55 ∷ []))
unfolding revoke_member get_for_market one_or_none query remove_from ask_telegram flush_row put_row
    get_active_for_user expire tell reason_text ◌>>=◌
revoke_member-bans_example =
    revoke_member-bans pass membership Market.crypto removal (some 55) (blank_report true 0) before
      (record (blank_report true 0) { revoked = 1 }) after_removal channel refl refl
