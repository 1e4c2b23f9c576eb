-- ===== src/Monitor/Claimed.antt =====
-- Taking a pass of app/jobs/membership_monitor.py that returned apart: its writes, its handled errors
-- and its claim of the period.
use vip_channel_management_s.Prelude.{
  ℕ, Bool, Option, none, some, ◌≡◌, refl, ap, ◌∙◌, subst, sym, any, ◌⊎◌, inl, inr, Bool-cases, Text,
}
use vip_channel_management_s.Errors.{Error, Result, ok, err}
use vip_channel_management_s.World.{World, Action, catch, uuid4}
use vip_channel_management_s.World.Bind.{bind_ok}
use vip_channel_management_s.Models.{JobExecution}
use vip_channel_management_s.Tables.{flush_row, put_row, in_scope, conflicts}
use vip_channel_management_s.Tables.Interface.{Table}
use vip_channel_management_s.Tables.Instances.{executions_table}
use vip_channel_management_s.PeriodLock.{claim_period}
use vip_channel_management_s.Session.Follows.{IsPreorder, Follows, follows_rules}
use vip_channel_management_s.Monitor.Run.{failing}

module _ {A : Type 0} (tbl : Table A) where
  -- A flush that returned has written the row, and returns it.
  pub flush_row-wrote :
      (a r : A) (w w' : World)
      → flush_row tbl a w ≡ (ok r, w')
      → (a ≡ r) × (record w { db = tbl.write (put_row tbl a (tbl.rows w.db)) w.db } ≡ w')
  unfolding flush_row
  flush_row-wrote a r w w' h = elim (Bool-cases (in_scope w.bound (tbl.tenant a))) [
    | inr hidden ↦ cc (rw hidden at h)
    | inl visible ↦ elim (Bool-cases (any (conflicts tbl a) (tbl.rows w.db))) [
      | inl taken ↦ cc (rw (visible, taken) at h)
      | inr free ↦
          let e : ◌≡◌ {A = Result A × World}
              (ok a, record w { db = tbl.write (put_row tbl a (tbl.rows w.db)) w.db }) (ok r, w') =
            rw (visible, free) at h in
          (cc, ap (λ q. q.1) e)
    ]
  ]

module _ {A : Type 0} (execution : JobExecution) where
  failed_ok :
      (q : Result A × World) (a : A) (w' : World)
      → failing execution (λ _. q) w' ≡ (ok a, w')
      → q ≡ (ok a, w')
  unfolding failing
  failed_ok (ok b, u) a w' h = h
  failed_ok (err x, u) a w' h = cc

  pub failing_ok :
      (m : Action A) (w w' : World) (a : A) → failing execution m w ≡ (ok a, w') → m w ≡ (ok a, w')
  unfolding failing
  failing_ok m w w' a h = failed_ok (m w) a w' h

module _ {A : Type 0} (caught : Error → Bool) (handler : Action A) where
  caught_ok :
      (q : Result A × World) (a : A) (w' : World)
      → catch caught (λ _. q) handler w' ≡ (ok a, w')
      → (q ≡ (ok a, w')) ⊎ ((x : Error) × (u : World) × (q ≡ (err x, u)) × (handler u ≡ (ok a, w')))
  unfolding catch
  caught_ok (ok b, u) a w' h = inl h
  caught_ok (err x, u) a w' h = elim (Bool-cases (caught x)) [
    | inl c ↦ inr (x, u, refl, rw c at h)
    | inr c ↦ cc (rw c at h)
  ]

  pub catch_ok :
      (m : Action A) (w w' : World) (a : A)
      → catch caught m handler w ≡ (ok a, w')
      → (m w ≡ (ok a, w'))
        ⊎ ((x : Error) × (u : World) × (m w ≡ (err x, u)) × (handler u ≡ (ok a, w')))
  unfolding catch
  catch_ok m w w' a h = caught_ok (m w) a w' h

-- A claim leaves the members alone, and the row that it returns is the tenant's for the job.
pub record SameMembers (w w' : World) : Type 0 where
  pub memberships : w'.db.memberships ≡ w.db.memberships
  pub bound : w'.bound ≡ w.bound

SameMembers-IsPreorder : IsPreorder SameMembers
SameMembers-IsPreorder = record {
  reflexive = λ w. record { memberships = refl; bound = refl };
  transitive = λ u v w a b. record {
    memberships = b.memberships ∙ a.memberships;
    bound = b.bound ∙ a.bound;
  };
}

SameMembers-uuid4 : Follows SameMembers uuid4
SameMembers-uuid4 = record { at = λ w. record { memberships = refl; bound = refl } }

SameMembers-executions : (e : JobExecution) → Follows SameMembers (flush_row executions_table e)
unfolding flush_row
SameMembers-executions e = record {
  at = λ w. elim (Bool-cases (in_scope w.bound e.tenant_id)) [
    | inr hidden ↦ rw hidden (record { memberships = refl; bound = refl })
    | inl visible ↦ elim (Bool-cases (any (conflicts executions_table e) w.db.executions)) [
      | inl taken ↦ rw (visible, taken) (record { memberships = refl; bound = refl })
      | inr free ↦ rw (visible, free) (record { memberships = refl; bound = refl })
    ]
  ];
}

pub SameMembers-claim_period :
    (t : ℕ) (job : Text) (period : ℕ) → Follows SameMembers (claim_period t job period)
unfolding claim_period
SameMembers-claim_period t job period =
    search (follows_rules, SameMembers-IsPreorder, SameMembers-uuid4, SameMembers-executions) depth
      10

unfoldable pub Is : ℕ → Text → Option JobExecution → Type 0
Is t job none = Unit
Is t job (some e) = (e.tenant_id ≡ t) × (e.job_name ≡ job)

pub claim_period-Is :
    (t : ℕ) (job : Text) (period : ℕ) (o : Option JobExecution) (w u : World)
    → claim_period t job period w ≡ (ok o, u)
    → Is t job o
unfolding claim_period Is
claim_period-Is t job period o w u h =
    let (id, u1, e1, h1) = bind_ok _ _ w h in
    let (now, u2, e2, h2) = bind_ok _ _ u1 h1 in
    elim (catch_ok _ _ _ u2 u o h2) [
      | inl k ↦
          let (e, u3, f, g) = bind_ok _ _ u2 k in
          let row = (flush_row-wrote executions_table _ e u2 u3 f).0 in
          let same : some e ≡ o = cc in
          subst (Is t job) same (
            ap (λ (x : JobExecution). x.tenant_id) (sym row),
            ap (λ (x : JobExecution). x.job_name) (sym row),
          )
      | inr (x, u3, f, g) ↦ let same : none ≡ o = cc in subst (Is t job) same tt
    ]
