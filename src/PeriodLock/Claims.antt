-- ===== src/PeriodLock/Claims.antt =====
-- A period is claimed once: `claim_period` of app/jobs/period_lock.py as an idempotency record.
use vip_channel_management_s.Prelude.{
  ℕ, ◌≡◌, refl, Text, List, [], ◌∷◌, Bool, true, false, any, ◌==◌, eq_text, ◌&&◌, some, none, arith,
  ◌+◌, leb, Bool-cases, inl, inr, eq_text_refl,
}
use vip_channel_management_s.PeriodLock.{claim_period, running_execution}
use vip_channel_management_s.Models.{JobExecution}
use vip_channel_management_s.World.{World, catch, ◌>>=◌}
use vip_channel_management_s.Tables.{flush_row, put_row, conflicts}
use vip_channel_management_s.Tables.Instances.{executions_table}
use vip_channel_management_s.Errors.{ok}
use vip_channel_management_s.Tables.Laws.{eq_text_comm, ==_comm}
use vip_channel_management_s.Tables.Writes.{any-put_row, any-put_row_found}

-- The row of a tenant, a job and a period.
abbrev pub is_claim : ℕ → Text → ℕ → JobExecution → Bool
is_claim t job period e = e.tenant_id == t && (eq_text e.job_name job && e.period_start == period)

-- There is such a row.
abbrev pub claimed : ℕ → Text → ℕ → World → Bool
claimed t job period w = any (is_claim t job period) w.db.executions

-- Some row's identifier is not below the supply of new ones.
abbrev pub is_new : ℕ → JobExecution → Bool
is_new n e = leb n e.id

abbrev pub next : World → World
next w = record w { next_id = w.next_id + 1 }

abbrev pub inserted : JobExecution → World → World
inserted e w = record w {
  db = record w.db { executions = put_row executions_table e w.db.executions };
}

conflicts-is_claim :
    (t : ℕ) (job : Text) (period n now : ℕ) (x : JobExecution)
    → is_new n x ≡ false
    → conflicts executions_table (running_execution n t job period now) x ≡ is_claim t job period x
conflicts-is_claim t job period n now x h =
    ground
      (arith, eq_text_comm job x.job_name, ==_comm period x.period_start, ==_comm t x.tenant_id)

any-conflicts :
    (t : ℕ) (job : Text) (period n now : ℕ) (xs : List JobExecution)
    → any (is_new n) xs ≡ false
    → any (conflicts executions_table (running_execution n t job period now)) xs
      ≡ any (is_claim t job period) xs
any-conflicts t job period n now [] h = refl
any-conflicts t job period n now (x ∷ xs) h =
    ground (arith, any-conflicts t job period n now xs, conflicts-is_claim t job period n now x)

module _ (t : ℕ) (job : Text) (period : ℕ) (w : World) (bound : w.bound ≡ some t)
    (old : any (is_new w.next_id) w.db.executions ≡ false) where
  -- In a session of tenant `t`, when all executions have older identifiers: a period that a row
  -- already has for this tenant and job is not given out again, and nothing is changed.
  pub claim_period-taken :
      claimed t job period w ≡ true → claim_period t job period w ≡ (ok none, next w)
  unfolding claim_period catch ◌>>=◌ flush_row
  claim_period-taken h = ground (arith, any-conflicts t job period w.next_id w.now w.db.executions)

  -- In a session of tenant `t`, when all executions have older identifiers: a period that no row
  -- has for this tenant and job is given out, and its row is inserted as RUNNING.
  pub claim_period-free :
      claimed t job period w ≡ false
      → claim_period t job period w ≡ (
        ok (some (running_execution w.next_id t job period w.now)),
        inserted (running_execution w.next_id t job period w.now) (next w),
      )
  unfolding claim_period catch ◌>>=◌ flush_row
  claim_period-free h = ground (arith, any-conflicts t job period w.next_id w.now w.db.executions)

older_still :
    (n : ℕ) (xs : List JobExecution) → any (is_new n) xs ≡ false → any (is_new (n + 1)) xs ≡ false
older_still n [] h = refl
older_still n (x ∷ xs) h = ground (arith, older_still n xs)

-- Exactly once: in a session of tenant `t`, when all executions have older identifiers, a claim
-- that follows a claim of the same tenant, job and period is given nothing and writes nothing,
-- whoever had the period before.
pub claim_twice :
    (t : ℕ) (job : Text) (period : ℕ) (w : World)
    → w.bound ≡ some t
    → any (is_new w.next_id) w.db.executions ≡ false
    → let w' = (claim_period t job period w).1 in claim_period t job period w' ≡ (ok none, next w')
claim_twice t job period w bound old = elim (Bool-cases (claimed t job period w)) [
  | inl taken ↦ rw (claim_period-taken t job period w bound old taken) (
      claim_period-taken t job period (next w) bound (older_still w.next_id w.db.executions old)
        taken)
  | inr free ↦ rw (claim_period-free t job period w bound old free) (
      let row : JobExecution = running_execution w.next_id t job period w.now in
      claim_period-taken t job period (inserted row (next w)) bound
        (any-put_row executions_table (is_new (w.next_id + 1)) row w.db.executions
          (older_still w.next_id w.db.executions old) (ground arith))
        (any-put_row_found executions_table (is_claim t job period) row w.db.executions
          (ground (arith, eq_text_refl job))))
]
