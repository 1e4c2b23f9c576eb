-- ===== src/PeriodLock.antt =====
-- app/jobs/period_lock.py: a scheduled period is claimed by inserting its row.
pub mod Periods
pub mod Claims
use vip_channel_management_s.Prelude.{ℕ, ◌*◌, ◌/◌, Bool, true, false, Option, none, some, Text}
use vip_channel_management_s.Time.{Datetime, aware, instant}
use vip_channel_management_s.Enums.{JobRunState}
use vip_channel_management_s.Errors.{Error}
use vip_channel_management_s.Models.{JobExecution}
use vip_channel_management_s.World.{World, Action, pure, ◌>>=◌, catch, utcnow, uuid4}
use vip_channel_management_s.Tables.{flush_row}
use vip_channel_management_s.Tables.Instances.{executions_table}

-- The period is a whole number of seconds. The source divides floats: the quotient of two floats is
-- floored exactly, and up to `exact_until` the float of a moment is off by less than a microsecond,
-- so that it stays on its side of every whole second.
unfoldable pub period_start_for : Datetime → (period : ℕ) → ℕ
period_start_for now period = instant now / (period * 1000000) * (period * 1000000)

-- 2^33 seconds after the epoch, in the year 2242
abbrev pub exact_until : ℕ
exact_until = 8589934592000000

-- `except IntegrityError`
abbrev pub is_integrity_error : Error → Bool
is_integrity_error Error.integrity_error = true
is_integrity_error _ = false

abbrev pub running_execution : ℕ → ℕ → Text → ℕ → ℕ → JobExecution
running_execution id tenant_id job_name period_start now = record {
  id = id;
  tenant_id = tenant_id;
  job_name = job_name;
  period_start = period_start;
  state = JobRunState.running;
  started_at = some (aware now);
  finished_at = none;
  processed = 0;
  warned = 0;
  revoked = 0;
  skipped_unavailable = 0;
  error = none;
}

-- The savepoint undoes the failed insert alone: a refused write has changed nothing.
unfoldable pub claim_period : ℕ → Text → ℕ → Action (Option JobExecution)
claim_period tenant_id job_name period_start = do
  id ← uuid4
  now ← utcnow
  catch is_integrity_error
      (do
        execution ←
            flush_row executions_table (running_execution id tenant_id job_name period_start now)
        pure (some execution))
      (pure none)

unfoldable pub finish : JobExecution → Option Error → ℕ → JobExecution
finish execution none now = record execution {
  state = JobRunState.succeeded;
  finished_at = some (aware now);
  error = none;
}
finish execution (some e) now = record execution {
  state = JobRunState.failed;
  finished_at = some (aware now);
  error = some e;
}
