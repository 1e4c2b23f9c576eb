-- ===== src/Time.antt =====
-- Moments and durations, in microseconds since 1970-01-01 UTC (datetime and timedelta of the
-- standard library). A naive datetime, which SQLite hands back, carries no zone.
use vip_channel_management_s.Prelude.{ℕ, ◌*◌}

pub data Datetime : Type 0 where
  aware : ℕ → Datetime
  naive : ℕ → Datetime

-- `_aware` of app/domain/compliance.py, as an instant: a naive datetime is read as UTC.
abbrev pub instant : Datetime → ℕ
instant (aware t) = t
instant (naive t) = t

abbrev pub day : ℕ
day = 86400000000

-- `timedelta(days=n)`
abbrev pub days : ℕ → ℕ
days n = n * day
