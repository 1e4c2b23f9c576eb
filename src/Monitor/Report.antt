-- ===== src/Monitor/Report.antt =====
-- The report and the settings of app/jobs/membership_monitor.py.
use vip_channel_management_s.Prelude.{ℕ, Text, Bool, Option, codes, some}
use vip_channel_management_s.Compliance.{CompliancePolicy}

-- JOB_NAME
abbrev pub job_name : Text
job_name = codes "referral_compliance_check"

pub record MonitorReport : Type 0 where
  pub claimed : Bool
  pub period_start : Option ℕ
  pub processed : ℕ
  pub warned : ℕ
  pub revoked : ℕ
  pub restored : ℕ
  pub skipped_unavailable : ℕ

abbrev pub blank_report : Bool → ℕ → MonitorReport
blank_report claimed period_start = record {
  claimed = claimed;
  period_start = some period_start;
  processed = 0;
  warned = 0;
  revoked = 0;
  restored = 0;
  skipped_unavailable = 0;
}

-- What the monitor is built with
pub record Settings : Type 0 where
  pub policy : CompliancePolicy
  pub period : ℕ

-- What one pass is about: the tenant, the period and the moment
pub record Pass : Type 0 where
  pub tenant_id : ℕ
  pub period_start : ℕ
  pub moment : ℕ
