-- ===== src/Sweep.antt =====
-- app/jobs/scheduler.py: the pass over all the active tenants, each in a session of its own.
pub mod Contained
pub mod Secrets
pub mod Live
use vip_channel_management_s.Prelude.{
  ℕ, Text, Option, none, List, [], ◌∷◌, select, map, if◌then◌else◌, Bool,
}
use vip_channel_management_s.World.{Action, pure, gets, ◌>>=◌, ◌>>◌}
use vip_channel_management_s.Time.{days}
use vip_channel_management_s.Monitor.Report.{Settings}
use vip_channel_management_s.Enums.{ProviderType}
use vip_channel_management_s.Compliance.{default_policy}
use vip_channel_management_s.Transactions.{attempt, in_session, providers}
use vip_channel_management_s.Monitor.Run.{run}

-- DEFAULT_COMPLIANCE_PERIOD, in seconds
abbrev pub default_compliance_period : ℕ
default_compliance_period = 604800

unfoldable pub active_tenant_ids : Action (List ℕ)
active_tenant_ids = gets (λ w. map (λ t. t.id) (select (λ t. t.is_active) w.db.tenants))

-- the monitor's settings: the default policy, and the period
abbrev pub settings_for : ℕ → Settings
settings_for period = record { policy = default_policy; period = period }

module _ (decrypt : Text → Option Text) (provider_type : ProviderType) (period : ℕ) where
  unfoldable pub monitored : Bool → ℕ → Action (Unit {0})
  monitored ready tenant_id =
      if ready then (do attempt (run (settings_for period) tenant_id none); pure tt) else pure tt

  -- one turn of the loop
  unfoldable pub sweep_tenant : ℕ → Action (Unit {0})
  sweep_tenant tenant_id =
      in_session tenant_id
        (do ready ← providers decrypt tenant_id provider_type; monitored ready tenant_id)

  unfoldable pub sweep_all : List ℕ → Action (Unit {0})
  sweep_all [] = pure tt
  sweep_all (tenant_id ∷ rest) = do sweep_tenant tenant_id; sweep_all rest

  unfoldable pub run_compliance_sweep : Action (Unit {0})
  run_compliance_sweep = do tenants ← active_tenant_ids; sweep_all tenants
