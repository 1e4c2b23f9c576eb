-- ===== src/Admin/Programs.antt =====
-- The referral programs of app/adapters/web/routers/admin.py.
use vip_channel_management_s.Admin.Schemas.{
  ReferralConfigRequest, ReferralConfigResponse, is_referral_request, validated,
}
use vip_channel_management_s.Models.{ReferralProgramConfig}
use vip_channel_management_s.Repositories.{get_for, save}
use vip_channel_management_s.Tables.{flush_row}
use vip_channel_management_s.Tables.Instances.{configs_table}
use vip_channel_management_s.World.{Action, pure, uuid4, ◌>>=◌}
use vip_channel_management_s.Prelude.{ℕ, none, Option, some, true}
use vip_channel_management_s.Prelude.Int.{pos}

-- a new row, with the defaults of the columns
abbrev pub config_row : ℕ → ℕ → ReferralConfigRequest → ReferralProgramConfig
config_row id tenant_id payload = record {
  id = id;
  tenant_id = tenant_id;
  provider_type = payload.provider_type;
  market = payload.market;
  referral_link = payload.referral_link;
  ib_id = none;
  minimum_balance = pos 30000000000;
  minimum_trades_per_period = 1;
  trade_period_days = 7;
  compliance_grace_period_days = 30;
  is_active = true;
}

unfoldable pub config_or_new :
    ℕ → ReferralConfigRequest → Option ReferralProgramConfig → Action ReferralProgramConfig
config_or_new tenant_id payload (some config) = pure config
config_or_new tenant_id payload none = do
  id ← uuid4
  save configs_table tenant_id (config_row id tenant_id payload)

abbrev pub configured : ReferralProgramConfig → ReferralConfigRequest → ReferralProgramConfig
configured config payload = record config {
  referral_link = payload.referral_link;
  ib_id = payload.ib_id;
  minimum_balance = payload.minimum_balance;
  minimum_trades_per_period = payload.minimum_trades_per_period;
  trade_period_days = payload.trade_period_days;
  compliance_grace_period_days = payload.compliance_grace_period_days;
  is_active = payload.is_active;
}

abbrev pub config_response : ReferralProgramConfig → ReferralConfigResponse
config_response c = record {
  id = c.id;
  provider_type = c.provider_type;
  market = c.market;
  referral_link = c.referral_link;
  ib_id = c.ib_id;
  minimum_balance = c.minimum_balance;
  minimum_trades_per_period = c.minimum_trades_per_period;
  trade_period_days = c.trade_period_days;
  compliance_grace_period_days = c.compliance_grace_period_days;
  is_active = c.is_active;
}

-- A row holds its canonical form, so that the refresh changes nothing.
unfoldable pub upsert_referral_config : ℕ → ReferralConfigRequest → Action ReferralConfigResponse
unfolding config_or_new
upsert_referral_config tenant_id payload = validated (is_referral_request payload) (do
  found ← get_for tenant_id payload.provider_type payload.market
  config ← config_or_new tenant_id payload found
  written ← flush_row configs_table (configured config payload)
  pure (config_response written))
