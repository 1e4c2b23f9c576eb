-- ===== src/Admin/Check.antt =====
-- `check_integration` of app/adapters/web/routers/admin.py.
use vip_channel_management_s.Admin.Schemas.{IntegrationCheckResponse, Problem}
use vip_channel_management_s.Models.{TelegramChannel, ReferralProgramConfig}
use vip_channel_management_s.Providers.{telegram, referral_provider, BitunixCredentials}
use vip_channel_management_s.Repositories.{list_all}
use vip_channel_management_s.Tables.Instances.{channels_table, configs_table}
use vip_channel_management_s.World.{Action, pure, get_me, ask_telegram, ◌>>=◌, ◌>>◌}
use vip_channel_management_s.Errors.{Error, ok, err}
use vip_channel_management_s.Prelude.{
  Text, List, Option, ◌⊎◌, ℕ, some, Bool, none, ◌++◌, map, ◌∷◌, inl, true, any, inr, select, [],
  if◌then◌else◌, false, ◌&&◌,
}
use vip_channel_management_s.Enums.{Market, ProviderType, eq_market}

-- The `except` clauses that note a problem and go on; any other error is let through.
unfoldable pub noting : {A : Type 0} → (Error → Option Problem) → Action A → Action (A ⊎ Problem)
noting excepted m w =
    let (r, w') = m w in
    elim r [
      | ok a ↦ (ok (inl a), w')
      | err e ↦ elim (excepted e) [ none ↦ (err e, w') | some p ↦ (ok (inr p), w') ]
    ]

abbrev pub bot_problem : Error → Option Problem
bot_problem Error.missing_credential = some Problem.bot_token_missing
bot_problem Error.provider_unavailable = some Problem.telegram_rejected
bot_problem _ = none

abbrev pub referral_problem : Error → Option Problem
referral_problem Error.missing_credential = some Problem.referral_credential_missing
referral_problem _ = none

-- `c.market for c in channels if c.is_active`
unfoldable pub active_markets : List TelegramChannel → List Market
active_markets channels = map (λ c. c.market) (select (λ c. c.is_active) channels)

abbrev pub has_program : List ReferralProgramConfig → Market → Bool
has_program configs market = any (λ c. eq_market c.market market && c.is_active) configs

unfoldable pub programs_missing : List ReferralProgramConfig → List Market → List Problem
programs_missing configs [] = []
programs_missing configs (market ∷ rest) =
    let missing = programs_missing configs rest in
    if has_program configs market then missing else Problem.no_program market ∷ missing

abbrev pub channel_problems : List Market → List Problem
channel_problems [] = Problem.no_active_channel ∷ []
channel_problems (m ∷ ms) = []

abbrev pub note_of : {A : Type 0} → A ⊎ Problem → List Problem
note_of (inl a) = []
note_of (inr p) = p ∷ []

abbrev pub succeeded : {A : Type 0} → A ⊎ Problem → Bool
succeeded (inl a) = true
succeeded (inr p) = false

abbrev pub got : {A : Type 0} → A ⊎ Problem → Option A
got (inl a) = some a
got (inr p) = none

-- the answer, from what the steps gave
abbrev pub report :
    Text ⊎ Problem
    → BitunixCredentials ⊎ Problem
    → List Market
    → List ReferralProgramConfig
    → IntegrationCheckResponse
report bot referral markets configs = record {
  bot_ok = succeeded bot;
  bot_username = got bot;
  referral_ok = succeeded referral;
  channels_checked = markets;
  problems =
      note_of bot
      ++ (note_of referral ++ (channel_problems markets ++ programs_missing configs markets));
}

module _ (decrypt : Text → Option Text) where
  unfoldable pub check_bot : ℕ → Action (Text ⊎ Problem)
  unfolding noting
  check_bot tenant_id = noting bot_problem (do telegram decrypt tenant_id; ask_telegram get_me)

  unfoldable pub check_referral : ℕ → Action (BitunixCredentials ⊎ Problem)
  unfolding noting
  check_referral tenant_id =
      noting referral_problem (referral_provider decrypt tenant_id ProviderType.bitunix)

  unfoldable pub check_integration : ℕ → Action IntegrationCheckResponse
  unfolding check_bot check_referral active_markets programs_missing
  check_integration tenant_id = do
    bot ← check_bot tenant_id
    referral ← check_referral tenant_id
    channels ← list_all channels_table tenant_id
    configs ← list_all configs_table tenant_id
    pure (report bot referral (active_markets channels) configs)
