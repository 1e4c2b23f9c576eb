-- ===== src/Repositories.antt =====
-- The queries of app/adapters/persistence/repositories.py. Each names its tenant, beside the scope
-- that the session applies by itself.
pub mod Keep
pub mod Deleted
pub mod View
pub mod Calls
pub mod Refinement
pub mod Refused
pub mod Totals
use vip_channel_management_s.Prelude.{
  ◌||◌, ◌++◌, ◌∷◌, [], not, select, if◌then◌else◌, ℕ, Bool, ◌&&◌, ◌==◌, Option, none, some, List,
  Text, eq_text, any, take, drop,
}
use vip_channel_management_s.Enums.{Market, eq_market, ProviderType, eq_provider, MembershipStatus}
use vip_channel_management_s.Errors.{Error, ok, err}
use vip_channel_management_s.Models.{
  Tenant, TelegramUser, ReferralAccount, Subscription, VipMembership, ReferralProgramConfig,
  TelegramChannel, TelegramBotConfig, ProviderCredential,
}
use vip_channel_management_s.World.{World, Action, pure, lift, ◌>>=◌, ◌>>◌}
use vip_channel_management_s.Tables.{in_scope, query, flush_row, scalar_one_or_none, first}
use vip_channel_management_s.Tables.Interface.{Table}
use vip_channel_management_s.Tables.Instances.{
  users_table, accounts_table, subscriptions_table, memberships_table, configs_table,
  channels_table, bot_configs_table, credentials_table,
}

-- TenantScopedRepository
module _ {A : Type 0} (tbl : Table A) where
  -- `(await session.execute(stmt)).scalar_one_or_none()`
  unfoldable pub one_or_none : (A → Bool) → Action (Option A)
  one_or_none test = do found ← query tbl test; lift (scalar_one_or_none found)

  unfoldable pub get_by_id : ℕ → ℕ → Action (Option A)
  unfolding one_or_none
  get_by_id tenant_id entity_id =
      one_or_none (λ r. tbl.tenant r == tenant_id && tbl.row_id r == entity_id)

  unfoldable pub list_page : ℕ → ℕ → ℕ → Action (List A)
  list_page tenant_id limit offset = do
    found ← query tbl (λ r. tbl.tenant r == tenant_id)
    pure (take limit (drop offset found))

  -- `list_all` with its defaults
  unfoldable pub list_all : ℕ → Action (List A)
  unfolding list_page
  list_all tenant_id = list_page tenant_id 100 0

  unfoldable pub save : ℕ → A → Action A
  save tenant_id entity = flush_row tbl (tbl.assign tenant_id entity)

-- The rows that a DELETE of a session meets: the row policy's, for the loader criteria filter only
-- what is selected.
abbrev pub deletes : {A : Type 0} (tbl : Table A) → Option ℕ → ℕ → ℕ → A → Bool
deletes tbl bound tenant_id entity_id r =
    in_scope bound (tbl.tenant r) && (tbl.tenant r == tenant_id && tbl.row_id r == entity_id)

unfoldable pub delete : {A : Type 0} (tbl : Table A) → ℕ → ℕ → Action Bool
delete tbl tenant_id entity_id w =
    let gone = deletes tbl w.bound tenant_id entity_id in
    (
      ok (any gone (tbl.rows w.db)),
      record w { db = tbl.write (select (λ r. not (gone r)) (tbl.rows w.db)) w.db },
    )

-- TenantRepository: the table of tenants is not scoped.
unfoldable pub get_tenant : ℕ → Action (Option Tenant)
get_tenant tenant_id w = (scalar_one_or_none (select (λ r. r.id == tenant_id) w.db.tenants), w)

unfoldable pub get_by_slug : Text → Action (Option Tenant)
get_by_slug slug w = (scalar_one_or_none (select (λ r. eq_text r.slug slug) w.db.tenants), w)

-- a tenant whose identifier or slug another one has
abbrev pub same_tenant : Tenant → Tenant → Bool
same_tenant a b = a.id == b.id || eq_text a.slug b.slug

unfoldable pub create : Tenant → Action Tenant
create tenant w =
    if any (same_tenant tenant) w.db.tenants
    then (err Error.integrity_error, w)
    else (ok tenant, record w { db = record w.db { tenants = w.db.tenants ++ (tenant ∷ []) } })

unfoldable pub get_by_telegram_id : ℕ → ℕ → Action (Option TelegramUser)
unfolding one_or_none
get_by_telegram_id tenant_id telegram_user_id =
    one_or_none users_table
      (λ r. r.tenant_id == tenant_id && r.telegram_user_id == telegram_user_id)

unfoldable pub get_by_uid : ℕ → ProviderType → Text → Action (Option ReferralAccount)
unfolding one_or_none
get_by_uid tenant_id provider_type uid = one_or_none accounts_table (λ r.
    r.tenant_id == tenant_id && (eq_provider r.provider_type provider_type && eq_text r.uid uid))

unfoldable pub list_for_user : ℕ → ℕ → Action (List ReferralAccount)
list_for_user tenant_id user_id =
    query accounts_table (λ r. r.tenant_id == tenant_id && r.user_id == user_id)

unfoldable pub get_active_for_user : ℕ → ℕ → Market → Action (Option Subscription)
get_active_for_user tenant_id user_id market = do
  found ←
      query subscriptions_table
        (λ r. r.tenant_id == tenant_id && (r.user_id == user_id && eq_market r.market market))
  pure (first found)

unfoldable pub get_for_user_and_channel : ℕ → ℕ → ℕ → Action (Option VipMembership)
unfolding one_or_none
get_for_user_and_channel tenant_id user_id channel_id =
    one_or_none memberships_table
      (λ r. r.tenant_id == tenant_id && (r.user_id == user_id && r.channel_id == channel_id))

-- The statuses are given by their test.
unfoldable pub list_by_status : ℕ → (MembershipStatus → Bool) → Action (List VipMembership)
list_by_status tenant_id statuses =
    query memberships_table (λ r. r.tenant_id == tenant_id && statuses r.status)

unfoldable pub get_for_market : ℕ → Market → Action (Option TelegramChannel)
unfolding one_or_none
get_for_market tenant_id market =
    one_or_none channels_table
      (λ r. r.tenant_id == tenant_id && (eq_market r.market market && r.is_active))

unfoldable pub get_for : ℕ → ProviderType → Market → Action (Option ReferralProgramConfig)
unfolding one_or_none
get_for tenant_id provider_type market = one_or_none configs_table (λ r.
    r.tenant_id == tenant_id
    && (eq_provider r.provider_type provider_type && eq_market r.market market))

unfoldable pub get_named : ℕ → ProviderType → Text → Action (Option ProviderCredential)
unfolding one_or_none
get_named tenant_id provider_type credential_name = one_or_none credentials_table (λ r.
    r.tenant_id == tenant_id
    && (eq_provider r.provider_type provider_type && eq_text r.credential_name credential_name))

unfoldable pub get_bot_config : ℕ → Action (Option TelegramBotConfig)
unfolding one_or_none
get_bot_config tenant_id = one_or_none bot_configs_table (λ r. r.tenant_id == tenant_id)
