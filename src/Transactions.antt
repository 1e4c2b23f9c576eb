-- ===== src/Transactions.antt =====
-- A session of its own for a tenant, and its transaction: `bind_tenant` of app/core/tenant_scope.py
-- and the `async with`, `commit` and `rollback` around it in app/jobs/scheduler.py and
-- app/adapters/web/routers/telegram_webhook.py.
pub mod Laws
use vip_channel_management_s.Prelude.{ℕ, Bool, true, false, Option, none, some, Text}
use vip_channel_management_s.World.{Action, pure, catch, ◌>>=◌, ◌>>◌, World}
use vip_channel_management_s.Errors.{ok, err, is_missing_credential_error}
use vip_channel_management_s.Providers.{referral_provider, telegram}
use vip_channel_management_s.Enums.{ProviderType}

-- The body runs in a new session that is bound to the tenant.
unfoldable pub in_session : {A : Type 0} → ℕ → Action A → Action A
in_session tenant_id body w =
    let (r, w') = body (record w { bound = some tenant_id }) in (r, record w' { bound = w.bound })

-- `try: result = ...; commit() except Exception: rollback(); result = None`. The calls that were
-- made stay made.
unfoldable pub attempt : {A : Type 0} → Action A → Action (Option A)
attempt m w =
    let (r, w') = m w in
    elim r [ ok a ↦ (ok (some a), w') | err e ↦ (ok none, record w' { db = w.db }) ]

-- Both providers of a tenant, or false where it has not finished its setup.
unfoldable pub providers : (decrypt : Text → Option Text) → ℕ → ProviderType → Action Bool
providers decrypt tenant_id provider_type =
    catch is_missing_credential_error
      (do referral_provider decrypt tenant_id provider_type; telegram decrypt tenant_id; pure true)
      (pure false)
