-- ===== src/Sweep/Contained.antt =====
-- What one tenant can do to the sweep of app/jobs/scheduler.py.
use vip_channel_management_s.Prelude.{
  if◌then◌else◌, ℕ, Text, Option, none, some, ◌≡◌, refl, true, false, Bool, List, ◌∷◌, ap, ◌∙◌,
  codes,
}
use vip_channel_management_s.World.{World, ◌>>=◌, pure, catch, Action}
use vip_channel_management_s.Errors.{Error, ok, err, is_missing_credential_error}
use vip_channel_management_s.Enums.{ProviderType}
use vip_channel_management_s.Sweep.{monitored, sweep_tenant, sweep_all, settings_for}
use vip_channel_management_s.Transactions.{in_session, attempt, providers}
use vip_channel_management_s.Tables.Interface.{others}
use vip_channel_management_s.Session.Defs.{Keeps}
use vip_channel_management_s.Transactions.Laws.{
  in_session-elsewhere, attempt-returns, Keeps-providers, Keeps-attempt, attempt-raised,
}
use vip_channel_management_s.Session.Rules.{session_rules}
use vip_channel_management_s.World.Bind.{bind_raise, bind_run}
use vip_channel_management_s.Monitor.Run.{run}
use vip_channel_management_s.Monitor.Keep.{run-Keeps}
use vip_channel_management_s.Providers.{
  referral_provider, secret, opened, decrypted, bitunix_api_key,
}
use vip_channel_management_s.Models.{ProviderCredential}
use vip_channel_management_s.Repositories.{get_named, one_or_none}
use vip_channel_management_s.Tables.{query}

module _ (decrypt : Text → Option Text) (p : ProviderType) (period t : ℕ) where
  pub Keeps-monitored : (ready : Bool) (u : ℕ) → Keeps t (monitored decrypt p period ready u)
  unfolding monitored
  Keeps-monitored ready u = search (session_rules, Keeps-attempt, run-Keeps) depth 8

  -- A tenant's turn of the sweep changes no row of another tenant, whether it returns or raises.
  pub sweep_tenant-elsewhere :
      (w : World) → others t (sweep_tenant decrypt p period t w).1.db ≡ others t w.db
  unfolding sweep_tenant
  sweep_tenant-elsewhere w =
      in_session-elsewhere (providers decrypt t p >>= λ ready. monitored decrypt p period ready t)
        (search (session_rules, Keeps-providers, Keeps-monitored)) w

  monitored-returns : (ready : Bool) (w : World) → (monitored decrypt p period ready t w).0 ≡ ok tt
  unfolding monitored
  monitored-returns false w = refl
  monitored-returns true w =
      let (o, v, e) = attempt-returns (run (settings_for period) t none) w in
      ap (λ q. q.0) (bind_run (attempt (run (settings_for period) t none)) (λ _. pure tt) w e)

  -- A tenant whose providers can be built, or whose setup is not finished, does not stop the
  -- sweep: its turn returns whatever its pass raises.
  pub sweep_tenant-returns :
      (ready : Bool) (w v : World)
      → providers decrypt t p (record w { bound = some t }) ≡ (ok ready, v)
      → (sweep_tenant decrypt p period t w).0 ≡ ok tt
  unfolding sweep_tenant in_session
  sweep_tenant-returns ready w v e =
      ap (λ q. q.0)
        (bind_run (providers decrypt t p) (λ r. monitored decrypt p period r t)
          (record w { bound = some t }) e)
      ∙ monitored-returns ready v

  -- When a pass raises, the tenant's turn returns and the database is as it was when the pass began;
  -- the calls that the pass made stay made.
  pub sweep_tenant-rolled_back :
      (w v u : World) (x : Error)
      → providers decrypt t p (record w { bound = some t }) ≡ (ok true, v)
      → run (settings_for period) t none v ≡ (err x, u)
      → sweep_tenant decrypt p period t w ≡ (ok tt, record u { db = v.db; bound = w.bound })
  unfolding sweep_tenant in_session monitored
  sweep_tenant-rolled_back w v u x e f =
      ap (λ q. (q.0, record q.1 { bound = w.bound }))
        (bind_run (providers decrypt t p) (λ r. monitored decrypt p period r t)
            (record w { bound = some t }) e
          ∙ bind_run (attempt (run (settings_for period) t none)) (λ _. pure tt) v
              (attempt-raised (run (settings_for period) t none) v f))

  providers-raise-sweep :
      (rest : List ℕ) (w v : World) (x : Error)
      → providers decrypt t p (record w { bound = some t }) ≡ (err x, v)
      → sweep_all decrypt p period (t ∷ rest) w ≡ (err x, record v { bound = w.bound })
  unfolding sweep_all sweep_tenant in_session
  providers-raise-sweep rest w v x e =
      bind_raise (sweep_tenant decrypt p period t) (λ _. sweep_all decrypt p period rest) w
        (ap (λ q. (q.0, record q.1 { bound = w.bound }))
          (bind_raise (providers decrypt t p) (λ r. monitored decrypt p period r t)
            (record w { bound = some t }) e))

-- An error that is not caught goes on.
catch-raised :
    {A : Type 0} (caught : Error → Bool) (m handler : Action A) (w : World) {x : Error} {w' : World}
    → caught x ≡ false
    → m w ≡ (err x, w')
    → catch caught m handler w ≡ (err x, w')
unfolding catch
catch-raised caught m handler w {x} {w'} k e =
    ap
      (λ q. elim q.0 [
        | ok a ↦ (ok a, q.1)
        | err e ↦ if caught e then handler q.1 else (err e, q.1)
      ])
      e
    ∙ rw k refl

module _ (decrypt : Text → Option Text) (t : ℕ) (w : World) (row : ProviderCredential) where
  secret-sealed :
      (p : ProviderType) (name : Text)
      → (get_named t p name w).0 ≡ ok (some row)
      → decrypt row.encrypted_secret ≡ none
      → secret decrypt t p name w ≡ (err Error.credential_encryption, w)
  unfolding secret opened decrypted get_named one_or_none query ◌>>=◌
  secret-sealed p name found sealed =
      bind_run (get_named t p name) (opened decrypt) w (λ i. (found i, w))
      ∙ ap (λ o. decrypted decrypt o w) sealed

  providers-sealed :
      (get_named t ProviderType.bitunix (codes "api_key") w).0 ≡ ok (some row)
      → decrypt row.encrypted_secret ≡ none
      → providers decrypt t ProviderType.bitunix w ≡ (err Error.credential_encryption, w)
  unfolding providers referral_provider
  providers-sealed found sealed = catch-raised is_missing_credential_error _ (pure false) w refl (
      bind_raise (referral_provider decrypt t ProviderType.bitunix) _ w (
        bind_raise (secret decrypt t ProviderType.bitunix bitunix_api_key) _ w
          (secret-sealed ProviderType.bitunix bitunix_api_key found sealed)))

-- One secret that cannot be decrypted ends the sweep: when the row under which a tenant's session
-- finds the key of the Bitunix API does not decrypt, the turn of the tenant raises, nothing has
-- changed since the turn began, nothing was asked, and the tenants after it get no turn.
pub sweep_all-stopped :
    (decrypt : Text → Option Text) (period t : ℕ) (rest : List ℕ) (w : World)
    (row : ProviderCredential)
    → (get_named t ProviderType.bitunix (codes "api_key") (record w { bound = some t })).0
      ≡ ok (some row)
    → decrypt row.encrypted_secret ≡ none
    → sweep_all decrypt ProviderType.bitunix period (t ∷ rest) w
      ≡ (err Error.credential_encryption, w)
sweep_all-stopped decrypt period t rest w row found sealed =
    providers-raise-sweep decrypt ProviderType.bitunix period t rest w (record w { bound = some t })
      Error.credential_encryption
      (providers-sealed decrypt t (record w { bound = some t }) row found sealed)
