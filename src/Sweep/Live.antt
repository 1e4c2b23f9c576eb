-- ===== src/Sweep/Live.antt =====
-- That the sweep of app/jobs/scheduler.py reaches its end.
use vip_channel_management_s.Prelude.{
  ℕ, Text, Bool, true, false, Option, none, some, List, [], ◌∷◌, ◌≡◌, refl, ap, ◌∙◌, ◌⊎◌, inl, inr,
  All, ◌==◌, map, subst, select, sym,
}
use vip_channel_management_s.Errors.{Error, ok, err, is_missing_credential_error}
use vip_channel_management_s.World.{World, Action, pure, catch, ◌>>=◌, ◌>>◌}
use vip_channel_management_s.World.Bind.{bind_run, bind_raise}
use vip_channel_management_s.Models.{ProviderCredential, TelegramBotConfig}
use vip_channel_management_s.Enums.{ProviderType}
use vip_channel_management_s.Providers.{
  secret, opened, decrypted, referral_provider, token_of, telegram, bitunix_api_key,
  bitunix_api_secret, telegram_bot_token,
}
use vip_channel_management_s.Repositories.{get_named, get_bot_config}
use vip_channel_management_s.Tables.Instances.{credentials_table, bot_configs_table}
use vip_channel_management_s.Tables.Constraints.{AllKeyed}
use vip_channel_management_s.Tables.Single.{AllOption, one_or_none-single}
use vip_channel_management_s.Transactions.{providers, in_session}
use vip_channel_management_s.Admin.Sealed.{is_named, is_named-key}
use vip_channel_management_s.Sweep.{
  sweep_tenant, run_compliance_sweep, sweep_all, active_tenant_ids, monitored,
}
use vip_channel_management_s.Sweep.Contained.{Keeps-monitored, sweep_tenant-returns}
use vip_channel_management_s.Sweep.Secrets.{SameSecrets-monitored}

module _ (decrypt : Text → Option Text) where
  -- The secret of the row can be decrypted.
  abbrev pub Opens : ProviderCredential → Type 0
  Opens r = (plain : Text) × (decrypt r.encrypted_secret ≡ some plain)

  -- The action changes nothing, and returns or finds a credential missing.
  abbrev Reads : {A : Type 0} → Action A → World → Type 0
  Reads {A} m w = ((a : A) × (m w ≡ (ok a, w))) ⊎ (m w ≡ (err Error.missing_credential, w))

  Reads-bind :
      {A B : Type 0} (m : Action A) (f : A → Action B) (w : World)
      → Reads m w
      → ((a : A) → Reads (f a) w)
      → Reads (m >>= f) w
  Reads-bind m f w (inl (a, e)) k = elim (k a) [
    | inl (b, d) ↦ inl (b, bind_run m f w e ∙ d)
    | inr d ↦ inr (bind_run m f w e ∙ d)
  ]
  Reads-bind m f w (inr e) k = inr (bind_raise m f w e)

  caught_returns :
      (m : Action Bool) (w : World)
      → Reads m w
      → (ready : Bool) × (catch is_missing_credential_error m (pure false) w ≡ (ok ready, w))
  unfolding catch
  caught_returns m w (inl (a, e)) =
      (a, ap (λ q. catch is_missing_credential_error (λ _. q) (pure false) w) e)
  caught_returns m w (inr e) =
      (false, ap (λ q. catch is_missing_credential_error (λ _. q) (pure false) w) e)

  module _ (t : ℕ) (w : World) (b : w.bound ≡ some t) (k : AllKeyed w.db)
      (h : All Opens w.db.credentials) where
    Reads-opened : (o : Option ProviderCredential) → AllOption Opens o → Reads (opened decrypt o) w
    unfolding opened decrypted
    Reads-opened none p = inr refl
    Reads-opened (some r) p = inl (p.0, ap (λ o. decrypted decrypt o w) p.1)

    Reads-secret : (p : ProviderType) (name : Text) → Reads (secret decrypt t p name) w
    unfolding secret get_named
    Reads-secret p name =
        let (o, e, q) =
          one_or_none-single credentials_table t (is_named t p name) (is_named-key t p name) Opens w
            b k.credentials h in
        elim (Reads-opened o q) [
          | inl (a, d) ↦ inl (a, bind_run (get_named t p name) (opened decrypt) w e ∙ d)
          | inr d ↦ inr (bind_run (get_named t p name) (opened decrypt) w e ∙ d)
        ]

    Reads-referral_provider : (p : ProviderType) → Reads (referral_provider decrypt t p) w
    unfolding referral_provider
    Reads-referral_provider ProviderType.bitunix =
        Reads-bind (secret decrypt t ProviderType.bitunix bitunix_api_key) _ w
          (Reads-secret ProviderType.bitunix bitunix_api_key)
          (λ key.
            Reads-bind (secret decrypt t ProviderType.bitunix bitunix_api_secret) _ w
              (Reads-secret ProviderType.bitunix bitunix_api_secret) (λ s. inl (_, refl)))
    Reads-referral_provider ProviderType.eplanet = inr refl
    Reads-referral_provider ProviderType.telegram = inr refl

    Reads-token_of : (o : Option TelegramBotConfig) → Reads (token_of decrypt t o) w
    unfolding token_of
    Reads-token_of none = inr refl
    Reads-token_of (some config) = Reads-secret ProviderType.telegram telegram_bot_token

    everything : (xs : List TelegramBotConfig) → All (λ _. Unit {0}) xs
    everything [] = tt
    everything (x ∷ xs) = (tt, everything xs)

    Reads-telegram : Reads (telegram decrypt t) w
    unfolding telegram get_bot_config
    Reads-telegram =
        let (o, e, q) =
          one_or_none-single bot_configs_table t (λ r. r.tenant_id == t) (λ x y u v. refl)
            (λ _. Unit {0}) w b k.bot_configs (everything w.db.bot_configs) in
        elim (Reads-token_of o) [
          | inl (a, d) ↦ inl (a, bind_run (get_bot_config t) (token_of decrypt t) w e ∙ d)
          | inr d ↦ inr (bind_run (get_bot_config t) (token_of decrypt t) w e ∙ d)
        ]

    -- The providers of a tenant are built, or its setup is not finished.
    providers-return :
        (p : ProviderType) → (ready : Bool) × (providers decrypt t p w ≡ (ok ready, w))
    unfolding providers
    providers-return p =
        caught_returns (do referral_provider decrypt t p; telegram decrypt t; pure true) w
          (Reads-bind (referral_provider decrypt t p) _ w (Reads-referral_provider p)
            (λ c. Reads-bind (telegram decrypt t) _ w Reads-telegram (λ token. inl (true, refl))))

-- The database meets the unique constraints, and every stored secret can be decrypted.
pub record AllOpen (decrypt : Text → Option Text) (w : World) : Type 0 where
  pub keyed : AllKeyed w.db
  pub opens : All (Opens decrypt) w.db.credentials

module _ (decrypt : Text → Option Text) (p : ProviderType) (period : ℕ) where
  turn :
      (t : ℕ) (w : World)
      → AllOpen decrypt w
      → AllOpen decrypt (sweep_tenant decrypt p period t w).1
        × ((sweep_tenant decrypt p period t w).0 ≡ ok tt)
  unfolding sweep_tenant in_session
  turn t w h =
      let v = record w { bound = some t } in
      let (ready, e) = providers-return decrypt t v refl h.keyed h.opens p in
      let body = bind_run (providers decrypt t p) (λ r. monitored decrypt p period r t) v e in
      (
        record {
          keyed =
              subst (λ q. AllKeyed q.1.db) (sym body)
                (((Keeps-monitored decrypt p period t ready t).at v).keyed h.keyed);
          opens =
              subst (λ q. All (Opens decrypt) q.1.db.credentials) (sym body)
                (subst (All (Opens decrypt))
                  (sym ((SameSecrets-monitored decrypt p period ready t).at v).credentials)
                  h.opens);
        },
        sweep_tenant-returns decrypt p period t ready w v e,
      )

  sweep_all-returns :
      (ts : List ℕ) (w : World)
      → AllOpen decrypt w
      → (w' : World) × (sweep_all decrypt p period ts w ≡ (ok tt, w')) × AllOpen decrypt w'
  unfolding sweep_all
  sweep_all-returns [] w h = (w, refl, h)
  sweep_all-returns (t ∷ ts) w h =
      let (ready, e) = turn t w h in
      let u = (sweep_tenant decrypt p period t w).1 in
      let (w', d, k) = sweep_all-returns ts u ready in
      (
        w',
        bind_run (sweep_tenant decrypt p period t) (λ _. sweep_all decrypt p period ts) w
              (λ i. (e i, u))
            ∙ d,
        k,
      )

  -- When every stored secret can be decrypted and the database meets the unique constraints, the
  -- whole sweep returns, whatever Telegram and the exchange answer and however the passes of single
  -- tenants end; after it the database meets the unique constraints, and every secret stored can be
  -- decrypted.
  pub run_compliance_sweep-returns :
      (w : World)
      → AllOpen decrypt w
      → (w' : World) × (run_compliance_sweep decrypt p period w ≡ (ok tt, w')) × AllOpen decrypt w'
  unfolding run_compliance_sweep active_tenant_ids ◌>>=◌
  run_compliance_sweep-returns w h =
      sweep_all-returns (map (λ t. t.id) (select (λ t. t.is_active) w.db.tenants)) w h
