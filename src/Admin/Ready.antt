-- ===== src/Admin/Ready.antt =====
-- What `check_integration` of app/adapters/web/routers/admin.py finds when it reports no problem.
use vip_channel_management_s.World.{World, Action, ◌>>=◌, pure, get_me, ask_telegram, lift}
use vip_channel_management_s.Admin.Schemas.{IntegrationCheckResponse, Problem, ready}
use vip_channel_management_s.Admin.Check.{
  noting, bot_problem, referral_problem, active_markets, has_program, programs_missing, succeeded,
  check_bot, check_referral, check_integration, report,
}
use vip_channel_management_s.Providers.{telegram, BitunixCredentials, referral_provider}
use vip_channel_management_s.Prelude.{
  refl, ◌∷◌, Text, List, Option, ◌⊎◌, ℕ, ◌≡◌, All, [], true, ◌≢◌, Bool-cases, inl, ◌∙◌, ap, inr,
  Option-cases, subst, sym, take, drop, select, ◌==◌, false, map, ◌&&◌, any, arith, select-none,
}
use vip_channel_management_s.Errors.{Error, ok, Result, err, ok-inj}
use vip_channel_management_s.Models.{ReferralProgramConfig, TelegramChannel}
use vip_channel_management_s.Enums.{Market, ProviderType, eq_market}
use vip_channel_management_s.Repositories.{list_all, list_page}
use vip_channel_management_s.Tables.Instances.{channels_table, configs_table}
use vip_channel_management_s.Session.Follows.{along}
use vip_channel_management_s.Tables.{query, in_scope}
use vip_channel_management_s.Tables.Interface.{Table}
use vip_channel_management_s.World.Bind.{bind_ok}
use vip_channel_management_s.Admin.Reads.{
  SameRows, SameRows-check_bot, SameRows-IsPreorder, SameRows-check_referral, SameRows-list_all,
}
use vip_channel_management_s.Prelude.Has.{Has, any-Has}

-- For each channel that is active, some program is active and of the channel's market.
abbrev pub Covered : List ReferralProgramConfig → List TelegramChannel → Type 0
Covered configs channels =
    All
      (λ channel.
        Has (λ program. program.is_active && eq_market program.market channel.market) configs)
      (select (λ channel. channel.is_active) channels)

has_program-Has :
    (configs : List ReferralProgramConfig) (market : Market)
    → has_program configs market ≡ true
    → Has (λ program. program.is_active && eq_market program.market market) configs
has_program-Has configs market h =
    let k = any-Has (λ c. eq_market c.market market && c.is_active) configs h in
    record {
      item = k.item;
      before = k.before;
      after = k.after;
      placed = k.placed;
      holds = ground (arith, k.holds);
    }

covered_by :
    (configs : List ReferralProgramConfig) (channels : List TelegramChannel)
    → programs_missing configs (map (λ c. c.market) channels) ≡ []
    → All
        (λ channel.
          Has (λ program. program.is_active && eq_market program.market channel.market) configs)
        channels
unfolding programs_missing
covered_by configs [] h = tt
covered_by configs (c ∷ cs) h = elim (Bool-cases (has_program configs c.market)) [
  | inl e ↦ (has_program-Has configs c.market e, covered_by configs cs (rw e at h))
  | inr e ↦ cc (rw e at h)
]

active-Covered :
    (configs : List ReferralProgramConfig) (channels : List TelegramChannel)
    → programs_missing configs (active_markets channels) ≡ []
    → Covered configs channels
unfolding active_markets
active-Covered configs channels h = covered_by configs (select (λ c. c.is_active) channels) h

active_markets-Has :
    (channels : List TelegramChannel)
    → active_markets channels ≢ []
    → Has (λ channel. channel.is_active) channels
unfolding active_markets
active_markets-Has channels h = elim (Bool-cases (any (λ channel. channel.is_active) channels)) [
  | inl e ↦ any-Has (λ channel. channel.is_active) channels e
  | inr e ↦
      absurd (h (ap (map (λ c. c.market)) (select-none (λ channel. channel.is_active) channels e)))
]

noting-result :
    {A : Type 0} (excepted : Error → Option Problem) (q : Result A) (r : A ⊎ Problem) (v u : World)
    → noting excepted (lift q) v ≡ (ok r, u)
    → succeeded r ≡ true
    → (a : A) × (◌≡◌ {A = Result A × World} (q, v) (ok a, u))
unfolding noting
noting-result excepted (ok a) r v u h s = (a, λ i. (ok a, ap (λ q. q.1) h i))
noting-result excepted (err e) r v u h s = elim (Option-cases (excepted e)) [
  | inl n ↦ cc (rw n at h)
  | inr (p, n) ↦
      let k : inr p ≡ r = ok-inj (ap (λ q. q.0) (rw n at h)) in
      cc (subst (λ x. succeeded x ≡ true) (sym k) s)
]

-- A step with no problem to note went through.
noting-succeeded :
    {A : Type 0} (excepted : Error → Option Problem) (m : Action A) (r : A ⊎ Problem) (w u : World)
    → noting excepted m w ≡ (ok r, u)
    → succeeded r ≡ true
    → (a : A) × (m w ≡ (ok a, u))
unfolding noting
noting-succeeded excepted m r w u h s = noting-result excepted (m w).0 r (m w).1 u h s

SameRows-found :
    {A : Type 0} (tbl : Table A) (t : ℕ) (w u : World)
    → SameRows w u
    → (list_all tbl t u).0 ≡ (list_all tbl t w).0
unfolding list_all list_page query ◌>>=◌
SameRows-found tbl t w u s = λ i. ok (
    take 100 (
      drop 0 (
        select (λ r. tbl.tenant r == t)
          (select (λ r. in_scope (s.1 i) (tbl.tenant r)) (tbl.rows (s.0 i))))))

-- What stands behind a report of no problem: the bot's token and, in a world with the same rows,
-- the exchange's keys are read, some channel is active, and for each channel that is active some
-- program of its market is active.
pub record Complete (decrypt : Text → Option Text) (t : ℕ) (w : World) : Type 0 where
  pub token : Text
  pub bot : (telegram decrypt t w).0 ≡ ok token
  pub asked : World
  pub same : SameRows w asked
  pub keys : BitunixCredentials
  pub referral : (referral_provider decrypt t ProviderType.bitunix asked).0 ≡ ok keys
  pub channels : List TelegramChannel
  pub found : (list_all channels_table t w).0 ≡ ok channels
  pub some_channel : Has (λ channel. channel.is_active) channels
  pub configs : List ReferralProgramConfig
  pub programs : (list_all configs_table t w).0 ≡ ok configs
  pub covered : Covered configs channels

-- What a report of no problem says of the steps.
record Clear (bot : Text ⊎ Problem) (referral : BitunixCredentials ⊎ Problem)
    (markets : List Market) (configs : List ReferralProgramConfig) : Type 0 where
  bot_ok : succeeded bot ≡ true
  referral_ok : succeeded referral ≡ true
  some_market : markets ≢ []
  none_missing : programs_missing configs markets ≡ []

no_problems : (ps : List Problem) → (elim ps [ [] ↦ true | q ∷ qs ↦ false ]) ≡ true → ps ≡ []
no_problems [] h = refl
no_problems (q ∷ qs) h = cc

check_bot-telegram :
    (decrypt : Text → Option Text) (t : ℕ) (bot : Text ⊎ Problem) (w u : World)
    → check_bot decrypt t w ≡ (ok bot, u)
    → succeeded bot ≡ true
    → (token : Text) × ((telegram decrypt t w).0 ≡ ok token)
unfolding check_bot
check_bot-telegram decrypt t bot w u h s =
    let (name, e) =
      noting-succeeded bot_problem (telegram decrypt t >>= λ token. ask_telegram get_me) bot w u h
        s in
    let (token, v, f, g) = bind_ok (telegram decrypt t) (λ token. ask_telegram get_me) w e in
    (token, ap (λ q. q.0) f)

check_referral-keys :
    (decrypt : Text → Option Text) (t : ℕ) (referral : BitunixCredentials ⊎ Problem) (w u : World)
    → check_referral decrypt t w ≡ (ok referral, u)
    → succeeded referral ≡ true
    → (keys : BitunixCredentials) × ((referral_provider decrypt t ProviderType.bitunix w).0
        ≡ ok keys)
unfolding check_referral
check_referral-keys decrypt t referral w u h s =
    let (keys, e) =
      noting-succeeded referral_problem (referral_provider decrypt t ProviderType.bitunix) referral
        w u h s in
    (keys, ap (λ q. q.0) e)

report-Clear :
    (bot : Text ⊎ Problem) (referral : BitunixCredentials ⊎ Problem) (markets : List Market)
    (configs : List ReferralProgramConfig)
    → ready (report bot referral markets configs) ≡ true
    → Clear bot referral markets configs
report-Clear (inl a) (inl b) (m ∷ ms) configs h = record {
  bot_ok = refl;
  referral_ok = refl;
  some_market = λ e. cc;
  none_missing = no_problems (programs_missing configs (m ∷ ms)) h;
}
report-Clear (inl a) (inl b) [] configs h = cc
report-Clear (inl a) (inr b) markets configs h = cc
report-Clear (inr a) referral markets configs h = cc

-- When `check_integration` answers that a tenant is ready, both providers can be built, a channel is
-- active, and each market with an active channel has an active referral program.
pub check_integration-ready :
    (decrypt : Text → Option Text) (t : ℕ) (r : IntegrationCheckResponse) (w w' : World)
    → check_integration decrypt t w ≡ (ok r, w')
    → ready r ≡ true
    → Complete decrypt t w
unfolding check_integration
check_integration-ready decrypt t r w w' h s =
    let (bot, u1, e1, h1) =
      bind_ok (check_bot decrypt t)
        (λ bot. check_referral decrypt t >>= λ referral. list_all channels_table t >>= λ channels.
          list_all configs_table t >>= λ configs.
          pure (report bot referral (active_markets channels) configs))
        w h in
    let (referral, u2, e2, h2) =
      bind_ok (check_referral decrypt t)
        (λ referral. list_all channels_table t >>= λ channels.
          list_all configs_table t >>= λ configs.
          pure (report bot referral (active_markets channels) configs))
        u1 h1 in
    let (channels, u3, e3, h3) =
      bind_ok (list_all channels_table t)
        (λ channels. list_all configs_table t >>= λ configs.
          pure (report bot referral (active_markets channels) configs))
        u2 h2 in
    let (configs, u4, e4, h4) =
      bind_ok (list_all configs_table t)
        (λ configs. pure (report bot referral (active_markets channels) configs)) u3 h3 in
    let k : Clear bot referral (active_markets channels) configs =
      report-Clear bot referral (active_markets channels) configs
        (subst (λ x. ready x ≡ true) (sym (ok-inj (ap (λ q. q.0) h4))) s) in
    let s1 : SameRows w u1 =
      along SameRows (check_bot decrypt t) w (SameRows-check_bot decrypt t) e1 in
    let s2 : SameRows w u2 =
      SameRows-IsPreorder.transitive w u1 u2 s1
        (along SameRows (check_referral decrypt t) u1 (SameRows-check_referral decrypt t) e2) in
    let s3 : SameRows w u3 =
      SameRows-IsPreorder.transitive w u2 u3 s2
        (along SameRows (list_all channels_table t) u2 (SameRows-list_all channels_table t) e3) in
    let (token, b) = check_bot-telegram decrypt t bot w u1 e1 k.bot_ok in
    let (keys, f) = check_referral-keys decrypt t referral u1 u2 e2 k.referral_ok in
    record {
      token = token;
      bot = b;
      asked = u1;
      same = s1;
      keys = keys;
      referral = f;
      channels = channels;
      found = sym (SameRows-found channels_table t w u2 s2) ∙ ap (λ q. q.0) e3;
      some_channel = active_markets-Has channels k.some_market;
      configs = configs;
      programs = sym (SameRows-found configs_table t w u3 s3) ∙ ap (λ q. q.0) e4;
      covered = active-Covered configs channels k.none_missing;
    }
