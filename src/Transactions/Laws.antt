-- ===== src/Transactions/Laws.antt =====
-- What a session of its own and its transaction leave alone.
use vip_channel_management_s.Prelude.{ℕ, Text, Option, none, some, ◌≡◌, refl, ap}
use vip_channel_management_s.Transactions.{providers, attempt, in_session}
use vip_channel_management_s.Providers.{opened, token_of, referral_provider, secret, decrypted}
use vip_channel_management_s.Providers.{telegram}
use vip_channel_management_s.World.{Action, World}
use vip_channel_management_s.Session.Defs.{Keeps, Respects}
use vip_channel_management_s.Errors.{Result, Error, ok, err}
use vip_channel_management_s.Models.{TelegramBotConfig, ProviderCredential}
use vip_channel_management_s.Enums.{ProviderType}
use vip_channel_management_s.Session.Rules.{session_rules}
use vip_channel_management_s.Repositories.Keep.{repository_rules}
use vip_channel_management_s.Tables.Interface.{others}

module _ {t : ℕ} (decrypt : Text → Option Text) where
  Keeps-decrypted : (o : Option Text) → Keeps t (decrypted decrypt o)
  unfolding decrypted
  Keeps-decrypted none = search session_rules
  Keeps-decrypted (some s) = search session_rules

  Keeps-opened : (o : Option ProviderCredential) → Keeps t (opened decrypt o)
  unfolding opened
  Keeps-opened none = search session_rules
  Keeps-opened (some row) = Keeps-decrypted (decrypt row.encrypted_secret)

  Keeps-secret : (u : ℕ) (p : ProviderType) (name : Text) → Keeps t (secret decrypt u p name)
  unfolding secret
  Keeps-secret u p name = search (repository_rules, Keeps-opened)

  Keeps-referral_provider : (u : ℕ) (p : ProviderType) → Keeps t (referral_provider decrypt u p)
  unfolding referral_provider
  Keeps-referral_provider u ProviderType.bitunix = search (session_rules, Keeps-secret)
  Keeps-referral_provider u _ = search session_rules

  Keeps-token_of : (u : ℕ) (o : Option TelegramBotConfig) → Keeps t (token_of decrypt u o)
  unfolding token_of
  Keeps-token_of u none = search session_rules
  Keeps-token_of u (some c) = search (session_rules, Keeps-secret)

  Keeps-telegram : (u : ℕ) → Keeps t (telegram decrypt u)
  unfolding telegram
  Keeps-telegram u = search (repository_rules, Keeps-token_of)

  pub Keeps-providers : (u : ℕ) (p : ProviderType) → Keeps t (providers decrypt u p)
  unfolding providers
  Keeps-providers u p = search (session_rules, Keeps-referral_provider, Keeps-telegram) depth 8

module _ {A : Type 0} {t : ℕ} where
  Keeps-settled :
      (r : Result A) (w w' : World) → Respects t w w' → Respects t w ((attempt (λ v. (r, w')) w).1)
  unfolding attempt
  Keeps-settled (ok a) w w' k = k
  Keeps-settled (err e) w w' k = record {
    session = k.session;
    elsewhere = λ b. refl;
    keyed = λ h. h;
    supply = k.supply;
    clock = k.clock;
    environment = k.environment;
    history = k.history;
  }

  pub Keeps-attempt : (m : Action A) → Keeps t m → Keeps t (attempt m)
  unfolding attempt
  Keeps-attempt m k = record { at = λ w. Keeps-settled (m w).0 w (m w).1 (k.at w) }

  -- A session of its own for `t` changes no row of another tenant.
  pub in_session-elsewhere :
      (m : Action A) → Keeps t m → (w : World) → others t (in_session t m w).1.db ≡ others t w.db
  unfolding in_session
  in_session-elsewhere m k w = (k.at (record w { bound = some t })).elsewhere refl

-- A body that raises is rolled back.
pub attempt-raised :
    {A : Type 0} (m : Action A) (w : World) {x : Error} {u : World}
    → m w ≡ (err x, u)
    → attempt m w ≡ (ok none, record u { db = w.db })
unfolding attempt
attempt-raised m w e = ap (λ q. attempt (λ v. q) w) e

settled-returns :
    {A : Type 0} (r : Result A) (w u : World)
    → (o : Option A) × (v : World) × (attempt (λ _. (r, u)) w ≡ (ok o, v))
unfolding attempt
settled-returns (ok a) w u = (some a, u, refl)
settled-returns (err x) w u = (none, record u { db = w.db }, refl)

-- An attempt always returns.
pub attempt-returns :
    {A : Type 0} (m : Action A) (w : World)
    → (o : Option A) × (v : World) × (attempt m w ≡ (ok o, v))
unfolding attempt
attempt-returns m w = settled-returns (m w).0 w (m w).1
