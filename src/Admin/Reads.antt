-- ===== src/Admin/Reads.antt =====
-- The steps of `check_integration` of app/adapters/web/routers/admin.py write nothing.
use vip_channel_management_s.World.{World, Action, ask_telegram, Call, lift}
use vip_channel_management_s.Admin.Schemas.{Problem}
use vip_channel_management_s.Admin.Check.{noting, check_bot, check_referral}
use vip_channel_management_s.Providers.{
  telegram, referral_provider, token_of, secret, opened, decrypted,
}
use vip_channel_management_s.Prelude.{
  refl, Text, Option, ℕ, ◌≡◌, inl, ◌∙◌, Bool, some, inr, none, Option-cases, subst, sym,
}
use vip_channel_management_s.Errors.{Error, ok, Result, err}
use vip_channel_management_s.Models.{TelegramBotConfig, ProviderCredential}
use vip_channel_management_s.Enums.{ProviderType}
use vip_channel_management_s.Repositories.{
  list_all, get_bot_config, get_named, list_page, one_or_none,
}
use vip_channel_management_s.Session.Follows.{Follows, IsPreorder, follows_rules}
use vip_channel_management_s.Tables.{query}
use vip_channel_management_s.Tables.Interface.{Table}

-- Actions that leave the database as it is.
abbrev pub SameRows : World → World → Type 0
SameRows w w' = (w'.db ≡ w.db) × (w'.bound ≡ w.bound)

pub SameRows-IsPreorder : IsPreorder SameRows
SameRows-IsPreorder = record {
  reflexive = λ w. (refl, refl);
  transitive = λ u v w a b. (b.0 ∙ a.0, b.1 ∙ a.1);
}

pub SameRows-ask_telegram : (c : Call) → Follows SameRows (ask_telegram c)
unfolding ask_telegram
SameRows-ask_telegram c = record { at = λ w. (refl, refl) }

pub SameRows-query :
    {A : Type 0} (tbl : Table A) (test : A → Bool) → Follows SameRows (query tbl test)
unfolding query
SameRows-query tbl test = record { at = λ w. (refl, refl) }

pub SameRows-list_all : {A : Type 0} (tbl : Table A) (t : ℕ) → Follows SameRows (list_all tbl t)
unfolding list_all list_page
SameRows-list_all tbl t = search (follows_rules, SameRows-query, SameRows-IsPreorder)

pub SameRows-get_named :
    (t : ℕ) (p : ProviderType) (name : Text) → Follows SameRows (get_named t p name)
unfolding get_named one_or_none
SameRows-get_named t p name = search (follows_rules, SameRows-query, SameRows-IsPreorder)

pub SameRows-get_bot_config : (t : ℕ) → Follows SameRows (get_bot_config t)
unfolding get_bot_config one_or_none
SameRows-get_bot_config t = search (follows_rules, SameRows-query, SameRows-IsPreorder)

pub noting-world :
    {A : Type 0} (excepted : Error → Option Problem) (q : Result A) (v : World)
    → (noting excepted (lift q) v).1 ≡ v
unfolding noting
noting-world excepted (ok a) v = refl
noting-world excepted (err e) v = elim (Option-cases (excepted e)) [
  | inl n ↦ rw n refl
  | inr (p, n) ↦ rw n refl
]

pub SameRows-noting :
    {A : Type 0} (excepted : Error → Option Problem) (m : Action A)
    → Follows SameRows m
    → Follows SameRows (noting excepted m)
unfolding noting
SameRows-noting excepted m k = record {
  at = λ w. subst (SameRows w) (sym (noting-world excepted (m w).0 (m w).1)) (k.at w);
}

module _ (decrypt : Text → Option Text) where
  pub SameRows-opened : (row : Option ProviderCredential) → Follows SameRows (opened decrypt row)
  unfolding opened decrypted
  SameRows-opened none = search (follows_rules, SameRows-IsPreorder)
  SameRows-opened (some row) = elim (Option-cases (decrypt row.encrypted_secret)) [
    | inl e ↦ record { at = λ w. rw e (refl, refl) }
    | inr (s, e) ↦ record { at = λ w. rw e (refl, refl) }
  ]

  pub SameRows-secret :
      (t : ℕ) (p : ProviderType) (name : Text) → Follows SameRows (secret decrypt t p name)
  unfolding secret
  SameRows-secret t p name =
      search (follows_rules, SameRows-get_named, SameRows-opened, SameRows-IsPreorder)

  pub SameRows-token_of :
      (t : ℕ) (c : Option TelegramBotConfig) → Follows SameRows (token_of decrypt t c)
  unfolding token_of
  SameRows-token_of t none = search (follows_rules, SameRows-IsPreorder)
  SameRows-token_of t (some c) = search (follows_rules, SameRows-secret)

  pub SameRows-telegram : (t : ℕ) → Follows SameRows (telegram decrypt t)
  unfolding telegram
  SameRows-telegram t =
      search (follows_rules, SameRows-get_bot_config, SameRows-token_of, SameRows-IsPreorder)

  pub SameRows-referral_provider :
      (t : ℕ) (p : ProviderType) → Follows SameRows (referral_provider decrypt t p)
  unfolding referral_provider
  SameRows-referral_provider t ProviderType.bitunix =
      search (follows_rules, SameRows-secret, SameRows-IsPreorder) depth 8
  SameRows-referral_provider t ProviderType.eplanet = search (follows_rules, SameRows-IsPreorder)
  SameRows-referral_provider t ProviderType.telegram = search (follows_rules, SameRows-IsPreorder)

  pub SameRows-check_bot : (t : ℕ) → Follows SameRows (check_bot decrypt t)
  unfolding check_bot
  SameRows-check_bot t =
      search
        (
          follows_rules, SameRows-noting, SameRows-telegram, SameRows-ask_telegram,
          SameRows-IsPreorder,
        )
        depth 8

  pub SameRows-check_referral : (t : ℕ) → Follows SameRows (check_referral decrypt t)
  unfolding check_referral
  SameRows-check_referral t = search (follows_rules, SameRows-noting, SameRows-referral_provider)
