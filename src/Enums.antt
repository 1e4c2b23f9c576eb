-- ===== src/Enums.antt =====
-- The domain vocabulary of app/domain/enums.py, and the comparisons that the code makes of it.
use vip_channel_management_s.Prelude.{Bool, true, false, ◌≡◌, refl, arith}

pub data Market : Type 0 where
  crypto forex : Market

pub data AccessType : Type 0 where
  referral paid trial : AccessType

pub data SubscriptionStatus : Type 0 where
  pending active expired cancelled : SubscriptionStatus

pub data MembershipStatus : Type 0 where
  pending invited active suspended expired revoked : MembershipStatus

pub data ReferralAccountStatus : Type 0 where
  unverified verified rejected : ReferralAccountStatus

pub data ComplianceState : Type 0 where
  compliant warning non_compliant suspended revoked : ComplianceState
  provider_unavailable verification_pending : ComplianceState

pub data ProviderType : Type 0 where
  bitunix eplanet telegram : ProviderType

pub data JobRunState : Type 0 where
  running succeeded failed : JobRunState

-- `==` on markets
abbrev pub eq_market : Market → Market → Bool
eq_market Market.crypto Market.crypto = true
eq_market Market.forex Market.forex = true
eq_market _ _ = false

-- `==` on provider types
abbrev pub eq_provider : ProviderType → ProviderType → Bool
eq_provider ProviderType.bitunix ProviderType.bitunix = true
eq_provider ProviderType.eplanet ProviderType.eplanet = true
eq_provider ProviderType.telegram ProviderType.telegram = true
eq_provider _ _ = false

-- `is MembershipStatus.ACTIVE`
abbrev pub is_active_status : MembershipStatus → Bool
is_active_status MembershipStatus.active = true
is_active_status _ = false

-- `is MembershipStatus.SUSPENDED`
abbrev pub is_suspended_status : MembershipStatus → Bool
is_suspended_status MembershipStatus.suspended = true
is_suspended_status _ = false

pub eq_market_refl : (m : Market) → eq_market m m ≡ true
eq_market_refl Market.crypto = refl
eq_market_refl Market.forex = refl

pub eq_market_sound : (a b : Market) → eq_market a b ≡ true → a ≡ b
eq_market_sound a b h = ground arith

pub eq_provider_sound : (a b : ProviderType) → eq_provider a b ≡ true → a ≡ b
eq_provider_sound a b h = ground arith

pub eq_provider_refl : (p : ProviderType) → eq_provider p p ≡ true
eq_provider_refl ProviderType.bitunix = refl
eq_provider_refl ProviderType.eplanet = refl
eq_provider_refl ProviderType.telegram = refl
