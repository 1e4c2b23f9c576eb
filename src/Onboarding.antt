-- ===== src/Onboarding.antt =====
-- app/services/referral_onboarding.py: a UID arrives, and a member gets in or is told why not.
pub mod Rows
pub mod Flow
pub mod Keep
pub mod Outcomes
pub mod Outage
pub mod Refused
