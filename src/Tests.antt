-- ===== src/Tests.antt =====
-- The theorems at concrete inputs.
mod Data
mod Rules
mod Flows
mod Periods
mod Requests
mod Payloads
mod Setup
mod Stores
mod Amounts
mod Payments
mod Schemas
mod Offers
