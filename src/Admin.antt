-- ===== src/Admin.antt =====
-- app/adapters/web/routers/admin.py: the routes with which a tenant sets itself up. The tenant is the
-- one that the middleware resolved; raising rolls the session back. `updated_at` is left out of the
-- responses, as of the rows.
pub mod Schemas
pub mod Secrets
pub mod Programs
pub mod Channels
pub mod Bots
pub mod Check
pub mod Keep
pub mod Sealed
pub mod Reads
pub mod Stored
pub mod Ready
pub mod Reactivation
pub mod Route
