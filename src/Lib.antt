-- ===== src/Lib.antt =====
-- A model of a service that manages VIP Telegram channels for several tenants, and what it
-- guarantees. A member sends the identifier (UID) of an exchange account to a tenant's bot; the
-- service asks the exchange whether the account was registered through the tenant and is funded,
-- and if so issues an invite link. A periodic pass asks again, warns, removes and restores members.
--
-- Parts, and the code that each follows:
--   Enums, Eligibility, Compliance, Uid, Messages, Errors, Time
--     app/domain/*.py, app/application/exceptions.py and the data of app/application/ports: the
--     vocabulary, the referral rule `evaluate_referral`, the decision `decide_compliance`, the
--     normalisation of a UID, the templates of messages, and in `Messages.Amounts` `format_amount`.
--   Models, Tables
--     app/adapters/persistence/models, app/core/tenant_scope.py and the row policies of
--     migrations/versions: rows, unique constraints, and what a session bound to a tenant sees and
--     may write. `Tables.Interface.Table` is the interface of a scoped table.
--   World
--     what a request can read and change: `World`, and `Action`, a state and error monad. `Outside`
--     answers for Telegram and for the exchange.
--   Session, Repositories
--     app/adapters/persistence/repositories.py, and the rules for what every action keeps.
--     `Repositories.View` is the abstract store that a scoped table is for one tenant, and
--     `Repositories.Calls` any sequence of calls on both.
--   Invite, Onboarding
--     app/services/invite_service.py and app/services/referral_onboarding.py.
--   Providers, Bot, Webhook
--     app/services/provider_factory.py, app/services/bot_conversation.py and
--     app/adapters/web/routers/telegram_webhook.py, whose `parse_update` is in `Webhook.Update`.
--   Json, Decimal
--     the values that a JSON body holds, and the standard library's readings of numbers in texts.
--   Bitunix
--     app/adapters/providers/bitunix.py: `sign`, the request, and the reading of the answer.
--   Admin
--     app/adapters/web/routers/admin.py with its schemas, and `encrypt_secret` and `last_four` of
--     app/core/crypto.py: one module for each group of routes.
--   Web
--     app/adapters/web/middlewares/tenant_context.py and app/adapters/web/dependencies.py: a request
--     from its header to the commit of its session. `Web.Handler` is
--     app/adapters/web/middlewares/error_handler.py.
--   Payments
--     app/services/payment_service.py, app/schemas/payment.py, app/adapters/web/routers/webhooks.py.
--   Migrations
--     migrations/versions: the statements of the five revisions, and what they do to a schema.
--   Telegram
--     app/application/ports/telegram_provider.py, app/adapters/providers/telegram.py, and in
--     `Telegram.Mock` app/adapters/providers/telegram_mock.py and app/adapters/providers/mock.py.
--   PeriodLock, Monitor, Transactions, Sweep
--     app/jobs/period_lock.py, app/jobs/membership_monitor.py and app/jobs/scheduler.py.
--   Prelude holds shared helpers, Tests the theorems at concrete inputs.
--
-- How they interact: the webhook binds a session to the tenant of its token and runs the bot, the
-- bot runs the onboarding, the onboarding applies the referral rule and asks the invite service;
-- the sweep runs the monitor for each tenant, which claims the period, applies the referral rule
-- and the compliance decision, and writes. The admin routes store what all of these read. All of
-- them write through the same tables.
--
-- Choices and bounds. A moment is a count of microseconds since 1970 UTC, a naive datetime is read
-- as UTC, the clock stands still during a request, and the overflow of datetime after the year 9999
-- is left out. An amount is an integer count of 10⁻⁸ dollars, the scale of the columns. A text is
-- its list of code points. An identifier is a number, and `next_id` hands out new ones. The
-- database is PostgreSQL with its row policies; rows are listed in the order of insertion. A change
-- of an attribute is written where it happens; a rollback restores the database of the
-- transaction's start. Telegram and the exchange are functions of all calls so far, so that their
-- answers may change from call to call; a service that cannot be reached is an error, and an
-- answer of another shape may be another one. A rejection
-- or revocation reason is the reason of the rule instead of its text. Every loop runs over a list,
-- but `digits`, which has a round for each unit of its number and needs one for each digit. The
-- boundary of a period is for periods of whole seconds and moments up to the year 2242, where the
-- floats of the source are exact enough. The length of a text column is left out, and an identifier
-- of one table is compared within a tenant.
--
-- A JSON number that is not an integer is the text that `str` gives of it. A deposit is an
-- exact decimal number; the sum of the deposits is cut to 10⁻⁸ dollars where the rules take it, the
-- rounding of a sum to 28 digits is left out, and a sum with Infinity or NaN counts as an error. The HTTP clients,
-- SHA-1, the cipher and the random token of a webhook route are parameters; a bot of Telegram has a
-- user name.
--
-- Not modelled: the wording and layout of messages, logging and configuration, what the migrations do
-- to the rows of a table, foreign keys and CHECK constraints.
pub mod Prelude
pub mod Enums
pub mod Time
pub mod Eligibility
pub mod Compliance
pub mod Uid
pub mod Messages
pub mod Errors
pub mod World
pub mod Tables
pub mod Session
pub mod Repositories
pub mod Invite
pub mod Onboarding
pub mod PeriodLock
pub mod Monitor
pub mod Providers
pub mod Bot
pub mod Transactions
pub mod Sweep
pub mod Webhook
pub mod Payments
pub mod Migrations
pub mod Models
pub mod Decimal
pub mod Json
pub mod Bitunix
pub mod Admin
pub mod Web
pub mod Telegram
mod Tests
