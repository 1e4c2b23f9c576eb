-- ===== src/Session.antt =====
-- What every piece of the program keeps: relations between worlds, and a rule for each way to build
-- an action.
pub mod Follows
pub mod Defs
pub mod Rules
