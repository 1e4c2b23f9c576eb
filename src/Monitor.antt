-- ===== src/Monitor.antt =====
-- app/jobs/membership_monitor.py: the periodic pass over the members of one tenant.
pub mod Report
pub mod Actions
pub mod Run
pub mod Steps
pub mod Tally
pub mod Claimed
pub mod Counted
pub mod Keep
pub mod Outage
pub mod Patience
pub mod Removal
