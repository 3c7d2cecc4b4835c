-- ===== src/Agent/Maintenance.antt =====
-- The maintenance policy of the agent, gds-agent/app/main.py: its windows and blackouts, the policy
-- of each target, and `maintenance_window_status`. An instant is a number of seconds; a time of day
-- is a number of minutes. The texts of dates come parsed: `none` is one that does not parse.
pub mod Entries
pub mod Loading
pub mod Status
pub mod Windows
pub mod Policies
mod Tests
