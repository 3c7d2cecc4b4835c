-- ===== src/Agent/Approvals.antt =====
-- Signed approvals of the agent, gds-agent/app/main.py.
pub mod Records
mod Newest
pub mod Active
pub mod Valid
pub mod Operators
mod Tests
