-- ===== src/Agent.antt =====
-- The agent on the OT side: gds-agent/app/main.py.
pub mod Environment
pub mod Telemetry
pub mod Maintenance
pub mod Approvals
pub mod Gate
pub mod Artifacts
pub mod Packages
