-- ===== src/Agent/Packages.antt =====
-- The certificate packages that the agent takes: gds-agent/app/main.py.
pub mod Verify
pub mod RoundTrip
mod Tests
