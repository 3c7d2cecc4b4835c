-- ===== src/Agent/Artifacts.antt =====
-- What the agent checks of a signed trust list before it uses it, gds-agent/app/main.py.
pub mod Verify
pub mod Authentic
mod Tests
