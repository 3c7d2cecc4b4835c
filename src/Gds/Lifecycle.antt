-- ===== src/Gds/Lifecycle.antt =====
-- The issuing of certificate packages: gds/app/lifecycle.py.
pub mod Rows
pub mod Compatibility
pub mod Issue
pub mod Runs
pub mod Issued
pub mod Failed
pub mod Generations
pub mod DryRun
pub mod Dry
pub mod Fixture
mod Tests
