-- ===== src/Gds/TrustLists.antt =====
-- The trust lists of gds/app/db.py: which certificates belong to one, and how one is published.
pub mod Query
pub mod Desired
pub mod Publish
pub mod Live
pub mod Members
pub mod Revoked
mod Tests
