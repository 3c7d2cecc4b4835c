-- ===== src/Gds/Revocation.antt =====
-- The revocation of a certificate, gds/app/main.py.
pub mod Revoke
mod Keeps
pub mod Outcome
pub mod Withdrawn
mod Tests
