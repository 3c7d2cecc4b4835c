-- ===== src/Gds/Boundary.antt =====
-- The client certificates that the proxy in front of the service reports, gds/app/main.py.
pub mod Mtls
pub mod Trusted
mod Tests
