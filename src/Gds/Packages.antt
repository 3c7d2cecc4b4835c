-- ===== src/Gds/Packages.antt =====
-- The life of a certificate package, gds/app/db.py and gds/app/main.py.
pub mod Lifecycle
pub mod Order
mod Tests
