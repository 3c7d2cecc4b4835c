-- ===== src/Gds/Artifacts.antt =====
-- The signed artifacts of the trust lists: gds/app/artifact_signing.py, gds/app/db.py, gds/app/main.py.
pub mod Signing
pub mod Regenerate
mod Inserted
pub mod Current
mod Tests
