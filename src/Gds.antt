-- ===== src/Gds.antt =====
-- The certificate service in the DMZ: gds/app.
pub mod Manifest
pub mod Db
pub mod Adapters
pub mod Packages
pub mod TrustLists
pub mod Auth
pub mod Artifacts
pub mod Boundary
pub mod Revocation
pub mod Sender
pub mod Lifecycle
pub mod Facade
pub mod Vault
