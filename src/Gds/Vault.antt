-- ===== src/Gds/Vault.antt =====
-- The token of the Vault's client: gds/app/vault_client.py.
pub mod Token
pub mod Ready
mod Tests
