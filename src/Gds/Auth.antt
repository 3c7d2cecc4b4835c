-- ===== src/Gds/Auth.antt =====
-- Who may pull from the service: gds/app/agent_auth.py and the checks of gds/app/main.py.
pub mod Policies
pub mod Store
pub mod Authorize
pub mod Grants
mod Tests
