-- ===== src/Agent/Maintenance/Policies.antt =====
-- What the loaded policy file holds, whatever the file says.
pub mod Loaded
pub mod Unnamed
