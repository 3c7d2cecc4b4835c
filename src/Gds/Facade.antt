-- ===== src/Gds/Facade.antt =====
-- The OPC UA facade of the service: gds/app/opcua_boundary_adapter.py.
pub mod Limits
pub mod Bounded
pub mod Operations
pub mod Unsigned
mod Tests
