-- ===== src/Agent/Gate.antt =====
-- `evaluate_activation_gate` of gds-agent/app/main.py.
pub mod Evaluate
pub mod Permits
mod Tests
