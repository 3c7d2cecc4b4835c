-- ===== src/Gds/Sender.antt =====
-- The sender of events to the DMZ collector, gds/app/dmz_collector_sender.py.
pub mod Values
pub mod Redact
pub mod Redacted
pub mod Limit
pub mod Events
pub mod Published
pub mod Ticks
pub mod Ascending
pub mod Cursor
mod Tests
