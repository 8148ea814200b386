-- ===== src/Bus.antt =====
-- notmyfault/core/event_bus.py: from an event of a trigger to the runs of the rules that it completes.
pub mod Masks
pub mod Emit
pub mod Secrets
pub mod Fates
pub mod Rule
mod Tests
