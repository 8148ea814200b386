-- ===== src/Registry.antt =====
-- The registry of data types, notmyfault/core/type_registry.py.
mod Schema
mod Check
mod Marks
mod Targets
mod First
mod Rounds
mod Ends
mod Required
mod Tests
