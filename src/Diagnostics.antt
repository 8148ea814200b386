-- ===== src/Diagnostics.antt =====
-- The diagnostics, notmyfault/core/diagnostics.py.
mod State
mod Newest
mod Log
mod Tests
