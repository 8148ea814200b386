-- ===== src/History.antt =====
-- notmyfault/core/run_history.py: the replay of run events into run records.
pub mod Replay
pub mod Build
pub mod Absorb
pub mod Separate
mod Tests
