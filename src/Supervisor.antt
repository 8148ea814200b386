-- ===== src/Supervisor.antt =====
-- notmyfault/core/trigger_supervisor.py: the threads of the triggers.
pub mod State
pub mod Start
pub mod Stop
pub mod Registered
pub mod Live
pub mod Told
pub mod Stopped
pub mod Calls
mod Tests
