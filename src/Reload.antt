-- ===== src/Reload.antt =====
-- notmyfault/core/hot_reloader.py: reloading the rules when their file changes.
pub mod Check
pub mod Safe
pub mod Restored
mod Tests
