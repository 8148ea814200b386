-- ===== src/Sudo.antt =====
-- notmyfault/security/sudo.py: which plugins may run commands as administrator.
pub mod Session
pub mod Command
pub mod Callers
pub mod Safety
pub mod Revoked
mod Tests
