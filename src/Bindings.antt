-- ===== src/Bindings.antt =====
-- notmyfault/core/bindings.py: the data that a rule's parameters refer to.
pub mod Value
pub mod Reference
pub mod Resolve
pub mod Available
pub mod Static
pub mod Parts
mod Dicts
pub mod Skips
pub mod Listed
pub mod Tests
