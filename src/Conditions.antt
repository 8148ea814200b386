-- ===== src/Conditions.antt =====
-- notmyfault/core/conditions.py and notmyfault/core/condition_runtime.py: condition trees over
-- events, and the events that each rule has seen.
pub mod Tree
pub mod Evaluate
pub mod Backed
pub mod Window
pub mod Choice
pub mod Runtime
pub mod Poll
pub mod Once
pub mod Apart
mod Tests
