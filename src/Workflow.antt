-- ===== src/Workflow.antt =====
-- notmyfault/core/workflow_executor.py: the execution of a run's actions.
pub mod Plan
pub mod State
pub mod Attempts
pub mod Action
pub mod Sequence
pub mod Run
pub mod Rule
pub mod ActionRule
pub mod Good
pub mod Open
pub mod Escape
pub mod Ends
pub mod Bounds
mod Tests
