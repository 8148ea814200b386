-- ===== src/Scheduler.antt =====
-- notmyfault/core/rule_scheduler.py: admission, queueing and replacement of the runs of a rule.
pub mod Config
pub mod State
pub mod Dispatch
pub mod Submit
pub mod Operations
pub mod Rule
pub mod Pending
pub mod Fuel
pub mod Steps
pub mod Total
pub mod Frame
pub mod Calls
pub mod Bounds
pub mod Balance
pub mod Members
pub mod Limit
pub mod Closed
pub mod Traces
pub mod Kept
pub mod NoneLost
pub mod Submitted
mod Tests
