-- ===== src/Predicates.antt =====
-- The predicates of a workflow, notmyfault/core/predicates.py.
mod Validate
mod Evaluate
mod Meaning
mod Same
mod Operands
mod Told
mod Tests
