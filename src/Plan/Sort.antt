-- ===== src/Plan/Sort.antt =====
-- The two Kahn loops of execution_plan.py: what they return.
pub mod Counting
pub mod Degrees
pub mod Dependents
pub mod Invariant
pub mod Loops
pub mod Start
pub mod Checks
pub mod Validity
pub mod Batches
