-- ===== src/Plan.antt =====
-- execution_plan.py
pub mod Model
pub mod Sort
pub mod Recovery
pub mod Substitute
pub mod Run
mod Tests
