-- ===== src/React.antt =====
-- react_loop.py: `react_loop`, `_run_single_step`, `_request_turn`, `_action_from_turn`,
-- `_handle_non_json` and `_dispatch_action`; native_turns.py. A step of the loop meets a `StepWorld`:
-- what the model, the operator, the tools and the clock answer. A run on a list of them is unfinished
-- when they run out. `Setting` holds what stays the same. Traces, progress messages and snapshots are
-- left out.
pub mod State
pub mod Extract
pub mod Candidates
pub mod Parsing
pub mod Turns
pub mod Linear
pub mod Dispatch
pub mod Step
pub mod Appends
pub mod Kept
pub mod Goal
pub mod Futile
pub mod Fruitless
pub mod Tests
