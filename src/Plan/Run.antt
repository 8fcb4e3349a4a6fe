-- ===== src/Plan/Run.antt =====
-- execution_plan.py: `PlanExecutor._process_batches` with the methods that it calls,
-- `_build_summary` and `execute`. Threads, clocks and the parent's cancellation answer through a
-- `BatchWorld` for each batch. Python iterates over sets of futures in no fixed order; the model
-- takes the order of submission.
pub mod Dependencies
pub mod Batches
pub mod Results
pub mod Promises
use smallpieclaw.Prelude.{
  ℕ, ◌+◌, String, ◌==◌, string_eq, nat_eq, Bool, true, false, not, ◌&&◌, ◌||◌, Option, none, some,
  List, [], ◌∷◌, ◌++◌, if◌then◌else◌, ltb, length, take, all, any,
}
use smallpieclaw.Prelude.Int.{ℤ}
use smallpieclaw.Dict
use smallpieclaw.Dict.{Dict}
use smallpieclaw.Outcome.{
  Outcome, ErrorText, terminated_before_step, dependency_did_not_succeed, execution_error,
  cancelled_in_grace, timed_out_in_grace, cancelled_running, timed_out_running,
  cancelled_before_step, fail_outcome,
}
use smallpieclaw.Plan.Model.{
  PlanStep, ExecutionPlan, Result, ok, ◌>>=◌, ◌>>◌, validate_plan, topological_sort,
}
use smallpieclaw.Plan.Substitute.{Text, Fields, substitute_results}

-- The lines of the error list, by what they name.
pub data ErrorLine : Type 0 where
  no_factory : ErrorLine
  plan_timeout : ℤ → ErrorLine
  step_skipped : (step dep : String) → ErrorLine
  step_cancelled_in_grace step_timed_out_in_grace : String → ErrorLine
  step_cancelled step_timed_out step_not_started : String → ErrorLine
  step_diagnosis : (step diagnosis : String) → ErrorLine
  step_failed : String → ErrorText → (retries : ℕ) → ErrorLine

-- The outcome's `success` under an id, as `results.get(dep, {}).get("success", False)`.
unfoldable pub succeeded : Dict String Outcome → String → Bool
unfolding Dict.get
succeeded results dep = elim (Dict.get results dep) [ none ↦ false | some o ↦ o.success ]

-- `_dependencies_satisfied`
unfoldable pub dependencies_satisfied : List String → Dict String Outcome → Bool
unfolding all succeeded
dependencies_satisfied deps results = all (succeeded results) deps

-- The first dependency that did not succeed; the code asks only when there is one.
unfoldable pub failed_dep : List String → Dict String Outcome → String
unfolding succeeded
failed_dep [] results = ""
failed_dep (dep ∷ deps) results =
    let rest = failed_dep deps results in if succeeded results dep then rest else dep

-- How a submitted step stands when the batch is over.
pub data Fate : Type 0 where
  completed : Outcome → Fate
  raised : String → Fate
  in_grace still_running : Fate

-- One `cancelled_by_parent` stands for the flag that the source reads for each future again; only
-- texts depend on it.
pub record BatchWorld : Type 0 where
  -- the bridge had set the cancel event before the batch, or the deadline had passed
  pub cancelled_at_start : Bool
  pub past_deadline : Bool
  -- how many steps were submitted before the event or the deadline stopped `_run_batch`
  pub submitted : ℕ
  pub fate : PlanStep Fields → Fate
  -- the deadline passed while `_drain_pending` waited
  pub timed_out : Bool
  pub cancelled_by_parent : Bool
  -- the bridge had set the event by the end of the batch
  pub cancelled_at_end : Bool

pub record Run : Type 0 where
  pub results : Dict String Outcome
  pub errors : List ErrorLine
  pub cancelled : Bool
  -- the steps given to the pool, in order
  pub started : List (PlanStep Fields)

abbrev timeout_outcome : ErrorText → Outcome
timeout_outcome error = record (fail_outcome error) {
  error_type = "tool_timeout";
  recoverable = true;
  suggestion = "Retry the plan with a longer timeout.";
}

unfoldable pub classify_incomplete : String → Bool → Bool → Outcome × ErrorLine
unfolding fail_outcome
classify_incomplete sid by_parent true =
    if by_parent
    then (fail_outcome cancelled_in_grace, step_cancelled_in_grace sid)
    else (timeout_outcome timed_out_in_grace, step_timed_out_in_grace sid)
classify_incomplete sid by_parent false =
    if by_parent
    then (fail_outcome cancelled_running, step_cancelled sid)
    else (timeout_outcome timed_out_running, step_timed_out sid)

-- `if diagnosis:` is false at the empty text too.
unfoldable pub diagnosis_lines : String → Option String → List ErrorLine
diagnosis_lines sid none = []
diagnosis_lines sid (some d) = if d == "" then [] else step_diagnosis sid d ∷ []

abbrev retries_of : Option ℕ → ℕ
retries_of none = 0
retries_of (some n) = n

-- The lines that `_record_step_outcome` appends.
unfoldable pub outcome_lines : String → Outcome → List ErrorLine
unfolding diagnosis_lines
outcome_lines sid o =
    diagnosis_lines sid o.diagnosis
    ++ (if o.success then [] else step_failed sid o.error (retries_of o.retry_count) ∷ [])

-- results[sid] = outcome, with the lines that go with it.
unfoldable pub write : String → Outcome → List ErrorLine → Run → Run
unfolding Dict.put
write sid o lines run = record run {
  results = Dict.put run.results sid o;
  errors = run.errors ++ lines;
}

module _ (dumps : Outcome → Text) where
  -- The first loop over a batch: steps with a failed dependency are skipped, the others are ready,
  -- with the results put into their arguments.
  unfoldable pub admit : List (PlanStep Fields) → Run → Run × List (PlanStep Fields)
  unfolding dependencies_satisfied failed_dep write fail_outcome substitute_results
  admit [] run = (run, [])
  admit (step ∷ batch) run =
      let dep = failed_dep step.depends_on run.results in
      let skipped =
        write step.id (fail_outcome (dependency_did_not_succeed dep))
          (step_skipped step.id dep ∷ []) run in
      let ready = dependencies_satisfied step.depends_on run.results in
      let (run', steps) = admit batch (if ready then run else skipped) in
      (run', if ready then substitute_results dumps run.results step ∷ steps else steps)

-- One future of `done2` (`in_time`) or of `pending_futures`; the others are left for their own loop.
unfoldable pub settle_late : Fate → (by_parent in_time : Bool) → String → Run → Run
unfolding classify_incomplete write
settle_late fate by_parent in_time sid run =
    let (o, line) = classify_incomplete sid by_parent in_time in
    let settled = write sid o (line ∷ []) run in
    elim fate [
      | in_grace ↦ if in_time then settled else run
      | still_running ↦ if in_time then run else settled
      | completed _ ↦ run
      | raised _ ↦ run
    ]

unfoldable pub settle_incomplete :
    (PlanStep Fields → Fate) → (by_parent in_time : Bool) → List (PlanStep Fields) → Run → Run
unfolding settle_late
settle_incomplete fate by_parent in_time [] run = run
settle_incomplete fate by_parent in_time (step ∷ steps) run =
    settle_incomplete fate by_parent in_time steps
      (settle_late (fate step) by_parent in_time step.id run)

-- One future of `done_futures`.
unfoldable pub settle_one : Fate → String → Run → Run
unfolding outcome_lines write fail_outcome
settle_one fate sid run = elim fate [
  | completed o ↦ write sid o (outcome_lines sid o) run
  | raised exc ↦ let o = fail_outcome (execution_error exc) in write sid o (outcome_lines sid o) run
  | in_grace ↦ run
  | still_running ↦ run
]

unfoldable pub settle_done : (PlanStep Fields → Fate) → List (PlanStep Fields) → Run → Run
unfolding settle_one
settle_done fate [] run = run
settle_done fate (step ∷ steps) run = settle_done fate steps (settle_one (fate step) step.id run)

-- When the cancel event is set before `_drain_pending`, its loop takes no future as done: what has
-- finished is found in the grace period.
unfoldable pub drained_fate : Bool → Fate → Fate
drained_fate stopped (completed o) = if stopped then in_grace else completed o
drained_fate stopped (raised exc) = if stopped then in_grace else raised exc
drained_fate stopped in_grace = in_grace
drained_fate stopped still_running = still_running

unfoldable pub is_pending : Fate → Bool
is_pending in_grace = true
is_pending still_running = true
is_pending (completed _) = false
is_pending (raised _) = false

-- `_run_batch`, `_drain_pending` and the settling of the futures.
unfoldable pub run_ready : BatchWorld → ℤ → List (PlanStep Fields) → Run → Run
unfolding drained_fate is_pending any settle_incomplete settle_done
run_ready w timeout ready run =
    let steps = take w.submitted ready in
    let stopped = ltb (length steps) (length ready) in
    let fate = λ (step : PlanStep Fields). drained_fate stopped (w.fate step) in
    let pending = any (λ step. is_pending (fate step)) steps in
    let expired = pending && w.timed_out && not stopped in
    let drained = record run {
      errors = run.errors ++ (if expired then plan_timeout timeout ∷ [] else []);
      cancelled = run.cancelled || stopped || pending || w.cancelled_at_end;
      started = run.started ++ steps;
    } in
    let graced = settle_incomplete fate w.cancelled_by_parent true steps drained in
    settle_done fate steps (settle_incomplete fate w.cancelled_by_parent false steps graced)

module _ (dumps : Outcome → Text) (timeout : ℤ) where
  -- One batch that is neither cancelled nor late; with no ready step nothing is run.
  unfoldable pub run_batch : BatchWorld → List (PlanStep Fields) → Run → Run
  unfolding admit run_ready
  run_batch w batch run =
      let (run', ready) = admit dumps batch run in
      elim ready [ [] ↦ run' | step ∷ steps ↦ run_ready w timeout (step ∷ steps) run' ]

module _ (dumps : Outcome → Text) (worlds : ℕ → BatchWorld) (timeout : ℤ) where
  unfoldable pub process_batches : ℕ → List (List (PlanStep Fields)) → Run → Run
  unfolding run_batch
  process_batches i [] run = run
  process_batches i (batch ∷ batches) run =
      let w = worlds i in
      let late = record run {
        cancelled = true;
        errors = run.errors ++ plan_timeout timeout ∷ [];
      } in
      if run.cancelled || w.cancelled_at_start
      then record run { cancelled = true }
      else if w.past_deadline
      then late
      else process_batches (i + 1) batches (run_batch dumps timeout w batch run)

-- A step that has no result yet is cancelled or skipped.
unfoldable pub fill_one : Bool → String → Run → Run
unfolding write fail_outcome Dict.has
fill_one by_parent sid run =
    if Dict.has run.results sid
    then run
    else if by_parent
    then write sid (fail_outcome cancelled_before_step) (step_not_started sid ∷ []) run
    else write sid (fail_outcome terminated_before_step) [] run

unfoldable pub fill : Bool → List (PlanStep Fields) → Run → Run
unfolding fill_one
fill by_parent [] run = run
fill by_parent (step ∷ steps) run = fill by_parent steps (fill_one by_parent step.id run)

pub record Summary : Type 0 where
  pub success : Bool
  pub results : Dict String Outcome
  pub errors : List ErrorLine

abbrev pub is_empty {ℓ} : {A : Type ℓ} → List A → Bool
is_empty [] = true
is_empty (x ∷ xs) = false

-- `elapsed_seconds` is left out: it is for display.
unfoldable pub build_summary : List (PlanStep Fields) → (by_parent cancelled : Bool) → Run → Summary
unfolding fill all
build_summary steps by_parent cancelled run =
    let filled = fill by_parent steps run in
    record {
      success =
          is_empty filled.errors
          && not cancelled
          && all (λ o. o.success) (Dict.values filled.results)
          && length filled.results == length steps;
      results = filled.results;
      errors = filled.errors;
    }

-- What `execute` finds outside: whether there is a sub-agent factory, each batch's world, whether
-- the parent cancelled the plan, and whether the bridge set the event behind the last batch.
pub record PlanWorld : Type 0 where
  pub factory : Bool
  pub batches : ℕ → BatchWorld
  pub cancelled_by_parent : Bool
  pub cancelled_late : Bool

abbrev pub fresh : Run
fresh = record { results = []; errors = []; cancelled = false; started = [] }

-- The answer when there is no factory.
abbrev pub unstarted : Summary
unstarted = record { success = false; results = []; errors = no_factory ∷ [] }

-- The batches and the summary, behind the validation.
unfoldable pub execute_batches :
    (Outcome → Text) → PlanWorld → ExecutionPlan Fields → List (List (PlanStep Fields)) → Summary
unfolding process_batches build_summary
execute_batches dumps world plan batches =
    let run = process_batches dumps world.batches plan.timeout 0 batches fresh in
    build_summary plan.steps world.cancelled_by_parent (run.cancelled || world.cancelled_late) run

unfoldable pub execute : (Outcome → Text) → PlanWorld → ExecutionPlan Fields → Result Summary
unfolding validate_plan topological_sort execute_batches
execute dumps world plan =
    if world.factory
    then (validate_plan plan
        >> (topological_sort plan >>= λ batches. ok (execute_batches dumps world plan batches)))
    else ok unstarted
