-- ===== src/Plan/Tests.antt =====
-- A small plan, run on concrete inputs.
use smallpieclaw.Prelude.{
  ℕ, String, ◌==◌, string_eq, nat_eq, list_beq, ◌≡◌, ◌↔◌, refl, true, false, none, some, List, [],
  ◌∷◌, ◌≤◌, if◌then◌else◌, contains,
}
use smallpieclaw.Prelude.Int.{pos, negsuc}
use smallpieclaw.Dict
use smallpieclaw.ErrorTypes
use smallpieclaw.Outcome.{Outcome, text}
use smallpieclaw.Plan.Model.{
  PlanStep, ExecutionPlan, ok, err, circular_dependency, validate_plan, topological_sort,
}
use smallpieclaw.Plan.Sort.Degrees.{deps_of}
use smallpieclaw.Plan.Sort.Validity.{IsValid, validate_plan_iff}
use smallpieclaw.Plan.Sort.Batches.{IsSchedule, topological_sort-IsSchedule}
use smallpieclaw.Plan.Substitute.{Text, codes, Fields, end, substitute_text}
use smallpieclaw.Plan.Recovery.{
  Round, Diagnostic, created, failed, create, close, register_plan_step, deregister_plan_step,
  back_off, execute_step_with_recovery,
}
use smallpieclaw.Plan.Recovery.Rounds.{weigh}
use smallpieclaw.Plan.Recovery.Bounds.{
  creates, closes, registers, deregisters, step_runs, seconds,
  execute_step_with_recovery-IsContained,
}
use smallpieclaw.Plan.Recovery.Success.{After, Failed, execute_step_with_recovery-success}
use smallpieclaw.Plan.Run.{completed, raised, PlanWorld, Summary, succeeded, execute}
use smallpieclaw.Plan.Run.Promises.{execute-err, execute-dependencies, execute-covers}

abbrev step : String → List String → PlanStep Fields
step id deps = record { id = id; tool = "t"; args = end; depends_on = deps; description = "" }

abbrev plan_of : List (PlanStep Fields) → ExecutionPlan Fields
plan_of steps = record { description = "demo"; steps = steps; timeout = pos 60 }

-- "c" needs "b", "b" needs "a"; "d" stands alone.
abbrev chain : ExecutionPlan Fields
chain = plan_of (step "c" ("b" ∷ []) ∷ step "b" ("a" ∷ []) ∷ step "a" [] ∷ step "d" [] ∷ [])

abbrev cycle : ExecutionPlan Fields
cycle = plan_of (step "a" ("b" ∷ []) ∷ step "b" ("a" ∷ []) ∷ [])

abbrev done : Outcome
done = record {
  success = true;
  output = "ok";
  error = text "";
  exit_code = pos 0;
  error_type = "";
  recoverable = false;
  suggestion = "";
  diagnosis = none;
  retry_count = none;
}

abbrev timed_out : Outcome
timed_out = record done {
  success = false;
  error = text "slow";
  exit_code = negsuc 0;
  error_type = "tool_timeout";
  recoverable = true;
}

abbrev dumps : Outcome → Text
dumps o = codes o.output

-- A world where nothing is cancelled; the steps of `bad` raise, the others succeed.
abbrev calm : List String → PlanWorld
calm bad = record {
  factory = true;
  batches = λ i. record {
    cancelled_at_start = false;
    past_deadline = false;
    submitted = 10;
    fate = λ s. if contains bad s.id then raised "boom" else completed done;
    timed_out = false;
    cancelled_by_parent = false;
    cancelled_at_end = false;
  };
  cancelled_by_parent = false;
  cancelled_late = false;
}

chain-valid : validate_plan chain ≡ ok tt
unfolding validate_plan
chain-valid = refl

cycle-circular : validate_plan cycle ≡ err circular_dependency
unfolding validate_plan
cycle-circular = refl

chain-batches :
    topological_sort chain
    ≡ ok (
        (step "a" [] ∷ step "d" [] ∷ [])
        ∷ (step "b" ("a" ∷ []) ∷ [])
        ∷ (step "c" ("b" ∷ []) ∷ [])
        ∷ [])
unfolding topological_sort
chain-batches = refl

-- `substitute_results` has nothing to put in, so all of the chain runs.
abbrev summary_of : List String → Summary
unfolding execute
summary_of bad = elim (execute dumps (calm bad) chain) [
  | ok s ↦ s
  | err e ↦ record { success = false; results = []; errors = [] }
]

calm-success : (summary_of []).success ≡ true
unfolding summary_of
calm-success = refl

-- When "b" raises, "c" is skipped; "a" and "d" have succeeded.
bad-results : Dict.keys (summary_of ("b" ∷ [])).results ≡ "a" ∷ "d" ∷ "b" ∷ "c" ∷ []
unfolding summary_of
bad-results = refl

execute-dependencies_example : succeeded (summary_of []).results "b" ≡ true
unfolding execute deps_of summary_of
execute-dependencies_example =
    execute-dependencies dumps (calm []) chain (summary_of []) "c" "b" refl refl refl

execute-covers_example :
    (summary : Summary) × (execute dumps (calm ("a" ∷ [])) chain ≡ ok summary)
    × ((k : String)
        → contains ("c" ∷ "b" ∷ "a" ∷ "d" ∷ []) k ≡ true
        → Dict.has summary.results k ≡ true)
execute-covers_example = execute-covers dumps (calm ("a" ∷ [])) chain refl chain-valid

execute-err_example :
    (execute dumps (calm []) cycle ≡ err circular_dependency)
    ↔ (validate_plan cycle ≡ err circular_dependency)
execute-err_example = execute-err dumps (calm []) cycle circular_dependency refl

validate_plan_iff_example : (validate_plan chain ≡ ok tt) ↔ IsValid chain.steps
validate_plan_iff_example = validate_plan_iff chain

topological_sort-IsSchedule_example :
    (batches : List (List (PlanStep Fields))) × (topological_sort chain ≡ ok batches)
    × IsSchedule chain.steps batches
topological_sort-IsSchedule_example = topological_sort-IsSchedule chain chain-valid

-- The first round times out and is retried, the second succeeds.
abbrev rounds : ℕ → Round
rounds k = record {
  cancelled_before = false;
  creation = created;
  cancelled_after = false;
  outcome = if k == 0 then timed_out else done;
  cancelled_in_backoff = false;
}

abbrev no_diagnosis : Diagnostic
no_diagnosis = record { creation = failed "none"; result = "" }

execute_step_with_recovery-IsContained_example :
    (o : Outcome) × (events : List _) × (execute_step_with_recovery rounds no_diagnosis
      ≡ some (o, events))
    × (weigh creates events ≡ weigh closes events)
    × (weigh registers events ≡ weigh deregisters events)
    × (weigh step_runs events ≤ 3)
    × (weigh seconds events ≤ 6)
execute_step_with_recovery-IsContained_example =
    execute_step_with_recovery-IsContained rounds no_diagnosis

abbrev retried : Outcome
retried = record done { retry_count = some 1 }

execute_step_with_recovery-success_example :
    (k : ℕ) × ((rounds k).outcome.success ≡ true) × (retried ≡ After rounds k) × Failed rounds k
unfolding execute_step_with_recovery ErrorTypes.get
execute_step_with_recovery-success_example =
    execute_step_with_recovery-success rounds no_diagnosis retried
      (create
        ∷ register_plan_step
        ∷ deregister_plan_step
        ∷ close
        ∷ back_off 2
        ∷ create
        ∷ register_plan_step
        ∷ deregister_plan_step
        ∷ close
        ∷ [])
      refl refl

abbrev known : Dict.Dict String Outcome
known = ("a", done) ∷ []

substituted : substitute_text dumps known 0 (codes "see {{a}}!") ≡ codes "see ok!"
unfolding substitute_text list_beq
substituted = refl
