-- ===== src/Plan/Recovery.antt =====
-- execution_plan.py: `PlanExecutor._execute_step_with_recovery` and `_diagnose_step_failure`.
-- What the sub-agent factory, the sub-agents and the cancel event answer in the k-th round of the
-- loop is given by a function of k; what the loop does to runners and to the registry is a list of
-- events.
pub mod Rounds
pub mod Bounds
pub mod Success
use smallpieclaw.Prelude.{
  ℕ, zero, suc, ◌+◌, ◌*◌, ◌^◌, String, ◌==◌, string_eq, Bool, true, false, not, ◌||◌, Option, none,
  some, List, [], ◌∷◌, ◌++◌, if◌then◌else◌, ltb, leb,
}
use smallpieclaw.ErrorTypes
use smallpieclaw.ErrorTypes.{ErrorTypeRegistry, ErrorTypeInfo}
use smallpieclaw.Outcome.{
  Outcome, ErrorText, text, cancelled_before_execution, cancelled_during_creation, creation_failed,
  fail_outcome,
}

pub data Creation : Type 0 where
  created : Creation
  failed : String → Creation

-- One round: the cancel event at its head, the factory, the cancel event after it, what the
-- sub-agent's run was standardised to, and whether the backoff was cut short.
pub record Round : Type 0 where
  pub cancelled_before : Bool
  pub creation : Creation
  pub cancelled_after : Bool
  pub outcome : Outcome
  pub cancelled_in_backoff : Bool

-- The diagnostic sub-agent: whether the factory built it, and the text of its run or of its error.
pub record Diagnostic : Type 0 where
  pub creation : Creation
  pub result : String

-- `register_plan_step` stands for the two registrations, in `_active_runners` and in the registry.
pub data Event : Type 0 where
  create cancel close register_plan_step deregister_plan_step : Event
  register_diagnostic deregister_diagnostic : Event
  back_off : ℕ → Event

unfoldable pub skip_step : ErrorText → Outcome
unfolding fail_outcome
skip_step reason = fail_outcome reason

abbrev pub with_retries : Outcome → ℕ → Outcome
with_retries o n = record o { retry_count = some n }

-- The text and the events of `_diagnose_step_failure`; without a runner nothing is registered.
unfoldable pub diagnose : Diagnostic → String × List Event
diagnose d = elim d.creation [
  | failed exc ↦ (exc, [])
  | created ↦ (d.result, create ∷ register_diagnostic ∷ deregister_diagnostic ∷ close ∷ [])
]

-- After the loop: a diagnosis where the outcome has an error type, and the count of retries.
unfoldable pub finish : Diagnostic → Outcome → ℕ → List Event → Outcome × List Event
unfolding diagnose
finish d last retry_count events =
    if last.error_type == ""
    then (with_retries last retry_count, events)
    else let (diagnosis, more) = diagnose d in
      (record last { diagnosis = some diagnosis; retry_count = some retry_count }, events ++ more)

-- `not recoverable or info is None or retry_count >= info.max_retries`, as the policy to retry by.
unfoldable pub retry_policy : ErrorTypeRegistry → Outcome → ℕ → Option ErrorTypeInfo
retry_policy types outcome retry_count =
    if outcome.recoverable
    then elim (ErrorTypes.get types outcome.error_type) [
      | none ↦ none
      | some info ↦ if leb info.max_retries retry_count then none else some info
    ]
    else none

-- info.backoff_base * (2 ** (retry_count - 1)), at the count after its increment.
abbrev pub backoff : ErrorTypeInfo → ℕ → ℕ
backoff info retry_count = info.backoff_base * 2 ^ retry_count

abbrev pub ran : List Event
ran = create ∷ register_plan_step ∷ deregister_plan_step ∷ close ∷ []

-- How one round of the loop ends: it returns, or goes round again with one more retry.
pub data Turn : Type 0 where
  return : Outcome → List Event → Turn
  retry : List Event → Turn

module _ (types : ErrorTypeRegistry) (rounds : ℕ → Round) (d : Diagnostic) where
  -- A round whose runner was registered and run.
  unfoldable pub judge : ℕ → List Event → Turn
  unfolding finish retry_policy
  judge retry_count events =
      let round = rounds retry_count in
      let outcome = round.outcome in
      if outcome.success
      then return (if ltb 0 retry_count then with_retries outcome retry_count else outcome) events
      else elim (retry_policy types outcome retry_count) [
        | none ↦ let (last, all) = finish d outcome retry_count events in return last all
        | some info ↦
            let wait = events ++ back_off (backoff info retry_count) ∷ [] in
            if round.cancelled_in_backoff
            then return (with_retries outcome (retry_count + 1)) wait
            else retry wait
      ]

  -- The body of the `while True` loop.
  unfoldable pub turn : ℕ → List Event → Turn
  unfolding judge skip_step
  turn retry_count events =
      let round = rounds retry_count in
      if round.cancelled_before
      then return (skip_step cancelled_before_execution) events
      else elim round.creation [
        | failed exc ↦ return (fail_outcome (creation_failed exc)) events
        | created ↦
            if round.cancelled_after
            then return (skip_step cancelled_during_creation)
                (events ++ create ∷ cancel ∷ close ∷ [])
            else judge retry_count (events ++ ran)
      ]

  -- The `while True` loop; `none` means that the fuel ran out.
  unfoldable pub attempt : ℕ → ℕ → List Event → Option (Outcome × List Event)
  unfolding turn
  attempt zero retry_count events = none
  attempt (suc fuel) retry_count events = elim (turn retry_count events) [
    | return outcome all ↦ some (outcome, all)
    | retry all ↦ attempt fuel (retry_count + 1) all
  ]

-- The loop from its start, with the table of a new `PlanExecutor`: two retries at most, so three
-- rounds.
unfoldable pub execute_step_with_recovery : (ℕ → Round) → Diagnostic → Option (Outcome × List Event)
unfolding attempt ErrorTypes.defaults
execute_step_with_recovery rounds d = attempt ErrorTypes.defaults rounds d 3 0 []
