-- ===== src/Plan/Run/Promises.antt =====
-- What `PlanExecutor.execute` returns for a plan, whatever its threads and clocks do.
use smallpieclaw.Prelude.{
  String, string_eq, ◌≡◌, ◌↔◌, ◌⊎◌, refl, sym, ap, ◌∙◌, true, false, List, [], ◌∷◌, arith, all, All,
  contains, distinct, Bool-cases, inl, inr, nat_eq,
}
use smallpieclaw.Dict
use smallpieclaw.Dict.{Dict}
use smallpieclaw.Outcome.{Outcome}
use smallpieclaw.Plan.Model.{
  PlanStep, ExecutionPlan, PlanError, Result, ok, err, ids, step_of, validate_plan,
}
use smallpieclaw.Plan.Sort.Degrees.{deps_of}
use smallpieclaw.Plan.Sort.Validity.{validate_plan_iff}
use smallpieclaw.Plan.Sort.Batches.{
  IsStepOf, IsSchedule, step_of-In, step_of-out, topological_sort-IsSchedule,
}
use smallpieclaw.Plan.Substitute.{Text, Fields}
use smallpieclaw.Plan.Run.{
  succeeded, process_batches, Summary, build_summary, PlanWorld, fresh, execute_batches, execute,
  unstarted, is_empty, ErrorLine,
}
use smallpieclaw.Plan.Run.Dependencies.{In, Sound, All-map}
use smallpieclaw.Plan.Run.Batches.{Linked, process_batches-Sound}
use smallpieclaw.Plan.Run.Results.{fill-Sound, fill-has}

deps_of-step_of :
    (steps : List (PlanStep Fields)) (sid : String) (step : PlanStep Fields)
    → distinct (ids steps) ≡ true
    → step_of steps sid ≡ step ∷ []
    → deps_of steps sid ≡ step.depends_on
unfolding deps_of step_of distinct
deps_of-step_of [] sid step u h = absurd (ground arith)
deps_of-step_of (first ∷ steps) sid step u h = elim (Bool-cases (contains (ids steps) sid)) [
  | inl later ↦
      let (found, e, same) = step_of-In steps sid later in
      ground (arith, deps_of-step_of steps sid step, e, string_eq.beq_iff first.id sid)
  | inr last ↦ ground (arith, step_of-out steps sid last)
]

IsStepOf→Linked :
    (steps : List (PlanStep Fields)) (batches : List (List (PlanStep Fields)))
    → distinct (ids steps) ≡ true
    → All (All (IsStepOf steps)) batches
    → All (Linked (deps_of steps)) batches
IsStepOf→Linked steps batches u own =
    All-map batches
      (λ batch owned.
        All-map batch (λ step e d dep. rw (sym (deps_of-step_of steps step.id step u e)) dep) owned)
      own

nil-succeeded :
    (results : Dict String Outcome) (k : String) → results ≡ [] → succeeded results k ≡ false
unfolding succeeded Dict.get
nil-succeeded results k h = ground (arith, h)

same_err :
    (A B : Type 0) (e f : PlanError)
    → Path (Result A) (err e) (err f)
    → Path (Result B) (err e) (err f)
same_err A B e f h = cc h

all-succeeded :
    (results : Dict String Outcome) (k : String)
    → all (λ o. o.success) (Dict.values results) ≡ true
    → Dict.has results k ≡ true
    → succeeded results k ≡ true
unfolding succeeded all Dict.has Dict.get
all-succeeded [] k h there = absurd (ground arith)
all-succeeded ((j, o) ∷ results) k h there = ground (arith, all-succeeded results k)

is_empty→nil : (xs : List ErrorLine) → is_empty xs ≡ true → xs ≡ []
is_empty→nil [] h = refl
is_empty→nil (x ∷ xs) h = absurd (ground arith)

-- How `execute` goes when there is a factory.
data Course (dumps : Outcome → Text) (world : PlanWorld) (plan : ExecutionPlan Fields)
    : Type 0 where
  refused :
      (e : PlanError)
      → validate_plan plan ≡ err e
      → execute dumps world plan ≡ err e
      → Course dumps world plan
  performed :
      (batches : List (List (PlanStep Fields)))
      → validate_plan plan ≡ ok tt
      → IsSchedule plan.steps batches
      → execute dumps world plan ≡ ok (execute_batches dumps world plan batches)
      → Course dumps world plan

Result-cases :
    {A : Type 0} (r : Result A) → ((e : PlanError) × (r ≡ err e)) ⊎ ((a : A) × (r ≡ ok a))
Result-cases (err e) = inl (e, refl)
Result-cases (ok a) = inr (a, refl)

module _ (dumps : Outcome → Text) (world : PlanWorld) (plan : ExecutionPlan Fields) where
  course : world.factory ≡ true → Course dumps world plan
  unfolding execute
  course factory = elim (Result-cases (validate_plan plan)) [
    | inl (e, refusal) ↦ refused e refusal (rw (factory, refusal) refl)
    | inr (_, accepted) ↦
        let (batches, sorted, schedule) = topological_sort-IsSchedule plan accepted in
        performed batches accepted schedule (rw (factory, sorted, accepted) refl)
  ]

  -- With a factory, `execute` raises an error exactly when `validate_plan` raises it: the sort and
  -- the check at its end raise none of their own.
  pub execute-err :
      (e : PlanError)
      → world.factory ≡ true
      → (execute dumps world plan ≡ err e) ↔ (validate_plan plan ≡ err e)
  execute-err e factory = elim (course factory) [
    | refused _ refusal result ↦ (
      λ h. rw refusal (same_err _ _ _ _ (sym result ∙ h)),
      λ h. rw result (same_err _ _ _ _ (sym refusal ∙ h)),
    )
    | performed _ accepted _ result ↦
        rw (accepted, result) (λ h. absurd (ground arith), λ h. absurd (ground arith))
  ]

  execute_batches-Sound :
      (batches : List (List (PlanStep Fields)))
      → distinct (ids plan.steps) ≡ true
      → IsSchedule plan.steps batches
      → Sound (deps_of plan.steps) (execute_batches dumps world plan batches).results
  unfolding execute_batches build_summary
  execute_batches-Sound batches u schedule =
      fill-Sound (deps_of plan.steps) world.cancelled_by_parent plan.steps _ (
        process_batches-Sound dumps world.batches plan.timeout (deps_of plan.steps) 0 batches fresh
          schedule.once (IsStepOf→Linked plan.steps batches u schedule.own)
          (record { sound = λ s d h dep. h; pending = λ k m. refl }))

  execute_batches-has :
      (batches : List (List (PlanStep Fields))) (k : String)
      → In (ids plan.steps) k
      → Dict.has (execute_batches dumps world plan batches).results k ≡ true
  unfolding execute_batches build_summary
  execute_batches-has batches k m =
      let run = process_batches dumps world.batches plan.timeout 0 batches fresh in
      ground (arith, fill-has world.cancelled_by_parent plan.steps run k)

  execute_batches-success :
      (batches : List (List (PlanStep Fields)))
      → (execute_batches dumps world plan batches).success ≡ true
      → ((execute_batches dumps world plan batches).errors ≡ [])
        × all (λ o. o.success) (Dict.values (execute_batches dumps world plan batches).results)
          ≡ true
  unfolding execute_batches build_summary
  execute_batches-success batches h = (is_empty→nil _ (ground arith), ground arith)

  -- A summary without a factory, or the one of the batches.
  ok_course :
      (summary : Summary)
      → execute dumps world plan ≡ ok summary
      → (summary ≡ unstarted)
        ⊎ ((batches : List (List (PlanStep Fields))) × (validate_plan plan ≡ ok tt)
            × IsSchedule plan.steps batches
            × (summary ≡ execute_batches dumps world plan batches))
  unfolding execute
  ok_course summary h = elim (Bool-cases world.factory) [
    | inl factory ↦ elim (course factory) [
      | refused e _ result ↦ absurd (ground (arith, h, result))
      | performed batches accepted schedule result ↦
          inr (batches, accepted, schedule, cc (h, result))
    ]
    | inr without ↦
        let idle : execute dumps world plan ≡ ok unstarted = rw without refl in inl (cc (h, idle))
  ]

  -- When a step's result in the summary of `execute` is a success, the results of all steps that it
  -- depends on are successes too, however the batches were cancelled, timed out or interleaved.
  pub execute-dependencies :
      (summary : Summary) (s d : String)
      → execute dumps world plan ≡ ok summary
      → succeeded summary.results s ≡ true
      → In (deps_of plan.steps s) d
      → succeeded summary.results d ≡ true
  execute-dependencies summary s d h done dep = elim (ok_course summary h) [
    | inl idle ↦
        absurd (ground (arith, done, nil-succeeded summary.results s (ap (λ x. x.results) idle)))
    | inr (batches, accepted, schedule, same) ↦ rw same (
        execute_batches-Sound batches ((validate_plan_iff plan).0 accepted).apart schedule s d
          (rw (sym same) done) dep)
  ]

  -- With a factory, a valid plan gets a summary, and the summary has a result for every step.
  pub execute-covers :
      world.factory ≡ true
      → validate_plan plan ≡ ok tt
      → (summary : Summary) × (execute dumps world plan ≡ ok summary)
        × ((k : String) → In (ids plan.steps) k → Dict.has summary.results k ≡ true)
  execute-covers factory valid = elim (course factory) [
    | refused e refusal _ ↦ absurd (ground (arith, refusal, valid))
    | performed batches _ _ result ↦ (_, result, execute_batches-has batches)
  ]

  -- A summary that says `success` has no error line, and every step of the plan succeeded.
  execute-success :
      (summary : Summary)
      → execute dumps world plan ≡ ok summary
      → summary.success ≡ true
      → (summary.errors ≡ [])
        × ((k : String) → In (ids plan.steps) k → succeeded summary.results k ≡ true)
  execute-success summary h s = elim (ok_course summary h) [
    | inl idle ↦ absurd (ground (arith, idle, s))
    | inr (batches, _, _, same) ↦
        let (no_errors, succeeds) = execute_batches-success batches (rw (sym same) s) in
        rw same (no_errors, λ k m. all-succeeded _ k succeeds (execute_batches-has batches k m))
  ]
