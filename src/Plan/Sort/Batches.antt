-- ===== src/Plan/Sort/Batches.antt =====
-- The batches of `topological_sort` of execution_plan.py.
use smallpieclaw.Prelude.{
  String, ==_self, ◌≡◌, refl, ap, ◌∙◌, true, false, some, List, [], ◌∷◌, map, arith, contains,
  contains-append, distinct, length, length-append, length-map, string_eq, Bool-cases, inl, inr,
  All, nat_beq_iff,
}
use smallpieclaw.Plan.Model.{
  PlanStep, ExecutionPlan, ok, ids, total, step_of, batch_of, check_sorted, validate_plan,
  topological_sort,
}
use smallpieclaw.Subsets.{In, Subset, Subset_of_length}
use smallpieclaw.Plan.Sort.Degrees.{deps_of}
use smallpieclaw.Plan.Sort.Loops.{IsExhaustive, flat, Layered}
use smallpieclaw.Plan.Sort.Start.{ranked→length}
use smallpieclaw.Plan.Sort.Validity.{IsValid, levels_run, validate_plan_iff}

module _ {Args : Type 0} where
  pub step_of-out :
      (steps : List (PlanStep Args)) (sid : String)
      → contains (ids steps) sid ≡ false
      → step_of steps sid ≡ []
  unfolding step_of contains
  step_of-out [] sid h = refl
  step_of-out (step ∷ steps) sid h = ground (arith, step_of-out steps sid)

  -- The dictionary `steps_by_id` has one step for each id of the plan.
  pub step_of-In :
      (steps : List (PlanStep Args)) (sid : String)
      → In (ids steps) sid
      → (step : PlanStep Args) × (step_of steps sid ≡ step ∷ []) × (step.id ≡ sid)
  unfolding step_of contains
  step_of-In [] sid m = absurd (ground arith)
  step_of-In (step ∷ steps) sid m = elim (Bool-cases (contains (ids steps) sid)) [
    | inl later ↦
        let (found, e, same) = step_of-In steps sid later in (found, rw (e, step_of), same)
    | inr last ↦ (
      step,
      ground (arith, step_of-out steps sid last),
      (string_eq.beq_iff step.id sid).0 (ground arith),
    )
  ]

  -- A step that the plan has under its own id.
  abbrev pub IsStepOf : List (PlanStep Args) → PlanStep Args → Type 0
  IsStepOf steps step = step_of steps step.id ≡ step ∷ []

  ids-batch_of :
      (steps : List (PlanStep Args)) (batch : List String)
      → Subset batch (ids steps)
      → (ids (batch_of steps batch) ≡ batch) × All (IsStepOf steps) (batch_of steps batch)
  unfolding batch_of contains
  ids-batch_of steps [] s = (refl, tt)
  ids-batch_of steps (sid ∷ batch) s =
      let (step, e, same) = step_of-In steps sid (s sid (ground (arith, ==_self sid))) in
      let (names, own) = ids-batch_of steps batch (λ a m. s a (ground arith)) in
      (rw (e, batch_of) (cc (same, names)), rw (e, batch_of) (rw same e, own))

  abbrev pub all_ids : List (List (PlanStep Args)) → List (List String)
  all_ids batches = map ids batches

  ids-batches :
      (steps : List (PlanStep Args)) (batches : List (List String))
      → Subset (flat batches) (ids steps)
      → (all_ids (map (batch_of steps) batches) ≡ batches)
        × All (All (IsStepOf steps)) (map (batch_of steps) batches)
  unfolding contains
  ids-batches steps [] s = (refl, tt)
  ids-batches steps (batch ∷ batches) s =
      let (names, own) =
        ids-batch_of steps batch
          (λ a m. s a (ground (arith, contains-append batch (flat batches) a))) in
      let (more, owned) =
        ids-batches steps batches
          (λ a m. s a (ground (arith, contains-append batch (flat batches) a))) in
      (cc (names, more), (own, owned))

  total-all_ids :
      (batches : List (List (PlanStep Args))) → total batches ≡ length (flat (all_ids batches))
  unfolding total
  total-all_ids [] = refl
  total-all_ids (batch ∷ batches) = omega (
    arith,
    total-all_ids batches,
    length-append (ids batch) (flat (all_ids batches)),
    length-map batch (λ s. s.id),
  )

  -- What the batches of a plan are: a partition of its steps in which each batch is exactly the
  -- steps, not yet placed, whose dependencies are all in the batches before it.
  pub record IsSchedule (steps : List (PlanStep Args)) (batches : List (List (PlanStep Args)))
      : Type 0 where
    pub layered : Layered (ids steps) (deps_of steps) [] (all_ids batches)
    pub once : distinct (flat (all_ids batches)) ≡ true
    pub covers : Subset (ids steps) (flat (all_ids batches))
    pub own : All (All (IsStepOf steps)) batches

  sorted_batches :
      (steps : List (PlanStep Args)) (batches : List (List String))
      → IsValid steps
      → IsExhaustive (ids steps) (deps_of steps) (flat batches)
      → Layered (ids steps) (deps_of steps) [] batches
      → (check_sorted steps (some batches) ≡ ok (map (batch_of steps) batches))
        × IsSchedule steps (map (batch_of steps) batches)
  unfolding check_sorted
  sorted_batches steps batches v done layered =
      let (names, own) = ids-batches steps batches done.within in
      let full = ranked→length v.known done v.rank v.ranked v.apart in
      let counted : total (map (batch_of steps) batches) ≡ length steps =
        total-all_ids (map (batch_of steps) batches)
        ∙ ap (λ b. length (flat b)) names
        ∙ full
        ∙ length-map steps (λ s. s.id) in
      (
        rw ((nat_beq_iff _ _).1 counted) refl,
        record {
          layered = rw names layered;
          once = rw names done.apart;
          covers = λ s m. rw names (
              Subset_of_length (flat batches) (ids steps) done.apart done.within
                (omega (arith, full)) s m);
          own = own;
        },
      )

  -- For every plan that `validate_plan` accepts, `topological_sort` returns batches: they hold each
  -- id of the plan once, with the plan's own step, and each batch is exactly the steps not yet
  -- placed whose dependencies are all in the batches before it.
  pub topological_sort-IsSchedule :
      (plan : ExecutionPlan Args)
      → validate_plan plan ≡ ok tt
      → (batches : List (List (PlanStep Args))) × (topological_sort plan ≡ ok batches)
        × IsSchedule plan.steps batches
  unfolding topological_sort
  topological_sort-IsSchedule plan h =
      let v = (validate_plan_iff plan).0 h in
      let (batches, runs, done, layered) = levels_run plan.steps v.apart in
      let (sorted, schedule) = sorted_batches plan.steps batches v done layered in
      (map (batch_of plan.steps) batches, rw (h, runs) sorted, schedule)
