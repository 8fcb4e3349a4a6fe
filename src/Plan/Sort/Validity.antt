-- ===== src/Plan/Sort/Validity.antt =====
-- Which plans `validate_plan` and `topological_sort` of execution_plan.py accept, and the batches.
use smallpieclaw.Prelude.{
  ℕ, String, ◌≡◌, ◌≢◌, ◌↔◌, refl, sym, ◌∙◌, true, some, List, [], ◌∷◌, arith, distinct, length,
  length-map, string_eq, nat_beq_iff,
}
use smallpieclaw.Prelude.Int.{ℤ}
use smallpieclaw.Plan.Model.{
  PlanStep, ExecutionPlan, Result, ok, err, ◌>>◌, ids, check_unique, check_known, check_acyclic,
  zero_degrees, no_dependents, length_degrees, link, count_in, sources, kahn, levels, fuel_for,
  validate_plan,
}
use smallpieclaw.Subsets.{In, Subset}
use smallpieclaw.Plan.Sort.Degrees.{deps_of}
use smallpieclaw.Plan.Sort.Loops.{IsExhaustive, flat, Layered, kahn-total, levels-total}
use smallpieclaw.Plan.Sort.Start.{plan-IsGraph, start-Inv, Ranked, ranked→length, length→ranked}
use smallpieclaw.Plan.Sort.Checks.{
  check_unique_iff, check_known→AreKnown, AreKnown→check_known, counted_IsDegrees, length_IsDegrees,
}

-- What the docstring of `validate_plan` asks of a plan.
pub record IsValid {Args : Type 0} (steps : List (PlanStep Args)) : Type 0 where
  pub some_steps : steps ≢ []
  pub apart : distinct (ids steps) ≡ true
  pub known : (s : String) → In (ids steps) s → Subset (deps_of steps s) (ids steps)
  pub rank : String → ℕ
  pub ranked : Ranked (ids steps) (deps_of steps) rank

module _ {Args : Type 0} (steps : List (PlanStep Args)) (u : distinct (ids steps) ≡ true) where
  -- The queue loop ends within its fuel.
  kahn_runs :
      (order : List String) × (kahn
          (link steps (no_dependents steps []))
          (fuel_for steps)
          (count_in steps (zero_degrees steps []))
          (sources (count_in steps (zero_degrees steps [])))
          0
        ≡ some (length order))
      × IsExhaustive (ids steps) (deps_of steps) order
  kahn_runs =
      kahn-total (plan-IsGraph steps u) (fuel_for steps) [] _
        (start-Inv (counted_IsDegrees steps u)) (omega (arith, length-map steps (λ s. s.id)))

  pub levels_run :
      (batches : List (List String)) × (levels
          (link steps (no_dependents steps []))
          (fuel_for steps)
          (length_degrees steps [])
          (sources (length_degrees steps []))
        ≡ some batches)
      × IsExhaustive (ids steps) (deps_of steps) (flat batches)
      × Layered (ids steps) (deps_of steps) [] batches
  levels_run =
      levels-total (plan-IsGraph steps u) (fuel_for steps) [] _
        (start-Inv (length_IsDegrees steps u)) (omega (arith, length-map steps (λ s. s.id)))

>>-ok :
    {B : Type 0} (m : Result (Unit {0})) (k : Result B) {b : B}
    → (m >> k) ≡ ok b
    → (m ≡ ok tt) × (k ≡ ok b)
>>-ok (ok tt) k h = (refl, h)
>>-ok (err e) k h = cc

check_acyclic_iff : (n processed : ℕ) → (check_acyclic n (some processed) ≡ ok tt) ↔ (processed ≡ n)
unfolding check_acyclic
check_acyclic_iff n processed = ground (arith, nat_beq_iff processed n)

module _ {Args : Type 0} where
  -- The three checks of `validate_plan`, for a plan that has a step.
  checks : List (PlanStep Args) → Result (Unit {0})
  checks steps =
      check_unique (ids steps)
      >> check_known (ids steps) steps
      >> check_acyclic (length steps) (
          kahn (link steps (no_dependents steps [])) (fuel_for steps)
            (count_in steps (zero_degrees steps []))
            (sources (count_in steps (zero_degrees steps []))) 0)

  checks→IsValid :
      (steps : List (PlanStep Args)) → steps ≢ [] → checks steps ≡ ok tt → IsValid steps
  unfolding checks
  checks→IsValid steps nonempty h =
      let (first_two, acyclic) = >>-ok _ _ h in
      let (unique, known) = >>-ok _ _ first_two in
      let u = (check_unique_iff (ids steps)).0 unique in
      let (order, runs, done) = kahn_runs steps u in
      let processed = (check_acyclic_iff (length steps) (length order)).0 (rw runs at acyclic) in
      let (rank, ranked) = length→ranked done (processed ∙ sym (length-map steps (λ s. s.id))) in
      record {
        some_steps = nonempty;
        apart = u;
        known = check_known→AreKnown (ids steps) steps known;
        rank = rank;
        ranked = ranked;
      }

  IsValid→checks : (steps : List (PlanStep Args)) → IsValid steps → checks steps ≡ ok tt
  unfolding checks
  IsValid→checks steps v =
      let (order, runs, done) = kahn_runs steps v.apart in
      let all = ranked→length v.known done v.rank v.ranked v.apart ∙ length-map steps (λ s. s.id) in
      rw
        (
          (check_unique_iff (ids steps)).1 v.apart,
          AreKnown→check_known (ids steps) steps v.apart v.known,
          runs,
        )
        ((check_acyclic_iff (length steps) (length order)).1 all)

  validate_steps_iff :
      (description : String) (steps : List (PlanStep Args)) (timeout : ℤ)
      → (validate_plan (record { description = description; steps = steps; timeout = timeout })
          ≡ ok tt)
        ↔ IsValid steps
  unfolding validate_plan
  validate_steps_iff d [] t = (λ h. cc, λ v. absurd (v.some_steps refl))
  validate_steps_iff d (step ∷ steps) t = (
    λ h. checks→IsValid (step ∷ steps) (λ e. cc) (unfold checks in h),
    λ v. unfold checks in IsValid→checks (step ∷ steps) v,
  )

  -- `validate_plan` accepts a plan exactly when it has a step, no id stands twice, every dependency
  -- is the id of a step, and the dependencies have no cycle: some rank falls from every step to
  -- each of its dependencies.
  pub validate_plan_iff :
      (plan : ExecutionPlan Args) → (validate_plan plan ≡ ok tt) ↔ IsValid plan.steps
  validate_plan_iff plan = validate_steps_iff plan.description plan.steps plan.timeout
