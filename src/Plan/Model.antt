-- ===== src/Plan/Model.antt =====
-- execution_plan.py: the plan data types, `validate_plan` and `topological_sort`.
use smallpieclaw.Prelude.{
  ℕ, zero, suc, ◌+◌, String, ◌==◌, Bool, false, Option, none, some, List, [], ◌∷◌, ◌++◌, map,
  if◌then◌else◌, contains, distinct, length, nat_beq, string_eq,
}
use smallpieclaw.Prelude.Int.{ℤ, pos, succ, pred, is_zero}
use smallpieclaw.Dict
use smallpieclaw.Dict.{Dict}

-- `args` is generic: the sort never looks at the arguments of a tool.
pub record PlanStep (Args : Type 0) : Type 0 where
  pub id : String
  pub tool : String
  pub args : Args
  pub depends_on : List String
  pub description : String

pub record ExecutionPlan (Args : Type 0) : Type 0 where
  pub description : String
  pub steps : List (PlanStep Args)
  pub timeout : ℤ

-- The texts of `PlanValidationError`, by what they name.
pub data PlanError : Type 0 where
  no_steps circular_dependency sort_failed : PlanError
  duplicate_step_id : String → PlanError
  unknown_step : (step dep : String) → PlanError

pub data Result (A : Type 0) : Type 0 where
  ok : A → Result A
  err : PlanError → Result A

infixl 5 ◌>>=◌ ◌>>◌
abbrev pub ◌>>=◌ : {A B : Type 0} → Result A → (A → Result B) → Result B
ok a >>= f = f a
err e >>= f = err e

abbrev pub ◌>>◌ : {B : Type 0} → Result (Unit {0}) → Result B → Result B
m >> k = m >>= λ _. k

abbrev pub Degrees : Type 0
Degrees = Dict String ℤ

abbrev pub Edges : Type 0
Edges = Dict String (List String)

-- The first id that `seen` or an earlier place of the list already has.
unfoldable pub first_duplicate : List String → List String → Result (Unit {0})
first_duplicate seen [] = ok tt
first_duplicate seen (i ∷ ids) =
    let rest = first_duplicate (i ∷ seen) ids in
    if contains seen i then err (duplicate_step_id i) else rest

-- The outer test is `len(ids) != len(set(ids))`.
unfoldable pub check_unique : List String → Result (Unit {0})
unfolding first_duplicate distinct
check_unique ids = if distinct ids then ok tt else first_duplicate [] ids

-- d[k] += 1, d[k] -= 1 and d[k].append(v), at a key that is there.
unfoldable pub modify {ℓ} : {V : Type ℓ} → Dict String V → String → (V → V) → Dict String V
modify [] k f = []
modify ((j, v) ∷ d) k f = if j == k then (j, f v) ∷ d else (j, v) ∷ modify d k f

-- dependents[current]
unfoldable pub edges_of : Edges → String → List String
unfolding Dict.get
edges_of edges k = elim (Dict.get edges k) [ none ↦ [] | some l ↦ l ]

unfoldable pub check_deps : List String → String → List String → Result (Unit {0})
check_deps id_set step [] = ok tt
check_deps id_set step (dep ∷ deps) =
    let rest = check_deps id_set step deps in
    if contains id_set dep then rest else err (unknown_step step dep)

-- for dep in step.depends_on: dependents[dep].append(step.id)
unfoldable pub link_step : String → List String → Edges → Edges
unfolding modify
link_step id [] edges = edges
link_step id (dep ∷ deps) edges = link_step id deps (modify edges dep (λ l. l ++ id ∷ []))

-- for dep in step.depends_on: in_degree[step.id] += 1
unfoldable pub count_step : String → List String → Degrees → Degrees
unfolding modify succ
count_step id [] degrees = degrees
count_step id (dep ∷ deps) degrees = count_step id deps (modify degrees id succ)

-- if processed != len(plan.steps): raise
unfoldable pub check_acyclic : ℕ → Option ℕ → Result (Unit {0})
check_acyclic n none = err circular_dependency
check_acyclic n (some processed) = if nat_beq processed n then ok tt else err circular_dependency

module _ {Args : Type 0} where
  abbrev pub ids : List (PlanStep Args) → List String
  ids steps = map (λ s. s.id) steps

  unfoldable pub check_known : List String → List (PlanStep Args) → Result (Unit {0})
  unfolding check_deps
  check_known id_set [] = ok tt
  check_known id_set (step ∷ steps) =
      check_deps id_set step.id step.depends_on >> check_known id_set steps

  -- {step.id: 0 for step in plan.steps}
  unfoldable pub zero_degrees : List (PlanStep Args) → Degrees → Degrees
  unfolding Dict.put
  zero_degrees [] d = d
  zero_degrees (step ∷ steps) d = zero_degrees steps (Dict.put d step.id (pos 0))

  -- {step.id: [] for step in plan.steps}
  unfoldable pub no_dependents : List (PlanStep Args) → Edges → Edges
  unfolding Dict.put
  no_dependents [] d = d
  no_dependents (step ∷ steps) d = no_dependents steps (Dict.put d step.id [])

  -- {step.id: len(step.depends_on) for step in plan.steps}
  unfoldable pub length_degrees : List (PlanStep Args) → Degrees → Degrees
  unfolding Dict.put
  length_degrees [] d = d
  length_degrees (step ∷ steps) d =
      length_degrees steps (Dict.put d step.id (pos (length step.depends_on)))

  unfoldable pub link : List (PlanStep Args) → Edges → Edges
  unfolding link_step
  link [] edges = edges
  link (step ∷ steps) edges = link steps (link_step step.id step.depends_on edges)

  unfoldable pub count_in : List (PlanStep Args) → Degrees → Degrees
  unfolding count_step
  count_in [] degrees = degrees
  count_in (step ∷ steps) degrees = count_in steps (count_step step.id step.depends_on degrees)

-- [sid for sid, deg in in_degree.items() if deg == 0]
unfoldable pub sources : Degrees → List String
sources [] = []
sources ((sid, deg) ∷ degrees) =
    let rest = sources degrees in if is_zero deg then sid ∷ rest else rest

-- in_degree[k] == 0, after the decrement
unfoldable pub is_free : Degrees → String → Bool
unfolding Dict.get
is_free degrees k = elim (Dict.get degrees k) [ none ↦ false | some deg ↦ is_zero deg ]

-- for dependent in dependents[current]: in_degree[dependent] -= 1, and the ones that reach 0 are
-- appended to `out` (the queue of `validate_plan`, the next batch of `topological_sort`).
unfoldable pub release : List String → Degrees → List String → Degrees × List String
unfolding modify pred is_free
release [] degrees out = (degrees, out)
release (dependent ∷ rest) degrees out =
    let degrees' = modify degrees dependent pred in
    release rest degrees' (if is_free degrees' dependent then out ++ dependent ∷ [] else out)

-- The `while queue` loop of `validate_plan`; `none` means that the fuel ran out.
unfoldable pub kahn : Edges → ℕ → Degrees → List String → ℕ → Option ℕ
unfolding release edges_of
kahn edges zero degrees queue processed = none
kahn edges (suc fuel) degrees [] processed = some processed
kahn edges (suc fuel) degrees (current ∷ queue) processed =
    let (degrees', queue') = release (edges_of edges current) degrees queue in
    kahn edges fuel degrees' queue' (processed + 1)

-- for sid in current: release its dependents into `next_batch`
unfoldable pub release_batch : Edges → List String → Degrees → List String → Degrees × List String
unfolding release edges_of
release_batch edges [] degrees next_batch = (degrees, next_batch)
release_batch edges (sid ∷ current) degrees next_batch =
    let (degrees', next') = release (edges_of edges sid) degrees next_batch in
    release_batch edges current degrees' next'

-- The `while current` loop of `topological_sort`, over ids; `none` means that the fuel ran out.
unfoldable pub levels : Edges → ℕ → Degrees → List String → Option (List (List String))
unfolding release_batch
levels edges zero degrees current = none
levels edges (suc fuel) degrees [] = some []
levels edges (suc fuel) degrees (sid ∷ current) =
    let (degrees', next_batch) = release_batch edges (sid ∷ current) degrees [] in
    elim (levels edges fuel degrees' next_batch) [
      | none ↦ none
      | some batches ↦ some ((sid ∷ current) ∷ batches)
    ]

-- sum(len(batch) for batch in batches)
unfoldable pub total {ℓ} : {A : Type ℓ} → List (List A) → ℕ
total [] = 0
total (batch ∷ batches) = length batch + total batches

module _ {Args : Type 0} where
  -- Enough for both loops: each round takes at least one id off the queue.
  abbrev pub fuel_for : List (PlanStep Args) → ℕ
  fuel_for steps = length steps + 1

  -- steps_by_id[sid]
  unfoldable pub step_of : List (PlanStep Args) → String → List (PlanStep Args)
  step_of [] sid = []
  step_of (step ∷ steps) sid =
      let later = step_of steps sid in
      elim later [ [] ↦ if step.id == sid then step ∷ [] else [] | found ∷ _ ↦ found ∷ [] ]

  -- [steps_by_id[sid] for sid in current]
  unfoldable pub batch_of : List (PlanStep Args) → List String → List (PlanStep Args)
  unfolding step_of
  batch_of steps [] = []
  batch_of steps (sid ∷ current) = step_of steps sid ++ batch_of steps current

  unfoldable pub validate_plan : ExecutionPlan Args → Result (Unit {0})
  unfolding check_unique check_known zero_degrees no_dependents link count_in sources kahn
      check_acyclic contains
  validate_plan plan = elim plan.steps [
    | [] ↦ err no_steps
    | first ∷ rest ↦
        let steps = first ∷ rest in
        let degrees = count_in steps (zero_degrees steps []) in
        let edges = link steps (no_dependents steps []) in
        check_unique (ids steps)
        >> check_known (ids steps) steps
        >> check_acyclic (length steps) (kahn edges (fuel_for steps) degrees (sources degrees) 0)
  ]

  -- if total_sorted != len(plan.steps): raise
  unfoldable pub check_sorted :
      List (PlanStep Args) → Option (List (List String)) → Result (List (List (PlanStep Args)))
  unfolding batch_of total
  check_sorted steps none = err sort_failed
  check_sorted steps (some batches) =
      if nat_beq (total (map (batch_of steps) batches)) (length steps)
      then ok (map (batch_of steps) batches)
      else err sort_failed

  unfoldable pub topological_sort : ExecutionPlan Args → Result (List (List (PlanStep Args)))
  unfolding validate_plan length_degrees no_dependents link sources levels check_sorted
  topological_sort plan =
      let steps = plan.steps in
      let degrees = length_degrees steps [] in
      let edges = link steps (no_dependents steps []) in
      validate_plan plan
      >> check_sorted steps (levels edges (fuel_for steps) degrees (sources degrees))
