-- ===== src/Plan/Sort/Dependents.antt =====
-- What the edge table of a plan says: the steps that depend on an id, as often as they do.
use smallpieclaw.Prelude.{
  ◌+◌, String, ◌==◌, ◌≡◌, refl, true, ◌||◌, some, List, [], ◌∷◌, ◌++◌, arith, if◌then◌else◌,
  contains, contains-append, distinct, string_eq,
}
use smallpieclaw.Dict
use smallpieclaw.Dict.{Dict}
use smallpieclaw.Plan.Model.{PlanStep, Edges, modify, edges_of, ids, link_step, link, no_dependents}
use smallpieclaw.Plan.Sort.Counting.{count, count-append}
use smallpieclaw.Subsets.{In}
use smallpieclaw.Plan.Sort.Degrees.{deps_of, deps_of-nil, get-modify}

get-no_dependents :
    {Args : Type 0} (steps : List (PlanStep Args)) (d : Edges) (s : String)
    → Dict.get (no_dependents steps d) s
      ≡ (if contains (ids steps) s then some [] else Dict.get d s)
unfolding no_dependents contains
get-no_dependents [] d s = refl
get-no_dependents (step ∷ steps) d s = ground (
  arith,
  get-no_dependents steps (Dict.put d step.id []) s,
  Dict.get-put d step.id s [],
  string_eq.beq_iff step.id s,
)

-- What one step, and all steps, add to the dependents of `c`.
linked : String → String → List String → List String → List String
linked id c [] l = l
linked id c (dep ∷ deps) l = linked id c deps (if dep == c then l ++ id ∷ [] else l)

link_all : {Args : Type 0} → List (PlanStep Args) → String → List String → List String
unfolding linked
link_all [] c l = l
link_all (step ∷ steps) c l = link_all steps c (linked step.id c step.depends_on l)

get-link_step :
    (id : String) (deps : List String) (edges : Edges) (c : String) (l : List String)
    → Dict.get edges c ≡ some l
    → Dict.get (link_step id deps edges) c ≡ some (linked id c deps l)
unfolding link_step linked
get-link_step id [] edges c l h = h
get-link_step id (dep ∷ deps) edges c l h = ground (
  arith,
  get-link_step id deps (modify edges dep (λ l. l ++ id ∷ [])) c
      (if dep == c then l ++ id ∷ [] else l),
  get-modify edges dep c (λ l. l ++ id ∷ []),
)

get-link :
    {Args : Type 0} (steps : List (PlanStep Args)) (edges : Edges) (c : String) (l : List String)
    → Dict.get edges c ≡ some l
    → Dict.get (link steps edges) c ≡ some (link_all steps c l)
unfolding link link_all
get-link [] edges c l h = h
get-link (step ∷ steps) edges c l h =
    get-link steps (link_step step.id step.depends_on edges) c (linked step.id c step.depends_on l)
      (get-link_step step.id step.depends_on edges c l h)

count-linked :
    (id c : String) (deps l : List String) (s : String)
    → count s (linked id c deps l) ≡ count s l + (if id == s then count c deps else 0)
unfolding linked count
count-linked id c [] l s = ground arith
count-linked id c (dep ∷ deps) l s = ground (
  arith,
  count-linked id c deps (if dep == c then l ++ id ∷ [] else l) s,
  count-append s l (id ∷ []),
)

count-link_all :
    {Args : Type 0} (steps : List (PlanStep Args)) (c : String) (l : List String) (s : String)
    → distinct (ids steps) ≡ true
    → count s (link_all steps c l) ≡ count s l + count c (deps_of steps s)
unfolding link_all distinct deps_of count
count-link_all [] c l s u = omega arith
count-link_all (step ∷ steps) c l s u = ground (
  arith,
  count-link_all steps c (linked step.id c step.depends_on l) s,
  count-linked step.id c step.depends_on l s,
  deps_of-nil steps s,
  string_eq.beq_iff step.id s,
)

In-linked :
    (id c : String) (deps l : List String) (s : String)
    → In (linked id c deps l) s
    → (id == s || contains l s) ≡ true
unfolding linked contains
In-linked id c [] l s h = ground arith
In-linked id c (dep ∷ deps) l s h = ground (
  arith,
  In-linked id c deps (if dep == c then l ++ id ∷ [] else l) s,
  contains-append l (id ∷ []) s,
)

In-link_all :
    {Args : Type 0} (steps : List (PlanStep Args)) (c : String) (l : List String) (s : String)
    → In (link_all steps c l) s
    → (contains (ids steps) s || contains l s) ≡ true
unfolding link_all contains
In-link_all [] c l s h = h
In-link_all (step ∷ steps) c l s h = ground (
  arith,
  In-link_all steps c (linked step.id c step.depends_on l) s,
  In-linked step.id c step.depends_on l s,
)

edges_of-edges :
    {Args : Type 0} (steps : List (PlanStep Args)) (c : String)
    → In (ids steps) c
    → edges_of (link steps (no_dependents steps [])) c ≡ link_all steps c []
unfolding edges_of Dict.get
edges_of-edges steps c m =
    ground (arith, get-link steps (no_dependents steps []) c [], get-no_dependents steps [] c)

pub count-edges :
    {Args : Type 0} (steps : List (PlanStep Args)) (c s : String)
    → distinct (ids steps) ≡ true
    → In (ids steps) c
    → count s (edges_of (link steps (no_dependents steps [])) c) ≡ count c (deps_of steps s)
unfolding count
count-edges steps c s u m = ground (arith, edges_of-edges steps c m, count-link_all steps c [] s u)

pub In-edges :
    {Args : Type 0} (steps : List (PlanStep Args)) (c s : String)
    → In (ids steps) c
    → In (edges_of (link steps (no_dependents steps [])) c) s
    → In (ids steps) s
unfolding contains
In-edges steps c s m h = ground (arith, edges_of-edges steps c m, In-link_all steps c [] s)
