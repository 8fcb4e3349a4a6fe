-- ===== src/Plan/Sort/Degrees.antt =====
-- What the degree tables of a plan say: the number of dependencies of each step, by its id.
use smallpieclaw.Prelude.{
  ℕ, ◌+◌, String, ◌==◌, ◌≡◌, refl, true, false, Option, none, some, List, [], ◌∷◌, arith,
  if◌then◌else◌, contains, distinct, length, string_eq,
}
use smallpieclaw.Prelude.Int.{pos, succ}
use smallpieclaw.Dict
use smallpieclaw.Dict.{Dict}
use smallpieclaw.Plan.Model.{
  PlanStep, Degrees, modify, is_free, ids, count_step, count_in, zero_degrees, length_degrees,
  sources,
}

abbrev pub map_option {ℓ} : {V : Type ℓ} → (V → V) → Option V → Option V
map_option f none = none
map_option f (some v) = some (f v)

pub get-modify {ℓ} :
    {V : Type ℓ} (d : Dict String V) (k j : String) (f : V → V)
    → Dict.get (modify d k f) j ≡ (if k == j then map_option f (Dict.get d j) else Dict.get d j)
unfolding modify Dict.get
get-modify [] k j f = ground arith
get-modify ((i, v) ∷ d) k j f =
    ground (
      arith,
      get-modify d k j f,
      string_eq.beq_iff k j,
      string_eq.beq_iff i k,
      string_eq.beq_iff i j,
    )

-- The dependencies of a step, by its id.
unfoldable pub deps_of : {Args : Type 0} → List (PlanStep Args) → String → List String
deps_of [] sid = []
deps_of (step ∷ steps) sid = if step.id == sid then step.depends_on else deps_of steps sid

pub deps_of-nil :
    {Args : Type 0} (steps : List (PlanStep Args)) (s : String)
    → contains (ids steps) s ≡ false
    → deps_of steps s ≡ []
unfolding deps_of contains
deps_of-nil [] s h = refl
deps_of-nil (step ∷ steps) s h = ground (arith, deps_of-nil steps s)

-- The table of `topological_sort`.
pub get-length_degrees :
    {Args : Type 0} (steps : List (PlanStep Args)) (d : Degrees) (s : String)
    → distinct (ids steps) ≡ true
    → Dict.get (length_degrees steps d) s
      ≡ (if contains (ids steps) s then some (pos (length (deps_of steps s))) else Dict.get d s)
unfolding length_degrees contains distinct deps_of
get-length_degrees [] d s h = refl
get-length_degrees (step ∷ steps) d s h = ground (
  arith,
  get-length_degrees steps (Dict.put d step.id (pos (length step.depends_on))) s,
  Dict.get-put d step.id s (pos (length step.depends_on)),
  string_eq.beq_iff step.id s,
)

pub get-zero_degrees :
    {Args : Type 0} (steps : List (PlanStep Args)) (d : Degrees) (s : String)
    → Dict.get (zero_degrees steps d) s
      ≡ (if contains (ids steps) s then some (pos 0) else Dict.get d s)
unfolding zero_degrees contains
get-zero_degrees [] d s = refl
get-zero_degrees (step ∷ steps) d s = ground (
  arith,
  get-zero_degrees steps (Dict.put d step.id (pos 0)) s,
  Dict.get-put d step.id s (pos 0),
  string_eq.beq_iff step.id s,
)

get-count_step :
    (id : String) (deps : List String) (d : Degrees) (j : String) (m : ℕ)
    → Dict.get d j ≡ some (pos m)
    → Dict.get (count_step id deps d) j ≡ some (pos (if id == j then m + length deps else m))
unfolding count_step succ
get-count_step id [] d j m h = ground arith
get-count_step id (dep ∷ deps) d j m h = ground (
  arith,
  get-count_step id deps (modify d id succ) j (if id == j then m + 1 else m),
  get-modify d id j succ,
)

pub get-count_in :
    {Args : Type 0} (steps : List (PlanStep Args)) (d : Degrees) (j : String) (m : ℕ)
    → distinct (ids steps) ≡ true
    → Dict.get d j ≡ some (pos m)
    → Dict.get (count_in steps d) j ≡ some (pos (m + length (deps_of steps j)))
unfolding count_in distinct deps_of
get-count_in [] d j m u h = ground arith
get-count_in (step ∷ steps) d j m u h = ground (
  arith,
  get-count_in steps (count_step step.id step.depends_on d) j
      (if step.id == j then m + length step.depends_on else m),
  get-count_step step.id step.depends_on d j m,
  deps_of-nil steps j,
  string_eq.beq_iff step.id j,
)

get-count_step-none :
    (id : String) (deps : List String) (d : Degrees) (j : String)
    → Dict.get d j ≡ none
    → Dict.get (count_step id deps d) j ≡ none
unfolding count_step
get-count_step-none id [] d j h = h
get-count_step-none id (dep ∷ deps) d j h =
    get-count_step-none id deps (modify d id succ) j (ground (arith, get-modify d id j succ))

pub get-count_in-none :
    {Args : Type 0} (steps : List (PlanStep Args)) (d : Degrees) (j : String)
    → Dict.get d j ≡ none
    → Dict.get (count_in steps d) j ≡ none
unfolding count_in
get-count_in-none [] d j h = h
get-count_in-none (step ∷ steps) d j h =
    get-count_in-none steps (count_step step.id step.depends_on d) j
      (get-count_step-none step.id step.depends_on d j h)

has-modify {ℓ} :
    {V : Type ℓ} (d : Dict String V) (k j : String) (f : V → V)
    → Dict.has (modify d k f) j ≡ Dict.has d j
unfolding modify Dict.has
has-modify [] k j f = refl
has-modify ((i, v) ∷ d) k j f = ground (arith, has-modify d k j f)

modify-IsUnique {ℓ} :
    {V : Type ℓ} (d : Dict String V) (k : String) (f : V → V)
    → Dict.IsUnique d
    → Dict.IsUnique (modify d k f)
unfolding modify
modify-IsUnique [] k f u = tt
modify-IsUnique ((i, v) ∷ d) k f u = ground (arith, modify-IsUnique d k f, has-modify d k i f)

count_step-IsUnique :
    (id : String) (deps : List String) (d : Degrees)
    → Dict.IsUnique d
    → Dict.IsUnique (count_step id deps d)
unfolding count_step
count_step-IsUnique id [] d u = u
count_step-IsUnique id (dep ∷ deps) d u =
    count_step-IsUnique id deps (modify d id succ) (modify-IsUnique d id succ u)

pub count_in-IsUnique :
    {Args : Type 0} (steps : List (PlanStep Args)) (d : Degrees)
    → Dict.IsUnique d
    → Dict.IsUnique (count_in steps d)
unfolding count_in
count_in-IsUnique [] d u = u
count_in-IsUnique (step ∷ steps) d u =
    count_in-IsUnique steps (count_step step.id step.depends_on d)
      (count_step-IsUnique step.id step.depends_on d u)

pub zero_degrees-IsUnique :
    {Args : Type 0} (steps : List (PlanStep Args)) (d : Degrees)
    → Dict.IsUnique d
    → Dict.IsUnique (zero_degrees steps d)
unfolding zero_degrees
zero_degrees-IsUnique [] d u = u
zero_degrees-IsUnique (step ∷ steps) d u =
    zero_degrees-IsUnique steps (Dict.put d step.id (pos 0)) (Dict.put-IsUnique d step.id (pos 0) u)

pub length_degrees-IsUnique :
    {Args : Type 0} (steps : List (PlanStep Args)) (d : Degrees)
    → Dict.IsUnique d
    → Dict.IsUnique (length_degrees steps d)
unfolding length_degrees
length_degrees-IsUnique [] d u = u
length_degrees-IsUnique (step ∷ steps) d u =
    length_degrees-IsUnique steps (Dict.put d step.id (pos (length step.depends_on)))
      (Dict.put-IsUnique d step.id (pos (length step.depends_on)) u)

contains-sources_absent :
    (d : Degrees) (s : String) → Dict.has d s ≡ false → contains (sources d) s ≡ false
unfolding sources contains Dict.has
contains-sources_absent [] s h = refl
contains-sources_absent ((i, deg) ∷ d) s h = ground (arith, contains-sources_absent d s)

-- The first batch, and the first queue, hold the ids of degree zero.
pub contains-sources :
    (d : Degrees) (s : String) → Dict.IsUnique d → contains (sources d) s ≡ is_free d s
unfolding sources contains is_free Dict.get
contains-sources [] s u = refl
contains-sources ((i, deg) ∷ d) s u = ground (
  arith,
  contains-sources d s,
  contains-sources_absent d i,
  contains-sources_absent d s,
  string_eq.beq_iff i s,
)

pub distinct-sources : (d : Degrees) → Dict.IsUnique d → distinct (sources d) ≡ true
unfolding sources distinct
distinct-sources [] u = refl
distinct-sources ((i, deg) ∷ d) u = ground (arith, distinct-sources d, contains-sources_absent d i)
