-- ===== src/Plan/Sort/Start.antt =====
-- The state in which the loops start has the invariant, and a finished loop holds every id exactly
-- when the dependencies can be ranked.
use mathlib.Core.List.{append_assoc}
use smallpieclaw.Prelude.{
  ℕ, zero, suc, ◌+◌, ◌<◌, String, ◌==◌, ◌≡◌, true, false, none, some, List, [], ◌∷◌, ◌++◌, arith,
  if◌then◌else◌, contains, distinct, length, string_eq, Bool-cases, inl, inr,
}
use smallpieclaw.Prelude.Int.{pos}
use smallpieclaw.Dict
use smallpieclaw.Plan.Model.{PlanStep, Degrees, ids, is_free, sources, link, no_dependents}
use smallpieclaw.Plan.Sort.Counting.{missing-nil, missing-zero→In, missing-suc→dep, count}
use smallpieclaw.Subsets.{In, Subset, Subset_of_length, length-le_of_distinct, distinct-not_before}
use smallpieclaw.Plan.Sort.Degrees.{deps_of, contains-sources, distinct-sources}
use smallpieclaw.Plan.Sort.Dependents.{count-edges, In-edges}
use smallpieclaw.Plan.Sort.Invariant.{IsGraph, Ordered, Inv}
use smallpieclaw.Plan.Sort.Loops.{IsExhaustive}

pub plan-IsGraph :
    {Args : Type 0} (steps : List (PlanStep Args))
    → distinct (ids steps) ≡ true
    → IsGraph (ids steps) (deps_of steps) (link steps (no_dependents steps []))
plan-IsGraph steps u = record {
  edge_count = λ c s m. count-edges steps c s u m;
  edge_in = λ c s m. In-edges steps c s m;
}

-- Both tables of degrees: the number of dependencies of each id, and no other key.
pub record IsDegrees (names : List String) (deps : String → List String) (degrees : Degrees)
    : Type 0 where
  pub unique : Dict.IsUnique degrees
  pub entry :
      (s : String)
      → Dict.get degrees s ≡ (if contains names s then some (pos (length (deps s))) else none)

pub start-Inv :
    {names : List String} {deps : String → List String} {degrees : Degrees}
    → IsDegrees names deps degrees
    → Inv names deps [] (sources degrees) [] degrees
unfolding is_free count contains
start-Inv {names} {deps} {degrees} d = record {
  apart = distinct-sources degrees d.unique;
  within = λ s m. ground (arith, d.entry s, contains-sources degrees s d.unique);
  degree = λ s m. ground (arith, d.entry s, missing-nil (deps s));
  free_in =
      λ s m. ground (arith, d.entry s, contains-sources degrees s d.unique, missing-nil (deps s));
  in_free =
      λ s m z. ground (arith, d.entry s, contains-sources degrees s d.unique, missing-nil (deps s));
  pending = λ s m. ground arith;
  ordered = tt;
}

-- A rank that falls from each step to its dependencies: there is no cycle.
abbrev pub Ranked : List String → (String → List String) → (String → ℕ) → Type 0
Ranked names deps rank = (s d : String) → In names s → In (deps s) d → rank d < rank s

module _ {names : List String} {deps : String → List String} {order : List String}
    (known : (s : String) → In names s → Subset (deps s) names)
    (done : IsExhaustive names deps order) where
  -- By descent along the rank: an id that is left out has a dependency that is left out.
  Ranked-In :
      (rank : String → ℕ)
      → Ranked names deps rank
      → (bound : ℕ) (s : String) → rank s < bound
      → In names s
      → In order s
  Ranked-In rank ranked zero s h m = absurd (omega arith)
  Ranked-In rank ranked (suc bound) s h m = elim (Bool-cases (contains order s)) [
    | inl there ↦ there
    | inr absent ↦
        let (d, dep, out) = missing-suc→dep order (deps s) (ground (arith, done.closed s m)) in
        let inside =
          Ranked-In rank ranked bound d (omega (arith, ranked s d m dep)) (known s m d dep) in
        absurd (ground (arith, inside, out))
  ]

  pub ranked→length :
      (rank : String → ℕ)
      → Ranked names deps rank
      → distinct names ≡ true
      → length order ≡ length names
  ranked→length rank ranked u = omega (
    arith,
    length-le_of_distinct order names done.apart done.within,
    length-le_of_distinct names order u (λ s. Ranked-In rank ranked (suc (rank s)) s (omega arith)),
  )

index : String → List String → ℕ
index s [] = 0
index s (x ∷ xs) = let rest = index s xs in if x == s then 0 else suc rest

index-append-In : (s : String) (xs ys : List String) → In xs s → index s (xs ++ ys) < length xs
unfolding index contains
index-append-In s [] ys m = ground arith
index-append-In s (x ∷ xs) ys m = ground (arith, index-append-In s xs ys)

index-append_out :
    (s : String) (xs ys : List String)
    → contains xs s ≡ false
    → index s (xs ++ ys) ≡ length xs + index s ys
unfolding index contains
index-append_out s [] ys m = omega arith
index-append_out s (x ∷ xs) ys m = ground (arith, index-append_out s xs ys)

-- In an ordered list each id stands behind its dependencies.
index-dep :
    (deps : String → List String) (before xs : List String) (s d : String)
    → distinct (before ++ xs) ≡ true
    → Ordered deps before xs
    → In xs s
    → In (deps s) d
    → index d (before ++ xs) < index s (before ++ xs)
unfolding contains index
index-dep deps before [] s d u o m dep = ground arith
index-dep deps before (x ∷ xs) s d u o m dep = elim (Bool-cases (x == s)) [
  | inl same ↦
      let here : x ≡ s = (string_eq.beq_iff x s).0 same in
      let dep' : In (deps x) d = rw here dep in
      rw (← here) (
        omega (
          arith,
          index-append-In d before (x ∷ xs) (missing-zero→In before (deps x) d o.0 dep'),
          index-append_out x before (x ∷ xs) (distinct-not_before before xs x u),
        ))
  | inr other ↦
      rw append_assoc at
        (index-dep deps (before ++ x ∷ []) xs s d (rw append_assoc u) o.1 (ground arith) dep)
]

-- When the loop has passed every id, the places in its order are a rank.
pub length→ranked :
    {names : List String} {deps : String → List String} {order : List String}
    → IsExhaustive names deps order
    → length order ≡ length names
    → (rank : String → ℕ) × Ranked names deps rank
length→ranked {names} {deps} {order} done e = (
  λ s. index s order,
  λ s d m dep.
      index-dep deps [] order s d done.apart done.ordered
        (Subset_of_length order names done.apart done.within (omega (arith, e)) s m) dep,
)
