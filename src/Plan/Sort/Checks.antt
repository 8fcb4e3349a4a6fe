-- ===== src/Plan/Sort/Checks.antt =====
-- The checks of `validate_plan` before its loop, and the degree tables of both loops.
use smallpieclaw.Prelude.{
  ℕ, String, ◌==◌, ==_self, ◌≡◌, ◌↔◌, refl, ap, ◌∙◌, true, false, some, List, [], ◌∷◌, arith,
  contains, distinct, string_eq, Bool-cases, inl, inr,
}
use smallpieclaw.Prelude.Int.{pos}
use smallpieclaw.Dict
use smallpieclaw.Plan.Model.{
  PlanStep, ok, ids, first_duplicate, check_unique, check_deps, check_known, zero_degrees,
  length_degrees, count_in,
}
use smallpieclaw.Subsets.{In, Subset}
use smallpieclaw.Plan.Sort.Degrees.{
  deps_of, get-count_in-none, get-zero_degrees, get-count_in, get-length_degrees, count_in-IsUnique,
  zero_degrees-IsUnique, length_degrees-IsUnique,
}
use smallpieclaw.Plan.Sort.Start.{IsDegrees}

-- No id of the rest stands in `seen`.
abbrev Fresh : List String → List String → Type 0
Fresh seen names = (a : String) → In names a → contains seen a ≡ false

first_duplicate-ok :
    (seen names : List String)
    → first_duplicate seen names ≡ ok tt
    → (distinct names ≡ true) × Fresh seen names
unfolding first_duplicate distinct contains
first_duplicate-ok seen [] h = (refl, λ a m. ground arith)
first_duplicate-ok seen (i ∷ names) h =
    let (apart, fresh) = first_duplicate-ok (i ∷ seen) names (ground arith) in
    (
      ground (arith, apart, fresh i, ==_self i),
      λ a m. ground (arith, fresh a, string_eq.beq_iff i a),
    )

pub check_unique_iff :
    (names : List String) → (check_unique names ≡ ok tt) ↔ (distinct names ≡ true)
unfolding check_unique
check_unique_iff names = (to, λ h. rw h)
  where
    to : check_unique names ≡ ok tt → distinct names ≡ true
    to h = elim (Bool-cases (distinct names)) [
      | inl apart ↦ apart
      | inr twice ↦ (first_duplicate-ok [] names (rw (twice, check_unique) at h)).0
    ]

check_deps→Subset :
    (names : List String) (step : String) (deps : List String)
    → check_deps names step deps ≡ ok tt
    → Subset deps names
unfolding check_deps contains
check_deps→Subset names step [] h a m = ground arith
check_deps→Subset names step (d ∷ deps) h a m =
    ground (arith, check_deps→Subset names step deps (ground arith) a, string_eq.beq_iff d a)

Subset→check_deps :
    (names : List String) (step : String) (deps : List String)
    → Subset deps names
    → check_deps names step deps ≡ ok tt
unfolding check_deps contains
Subset→check_deps names step [] s = refl
Subset→check_deps names step (d ∷ deps) s = ground (
  arith,
  Subset→check_deps names step deps (λ a m. s a (ground arith)),
  s d (ground (arith, ==_self d)),
)

module _ {Args : Type 0} (names : List String) where
  abbrev pub AreKnown : List (PlanStep Args) → Type 0
  AreKnown steps = (s : String) → In (ids steps) s → Subset (deps_of steps s) names

  pub check_known→AreKnown :
      (steps : List (PlanStep Args)) → check_known names steps ≡ ok tt → AreKnown steps
  unfolding check_known contains deps_of
  check_known→AreKnown [] h s m a dep = ground arith
  check_known→AreKnown (step ∷ steps) h s m a dep = elim (Bool-cases (step.id == s)) [
    | inl same ↦
        check_deps→Subset names step.id step.depends_on (ground arith) a (ground (arith, same))
    | inr other ↦ check_known→AreKnown steps (ground arith) s (ground arith) a (ground arith)
  ]

  pub AreKnown→check_known :
      (steps : List (PlanStep Args))
      → distinct (ids steps) ≡ true
      → AreKnown steps
      → check_known names steps ≡ ok tt
  unfolding check_known contains deps_of distinct
  AreKnown→check_known [] u k = refl
  AreKnown→check_known (step ∷ steps) u k = ground (
    arith,
    Subset→check_deps names step.id step.depends_on
        (λ a dep. k step.id (ground (arith, ==_self step.id)) a (ground (arith, ==_self step.id))),
    AreKnown→check_known steps (ground arith)
        (λ s m a dep. k s (ground arith) a (ground (arith, string_eq.beq_iff step.id s))),
  )

module _ {Args : Type 0} (steps : List (PlanStep Args)) (u : distinct (ids steps) ≡ true) where
  -- Both tables of degrees hold, for each id, how many dependencies the step has.
  pub counted_IsDegrees :
      IsDegrees (ids steps) (deps_of steps) (count_in steps (zero_degrees steps []))
  unfolding Dict.get
  counted_IsDegrees = record {
    unique = count_in-IsUnique steps _ (zero_degrees-IsUnique steps [] tt);
    entry = λ s. elim (Bool-cases (contains (ids steps) s)) [
      | inl there ↦ rw there (
          get-count_in steps (zero_degrees steps []) s 0 u
            (ground (arith, get-zero_degrees steps [] s, there))
          ∙ ap (λ (n : ℕ). some (pos n)) (omega arith))
      | inr absent ↦ rw absent (
          get-count_in-none steps (zero_degrees steps []) s
            (ground (arith, get-zero_degrees steps [] s, absent)))
    ];
  }

  pub length_IsDegrees : IsDegrees (ids steps) (deps_of steps) (length_degrees steps [])
  unfolding Dict.get
  length_IsDegrees = record {
    unique = length_degrees-IsUnique steps [] tt;
    entry = λ s. get-length_degrees steps [] s u;
  }
