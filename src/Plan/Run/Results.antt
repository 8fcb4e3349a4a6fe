-- ===== src/Plan/Run/Results.antt =====
-- What `_build_summary` adds to the results of the batches.
use smallpieclaw.Prelude.{
  String, ◌==◌, string_eq, ◌≡◌, refl, Bool, true, false, ◌||◌, List, [], ◌∷◌, arith, if◌then◌else◌,
  contains, Bool-cases, inl, inr,
}
use smallpieclaw.Dict
use smallpieclaw.Dict.{Dict}
use smallpieclaw.Outcome.{Outcome, fail_outcome, cancelled_before_step, terminated_before_step}
use smallpieclaw.Plan.Model.{PlanStep, ids}
use smallpieclaw.Plan.Substitute.{Fields}
use smallpieclaw.Plan.Run.{step_not_started, succeeded, Run, write, fill_one, fill}
use smallpieclaw.Plan.Run.Dependencies.{Sound, put-Sound}

has-false→succeeded :
    (results : Dict String Outcome) (k : String)
    → Dict.has results k ≡ false
    → succeeded results k ≡ false
unfolding succeeded
has-false→succeeded results k h = ground (arith, Dict.has-false→get results k h)

fill_one-Sound :
    (deps : String → List String) (by_parent : Bool) (sid : String) (run : Run)
    → Sound deps run.results
    → Sound deps (fill_one by_parent sid run).results
unfolding fill_one write
fill_one-Sound deps by_parent sid run h = elim (Bool-cases (Dict.has run.results sid)) [
  | inl there ↦ rw (there, fill_one) h
  | inr absent ↦ rw (absent, fill_one) (filled by_parent absent)
]
  where
    filled :
        (p : Bool)
        → Dict.has run.results sid ≡ false
        → Sound deps
            (let next : Run =
                if p
                then write sid (fail_outcome cancelled_before_step) (step_not_started sid ∷ []) run
                else write sid (fail_outcome terminated_before_step) [] run in
              next).results
    filled true absent =
        put-Sound deps run.results sid _ (has-false→succeeded run.results sid absent)
          (λ s. absurd (ground arith)) h
    filled false absent =
        put-Sound deps run.results sid _ (has-false→succeeded run.results sid absent)
          (λ s. absurd (ground arith)) h

fill_one-has :
    (by_parent : Bool) (sid : String) (run : Run) (k : String)
    → Dict.has (fill_one by_parent sid run).results k ≡ (sid == k || Dict.has run.results k)
unfolding fill_one write
fill_one-has true sid run k = ground (
  arith,
  Dict.has-put run.results sid k (fail_outcome cancelled_before_step),
  string_eq.beq_iff sid k,
)
fill_one-has false sid run k = ground (
  arith,
  Dict.has-put run.results sid k (fail_outcome terminated_before_step),
  string_eq.beq_iff sid k,
)

pub fill-Sound :
    (deps : String → List String) (by_parent : Bool) (steps : List (PlanStep Fields)) (run : Run)
    → Sound deps run.results
    → Sound deps (fill by_parent steps run).results
unfolding fill
fill-Sound deps by_parent [] run h = h
fill-Sound deps by_parent (step ∷ steps) run h =
    fill-Sound deps by_parent steps _ (fill_one-Sound deps by_parent step.id run h)

pub fill-has :
    (by_parent : Bool) (steps : List (PlanStep Fields)) (run : Run) (k : String)
    → Dict.has (fill by_parent steps run).results k
      ≡ (contains (ids steps) k || Dict.has run.results k)
unfolding fill contains
fill-has by_parent [] run k = refl
fill-has by_parent (step ∷ steps) run k = ground (
  arith,
  fill-has by_parent steps (fill_one by_parent step.id run) k,
  fill_one-has by_parent step.id run k,
)
