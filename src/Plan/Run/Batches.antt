-- ===== src/Plan/Run/Batches.antt =====
-- One batch, and the batches one behind the other, keep every result sound.
use smallpieclaw.Prelude.{
  ℕ, zero, suc, ◌+◌, String, string_eq, ==_self, ◌≡◌, true, false, ◌||◌, List, [], ◌∷◌, ◌++◌, arith,
  length, take, all, All, contains, contains-append, distinct, Bool-cases, inl, inr, ltb,
}
use smallpieclaw.Prelude.Int.{ℤ}
use smallpieclaw.Dict
use smallpieclaw.Outcome.{Outcome, fail_outcome, dependency_did_not_succeed}
use smallpieclaw.Plan.Model.{PlanStep, ids}
use smallpieclaw.Plan.Sort.Loops.{flat}
use smallpieclaw.Plan.Sort.Batches.{all_ids}
use smallpieclaw.Plan.Substitute.{Text, Fields, substitute_results}
use smallpieclaw.Plan.Run.{
  ErrorLine, step_skipped, succeeded, dependencies_satisfied, failed_dep, BatchWorld, Run, write,
  admit, drained_fate, run_ready, run_batch, process_batches,
}
use smallpieclaw.Plan.Run.Dependencies.{
  In, Sound, DepsDone, Good, put-keeps, fail-Good, settle_incomplete-Good, settle_incomplete-keeps,
  settle_done-Good, All-map,
}

-- The dependencies by id are those that the step names.
abbrev pub Linked : (String → List String) → List (PlanStep Fields) → Type 0
Linked deps batch = All (λ step. (d : String) → In (deps step.id) d → In step.depends_on d) batch

satisfied→succeeded :
    (names : List String) (run : Run) (d : String)
    → dependencies_satisfied names run.results ≡ true
    → In names d
    → succeeded run.results d ≡ true
unfolding dependencies_satisfied all contains
satisfied→succeeded [] run d h m = absurd (ground arith)
satisfied→succeeded (x ∷ names) run d h m =
    ground (arith, satisfied→succeeded names run d, string_eq.beq_iff x d)

In-take :
    (n : ℕ) (steps : List (PlanStep Fields)) (later : List String) (k : String)
    → In (ids (take n steps) ++ later) k
    → In (ids steps ++ later) k
unfolding contains
In-take zero steps later k m = ground (arith, contains-append (ids steps) later k)
In-take (suc n) [] later k m = m
In-take (suc n) (step ∷ steps) later k m = ground (arith, In-take n steps later k)

distinct-later : (xs later : List String) → distinct (xs ++ later) ≡ true → distinct later ≡ true
unfolding distinct
distinct-later [] later h = h
distinct-later (x ∷ xs) later h = distinct-later xs later (ground arith)

distinct-take :
    (n : ℕ) (steps : List (PlanStep Fields)) (later : List String)
    → distinct (ids steps ++ later) ≡ true
    → distinct (ids (take n steps) ++ later) ≡ true
unfolding distinct contains
distinct-take zero steps later h = distinct-later (ids steps) later h
distinct-take (suc n) [] later h = h
distinct-take (suc n) (step ∷ steps) later h =
    ground (arith, distinct-take n steps later, In-take n steps later step.id)

All-take :
    (P : PlanStep Fields → Type 0) (n : ℕ) (steps : List (PlanStep Fields))
    → All P steps
    → All P (take n steps)
All-take P zero steps h = tt
All-take P (suc n) [] h = tt
All-take P (suc n) (step ∷ steps) h = (h.0, All-take P n steps h.1)

-- What the first loop over a batch hands on.
record Admitted (deps : String → List String) (todo later batch : List String) (before : Run)
    (after : Run) (ready : List (PlanStep Fields)) : Type 0 where
  good : Good deps todo after.results
  keeps : (d : String) → succeeded before.results d ≡ true → succeeded after.results d ≡ true
  done : All (λ step. DepsDone deps after.results step.id) ready
  within : (k : String) → In (ids ready ++ later) k → In (batch ++ later) k
  apart : distinct (ids ready ++ later) ≡ true

skip-Good :
    {deps : String → List String} {todo : List String} (k : String) (o : Outcome)
    (lines : List ErrorLine) (run : Run)
    → o.success ≡ false
    → succeeded run.results k ≡ false
    → Good deps todo run.results
    → Good deps todo (write k o lines run).results
unfolding write
skip-Good {deps} k o lines run fails waits good = fail-Good deps run.results k o fails waits good

skip-keeps :
    (k : String) (o : Outcome) (lines : List ErrorLine) (run : Run) (d : String)
    → succeeded run.results k ≡ false
    → succeeded run.results d ≡ true
    → succeeded (write k o lines run).results d ≡ true
unfolding write
skip-keeps k o lines run d waits s = put-keeps run.results k d o waits s

module _ (dumps : Outcome → Text) (deps : String → List String) (todo later : List String) where
  admit-Admitted :
      (batch : List (PlanStep Fields)) (run : Run)
      → Good deps todo run.results
      → ((k : String) → In (ids batch) k → In todo k)
      → distinct (ids batch ++ later) ≡ true
      → Linked deps batch
      → Admitted deps todo later (ids batch) run (admit dumps batch run).0 (admit dumps batch run).1
  unfolding admit contains distinct substitute_results
  admit-Admitted [] run good within u linked = record {
    good = good;
    keeps = λ d s. s;
    done = tt;
    within = λ k m. m;
    apart = u;
  }
  admit-Admitted (step ∷ batch) run good within u linked =
      elim (Bool-cases (dependencies_satisfied step.depends_on run.results)) [
        | inl ready ↦
            let a =
              admit-Admitted batch run good (λ k m. within k (ground arith)) (ground arith)
                linked.1 in
            rw (ready, admit)
              (record {
                good = a.good;
                keeps = a.keeps;
                done = (
                  λ d dep.
                      a.keeps d (satisfied→succeeded step.depends_on run d ready (linked.0 d dep)),
                  a.done,
                );
                within = λ k m. ground (arith, a.within k);
                apart = ground (arith, a.apart, a.within step.id);
              })
        | inr blocked ↦
            let dep = failed_dep step.depends_on run.results in
            let o = fail_outcome (dependency_did_not_succeed dep) in
            let lines = step_skipped step.id dep ∷ [] in
            let here = within step.id (ground (arith, ==_self step.id)) in
            let waits = good.pending step.id here in
            let a =
              admit-Admitted batch (write step.id o lines run)
                (skip-Good step.id o lines run (ground arith) waits good)
                (λ k m. within k (ground arith)) (ground arith) linked.1 in
            rw (blocked, admit)
              (record {
                good = a.good;
                keeps = λ d s. a.keeps d (skip-keeps step.id o lines run d waits s);
                done = a.done;
                within = λ k m. ground (arith, a.within k);
                apart = a.apart;
              })
      ]

  run_ready-Good :
      (w : BatchWorld) (timeout : ℤ) (ready : List (PlanStep Fields)) (run : Run)
      → ((k : String) → In (ids ready ++ later) k → In todo k)
      → distinct (ids ready ++ later) ≡ true
      → All (λ step. DepsDone deps run.results step.id) ready
      → Good deps todo run.results
      → Good deps later (run_ready w timeout ready run).results
  unfolding run_ready
  run_ready-Good w timeout ready run within u done good =
      let steps = take w.submitted ready in
      let fate =
        λ (s : PlanStep Fields). drained_fate (ltb (length steps) (length ready)) (w.fate s) in
      let listed : (k : String) → In (ids steps) k → In todo k = λ k m.
        within k (
          In-take w.submitted ready later k
            (ground (arith, contains-append (ids steps) later k))) in
      let graced =
        settle_incomplete-Good deps fate w.cancelled_by_parent true steps _ listed good in
      let settled =
        settle_incomplete-Good deps fate w.cancelled_by_parent false steps _ listed graced in
      settle_done-Good deps fate steps _ (distinct-take w.submitted ready later u)
        (All-take _ w.submitted ready (
          All-map ready
            (λ step deps_done d dep.
              settle_incomplete-keeps deps fate w.cancelled_by_parent false steps _ d listed graced
                (settle_incomplete-keeps deps fate w.cancelled_by_parent true steps _ d listed good
                  (deps_done d dep)))
            done))
        (record {
          sound = settled.sound;
          pending = λ k m. settled.pending k (within k (In-take w.submitted ready later k m));
        })

module _ (dumps : Outcome → Text) (deps : String → List String) where
  weaken :
      {todo later : List String} {results : Dict.Dict String Outcome}
      → ((k : String) → In later k → In todo k)
      → Good deps todo results
      → Good deps later results
  weaken sub good = record { sound = good.sound; pending = λ k m. good.pending k (sub k m) }

  run_batch-Good :
      (w : BatchWorld) (timeout : ℤ) (batch : List (PlanStep Fields)) (later : List String)
      (run : Run)
      → distinct (ids batch ++ later) ≡ true
      → Linked deps batch
      → Good deps (ids batch ++ later) run.results
      → Good deps later (run_batch dumps timeout w batch run).results
  unfolding run_batch
  run_batch-Good w timeout batch later run u linked good = go (admit dumps batch run).1 (
      admit-Admitted dumps deps (ids batch ++ later) later batch run good
        (λ k m. ground (arith, contains-append (ids batch) later k)) u linked)
    where
      todo : List String
      todo = ids batch ++ later

      after : Run
      after = (admit dumps batch run).0

      go :
          (ready : List (PlanStep Fields))
          → Admitted deps todo later (ids batch) run after ready
          → Good deps later
              (let next : Run = elim ready [
                | [] ↦ after
                | step ∷ steps ↦ run_ready w timeout (step ∷ steps) after
              ] in
                next).results
      go [] a = weaken (λ k m. ground (arith, contains-append (ids batch) later k)) a.good
      go (step ∷ steps) a =
          run_ready-Good dumps deps todo later w timeout (step ∷ steps) after a.within a.apart
            a.done a.good

abbrev pub flat_ids : List (List (PlanStep Fields)) → List String
flat_ids batches = flat (all_ids batches)

module _ (dumps : Outcome → Text) (worlds : ℕ → BatchWorld) (timeout : ℤ)
    (deps : String → List String) where
  pub process_batches-Sound :
      (i : ℕ) (batches : List (List (PlanStep Fields))) (run : Run)
      → distinct (flat_ids batches) ≡ true
      → All (Linked deps) batches
      → Good deps (flat_ids batches) run.results
      → Sound deps (process_batches dumps worlds timeout i batches run).results
  unfolding process_batches
  process_batches-Sound i [] run u linked good = good.sound
  process_batches-Sound i (batch ∷ batches) run u linked good =
      elim (Bool-cases (run.cancelled || (worlds i).cancelled_at_start)) [
        | inl stop ↦ rw (stop, process_batches) good.sound
        | inr go ↦ elim (Bool-cases (worlds i).past_deadline) [
          | inl late ↦ rw (go, late, process_batches) good.sound
          | inr in_time ↦
              rw (go, in_time, process_batches)
                (process_batches-Sound (i + 1) batches
                  (run_batch dumps timeout (worlds i) batch run)
                  (distinct-later (ids batch) (flat_ids batches) u) linked.1
                  (run_batch-Good dumps deps (worlds i) timeout batch (flat_ids batches) run u
                    linked.0 good))
        ]
      ]
