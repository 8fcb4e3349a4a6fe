-- ===== src/Plan/Run/Dependencies.antt =====
-- Over the batches of a plan: a result that succeeds is only ever written where the results of all
-- dependencies succeed, and no result that succeeds is written over.
use smallpieclaw.Prelude.{
  String, ◌==◌, string_eq, ==_self, ◌≡◌, Bool, true, false, List, [], ◌∷◌, ◌++◌, arith,
  if◌then◌else◌, All, contains, distinct, Bool-cases, inl, inr,
}
use smallpieclaw.Dict
use smallpieclaw.Dict.{Dict}
use smallpieclaw.Outcome.{Outcome, fail_outcome, execution_error}
use smallpieclaw.Plan.Model.{PlanStep, ids}
use smallpieclaw.Plan.Substitute.{Fields}
use smallpieclaw.Plan.Run.{
  succeeded, Fate, completed, raised, in_grace, still_running, Run, settle_late, settle_incomplete,
  settle_one, settle_done,
}

abbrev pub In : List String → String → Type 0
In xs a = contains xs a ≡ true

-- Every result that succeeds has only dependencies that succeed.
abbrev pub Sound : (String → List String) → Dict String Outcome → Type 0
Sound deps results =
    (s d : String) → succeeded results s ≡ true → In (deps s) d → succeeded results d ≡ true

pub succeeded-put :
    (results : Dict String Outcome) (k j : String) (o : Outcome)
    → succeeded (Dict.put results k o) j ≡ (if k == j then o.success else succeeded results j)
unfolding succeeded
succeeded-put results k j o = ground (arith, Dict.get-put results k j o)

-- A write where nothing succeeded yet keeps what did.
pub put-keeps :
    (results : Dict String Outcome) (k j : String) (o : Outcome)
    → succeeded results k ≡ false
    → succeeded results j ≡ true
    → succeeded (Dict.put results k o) j ≡ true
put-keeps results k j o h s = ground (arith, succeeded-put results k j o, string_eq.beq_iff k j)

pub put-Sound :
    (deps : String → List String) (results : Dict String Outcome) (k : String) (o : Outcome)
    → succeeded results k ≡ false
    → (o.success ≡ true → (d : String) → In (deps k) d → succeeded results d ≡ true)
    → Sound deps results
    → Sound deps (Dict.put results k o)
put-Sound deps results k o h good sound s d done dep = elim (Bool-cases (k == s)) [
  | inl same ↦
      let here : k ≡ s = (string_eq.beq_iff k s).0 same in
      put-keeps results k d o h (good (ground (arith, succeeded-put results k s o)) d (rw here dep))
  | inr other ↦
      put-keeps results k d o h (sound s d (ground (arith, succeeded-put results k s o)) dep)
]

-- None of these ids has a result that succeeds.
abbrev pub Pending : Dict String Outcome → List String → Type 0
Pending results names = (k : String) → In names k → succeeded results k ≡ false

-- The dependencies of a step, all with results that succeed.
abbrev pub DepsDone : (String → List String) → Dict String Outcome → String → Type 0
DepsDone deps results k = (d : String) → In (deps k) d → succeeded results d ≡ true

-- What a phase of a batch starts from and keeps, over the ids that are still to succeed.
pub record Good (deps : String → List String) (todo : List String) (results : Dict String Outcome)
    : Type 0 where
  pub sound : Sound deps results
  pub pending : Pending results todo

pub All-map {ℓ κ} :
    {A : Type 0} {P : A → Type ℓ} {Q : A → Type κ} (xs : List A)
    → ((x : A) → P x → Q x)
    → All P xs
    → All Q xs
All-map [] f h = tt
All-map (x ∷ xs) f h = (f x h.0, All-map xs f h.1)

module _ (deps : String → List String) where
  -- A failure, written for an id that has not succeeded.
  pub fail-Good :
      {todo : List String} (results : Dict String Outcome) (k : String) (o : Outcome)
      → o.success ≡ false
      → succeeded results k ≡ false
      → Good deps todo results
      → Good deps todo (Dict.put results k o)
  fail-Good results k o fails h good = record {
    sound = put-Sound deps results k o h (λ s. absurd (ground arith)) good.sound;
    pending = λ j m. ground (arith, succeeded-put results k j o, good.pending j m);
  }

  settle_late-Good :
      {todo : List String} (fate : Fate) (by_parent in_time : Bool) (sid : String) (run : Run)
      → In todo sid
      → Good deps todo run.results
      → Good deps todo (settle_late fate by_parent in_time sid run).results
  unfolding settle_late
  settle_late-Good (completed o) by_parent in_time sid run m good = good
  settle_late-Good (raised exc) by_parent in_time sid run m good = good
  settle_late-Good in_grace by_parent true sid run m good =
      fail-Good run.results sid _ (ground arith) (good.pending sid m) good
  settle_late-Good in_grace by_parent false sid run m good = good
  settle_late-Good still_running by_parent true sid run m good = good
  settle_late-Good still_running by_parent false sid run m good =
      fail-Good run.results sid _ (ground arith) (good.pending sid m) good

  pub settle_incomplete-Good :
      {todo : List String} (fate : PlanStep Fields → Fate) (by_parent in_time : Bool)
      (steps : List (PlanStep Fields)) (run : Run)
      → ((k : String) → In (ids steps) k → In todo k)
      → Good deps todo run.results
      → Good deps todo (settle_incomplete fate by_parent in_time steps run).results
  unfolding settle_incomplete contains
  settle_incomplete-Good fate by_parent in_time [] run within good = good
  settle_incomplete-Good fate by_parent in_time (step ∷ steps) run within good =
      settle_incomplete-Good fate by_parent in_time steps _ (λ k m. within k (ground arith))
        (settle_late-Good (fate step) by_parent in_time step.id run
          (within step.id (ground (arith, ==_self step.id))) good)

  settle_late-keeps :
      (fate : Fate) (by_parent in_time : Bool) (sid : String) (run : Run) (d : String)
      → succeeded run.results sid ≡ false
      → succeeded run.results d ≡ true
      → succeeded (settle_late fate by_parent in_time sid run).results d ≡ true
  unfolding settle_late
  settle_late-keeps (completed o) by_parent in_time sid run d h s = s
  settle_late-keeps (raised exc) by_parent in_time sid run d h s = s
  settle_late-keeps in_grace by_parent true sid run d h s = put-keeps run.results sid d _ h s
  settle_late-keeps in_grace by_parent false sid run d h s = s
  settle_late-keeps still_running by_parent true sid run d h s = s
  settle_late-keeps still_running by_parent false sid run d h s = put-keeps run.results sid d _ h s

  pub settle_incomplete-keeps :
      {todo : List String} (fate : PlanStep Fields → Fate) (by_parent in_time : Bool)
      (steps : List (PlanStep Fields)) (run : Run) (d : String)
      → ((k : String) → In (ids steps) k → In todo k)
      → Good deps todo run.results
      → succeeded run.results d ≡ true
      → succeeded (settle_incomplete fate by_parent in_time steps run).results d ≡ true
  unfolding settle_incomplete contains
  settle_incomplete-keeps fate by_parent in_time [] run d within good s = s
  settle_incomplete-keeps fate by_parent in_time (step ∷ steps) run d within good s =
      let here = within step.id (ground (arith, ==_self step.id)) in
      settle_incomplete-keeps fate by_parent in_time steps _ d (λ k m. within k (ground arith))
        (settle_late-Good (fate step) by_parent in_time step.id run here good)
        (settle_late-keeps (fate step) by_parent in_time step.id run d (good.pending step.id here)
          s)

  -- A finished future, whose dependencies all succeeded; its id is none of those to come.
  settle_one-Good :
      {todo : List String} (fate : Fate) (sid : String) (run : Run)
      → contains todo sid ≡ false
      → DepsDone deps run.results sid
      → Good deps (sid ∷ todo) run.results
      → Good deps todo (settle_one fate sid run).results
  unfolding settle_one contains
  settle_one-Good (completed o) sid run out done good = record {
    sound =
        put-Sound deps run.results sid o (good.pending sid (ground (arith, ==_self sid)))
          (λ _. done) good.sound;
    pending = λ k m.
        ground (arith, succeeded-put run.results sid k o, good.pending k, string_eq.beq_iff sid k);
  }
  settle_one-Good (raised exc) sid run out done good = record {
    sound =
        put-Sound deps run.results sid _ (good.pending sid (ground (arith, ==_self sid)))
          (λ _. done) good.sound;
    pending = λ k m. ground (
      arith,
      succeeded-put run.results sid k (fail_outcome (execution_error exc)),
      good.pending k,
    );
  }
  settle_one-Good in_grace sid run out done good = record {
    sound = good.sound;
    pending = λ k m. good.pending k (ground arith);
  }
  settle_one-Good still_running sid run out done good = record {
    sound = good.sound;
    pending = λ k m. good.pending k (ground arith);
  }

  settle_one-keeps :
      (fate : Fate) (sid : String) (run : Run) (d : String)
      → succeeded run.results sid ≡ false
      → succeeded run.results d ≡ true
      → succeeded (settle_one fate sid run).results d ≡ true
  unfolding settle_one
  settle_one-keeps (completed o) sid run d h s = put-keeps run.results sid d o h s
  settle_one-keeps (raised exc) sid run d h s = put-keeps run.results sid d _ h s
  settle_one-keeps in_grace sid run d h s = s
  settle_one-keeps still_running sid run d h s = s

  pub settle_done-Good :
      {later : List String} (fate : PlanStep Fields → Fate) (steps : List (PlanStep Fields))
      (run : Run)
      → distinct (ids steps ++ later) ≡ true
      → All (λ step. DepsDone deps run.results step.id) steps
      → Good deps (ids steps ++ later) run.results
      → Good deps later (settle_done fate steps run).results
  unfolding settle_done distinct contains
  settle_done-Good fate [] run u done good = good
  settle_done-Good fate (step ∷ steps) run u done good =
      settle_done-Good fate steps (settle_one (fate step) step.id run) (ground arith)
        (All-map steps
          (λ s deps_done d dep.
            settle_one-keeps (fate step) step.id run d
              (good.pending step.id (ground (arith, ==_self step.id))) (deps_done d dep))
          done.1)
        (settle_one-Good (fate step) step.id run (ground arith) done.0 good)
