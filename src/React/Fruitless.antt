-- ===== src/React/Fruitless.antt =====
-- A run that makes no progress ends.
use smallpieclaw.Prelude.{
  ℕ, suc, ◌+◌, ◌≤◌, nat_eq, list_eq, string_eq, ◌≡◌, refl, ◌∙◌, false, Option, none, some, List, [],
  ◌∷◌, arith, length, All,
}
use smallpieclaw.Compaction.{Text, Message}
use smallpieclaw.React.State.{
  Setting, LoopState, StepWorld, RunResult, user, stopped_by_operator, StepEnd, go_on,
}
use smallpieclaw.React.Dispatch.{}
use smallpieclaw.React.Step.{
  take_turn, inactivity_prompt, think, run_single_step, milestone, react_loop,
}
use smallpieclaw.React.Goal.{think-answered, answered-turn, run_single_step-Holds, milestone-Holds}
use smallpieclaw.React.Kept.{Holds}
use smallpieclaw.React.Futile.{
  IsFruitless, SameCounts, answer_turn-Answers, compact-runs, Runs, GivesUp, as_stopped, IsNext,
  continues, stops, gives_up, key_of, take_turn-IsNext,
}

Runs-same :
    (key : Text) (n : ℕ) (st after : LoopState)
    → SameCounts st after
    → Runs key n st
    → Runs key n after
Runs-same key n st after (json, last, repeats) (low, few, rare) = (
  ground (arith, json, last, repeats, low),
  ground (arith, json, few),
  ground (arith, last, repeats, rare),
)

both-SameCounts :
    (first second third : LoopState)
    → SameCounts first second
    → SameCounts second third
    → SameCounts first third
both-SameCounts first second third (a, b, c) (d, e, f) = (d ∙ a, e ∙ b, f ∙ c)

run_single_step-think :
    (set : Setting) (w : StepWorld) (st : LoopState)
    → w.cancelled_before ≡ false
    → w.inactivity ≡ none
    → run_single_step set w st ≡ think set w st
unfolding run_single_step
run_single_step-think set w st undisturbed active =
    let silent : inactivity_prompt w st ≡ none = ground (arith, active) in
    rw (undisturbed, silent, run_single_step) refl

run_single_step-IsNext :
    (set : Setting) (goal : Message) (w : StepWorld) (tool error : Text) (n : ℕ) (st : LoopState)
    → IsFruitless set tool error w
    → Holds set goal st
    → Runs (key_of tool error) n st
    → (end : StepEnd × LoopState) × (run_single_step set w st ≡ some end)
      × IsNext tool error (key_of tool error) (suc n) end
run_single_step-IsNext set goal w tool error n st (undisturbed, active, turn, answers, futile) held
      runs =
    let begun : LoopState = record st { step = suc st.step } in
    let (compacted, compacts, kept) = compact-runs set goal begun held in
    let (asked, asks, counts) = answer_turn-Answers set w turn answers compacted in
    let same = both-SameCounts begun compacted asked kept counts in
    (
      take_turn set w turn asked,
      run_single_step-think set w st undisturbed active
          ∙ think-answered set w st compacted compacts
          ∙ answered-turn set w compacted turn asked asks,
      take_turn-IsNext set w tool error turn n asked futile
          (Runs-same (key_of tool error) n begun asked same runs),
    )

milestone-SameCounts : (set : Setting) (st : LoopState) → SameCounts st (milestone set st)
unfolding milestone
milestone-SameCounts set st = (ground arith, ground arith, ground arith)

-- The run gives up with a result.
abbrev Ends : Text → Text → Option RunResult → Type 0
Ends tool error result = (r : RunResult) × (result ≡ some r) × GivesUp tool error r

IsNext-GivesUp :
    (set : Setting) (tool error key : Text) (w : StepWorld) (ws : List StepWorld) (n : ℕ)
    (st : LoopState) (end : StepEnd × LoopState)
    → run_single_step set w st ≡ some end
    → IsNext tool error key n end
    → ((after : LoopState)
        → run_single_step set w st ≡ some (go_on, after)
        → Runs key n after
        → Ends tool error (react_loop set ws (milestone set after)).0)
    → Ends tool error (react_loop set (w ∷ ws) st).0
unfolding react_loop
IsNext-GivesUp set tool error key w ws n st end steps (continues after later) onwards =
    rw (steps, react_loop) (onwards after steps later)
IsNext-GivesUp set tool error key w ws n st end steps (stops after) onwards =
    (stopped_by_operator, rw (steps, react_loop) refl, as_stopped)
IsNext-GivesUp set tool error key w ws n st end steps (gives_up result after given) onwards =
    (result, rw (steps, react_loop) refl, given)

react_loop-GivesUp :
    (set : Setting) (text tool error : Text) (ws : List StepWorld) (n : ℕ) (st : LoopState)
    → All (IsFruitless set tool error) ws
    → 9 ≤ n + length ws
    → Holds set (user text) st
    → Runs (key_of tool error) n st
    → (result : RunResult) × ((react_loop set ws st).0 ≡ some result) × GivesUp tool error result
unfolding react_loop
react_loop-GivesUp set text tool error [] n st ended enough held (low, few, rare) =
    absurd (omega (arith, low, few, rare, enough))
react_loop-GivesUp set text tool error (w ∷ ws) n st (futile, rest) enough held runs =
    let (end, steps, next) =
      run_single_step-IsNext set (user text) w tool error n st futile held runs in
    IsNext-GivesUp set tool error (key_of tool error) w ws (suc n) st end steps next
      λ after goes later.
        react_loop-GivesUp set text tool error ws (suc n) (milestone set after) rest
          (omega (arith, enough))
          (milestone-Holds set (user text) after
            (run_single_step-Holds set w text st (go_on, after) goes held))
          (Runs-same (key_of tool error) (suc n) after (milestone set after)
            (milestone-SameCounts set after) later)

-- From a state whose index of the goal is right, with at most 2 answers in a row that were no JSON
-- and at most 2 failures of a tool in a row, 9 iterations always end the run when each of them is
-- fruitless: nothing cuts it off, and it calls the same tool, which fails with the same error, or
-- answers what is no JSON, in any order. The run then says that it is stuck with at least 3 failures,
-- or that at least 3 answers were no JSON, or that the operator stopped it.
pub react_loop-fruitless :
    (set : Setting) (text tool error : Text) (ws : List StepWorld) (st : LoopState)
    → All (IsFruitless set tool error) ws
    → 9 ≤ length ws
    → Holds set (user text) st
    → st.json_fail_streak ≤ 2
    → st.tool_fail_repeat ≤ 2
    → (result : RunResult) × ((react_loop set ws st).0 ≡ some result) × GivesUp tool error result
react_loop-fruitless set text tool error ws st futile enough held few rare =
    react_loop-GivesUp set text tool error ws 0 st futile (omega (arith, enough)) held
      (ground arith, few, ground (arith, rare))
