-- ===== src/React/Goal.antt =====
-- The goal of a run stays where the state says that it is.
use smallpieclaw.Prelude.{
  suc, string_eq, ◌≡◌, inl, inr, refl, sym, ◌∙◌, subst, true, some, List, [], ◌∷◌, ◌++◌, arith,
  length, get_elem?-last, Bool-cases, Option-cases,
}
use smallpieclaw.Compaction.{Text, Message}
use smallpieclaw.React.State.{
  user, Setting, LoopState, StepWorld, StepEnd, go_on, stop, early, initial_state,
}
use smallpieclaw.React.Turns.{Turn, answer_turn}
use smallpieclaw.React.Step.{
  take_turn, compact_context, inactivity_prompt, answered, think, run_single_step, milestone,
  react_loop,
}
use smallpieclaw.React.Kept.{
  whole, Holds, Extends-Holds, compact-Holds, answer_turn-Holds, take_turn-Holds,
}

pub answered-turn :
    (set : Setting) (w : StepWorld) (compacted : LoopState) (turn : Turn) (asked : LoopState)
    → answer_turn set w.native w.json compacted ≡ some (turn, asked)
    → answered set w compacted ≡ some (take_turn set w turn asked)
unfolding answered
answered-turn set w compacted turn asked asks = rw (asks, answered) refl

answered-Holds :
    (set : Setting) (w : StepWorld) (text : Text) (compacted : LoopState)
    (after : StepEnd × LoopState)
    → Holds set (user text) compacted
    → answered set w compacted ≡ some after
    → Holds set (user text) after.1
unfolding answered
answered-Holds set w text compacted after held h =
    elim (Option-cases (answer_turn set w.native w.json compacted)) [
      | inl out ↦ absurd (ground (arith, h, out))
      | inr ((turn, asked), asks) ↦
          take_turn-Holds set w (user text) turn asked after
            (sym (answered-turn set w compacted turn asked asks) ∙ h)
            (answer_turn-Holds set text w.native w.json compacted asked turn asks held)
    ]

pub think-answered :
    (set : Setting) (w : StepWorld) (st compacted : LoopState)
    → compact_context set (record st { step = suc st.step }) ≡ some compacted
    → think set w st ≡ answered set w compacted
unfolding think
think-answered set w st compacted compacts = rw (compacts, think) refl

think-Holds :
    (set : Setting) (w : StepWorld) (text : Text) (st : LoopState) (after : StepEnd × LoopState)
    → think set w st ≡ some after
    → Holds set (user text) st
    → Holds set (user text) after.1
unfolding think
think-Holds set w text st after h held =
    let begun : LoopState = record st { step = suc st.step } in
    elim (Option-cases (compact_context set begun)) [
      | inl out ↦ absurd (ground (arith, h, out))
      | inr (compacted, compacts) ↦
          answered-Holds set w text compacted after
            (compact-Holds set (user text) begun compacted compacts held)
            (sym (think-answered set w st compacted compacts) ∙ h)
    ]

pub run_single_step-Holds :
    (set : Setting) (w : StepWorld) (text : Text) (st : LoopState) (after : StepEnd × LoopState)
    → run_single_step set w st ≡ some after
    → Holds set (user text) st
    → Holds set (user text) after.1
unfolding run_single_step
run_single_step-Holds set w text st after h held = elim (Bool-cases w.cancelled_before) [
  | inl cancelled ↦
      let same : st ≡ after.1 = ground (arith, h, cancelled) in
      subst (λ s. Holds set (user text) s) same held
  | inr runs ↦ elim (Option-cases (inactivity_prompt w st)) [
    | inl busy ↦
        let thinks : run_single_step set w st ≡ think set w st =
          rw (runs, busy, run_single_step) refl in
        think-Holds set w text st after (sym thinks ∙ h) held
    | inr (prompt, due) ↦
        let prompted : LoopState = record st {
          warned_inactivity = true;
          messages = st.messages ++ user prompt ∷ [];
        } in
        let steps : run_single_step set w st ≡ some (go_on, prompted) =
          rw (runs, due, run_single_step) refl in
        let same : prompted ≡ after.1 = ground (arith, sym steps ∙ h) in
        subst (λ s. Holds set (user text) s) same
          (Extends-Holds set (user text) st prompted (refl, user prompt ∷ [], refl) held)
  ]
]

pub milestone-Holds :
    (set : Setting) (goal : Message) (st : LoopState)
    → Holds set goal st
    → Holds set goal (milestone set st)
unfolding milestone
milestone-Holds set goal st (i, m, index, at, c) =
    (i, m, ground (arith, index), ground (arith, at), c)

react_loop-Holds :
    (set : Setting) (ws : List StepWorld) (text : Text) (st : LoopState)
    → Holds set (user text) st
    → Holds set (user text) (react_loop set ws st).1
unfolding react_loop
react_loop-Holds set [] text st held = held
react_loop-Holds set (w ∷ ws) text st held = elim (Option-cases (run_single_step set w st)) [
  | inl out ↦ rw (out, react_loop) held
  | inr ((go_on, after), steps) ↦
      rw (steps, react_loop)
        (react_loop-Holds set ws text (milestone set after) (
          milestone-Holds set (user text) after
            (run_single_step-Holds set w text st (go_on, after) steps held)))
  | inr ((stop, after), steps) ↦
      rw (steps, react_loop) (run_single_step-Holds set w text st (stop, after) steps held)
  | inr ((early result, after), steps) ↦
      rw (steps, react_loop) (run_single_step-Holds set w text st (early result, after) steps held)
]

-- However a run of `react_loop` goes, its goal index is in range at the end and points to the goal
-- that the run started with. The goal is as it was, or its text was cut, once or several times, to a
-- cap between 400 and 6000 characters.
pub react_loop-initial_state :
    (set : Setting) (ws : List StepWorld) (short_term : List Message) (user_goal : Text)
    → Holds set (user user_goal) (react_loop set ws (initial_state short_term user_goal)).1
unfolding initial_state
react_loop-initial_state set ws short_term user_goal =
    react_loop-Holds set ws user_goal (initial_state short_term user_goal)
      (length short_term, user user_goal, refl, get_elem?-last short_term (user user_goal), whole)
