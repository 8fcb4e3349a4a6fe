-- ===== src/React/Step.antt =====
-- react_loop.py `_action_from_turn`, `_run_single_step` and `react_loop`.
use smallpieclaw.Prelude.Int.{ℤ, pos_part}
use smallpieclaw.Prelude.{
  ℕ, suc, ◌%◌, ◌==◌, nat_eq, list_eq, string_eq, Bool, true, false, not, ◌&&◌, Option, none, some,
  List, [], ◌∷◌, ◌++◌, if◌then◌else◌, ltb,
}
use smallpieclaw.Compaction.{Text, Message}
use smallpieclaw.Compaction.Compact.{maybe_compact}
use smallpieclaw.React.State.{
  user, assistant, Setting, LoopState, StepWorld, RunResult, cancelled_run, stopped_by_operator,
  raised, StepEnd, go_on, stop, early,
}
use smallpieclaw.React.Turns.{
  Turn, call_turn, text_turn, early_turn, raising_turn, answer_turn, request_turn,
}
use smallpieclaw.React.Dispatch.{
  plain, native, action_of_call, action_of_text, handle_non_json, dispatch_action,
}

-- What follows the dispatch.
unfoldable pub conclude_step : Setting → Option RunResult × LoopState → StepEnd × LoopState
conclude_step set (some result, st) =
    (early result, record st { has_checkpoint = st.has_checkpoint && not set.checkpoint_enabled })
conclude_step set (none, st) = if st.operator_cancelled then (stop, st) else (go_on, st)

-- An action object in the answer resets the streak only when it came as a text.
unfoldable pub take_turn : Setting → StepWorld → Turn → LoopState → StepEnd × LoopState
unfolding action_of_text handle_non_json dispatch_action conclude_step
take_turn set w (early_turn result) st = (early result, st)
take_turn set w raising_turn st = (early raised, st)
take_turn set w (call_turn call) st =
    conclude_step set (dispatch_action set w (action_of_call set call) (native call) st)
take_turn set w (text_turn raw from_native) st = elim (action_of_text set raw from_native) [
  | none ↦ handle_non_json set raw st
  | some obj ↦ conclude_step set (
      dispatch_action set w obj plain
        (record st { json_fail_streak = 0; messages = st.messages ++ assistant raw ∷ [] }))
]

unfoldable pub store_compacted : LoopState → Option (List Message × ℤ) → Option LoopState
store_compacted st none = none
store_compacted st (some (messages, idx)) = some (record st { messages = messages; goal_idx = idx })

unfoldable pub compact_context : Setting → LoopState → Option LoopState
unfolding maybe_compact store_compacted
compact_context set st = store_compacted st (
    maybe_compact set.services set.cfg st.messages set.ctx_max_tokens (pos_part st.goal_idx)
      set.tool_defs_tokens)

-- The prompt after inactivity, when it is due.
abbrev pub inactivity_prompt : StepWorld → LoopState → Option Text
inactivity_prompt w st = if not st.warned_inactivity && ltb 1 st.step then w.inactivity else none

-- The rest of a step, from the compacted state.
unfoldable pub answered : Setting → StepWorld → LoopState → Option (StepEnd × LoopState)
unfolding answer_turn take_turn
answered set w compacted = elim (request_turn set w compacted) [
  | none ↦ none
  | some (turn, asked) ↦ some (take_turn set w turn asked)
]

unfoldable pub think : Setting → StepWorld → LoopState → Option (StepEnd × LoopState)
unfolding compact_context answered
think set w st = elim (compact_context set (record st { step = suc st.step })) [
  | none ↦ none
  | some compacted ↦ answered set w compacted
]

unfoldable pub run_single_step : Setting → StepWorld → LoopState → Option (StepEnd × LoopState)
unfolding think
run_single_step set w st =
    if w.cancelled_before then some (early cancelled_run, st) else elim (inactivity_prompt w st) [
      | some prompt ↦ some (
        go_on,
        record st { warned_inactivity = true; messages = st.messages ++ user prompt ∷ [] },
      )
      | none ↦ think set w st
    ]

abbrev is_last_notified : Option ℕ → ℕ → Bool
is_last_notified none step = false
is_last_notified (some n) step = n == step

unfoldable pub milestone : Setting → LoopState → LoopState
milestone set st =
    if ltb 0 set.step_notify_interval
      && ltb 0 st.step
      && not (is_last_notified st.last_notified_step st.step)
      && st.step % set.step_notify_interval == 0
    then record st { last_notified_step = some st.step; notified = st.notified ++ st.step ∷ [] }
    else st

-- `none` is a run that is not finished when the worlds run out.
unfoldable pub react_loop : Setting → List StepWorld → LoopState → Option RunResult × LoopState
unfolding run_single_step milestone
react_loop set [] st = (none, st)
react_loop set (w ∷ ws) st = elim (run_single_step set w st) [
  | none ↦ (none, st)
  | some (early result, after) ↦ (some result, after)
  | some (stop, after) ↦ (some stopped_by_operator, after)
  | some (go_on, after) ↦ react_loop set ws (milestone set after)
]
