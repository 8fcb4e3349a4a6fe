-- ===== src/React/Appends.antt =====
-- What a turn does to the messages: it adds some at the end.
use mathlib.Core.List.{append-nil, append_assoc}
use smallpieclaw.Prelude.{
  suc, ◌==◌, string_eq, ◌≡◌, inl, inr, refl, sym, ◌∙◌, Option, none, some, List, [], ◌∷◌, ◌++◌,
  arith, Bool-cases, Option-cases, leb,
}
use smallpieclaw.Compaction.{Text, Message}
use smallpieclaw.React.State.{
  json_fail_limit, user, assistant, ActionObj, Setting, LoopState, StepWorld, RunResult,
}
use smallpieclaw.React.Turns.{Turn, call_turn, text_turn, early_turn, raising_turn}
use smallpieclaw.React.Dispatch.{
  Sink, plain, native, sink_messages, action_of_call, action_of_text, handle_non_json,
  count_failure, dispatch_tool, dispatch_plan, dispatch_action,
}
use smallpieclaw.React.Step.{conclude_step, take_turn}

-- The state has the same goal index and more messages at the end.
abbrev pub Extends : LoopState → LoopState → Type 0
Extends st after =
    (after.goal_idx ≡ st.goal_idx) × (more : List Message) × (after.messages ≡ st.messages ++ more)

stays : (st : LoopState) → Extends st st
stays st = (refl, [], sym (append-nil st.messages))

dispatch_tool-Extends :
    (set : Setting) (w : StepWorld) (tool : Text) (sink : Sink) (st : LoopState)
    → Extends st (dispatch_tool set w tool sink st).1
unfolding dispatch_tool count_failure
dispatch_tool-Extends set w tool sink st =
    (ground arith, sink_messages sink w.outcome.formatted, ground arith)

dispatch_action-Extends :
    (set : Setting) (w : StepWorld) (obj : ActionObj) (sink : Sink) (st : LoopState)
    → Extends st (dispatch_action set w obj sink st).1
unfolding dispatch_action dispatch_plan
dispatch_action-Extends set w obj sink st = elim (Bool-cases (obj.action == "finish")) [
  | inl ends ↦ rw (ends, dispatch_action) (stays st)
  | inr acts ↦ elim (Bool-cases (obj.action == "tool")) [
    | inl tool ↦ rw (acts, tool, dispatch_action) (dispatch_tool-Extends set w obj.tool sink st)
    | inr other ↦ elim (Bool-cases (obj.action == "plan")) [
      | inl plan ↦
          rw (acts, other, plan, dispatch_action) (refl, sink_messages sink w.plan_message, refl)
      | inr unknown ↦
          rw (acts, other, unknown, dispatch_action)
            (refl, sink_messages sink (set.unknown_action obj.action), refl)
    ]
  ]
]

conclude_step-Extends :
    (set : Setting) (st : LoopState) (end : Option RunResult × LoopState)
    → Extends st end.1
    → Extends st (conclude_step set end).1
unfolding conclude_step
conclude_step-Extends set st (some result, after) h = h
conclude_step-Extends set st (none, after) h = elim (Bool-cases after.operator_cancelled) [
  | inl cancelled ↦ rw (cancelled, conclude_step) h
  | inr goes ↦ rw (goes, conclude_step) h
]

handle_non_json-Extends :
    (set : Setting) (raw : Text) (st : LoopState) → Extends st (handle_non_json set raw st).1
unfolding handle_non_json
handle_non_json-Extends set raw st =
    elim (Bool-cases (leb json_fail_limit (suc st.json_fail_streak))) [
      | inl over ↦ rw (over, handle_non_json) (stays st)
      | inr again ↦
          rw (again, handle_non_json) (refl, assistant raw ∷ user set.json_prompt ∷ [], refl)
    ]

pub take_turn-Extends :
    (set : Setting) (w : StepWorld) (turn : Turn) (st : LoopState)
    → Extends st (take_turn set w turn st).1
unfolding take_turn
take_turn-Extends set w (early_turn result) st = stays st
take_turn-Extends set w raising_turn st = stays st
take_turn-Extends set w (call_turn call) st =
    conclude_step-Extends set st _
      (dispatch_action-Extends set w (action_of_call set call) (native call) st)
take_turn-Extends set w (text_turn raw from_native) st =
    elim (Option-cases (action_of_text set raw from_native)) [
      | inl prose ↦ rw (prose, take_turn) (handle_non_json-Extends set raw st)
      | inr (obj, parsed) ↦
          let noted : LoopState = record st {
            json_fail_streak = 0;
            messages = st.messages ++ assistant raw ∷ [];
          } in
          let (same, more, longer) =
            conclude_step-Extends set noted _ (dispatch_action-Extends set w obj plain noted) in
          rw (parsed, take_turn)
            (
              same,
              assistant raw ∷ more,
              longer ∙ append_assoc st.messages (assistant raw ∷ []) more,
            )
    ]
