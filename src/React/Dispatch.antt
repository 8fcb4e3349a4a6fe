-- ===== src/React/Dispatch.antt =====
-- react_loop.py `_normalize_shorthand_action`, `_handle_non_json` and `_dispatch_action`.
use smallpieclaw.Prelude.{
  ℕ, suc, ◌==◌, nat_eq, list_eq, string_eq, Bool, false, not, ◌&&◌, ◌||◌, Option, none, some, List,
  [], ◌∷◌, ◌++◌, if◌then◌else◌, leb, min, max, take, contains,
}
use smallpieclaw.Compaction.{Text, ToolCall, Message}
use smallpieclaw.React.Extract.{parse_json}
use smallpieclaw.React.State.{
  json_fail_limit, doom_loop_limit, absolute_plan_ceiling, user, assistant, ActionObj, Setting,
  LoopState, ToolOutcome, StepWorld, RunResult, protocol_error, finished, stuck, StepEnd, go_on,
  early,
}
use smallpieclaw.React.Turns.{native_result}

abbrev plan_name : Text
plan_name = b'p' ∷ b'l' ∷ b'a' ∷ b'n' ∷ []

abbrev finish_name : Text
finish_name = b'f' ∷ b'i' ∷ b'n' ∷ b'i' ∷ b's' ∷ b'h' ∷ []

-- _normalize_shorthand_action
unfoldable normalize_shorthand_action : Setting → ActionObj → ActionObj
unfolding contains
normalize_shorthand_action set obj =
    if contains set.builtin_names obj.action
    then record obj { action = "tool"; tool = set.name_of obj.action }
    else obj

-- Where a result goes: to a plain message, or to the messages of a native call.
pub data Sink : Type 0 where
  plain : Sink
  native : ToolCall → Sink

abbrev pub sink_messages : Sink → Text → List Message
sink_messages plain content = user content ∷ []
sink_messages (native call) content = native_result call content

abbrev push : Sink → Text → LoopState → LoopState
push sink content st = record st { messages = st.messages ++ sink_messages sink content }

abbrev pub action_of_call : Setting → ToolCall → ActionObj
action_of_call set call =
    if call.name == plan_name
    then record { action = "plan"; tool = []; args = call.arguments; result = [] }
    else if call.name == finish_name
    then record { action = "finish"; tool = []; args = []; result = set.result_of call.arguments }
    else record { action = "tool"; tool = call.name; args = call.arguments; result = [] }

-- The action of a text; `none` is the ValueError for a text that is no JSON.
unfoldable pub action_of_text : Setting → Text → (from_native : Bool) → Option ActionObj
unfolding normalize_shorthand_action parse_json
action_of_text set raw from_native = elim (parse_json set raw) [
  | some obj ↦ some (normalize_shorthand_action set obj)
  | none ↦
      if from_native
      then some (record { action = "finish"; tool = []; args = []; result = raw })
      else none
]

unfoldable pub handle_non_json : Setting → Text → LoopState → StepEnd × LoopState
handle_non_json set raw st =
    let streak = suc st.json_fail_streak in
    if leb json_fail_limit streak
    then (early (protocol_error streak raw), record st { json_fail_streak = streak })
    else (
      go_on,
      record st {
        json_fail_streak = streak;
        messages = st.messages ++ (assistant raw ∷ user set.json_prompt ∷ []);
      },
    )

-- f"{tool_name}:{error_text[:200]}"
abbrev fail_key : Setting → Text → ToolOutcome → Text
fail_key set tool outcome = tool ++ (b':' ∷ take 200 (set.strip outcome.error))

abbrev is_false : Option Bool → Bool
is_false none = false
is_false (some b) = not b

-- The count of identical failures, behind an outcome.
unfoldable pub count_failure : Setting → Text → ToolOutcome → LoopState → LoopState
count_failure set tool outcome st =
    let key = fail_key set tool outcome in
    if is_false outcome.success
    then record st {
      tool_fail_repeat = if st.last_tool_fail_key == key then suc st.tool_fail_repeat else 1;
      last_tool_fail_key = key;
    }
    else record st { tool_fail_repeat = 0; last_tool_fail_key = [] }

unfoldable pub dispatch_tool :
    Setting → StepWorld → Text → Sink → LoopState → Option RunResult × LoopState
unfolding count_failure
dispatch_tool set w tool sink st =
    let counted = count_failure set tool w.outcome (push sink w.outcome.formatted st) in
    if is_false w.outcome.success && leb doom_loop_limit counted.tool_fail_repeat
    then (
      some (stuck tool counted.tool_fail_repeat (take 200 (set.strip w.outcome.error))),
      counted,
    )
    else (
      none,
      record counted {
        operator_cancelled =
            counted.operator_cancelled || w.outcome.operator_cancelled || w.cancelled_after;
      },
    )

abbrev new_limit : Option ℕ → LoopState → ℕ
new_limit none st = st.max_steps
new_limit (some n) st = max st.step (min n absolute_plan_ceiling)

unfoldable pub dispatch_plan : StepWorld → Sink → LoopState → LoopState
dispatch_plan w sink st = push sink w.plan_message (record st {
  max_steps = new_limit w.plan_steps st;
  operator_cancelled = st.operator_cancelled || w.cancelled_after;
})

unfoldable pub dispatch_action :
    Setting → StepWorld → ActionObj → Sink → LoopState → Option RunResult × LoopState
unfolding dispatch_tool dispatch_plan
dispatch_action set w obj sink st =
    if obj.action == "finish"
    then (some (finished obj.result), st)
    else if obj.action == "tool"
    then dispatch_tool set w obj.tool sink st
    else if obj.action == "plan"
    then (none, dispatch_plan w sink st)
    else (none, push sink (set.unknown_action obj.action) st)
