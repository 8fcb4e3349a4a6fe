-- ===== src/React/Turns.antt =====
-- react_loop.py `_request_turn` and native_turns.py.
use smallpieclaw.Prelude.{
  ℕ, suc, ◌==◌, nat_eq, list_eq, string_eq, Bool, true, false, not, ◌&&◌, ◌||◌, Option, none, some,
  List, [], ◌∷◌, map, if◌then◌else◌, ltb, all,
}
use smallpieclaw.Compaction.{Text, ToolCall, Message}
use smallpieclaw.React.State.{
  max_empty_retries, user, assistant, Setting, LoopState, NativeReply, not_attempted, native_empty,
  native_call, native_text, permanent_error, retry, cancel, timeout, JsonReply, llm_cancelled,
  llm_error, json_text, StepWorld, RunResult, cancelled_run, llm_failed,
}

abbrev pub none_of : List ToolCall → Bool
none_of [] = true
none_of (call ∷ calls) = false

abbrev content_or_empty : Option Text → Text
content_or_empty none = []
content_or_empty (some text) = text

-- `_linearize_native_turns`, on one message
unfoldable pub linearize_message : Setting → Message → Message
linearize_message set m =
    if m.role == "assistant" && not (none_of m.tool_calls)
    then assistant (set.summary_of m.tool_calls)
    else if m.role == "tool"
    then user (content_or_empty m.content)
    else m

unfoldable pub linearize : Setting → List Message → List Message
unfolding linearize_message
linearize set messages = map (linearize_message set) messages

-- _append_native_tool_result
abbrev pub native_result : ToolCall → Text → List Message
native_result call content =
    record { role = "assistant"; content = none; tool_calls = call ∷ [] }
    ∷ record { role = "tool"; content = some content; tool_calls = [] }
    ∷ []

-- The outcome of `_request_turn`.
pub data Turn : Type 0 where
  call_turn : ToolCall → Turn
  -- the text, and whether it came from the native path
  text_turn : Text → (from_native : Bool) → Turn
  early_turn : RunResult → Turn
  raising_turn : Turn

-- The loop in JSON mode; `none` when the replies run out.
unfoldable pub json_turn :
    Setting → (empty_retries : ℕ) → List JsonReply → LoopState → Option (Turn × LoopState)
unfolding all linearize
json_turn set empty_retries [] st = none
json_turn set empty_retries (llm_cancelled ∷ replies) st = some (early_turn cancelled_run, st)
json_turn set empty_retries (llm_error message retry ∷ replies) st =
    json_turn set empty_retries replies
      (record st { has_checkpoint = st.has_checkpoint || set.checkpoint_enabled })
json_turn set empty_retries (llm_error message cancel ∷ replies) st = some (
  early_turn (llm_failed message),
  record st { has_checkpoint = st.has_checkpoint && not set.checkpoint_enabled },
)
json_turn set empty_retries (llm_error message timeout ∷ replies) st = some (
  early_turn (llm_failed message),
  record st { has_checkpoint = st.has_checkpoint || set.checkpoint_enabled },
)
json_turn set empty_retries (json_text raw ∷ replies) st =
    let again = json_turn set (suc empty_retries) replies st in
    if all set.services.is_space raw && ltb empty_retries max_empty_retries
    then again
    else some (text_turn raw false, record st { messages = linearize set st.messages })

unfoldable pub answer_turn :
    Setting → NativeReply → List JsonReply → LoopState → Option (Turn × LoopState)
unfolding json_turn
answer_turn set not_attempted json st = json_turn set 0 json st
answer_turn set native_empty json st = some (text_turn [] false, st)
answer_turn set (native_call call) json st = some (call_turn call, st)
answer_turn set (native_text []) json st = some (text_turn [] false, st)
answer_turn set (native_text (c ∷ text)) json st = some (text_turn (c ∷ text) true, st)
answer_turn set permanent_error json st = some (raising_turn, st)

abbrev pub request_turn : Setting → StepWorld → LoopState → Option (Turn × LoopState)
request_turn set w st = answer_turn set w.native w.json st
