-- ===== src/React/State.antt =====
-- The types of react_loop.py and of native_turns.py: what a run stays with, its state, and what one
-- iteration meets. `_LoopState`, `_init_messages`.
use smallpieclaw.Prelude.Int.{ℤ, pos}
use smallpieclaw.Prelude.{
  ℕ, String, nat_eq, list_eq, string_eq, Bool, false, Option, none, some, List, [], ◌∷◌, ◌++◌,
  length,
}
use smallpieclaw.Compaction.{Text, ToolCall, Message}
use smallpieclaw.Compaction.Compact.{Services, LlmCfg}

abbrev pub json_fail_limit : ℕ
json_fail_limit = 3

abbrev pub doom_loop_limit : ℕ
doom_loop_limit = 3

abbrev pub absolute_plan_ceiling : ℕ
absolute_plan_ceiling = 200

abbrev pub max_empty_retries : ℕ
max_empty_retries = 2

abbrev pub user : Text → Message
user content = record { role = "user"; content = some content; tool_calls = [] }

abbrev pub assistant : Text → Message
assistant content = record { role = "assistant"; content = some content; tool_calls = [] }

-- A parsed action object, with the keys that matter; `result` as `_finish_run` reads it.
pub record ActionObj : Type 0 where
  pub action : String
  pub tool : Text
  pub args : Text
  pub result : Text

-- What `json.loads` makes of a text: an object, with or without an action, or anything else, as an
-- error.
pub data Loaded : Type 0 where
  object : ActionObj → (has_action : Bool) → Loaded
  other : Loaded

pub record Setting : Type 0 where
  pub services : Services
  pub cfg : LlmCfg
  pub ctx_max_tokens : ℕ
  pub tool_defs_tokens : ℕ
  -- json.loads, and the search for a fenced object
  pub loads : Text → Loaded
  pub fence_match : Text → Option Text
  -- the result in the arguments of a call of `finish`, as `_finish_run` reads it
  pub result_of : Text → Text
  -- str.strip
  pub strip : Text → Text
  -- the names of the builtin tools, and a name as a text
  pub builtin_names : List String
  pub name_of : String → Text
  -- the line for calls that `_linearize_native_turns` writes
  pub summary_of : List ToolCall → Text
  -- the texts of the prompt for JSON and for an unknown action
  pub json_prompt : Text
  pub unknown_action : String → Text
  pub step_notify_interval : ℕ
  pub checkpoint_enabled : Bool

pub record LoopState : Type 0 where
  pub messages : List Message
  pub goal_idx : ℤ
  pub max_steps : ℕ
  pub step : ℕ
  pub json_fail_streak : ℕ
  pub operator_cancelled : Bool
  pub warned_inactivity : Bool
  pub last_tool_fail_key : Text
  pub tool_fail_repeat : ℕ
  pub last_notified_step : Option ℕ
  -- the steps for which a milestone was sent, and whether a checkpoint of the run is stored
  pub notified : List ℕ
  pub has_checkpoint : Bool

-- The answer of the native call, when there is one.
pub data NativeReply : Type 0 where
  not_attempted native_empty : NativeReply
  native_call : ToolCall → NativeReply
  native_text : Text → NativeReply
  permanent_error : NativeReply

pub data RetryAnswer : Type 0 where
  retry cancel timeout : RetryAnswer

-- One call in JSON mode. An error comes with what the operator answers to it.
pub data JsonReply : Type 0 where
  llm_cancelled : JsonReply
  llm_error : (message : Text) → RetryAnswer → JsonReply
  json_text : Text → JsonReply

pub record ToolOutcome : Type 0 where
  -- outcome.get("success")
  pub success : Option Bool
  pub error : Text
  pub operator_cancelled : Bool
  pub formatted : Text

pub record StepWorld : Type 0 where
  pub cancelled_before : Bool
  -- the prompt after a long time without a step
  pub inactivity : Option Text
  pub native : NativeReply
  pub json : List JsonReply
  pub outcome : ToolOutcome
  -- the plan's message, and its new limit of steps
  pub plan_message : Text
  pub plan_steps : Option ℕ
  pub cancelled_after : Bool

-- What `react_loop` returns, or how it ends otherwise.
pub data RunResult : Type 0 where
  cancelled_run stopped_by_operator : RunResult
  llm_failed : (message : Text) → RunResult
  protocol_error : (streak : ℕ) → (raw : Text) → RunResult
  finished : Text → RunResult
  stuck : (tool : Text) → (repeats : ℕ) → (error : Text) → RunResult
  -- LLMPermanentError
  raised : RunResult

-- How one iteration ends.
pub data StepEnd : Type 0 where
  go_on stop : StepEnd
  early : RunResult → StepEnd

-- _init_messages and the state of a new run
unfoldable pub initial_state : List Message → Text → LoopState
initial_state short_term user_goal = record {
  messages = short_term ++ user user_goal ∷ [];
  goal_idx = pos (length short_term);
  max_steps = 10000000;
  step = 0;
  json_fail_streak = 0;
  operator_cancelled = false;
  warned_inactivity = false;
  last_tool_fail_key = [];
  tool_fail_repeat = 0;
  last_notified_step = none;
  notified = [];
  has_checkpoint = false;
}
