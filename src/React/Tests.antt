-- ===== src/React/Tests.antt =====
-- Runs of `react_loop` with a model that calls a tool that fails, and that answers prose.
use smallpieclaw.Prelude.{
  ◌≡◌, refl, true, false, none, some, List, [], ◌∷◌, ◌++◌, arith, all, length, list_beq, ◌*◌,
  if◌then◌else◌, ◌==◌, nat_eq,
}
use smallpieclaw.Compaction.{Text, ToolCall}
use smallpieclaw.React.Extract.{extract_json_candidates, parse_json}
use smallpieclaw.React.Parsing.{ReadsFrom, parse_json-ReadsFrom}
use smallpieclaw.React.State.{
  ActionObj, Loaded, object, other, Setting, LoopState, StepWorld, RunResult, ToolOutcome, user,
  assistant, json_text, not_attempted, native_call, initial_state, finished, protocol_error, stuck,
}
use smallpieclaw.React.Dispatch.{action_of_text}
use smallpieclaw.React.Step.{react_loop}
use smallpieclaw.React.Goal.{react_loop-initial_state}
use smallpieclaw.React.Kept.{Holds, whole}
use smallpieclaw.React.Futile.{IsFruitless, GivesUp, by_json, failing_call, no_json, by_call}
use smallpieclaw.React.Fruitless.{react_loop-fruitless}

-- Ten tokens a message, and no answer that is JSON.
abbrev setting : Setting
setting = record {
  services = record {
    marker = λ n. b'#' ∷ [];
    estimate = λ ms. 10 * length ms;
    margin = λ n. n;
    chat = λ text. none;
    is_space = λ c. false;
    characters = λ role. b'u' ∷ [];
    other = [];
  };
  cfg = record { context_window = none; max_tokens = some 100 };
  ctx_max_tokens = 10000;
  tool_defs_tokens = 0;
  loads = λ text. other;
  fence_match = λ text. none;
  result_of = λ text. text;
  strip = λ text. text;
  builtin_names = "shell" ∷ [];
  name_of = λ name. b's' ∷ [];
  summary_of = λ calls. b'C' ∷ [];
  json_prompt = b'J' ∷ [];
  unknown_action = λ name. b'?' ∷ [];
  step_notify_interval = 2;
  checkpoint_enabled = true;
}

abbrev goal : Text
goal = b'g' ∷ []

abbrev call : ToolCall
call = record { name = b's' ∷ []; arguments = b'a' ∷ [] }

abbrev failure : ToolOutcome
failure = record {
  success = some false;
  error = b'e' ∷ [];
  operator_cancelled = false;
  formatted = b'F' ∷ [];
}

-- A step in which the model calls the tool, which fails.
abbrev failing : StepWorld
failing = record {
  cancelled_before = false;
  inactivity = none;
  native = native_call call;
  json = [];
  outcome = failure;
  plan_message = [];
  plan_steps = none;
  cancelled_after = false;
}

-- A step in which the model answers prose.
abbrev prose : StepWorld
prose = record failing { native = not_attempted; json = json_text (b'p' ∷ []) ∷ [] }

abbrev start : LoopState
start = initial_state (assistant (b'o' ∷ []) ∷ []) goal

-- Three failures in a row end the run.
stuck_run :
    (react_loop setting (failing ∷ failing ∷ failing ∷ prose ∷ []) start).0
    ≡ some (stuck call.name 3 failure.error)
unfolding react_loop initial_state list_beq
stuck_run = refl

-- A native call between them does not reset the number of answers that are no JSON.
not_in_a_row :
    (react_loop setting (prose ∷ failing ∷ prose ∷ failing ∷ prose ∷ []) start).0
    ≡ some (protocol_error 3 (b'p' ∷ []))
unfolding react_loop initial_state list_beq
not_in_a_row = refl

-- A native call of `finish`.
finished_run :
    (react_loop setting
      (failing
        ∷ record failing {
          native = native_call (record {
            name = b'f' ∷ b'i' ∷ b'n' ∷ b'i' ∷ b's' ∷ b'h' ∷ [];
            arguments = b'd' ∷ [];
          });
        }
        ∷ [])
      start).0
    ≡ some (finished (b'd' ∷ []))
unfolding react_loop initial_state list_beq
finished_run = refl

react_loop-initial_state_example :
    Holds setting
      (user goal)
      (react_loop setting
        (failing ∷ prose ∷ [])
        (initial_state (assistant (b'o' ∷ []) ∷ []) goal)).1
react_loop-initial_state_example =
    react_loop-initial_state setting (failing ∷ prose ∷ []) (assistant (b'o' ∷ []) ∷ []) goal

failing-IsFruitless : IsFruitless setting call.name failure.error failing
unfolding list_beq
failing-IsFruitless = (refl, refl, _, by_call call refl, failing_call call refl (refl, refl))

prose-IsFruitless : IsFruitless setting call.name failure.error prose
unfolding action_of_text all
prose-IsFruitless =
    (refl, refl, _, by_json (b'p' ∷ []) [] refl refl refl, no_json (b'p' ∷ []) false refl)

abbrev round : List StepWorld
round = failing ∷ prose ∷ failing ∷ []

react_loop-fruitless_example :
    (result : RunResult) × ((react_loop setting (round ++ round ++ round) start).0 ≡ some result)
    × GivesUp call.name failure.error result
unfolding initial_state
react_loop-fruitless_example =
    let f = failing-IsFruitless in
    let p = prose-IsFruitless in
    react_loop-fruitless setting goal call.name failure.error (round ++ round ++ round) start
      (f, (p, (f, (f, (p, (f, (f, (p, (f, tt))))))))) (omega arith)
      (1, user goal, refl, refl, whole) (omega arith) (omega arith)

-- Objects in prose are found, and a brace in a string is no brace.
found :
    extract_json_candidates (
      (b'a' ∷ b' ' ∷ b'{' ∷ b'b' ∷ b'}' ∷ b' ' ∷ b'{' ∷ b'c' ∷ b'{' ∷ b'"' ∷ b'}' ∷ b'"' ∷ b'}'
        ∷ b'}' ∷ []))
    ≡ (b'{' ∷ b'b' ∷ b'}' ∷ []) ∷ (b'{' ∷ b'c' ∷ b'{' ∷ b'"' ∷ b'}' ∷ b'"' ∷ b'}' ∷ b'}' ∷ []) ∷ []
unfolding extract_json_candidates
found = refl

-- A closing brace before an object hides the object.
hidden : extract_json_candidates ((b'}' ∷ b' ' ∷ b'{' ∷ b'b' ∷ b'}' ∷ [])) ≡ []
unfolding extract_json_candidates
hidden = refl

abbrev shell : ActionObj
shell = record { action = "tool"; tool = call.name; args = []; result = [] }

abbrev loads_brace : Text → Loaded
loads_brace [] = other
loads_brace (c ∷ text) = if c == b'{' then object shell true else other

-- A setting in which every text that starts with a brace is an object.
abbrev reading : Setting
reading = record setting { loads = loads_brace }

parse_json-ReadsFrom_example : ReadsFrom reading ((b'a' ∷ b' ' ∷ b'{' ∷ b'b' ∷ b'}' ∷ [])) shell
unfolding parse_json
parse_json-ReadsFrom_example =
    parse_json-ReadsFrom reading ((b'a' ∷ b' ' ∷ b'{' ∷ b'b' ∷ b'}' ∷ [])) shell refl
