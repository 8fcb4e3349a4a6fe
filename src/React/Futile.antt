-- ===== src/React/Futile.antt =====
-- One futile turn: its answer, and what it does to the counters of failures.
use smallpieclaw.Prelude.Int.{pos_part}
use smallpieclaw.Prelude.{
  ℕ, suc, ◌+◌, ◌*◌, ◌≤◌, ◌==◌, nat_eq, list_eq, string_eq, ==_self, ◌≡◌, inl, inr, refl, ap, ◌∙◌,
  Bool, true, false, ◌||◌, none, some, List, [], ◌∷◌, ◌++◌, arith, all, take, get_elem?, leb,
  if◌then◌else◌, Bool-cases,
}
use smallpieclaw.Compaction.{Text, ToolCall, Message}
use smallpieclaw.Compaction.Compact.Result.{maybe_compact-goal}
use smallpieclaw.React.State.{
  Setting, LoopState, StepWorld, RunResult, assistant, json_text, not_attempted, native_empty,
  native_call, native_text, ActionObj, stopped_by_operator, protocol_error, stuck, StepEnd, go_on,
  stop, early, doom_loop_limit, json_fail_limit,
}
use smallpieclaw.React.Turns.{Turn, call_turn, text_turn, answer_turn, json_turn, linearize}
use smallpieclaw.React.Dispatch.{
  Sink, plain, native, action_of_call, action_of_text, handle_non_json, count_failure,
  dispatch_tool,
}
use smallpieclaw.React.Step.{conclude_step, take_turn, compact_context, store_compacted}
use smallpieclaw.React.Kept.{Holds}

-- The answer to the model's call is this turn.
pub data Answers (set : Setting) (w : StepWorld) : Turn → Type 0 where
  by_call : (call : ToolCall) → w.native ≡ native_call call → Answers set w (call_turn call)
  by_prose :
      (c : _) (raw : Text)
      → w.native ≡ native_text (c ∷ raw)
      → Answers set w (text_turn (c ∷ raw) true)
  by_nothing : w.native ≡ native_empty → Answers set w (text_turn [] false)
  by_json :
      (raw : Text) (more : List _)
      → w.native ≡ not_attempted
      → w.json ≡ json_text raw ∷ more
      → all set.services.is_space raw ≡ false
      → Answers set w (text_turn raw false)

-- The tool's run failed with an error that starts with this text.
abbrev FailsWith : Setting → StepWorld → Text → Type 0
FailsWith set w error =
    (w.outcome.success ≡ some false) × (take 200 (set.strip w.outcome.error) ≡ error)

-- The turn calls the tool, which fails with the error, or is no JSON.
pub data IsFutile (set : Setting) (w : StepWorld) (tool error : Text) : Turn → Type 0 where
  failing_call :
      (call : ToolCall)
      → action_of_call set call
        ≡ record { action = "tool"; tool = tool; args = call.arguments; result = [] }
      → FailsWith set w error
      → IsFutile set w tool error (call_turn call)
  failing_text :
      (raw : Text) (from_native : Bool) (obj : ActionObj)
      → action_of_text set raw from_native ≡ some obj
      → obj.action ≡ "tool"
      → obj.tool ≡ tool
      → FailsWith set w error
      → IsFutile set w tool error (text_turn raw from_native)
  no_json :
      (raw : Text) (from_native : Bool)
      → action_of_text set raw from_native ≡ none
      → IsFutile set w tool error (text_turn raw from_native)

-- A step that no cancellation and no prompt cuts off, and whose answer is futile.
abbrev pub IsFruitless : Setting → (tool error : Text) → StepWorld → Type 0
IsFruitless set tool error w =
    (w.cancelled_before ≡ false)
    × (w.inactivity ≡ none)
    × (turn : Turn) × Answers set w turn
    × IsFutile set w tool error turn

-- The counters of failures are the same.
abbrev pub SameCounts : LoopState → LoopState → Type 0
SameCounts st after =
    (after.json_fail_streak ≡ st.json_fail_streak)
    × (after.last_tool_fail_key ≡ st.last_tool_fail_key)
    × (after.tool_fail_repeat ≡ st.tool_fail_repeat)

pub answer_turn-Answers :
    (set : Setting) (w : StepWorld) (turn : Turn)
    → Answers set w turn
    → (st : LoopState)
    → (after : LoopState) × (answer_turn set w.native w.json st ≡ some (turn, after))
      × SameCounts st after
unfolding answer_turn json_turn
answer_turn-Answers set w t (by_call call h) st = (st, rw (h, answer_turn) refl, (refl, refl, refl))
answer_turn-Answers set w t (by_prose c raw h) st =
    (st, rw (h, answer_turn) refl, (refl, refl, refl))
answer_turn-Answers set w t (by_nothing h) st = (st, rw (h, answer_turn) refl, (refl, refl, refl))
answer_turn-Answers set w t (by_json raw more h replies full) st = (
  record st { messages = linearize set st.messages },
  rw (h, replies, full, answer_turn, json_turn) refl,
  (refl, refl, refl),
)

pub compact-runs :
    (set : Setting) (goal : Message) (st : LoopState)
    → Holds set goal st
    → (after : LoopState) × (compact_context set st ≡ some after) × SameCounts st after
unfolding compact_context store_compacted
compact-runs set goal st (i, m, index, at, c) =
    let there : get_elem? st.messages (pos_part st.goal_idx) ≡ some m =
      ap (λ j. get_elem? st.messages (pos_part j)) index ∙ at in
    let (result, idx, runs, found) =
      maybe_compact-goal set.services set.cfg st.messages set.ctx_max_tokens (pos_part st.goal_idx)
        set.tool_defs_tokens m there in
    (
      record st { messages = result; goal_idx = idx },
      ap (store_compacted st) runs,
      (refl, refl, refl),
    )

-- The number of failures in a row with this key.
abbrev streak : Text → LoopState → ℕ
streak key st = if st.last_tool_fail_key == key then st.tool_fail_repeat else 0

-- A state between two steps, after `n` futile steps at least.
abbrev pub Runs : Text → ℕ → LoopState → Type 0
Runs key n st =
    (n ≤ 3 * streak key st + st.json_fail_streak) × (st.json_fail_streak ≤ 2) × (streak key st ≤ 2)

-- The run gives up: the tool failed 3 times in a row at least, 3 answers at least were no JSON, or
-- the operator stopped it.
pub data GivesUp (tool error : Text) : RunResult → Type 0 where
  as_stuck : (repeats : ℕ) → 3 ≤ repeats → GivesUp tool error (stuck tool repeats error)
  as_protocol : (times : ℕ) (raw : Text) → 3 ≤ times → GivesUp tool error (protocol_error times raw)
  as_stopped : GivesUp tool error stopped_by_operator

-- What a futile step may end in, after `n` futile steps.
pub data IsNext (tool error key : Text) (n : ℕ) : StepEnd × LoopState → Type 0 where
  continues : (after : LoopState) → Runs key n after → IsNext tool error key n (go_on, after)
  stops : (after : LoopState) → IsNext tool error key n (stop, after)
  gives_up :
      (result : RunResult) (after : LoopState)
      → GivesUp tool error result
      → IsNext tool error key n (early result, after)

abbrev pub key_of : Text → Text → Text
key_of tool error = tool ++ (b':' ∷ error)

dispatch_tool-IsNext :
    (set : Setting) (w : StepWorld) (tool error : Text) (sink : Sink) (n : ℕ) (st : LoopState)
    → FailsWith set w error
    → n ≤ 3 * suc (streak (key_of tool error) st) + st.json_fail_streak
    → st.json_fail_streak ≤ 2
    → IsNext tool error (key_of tool error) n (conclude_step set (dispatch_tool set w tool sink st))
unfolding conclude_step dispatch_tool count_failure
dispatch_tool-IsNext set w tool error sink n st (fails, starts) low few =
    let key = key_of tool error in
    let self : (key == key) ≡ true = ==_self key in
    elim (Bool-cases (st.last_tool_fail_key == key)) [
      | inl same ↦ elim (Bool-cases (leb doom_loop_limit (suc st.tool_fail_repeat))) [
        | inl often ↦
            rw (fails, starts, same, often, dispatch_tool, conclude_step)
              (gives_up _ _ (as_stuck (suc st.tool_fail_repeat) (ground (arith, often))))
        | inr again ↦
            elim (Bool-cases
              (st.operator_cancelled || w.outcome.operator_cancelled || w.cancelled_after)) [
                | inl cancelled ↦
                    rw (fails, starts, same, again, cancelled, dispatch_tool, conclude_step)
                      (stops _)
                | inr goes ↦
                    rw (fails, starts, same, again, goes, dispatch_tool, conclude_step)
                      (continues _
                        (ground (arith, low, same, self), few, ground (arith, again, self)))
              ]
      ]
      | inr other ↦
          elim (Bool-cases
            (st.operator_cancelled || w.outcome.operator_cancelled || w.cancelled_after)) [
              | inl cancelled ↦
                  rw (fails, starts, other, cancelled, dispatch_tool, conclude_step) (stops _)
              | inr goes ↦
                  rw (fails, starts, other, goes, dispatch_tool, conclude_step)
                    (continues _ (ground (arith, low, other, self), few, ground (arith, self)))
            ]
    ]

handle_non_json-IsNext :
    (set : Setting) (tool error raw : Text) (n : ℕ) (st : LoopState)
    → Runs (key_of tool error) n st
    → IsNext tool error (key_of tool error) (suc n) (handle_non_json set raw st)
unfolding handle_non_json
handle_non_json-IsNext set tool error raw n st (low, few, rare) =
    elim (Bool-cases (leb json_fail_limit (suc st.json_fail_streak))) [
      | inl over ↦
          rw (over, handle_non_json)
            (gives_up _ _ (as_protocol (suc st.json_fail_streak) raw (ground (arith, over))))
      | inr again ↦
          rw (again, handle_non_json)
            (continues _ (ground (arith, low), ground (arith, again), rare))
    ]

pub take_turn-IsNext :
    (set : Setting) (w : StepWorld) (tool error : Text) (turn : Turn) (n : ℕ) (st : LoopState)
    → IsFutile set w tool error turn
    → Runs (key_of tool error) n st
    → IsNext tool error (key_of tool error) (suc n) (take_turn set w turn st)
unfolding take_turn
take_turn-IsNext set w tool error t n st (failing_call call reads fails) (low, few, rare) =
    rw (reads, take_turn)
      (dispatch_tool-IsNext set w tool error (native call) (suc n) st fails (ground (arith, low))
        few)
take_turn-IsNext set w tool error t n st (failing_text raw from_native obj reads acts names fails)
      (low, few, rare) =
    let noted : LoopState = record st {
      json_fail_streak = 0;
      messages = st.messages ++ assistant raw ∷ [];
    } in
    rw (reads, acts, names, take_turn)
      (dispatch_tool-IsNext set w tool error plain (suc n) noted fails (ground (arith, low, few))
        (ground arith))
take_turn-IsNext set w tool error t n st (no_json raw from_native reads) runs =
    rw (reads, take_turn) (handle_non_json-IsNext set tool error raw n st runs)
