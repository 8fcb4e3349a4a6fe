-- ===== src/Compaction.antt =====
-- context_manager.py: the truncation of texts and `_cap_short_overbudget_context`. Text is the list
-- of its code points; `marker` is the line for the characters left out, and `estimate` stands for
-- `estimate_messages_tokens` of prompt_builder.py. Content that is not text is `none`.
pub mod Compact
pub mod Shrinking
mod Tests
use smallpieclaw.Prelude.{
  ℕ, zero, suc, ◌+◌, ◌-◌, ◌/◌, max, String, Bool, true, false, ◌&&◌, Option, none, some, List, [],
  ◌∷◌, ◌++◌, map, if◌then◌else◌, leb, ltb, length, take, drop,
}

abbrev pub Text : Type 0
Text = List ℕ

-- The name and the arguments of a native tool call.
pub record ToolCall : Type 0 where
  pub name : Text
  pub arguments : Text

-- `tool_calls` is empty when the message has no such key.
pub record Message : Type 0 where
  pub role : String
  pub content : Option Text
  pub tool_calls : List ToolCall

abbrev pub recent_head : ℕ
recent_head = 3000

abbrev pub recent_tail : ℕ
recent_tail = 3000

abbrev pub shrink_floor : ℕ
shrink_floor = 400

-- text[-n:], which is all of the text for 0.
unfoldable pub last_chars : ℕ → Text → Text
last_chars zero text = text
last_chars (suc n) text = drop (length text - suc n) text

module _ (marker : ℕ → Text) where
  -- `marker n` is the line that says that `n` characters are left out.
  unfoldable pub truncate_head_tail : Text → ℕ → ℕ → Text
  unfolding last_chars
  truncate_head_tail text head tail =
      if leb (length text) (head + tail)
      then text
      else take head text ++ (marker (length text - head - tail) ++ last_chars tail text)

  abbrev pub capped_content : ℕ → Option Text → Option Text
  capped_content limit none = none
  capped_content limit (some text) =
      some
        (if ltb limit (length text) then truncate_head_tail text (limit / 2) (limit / 2) else text)

  unfoldable pub cap_string_message : Message → ℕ → Message
  unfolding truncate_head_tail
  cap_string_message m limit = record m { content = capped_content limit m.content }

  abbrev pub capped : List Message → ℕ → List Message
  capped messages limit = map (λ m. cap_string_message m limit) messages

  module _ (estimate : List Message → ℕ) (messages : List Message) (threshold : ℕ) where
    -- The `while` loop, to the limit at which it ends; `none` means that the fuel ran out.
    unfoldable pub shrink : ℕ → ℕ → Option ℕ
    shrink zero limit = none
    shrink (suc fuel) limit =
        let rest = shrink fuel (max shrink_floor (limit / 2)) in
        if ltb threshold (estimate (capped messages limit)) && ltb shrink_floor limit
        then rest
        else some limit

    unfoldable pub cap_short_overbudget_context : Option (List Message)
    unfolding shrink cap_string_message
    cap_short_overbudget_context = elim (shrink 5 (recent_head + recent_tail)) [
      | none ↦ none
      | some limit ↦ some (capped messages limit)
    ]
