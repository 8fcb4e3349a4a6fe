-- ===== src/Compaction/Compact.antt =====
-- context_manager.py: `resolve_compaction_threshold`, `_format_middle_message`, `_fallback_summary`,
-- `_build_compacted` and `maybe_compact`. `Services` holds what the file takes from elsewhere. A
-- goal index that is negative is not modelled.
pub mod Division
pub mod Limits
pub mod Result
mod Tests
use smallpieclaw.Prelude.Int.{ℤ, pos, negsuc, difference, pos_part}
use smallpieclaw.Prelude.{
  ℕ, zero, suc, ◌+◌, ◌-◌, ◌/◌, ◌*◌, min, max, String, ◌==◌, string_eq, Bool, true, false, not, ◌&&◌,
  ◌||◌, Option, none, some, List, [], ◌∷◌, ◌++◌, map, if◌then◌else◌, leb, ltb, length, take, drop,
  all,
}
use smallpieclaw.Compaction.{
  Text, Message, recent_head, recent_tail, shrink_floor, truncate_head_tail, cap_string_message,
  cap_short_overbudget_context,
}

abbrev pub assistant_cap : ℕ
assistant_cap = 800

abbrev pub result_head : ℕ
result_head = 1200

abbrev pub result_tail : ℕ
result_tail = 1200

abbrev pub summary_cap : ℕ
summary_cap = 6000

-- The keys of the configuration that matter; `none` where a key is missing or None.
pub record LlmCfg : Type 0 where
  pub context_window : Option ℕ
  pub max_tokens : Option ℕ

pub record Services : Type 0 where
  -- the line that says how many characters are left out
  pub marker : ℕ → Text
  -- estimate_messages_tokens, with the system prompt
  pub estimate : List Message → ℕ
  -- int(n * 0.85)
  pub margin : ℤ → ℤ
  -- the model's answer to the prompt around this text; `none` when the call raises
  pub chat : Text → Option Text
  -- the characters that `str.strip` removes
  pub is_space : ℕ → Bool
  -- the code points of a role
  pub characters : String → Text
  -- `str(content or "")` where the content is not text
  pub other : Text

abbrev pub or_default : Option ℕ → ℕ → ℕ
or_default none n = n
or_default (some m) n = m

-- The effective window and the threshold, whose floor is positive.
unfoldable pub resolve_compaction_threshold : Services → LlmCfg → ℕ → ℕ × ℕ
unfolding difference
resolve_compaction_threshold sv cfg ctx_max_tokens =
    let stated = or_default cfg.context_window 0 in
    let effective = if leb stated 0 then ctx_max_tokens else stated in
    (
      effective,
      max (pos_part (sv.margin (difference effective (or_default cfg.max_tokens 1024)))) 256,
    )

-- "[Compacted context — earlier steps summary]" and a line feed
abbrev pub heading : Text
heading =
    b'[' ∷ b'C' ∷ b'o' ∷ b'm' ∷ b'p' ∷ b'a' ∷ b'c' ∷ b't' ∷ b'e' ∷ b'd' ∷ 32 ∷ b'c' ∷ b'o' ∷ b'n'
    ∷ b't' ∷ b'e' ∷ b'x' ∷ b't' ∷ 32 ∷ 8212 ∷ 32 ∷ b'e' ∷ b'a' ∷ b'r' ∷ b'l' ∷ b'i' ∷ b'e' ∷ b'r'
    ∷ 32 ∷ b's' ∷ b't' ∷ b'e' ∷ b'p' ∷ b's' ∷ 32 ∷ b's' ∷ b'u' ∷ b'm' ∷ b'm' ∷ b'a' ∷ b'r' ∷ b'y'
    ∷ b']' ∷ 10 ∷ []

unfoldable pub truncate_head : Services → Text → ℕ → Text
truncate_head sv text limit =
    if leb (length text) limit then text else take limit text ++ sv.marker (length text - limit)

-- "[role]: body"
unfoldable pub format_middle_message : Services → Message → Text
unfolding truncate_head truncate_head_tail
format_middle_message sv m =
    let content : Text = elim m.content [ none ↦ sv.other | some text ↦ text ] in
    let body =
      if m.role == "assistant"
      then truncate_head sv content assistant_cap
      else truncate_head_tail sv.marker content result_head result_tail in
    b'[' ∷ (sv.characters m.role ++ (b']' ∷ b':' ∷ 32 ∷ body))

-- "\n".join(texts)
unfoldable pub join_lines : List Text → Text
join_lines [] = []
join_lines (text ∷ []) = text
join_lines (text ∷ next ∷ texts) = text ++ (10 ∷ join_lines (next ∷ texts))

abbrev pub render : Services → List Message → Text
render sv middle = join_lines (map (format_middle_message sv) middle)

unfoldable pub fallback_summary : Services → List Message → Text
unfolding truncate_head_tail format_middle_message join_lines
fallback_summary sv middle =
    truncate_head_tail sv.marker (render sv middle) (summary_cap / 2) (summary_cap / 2)

-- The model's summary, or the fallback when the call raises or the answer is blank.
unfoldable pub summarize : Services → List Message → Text
unfolding fallback_summary format_middle_message join_lines all
summarize sv middle = elim (sv.chat (render sv middle)) [
  | none ↦ fallback_summary sv middle
  | some summary ↦ if all sv.is_space summary then fallback_summary sv middle else summary
]

-- The parts of a history: the anchor `messages[_goal]` as a list of one, what is summarised, and
-- the two most recent messages.
pub record Parts : Type 0 where
  pub first : List Message
  pub middle : List Message
  pub last : List Message

unfoldable pub divide : List Message → ℕ → Parts
divide messages goal_idx =
    let size = length messages in
    let goal = min goal_idx (size - 3) in
    record {
      first = take 1 (drop goal messages);
      middle = take goal messages ++ take (size - 2 - suc goal) (drop (suc goal) messages);
      last = drop (size - 2) messages;
    }

-- The three caps of the tightening loop.
pub record Caps : Type 0 where
  pub of_summary : ℕ
  pub of_recent : ℕ
  pub of_first : ℕ

-- The message that stands for the middle.
unfoldable pub summary_message : Services → Text → ℕ → Message
unfolding truncate_head_tail
summary_message sv summary limit = record {
  role = "user";
  content = some (heading ++ truncate_head_tail sv.marker summary (limit / 2) (limit / 2));
  tool_calls = [];
}

unfoldable pub build_compacted : Services → Parts → Text → Caps → List Message
unfolding summary_message cap_string_message
build_compacted sv parts summary caps =
    map (λ m. cap_string_message sv.marker m caps.of_first) parts.first
    ++ (summary_message sv summary caps.of_summary
        ∷ map (λ m. cap_string_message sv.marker m caps.of_recent) parts.last)

abbrev pub wide : Caps
wide = record {
  of_summary = summary_cap;
  of_recent = recent_head + recent_tail;
  of_first = recent_head + recent_tail;
}

abbrev pub halve : Caps → Caps
halve caps = record {
  of_summary = max shrink_floor (caps.of_summary / 2);
  of_recent = max shrink_floor (caps.of_recent / 2);
  of_first = max shrink_floor (caps.of_first / 2);
}

module _ (sv : Services) (parts : Parts) (summary : Text) (threshold : ℕ) where
  -- The caps at which the tightening loop ends; `none` means that the fuel ran out.
  unfoldable pub tighten : ℕ → Caps → Option Caps
  unfolding build_compacted
  tighten zero caps = none
  tighten (suc fuel) caps =
      let rest = tighten fuel (halve caps) in
      if ltb threshold (sv.estimate (build_compacted sv parts summary caps))
        && (ltb shrink_floor caps.of_summary
            || ltb shrink_floor caps.of_recent
            || ltb shrink_floor caps.of_first)
      then rest
      else some caps

-- The path of a long history: divide, summarise, assemble, tighten.
unfoldable pub compact : Services → List Message → ℕ → ℕ → Option (List Message)
unfolding divide summarize tighten build_compacted
compact sv messages goal_idx threshold =
    let parts = divide messages goal_idx in
    let summary = summarize sv parts.middle in
    elim (tighten sv parts summary threshold 5 wide) [
      | none ↦ none
      | some caps ↦ some (build_compacted sv parts summary caps)
    ]

-- Where the goal is in a compacted history.
unfoldable pub new_goal_idx : List Message → List Message → ℕ → ℤ
unfolding difference
new_goal_idx messages compacted goal_idx =
    if leb goal_idx (length messages - 3)
    then pos 0
    else difference (length compacted + goal_idx) (length messages)

-- min(goal_idx, len(capped) - 1)
unfoldable pub kept_goal_idx : List Message → ℕ → ℤ
kept_goal_idx [] goal_idx = negsuc 0
kept_goal_idx (m ∷ ms) goal_idx = pos (min goal_idx (length ms))

-- The history to go on with and the goal's index in it; `none` means that the fuel ran out.
unfoldable pub maybe_compact :
    Services
    → LlmCfg
    → List Message
    → (ctx_max_tokens goal_idx tool_defs_tokens : ℕ) → Option (List Message × ℤ)
unfolding resolve_compaction_threshold cap_short_overbudget_context compact new_goal_idx
    kept_goal_idx
maybe_compact sv cfg messages ctx_max_tokens goal_idx tool_defs_tokens =
    let threshold = (resolve_compaction_threshold sv cfg ctx_max_tokens).1 in
    if leb (sv.estimate messages + tool_defs_tokens) threshold
    then some (messages, pos goal_idx)
    else if leb (length messages) 3
    then elim (cap_short_overbudget_context sv.marker sv.estimate messages threshold) [
      | none ↦ none
      | some capped ↦ some (capped, kept_goal_idx capped goal_idx)
    ]
    else elim (compact sv messages goal_idx threshold) [
      | none ↦ none
      | some compacted ↦ some (compacted, new_goal_idx messages compacted goal_idx)
    ]
