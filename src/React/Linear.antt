-- ===== src/React/Linear.antt =====
-- native_turns.py `_linearize_native_turns` keeps the number of messages and is idempotent.
use smallpieclaw.Prelude.{
  ◌==◌, string_eq, ◌≡◌, ◌⊎◌, inl, inr, refl, ap, ◌∙◌, true, false, not, ◌&&◌, List, [], ◌∷◌, length,
  length-map, All, Bool-cases, arith,
}
use smallpieclaw.Compaction.{ToolCall, Message}
use smallpieclaw.React.State.{Setting}
use smallpieclaw.React.Turns.{none_of, linearize_message, linearize}

-- Not the message of a tool, and without calls when it is the assistant's: what a request in JSON
-- mode can carry.
abbrev pub IsPlain : Message → Type 0
IsPlain m = ((m.role == "tool") ≡ false) × (((m.role == "assistant") ≡ false) ⊎ (m.tool_calls ≡ []))

none_of-nil : (calls : List ToolCall) → none_of calls ≡ true → calls ≡ []
none_of-nil [] h = refl
none_of-nil (call ∷ calls) h = absurd (ground (arith, h))

linearize_message-IsPlain : (set : Setting) (m : Message) → IsPlain (linearize_message set m)
unfolding linearize_message
linearize_message-IsPlain set m =
    elim (Bool-cases (m.role == "assistant" && not (none_of m.tool_calls))) [
      | inl calling ↦ rw (calling, linearize_message) (refl, inr refl)
      | inr silent ↦ elim (Bool-cases (m.role == "tool")) [
        | inl tool ↦ rw (silent, tool, linearize_message) (refl, inl refl)
        | inr other ↦ rw (silent, other, linearize_message) (other, kept m silent)
      ]
    ]
  where
    kept :
        (m : Message)
        → (m.role == "assistant" && not (none_of m.tool_calls)) ≡ false
        → ((m.role == "assistant") ≡ false) ⊎ (m.tool_calls ≡ [])
    kept m silent = elim (Bool-cases (none_of m.tool_calls)) [
      | inl empty ↦ inr (none_of-nil m.tool_calls empty)
      | inr calling ↦ inl (ground (arith, silent, calling))
    ]

linearize_message-plain : (set : Setting) (m : Message) → IsPlain m → linearize_message set m ≡ m
unfolding linearize_message
linearize_message-plain set m (untold, inl other) = rw (untold, other, linearize_message) refl
linearize_message-plain set m (untold, inr silent) =
    let call_free : (m.role == "assistant" && not (none_of m.tool_calls)) ≡ false =
      ap (λ calls. m.role == "assistant" && not (none_of calls)) silent ∙ ground arith in
    rw (call_free, untold, linearize_message) refl

map-plain : (set : Setting) (ms : List Message) → All IsPlain ms → linearize set ms ≡ ms
unfolding linearize
map-plain set [] plain = refl
map-plain set (m ∷ ms) (plain, rest) =
    rw (linearize_message-plain set m plain, map-plain set ms rest) refl

map-IsPlain : (set : Setting) (ms : List Message) → All IsPlain (linearize set ms)
unfolding linearize
map-IsPlain set [] = tt
map-IsPlain set (m ∷ ms) = (linearize_message-IsPlain set m, map-IsPlain set ms)

-- `_linearize_native_turns` returns as many messages as it is given. None of them is a tool's or
-- carries calls of tools, when it is the assistant's, and doing it again changes nothing.
linearize-linearize :
    (set : Setting) (ms : List Message)
    → (length (linearize set ms) ≡ length ms)
      × All IsPlain (linearize set ms)
      × (linearize set (linearize set ms) ≡ linearize set ms)
unfolding linearize
linearize-linearize set ms = (
  length-map ms (linearize_message set),
  map-IsPlain set ms,
  map-plain set (linearize set ms) (map-IsPlain set ms),
)
