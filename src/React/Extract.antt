-- ===== src/React/Extract.antt =====
-- react_loop.py `extract_json_candidates` and `parse_json`. `str.strip`, `json.loads` and the search
-- for a fenced object are fields of the setting.
use smallpieclaw.Prelude.Int.{ℤ, pos, negsuc}
use smallpieclaw.Prelude.{
  ℕ, zero, suc, ◌==◌, nat_eq, Bool, true, false, not, ◌&&◌, Option, none, some, List, [], ◌∷◌, ◌++◌,
  if◌then◌else◌,
}
use smallpieclaw.Compaction.{Text}
use smallpieclaw.React.State.{ActionObj, object, other, Setting}

-- The state of the scan: `current` is the text from `start` on.
pub record Scan : Type 0 where
  pub depth : ℤ
  pub current : Option Text
  pub in_string : Bool
  pub escape_next : Bool
  pub candidates : List Text

abbrev increased : ℤ → ℤ
increased (pos n) = pos (suc n)
increased (negsuc zero) = pos 0
increased (negsuc (suc n)) = negsuc n

abbrev pub decreased : ℤ → ℤ
decreased (pos zero) = negsuc 0
decreased (pos (suc n)) = pos n
decreased (negsuc n) = negsuc (suc n)

abbrev pub is_zero : ℤ → Bool
is_zero (pos n) = n == 0
is_zero (negsuc n) = false

abbrev pub extend : ℕ → Option Text → Option Text
extend c none = none
extend c (some text) = some (text ++ c ∷ [])

abbrev pub grow : ℕ → Scan → Scan
grow c s = record s { current = extend c s.current }

-- An opening brace.
unfoldable pub open_brace : ℕ → Scan → Scan
open_brace c s =
    if is_zero s.depth
    then record s { current = some (c ∷ []); depth = increased s.depth }
    else record s { current = extend c s.current; depth = increased s.depth }

abbrev pub finish_candidate : Option Text → Scan → Scan
finish_candidate none s = s
finish_candidate (some text) s = record s { candidates = s.candidates ++ text ∷ []; current = none }

-- A closing brace, which `current` has already.
unfoldable pub close_brace : Scan → Scan
close_brace s =
    let depth = decreased s.depth in
    if is_zero depth
    then finish_candidate s.current (record s { depth = depth })
    else record s { depth = depth }

unfoldable pub scan_char : ℕ → Scan → Scan
unfolding open_brace close_brace
scan_char c s =
    if s.escape_next
    then record (grow c s) { escape_next = false }
    else if c == b'\\' && s.in_string
    then record (grow c s) { escape_next = true }
    else if c == b'"'
    then record (grow c s) { in_string = not s.in_string }
    else if s.in_string
    then grow c s
    else if c == b'{'
    then open_brace c s
    else if c == b'}'
    then close_brace (grow c s)
    else grow c s

unfoldable pub scan : Text → Scan → Scan
unfolding scan_char
scan [] s = s
scan (c ∷ text) s = scan text (scan_char c s)

unfoldable pub extract_json_candidates : Text → List Text
unfolding scan
extract_json_candidates text =
    (scan text (record {
      depth = pos 0;
      current = none;
      in_string = false;
      escape_next = false;
      candidates = [];
    })).candidates

-- The loop over the candidates: the first object with an action, or the first object.
unfoldable pub choose : Setting → (first_valid : Option ActionObj) → List Text → Option ActionObj
choose set first_valid [] = first_valid
choose set first_valid (candidate ∷ rest) = elim (set.loads candidate) [
  | other ↦ choose set first_valid rest
  | object obj true ↦ some obj
  | object obj false ↦ elim first_valid [
    | none ↦ choose set (some obj) rest
    | some first ↦ choose set (some first) rest
  ]
]

-- Otherwise, the candidates.
abbrev pub from_candidates : Setting → Text → Option ActionObj
from_candidates set text = choose set none (extract_json_candidates text)

unfoldable pub from_fence : Setting → Text → Option Text → Option ActionObj
unfolding choose extract_json_candidates
from_fence set text none = from_candidates set text
from_fence set text (some inner) = elim (set.loads inner) [
  | object obj has_action ↦ some obj
  | other ↦ from_candidates set text
]

unfoldable pub parse_stripped : Setting → Text → Option ActionObj
unfolding from_fence
parse_stripped set [] = none
parse_stripped set (c ∷ text) = elim (set.loads (c ∷ text)) [
  | object obj has_action ↦ some obj
  | other ↦ from_fence set (c ∷ text) (set.fence_match (c ∷ text))
]

unfoldable pub parse_json : Setting → Text → Option ActionObj
unfolding parse_stripped
parse_json set text = parse_stripped set (set.strip text)
