-- ===== src/Scheduler/Tags.antt =====
-- scheduler.py: `_normalize_tag` and `_normalize_context_key`; builtin_tools/context_io.py:
-- `_validate_context_key`. A text is the list of its code points; `str.strip` without an argument and
-- `str.lower` are parameters.
pub mod Keys
use smallpieclaw.Prelude.{
  ℕ, ◌==◌, nat_eq, Bool, true, false, not, ◌&&◌, ◌||◌, List, [], ◌∷◌, map, if◌then◌else◌, leb,
  length, take, all,
}

abbrev pub Text : Type 0
Text = List ℕ

abbrev pub is_empty : Text → Bool
is_empty [] = true
is_empty (c ∷ text) = false

-- replace("-", "_").replace(" ", "_").replace(".", "_")
abbrev pub separator : ℕ → ℕ
separator c = if c == b'-' || c == 32 || c == b'.' then b'_' else c

abbrev starts_with_underscore : Text → Bool
starts_with_underscore [] = false
starts_with_underscore (c ∷ text) = c == b'_'

-- re.sub(r"_+", "_", text): of a run of underscores the last one stays.
unfoldable pub collapse : Text → Text
collapse [] = []
collapse (c ∷ text) =
    let rest = collapse text in if c == b'_' && starts_with_underscore text then rest else c ∷ rest

-- text.lstrip("_") and text.rstrip("_")
unfoldable pub strip_left : Text → Text
strip_left [] = []
strip_left (c ∷ text) = let rest = strip_left text in if c == b'_' then rest else c ∷ text

unfoldable pub strip_right : Text → Text
strip_right [] = []
strip_right (c ∷ text) =
    let rest = strip_right text in if c == b'_' && is_empty rest then [] else c ∷ rest

-- [a-z0-9_]
abbrev pub is_key_char : ℕ → Bool
is_key_char c = leb b'a' c && leb c b'z' || leb b'0' c && leb c b'9' || c == b'_'

abbrev starts_unsafe : Text → Bool
starts_unsafe [] = false
starts_unsafe (c ∷ text) = not (is_key_char c)

-- re.sub(r"[^a-z0-9_]+", "_", text)
unfoldable pub replace_unsafe : Text → Text
replace_unsafe [] = []
replace_unsafe (c ∷ text) =
    let rest = replace_unsafe text in
    if is_key_char c then c ∷ rest else if starts_unsafe text then rest else b'_' ∷ rest

abbrev pub scheduled_job : Text
scheduled_job =
    b's' ∷ b'c' ∷ b'h' ∷ b'e' ∷ b'd' ∷ b'u' ∷ b'l' ∷ b'e' ∷ b'd' ∷ b'_' ∷ b'j' ∷ b'o' ∷ b'b' ∷ []

module _ (strip lower : Text → Text) where
  unfoldable pub normalize_tag : Text → Text
  unfolding collapse strip_left strip_right
  normalize_tag s = strip_right (strip_left (collapse (map separator (lower (strip s)))))

  unfoldable pub normalize_context_key : Text → Text
  unfolding normalize_tag replace_unsafe strip_right
  normalize_context_key tag =
      let key = normalize_tag (replace_unsafe (map separator (lower (strip tag)))) in
      let short = strip_right (take 128 key) in if is_empty short then scheduled_job else short

-- [A-Za-z0-9] and [A-Za-z0-9_.-]
abbrev pub is_alphanumeric : ℕ → Bool
is_alphanumeric c = leb b'A' c && leb c b'Z' || leb b'a' c && leb c b'z' || leb b'0' c && leb c b'9'

abbrev pub is_context_char : ℕ → Bool
is_context_char c = is_alphanumeric c || c == b'_' || c == b'.' || c == b'-'

-- Whether `_validate_context_key` accepts a text; a text that the expression matches is not "..".
unfoldable pub is_context_key : Text → Bool
unfolding all
is_context_key [] = false
is_context_key (c ∷ text) = is_alphanumeric c && all is_context_char text && leb (length text) 127
