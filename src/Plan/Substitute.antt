-- ===== src/Plan/Substitute.antt =====
-- execution_plan.py: `substitute_results`. Text is the list of its code points; the pattern is
-- `{{` one or more of A-Z a-z 0-9 _ - `}}`. `json.dumps` of an outcome is a parameter.
pub mod Laws
use Prim.Native.Char.{code}
use smallpieclaw.Prelude.{
  ℕ, zero, suc, ◌+◌, String, ◌==◌, nat_eq, list_eq, Bool, true, false, ◌&&◌, ◌||◌, Option, none,
  some, List, [], ◌∷◌, ◌++◌, if◌then◌else◌, leb, length,
}
use smallpieclaw.Dict.{Dict}
use smallpieclaw.Outcome.{Outcome}
use smallpieclaw.Plan.Model.{PlanStep}

abbrev pub Text : Type 0
Text = List ℕ

abbrev pub codes : String → Text
codes String.[] = []
codes (String.◌∷◌ c s) = code c ∷ codes s

-- JSON values as tool arguments hold them; numbers and booleans are left alone by the code.
mutual
  pub data Value : Type 0 where
    null : Value
    bool : Bool → Value
    number : ℕ → Value
    str : List ℕ → Value
    list : Items → Value
    dict : Fields → Value

  pub data Items : Type 0 where
    nil : Items
    cons : Value → Items → Items

  pub data Fields : Type 0 where
    end : Fields
    field : List ℕ → Value → Fields → Fields

-- [A-Za-z0-9_\-]
unfoldable pub is_id_char : ℕ → Bool
is_id_char c =
    leb b'A' c && leb c b'Z'
    || leb b'a' c && leb c b'z'
    || leb b'0' c && leb c b'9'
    || c == b'_'
    || c == b'-'

-- The longest run of id characters, and what follows it.
unfoldable pub id_run : Text → Text × Text
unfolding is_id_char
id_run [] = ([], [])
id_run (c ∷ t) =
    let (name, rest) = id_run t in if is_id_char c then (c ∷ name, rest) else ([], c ∷ t)

-- `}}` closes a run that has at least one character.
unfoldable pub closed_name : Text → Text → Option Text
closed_name [] rest = none
closed_name (c ∷ name) (a ∷ b ∷ rest) = if a == b'}' && b == b'}' then some (c ∷ name) else none
closed_name (c ∷ name) (a ∷ []) = none
closed_name (c ∷ name) [] = none

-- The name of a placeholder that starts here.
unfoldable pub placeholder : Text → Option Text
unfolding id_run closed_name
placeholder (a ∷ b ∷ t) =
    let (name, rest) = id_run t in if a == b'{' && b == b'{' then closed_name name rest else none
placeholder (a ∷ []) = none
placeholder [] = none

-- results[step_id], for an id given as text.
unfoldable pub result_of : Dict String Outcome → Text → Option Outcome
result_of [] name = none
result_of ((sid, o) ∷ results) name = if codes sid == name then some o else result_of results name

module _ (dumps : Outcome → Text) (results : Dict String Outcome) where
  -- The text for a match: the result, or the placeholder as it stands.
  unfoldable pub replacement : Text → Text
  unfolding result_of
  replacement name = elim (result_of results name) [
    | some o ↦ dumps o
    | none ↦ (b'{' ∷ b'{' ∷ name) ++ (b'}' ∷ b'}' ∷ [])
  ]

  -- `_PLACEHOLDER_RE.sub`: `skip` characters of a match are passed over.
  unfoldable pub substitute_text : ℕ → Text → Text
  unfolding placeholder replacement
  substitute_text skip [] = []
  substitute_text (suc skip) (c ∷ t) = substitute_text skip t
  substitute_text zero (c ∷ t) = elim (placeholder (c ∷ t)) [
    | some name ↦ replacement name ++ substitute_text (length name + 3) t
    | none ↦ c ∷ substitute_text 0 t
  ]

  unfoldable mutual
    unfolding substitute_text

    pub substitute : Value → Value
    substitute null = null
    substitute (bool b) = bool b
    substitute (number n) = number n
    substitute (str t) = str (substitute_text 0 t)
    substitute (list items) = list (substitute_items items)
    substitute (dict fields) = dict (substitute_fields fields)

    pub substitute_items : Items → Items
    substitute_items nil = nil
    substitute_items (cons v items) = cons (substitute v) (substitute_items items)

    pub substitute_fields : Fields → Fields
    substitute_fields end = end
    substitute_fields (field k v fields) = field k (substitute v) (substitute_fields fields)

  -- `if not isinstance(new_args, dict): new_args = {}`; `args` is a dict in every `PlanStep`.
  unfoldable pub substitute_results : PlanStep Fields → PlanStep Fields
  unfolding substitute_fields
  substitute_results step = record step { args = substitute_fields step.args }
