-- ===== src/React/Parsing.antt =====
-- Where `parse_json` reads the object that it returns.
use smallpieclaw.Prelude.{
  nat_eq, ◌≡◌, ◌⊎◌, inl, inr, refl, ap, ◌∙◌, subst, Bool, true, false, Option, none, some, List, [],
  ◌∷◌, All, Option-cases, arith,
}
use smallpieclaw.Compaction.{Text}
use smallpieclaw.React.State.{ActionObj, Loaded, object, other, Setting}
use smallpieclaw.React.Extract.{
  extract_json_candidates, choose, from_candidates, from_fence, parse_stripped, parse_json,
}
use smallpieclaw.React.Candidates.{IsPart, candidates-IsPart}

some-inj : {a b : ActionObj} → some a ≡ some b → a ≡ b
some-inj h = ground (arith, h)

Loaded-cases :
    (l : Loaded)
    → (l ≡ other) ⊎ ((obj : ActionObj) × (has_action : Bool) × (l ≡ object obj has_action))
Loaded-cases other = inl refl
Loaded-cases (object obj has_action) = inr (obj, has_action, refl)

-- Where an object that `parse_json` returns was read.
pub data IsSource (set : Setting) (text : Text) : Text → Type 0 where
  whole_text : IsSource set text text
  fence : (inner : Text) → set.fence_match text ≡ some inner → IsSource set text inner
  part : (candidate : Text) → IsPart text candidate → IsSource set text candidate

-- `json.loads` reads the object in this part of the text.
abbrev pub ReadsFrom : Setting → Text → ActionObj → Type 0
ReadsFrom set text obj =
    (source : Text) × (has_action : Bool) × (set.loads source ≡ object obj has_action)
    × IsSource set text source

-- What there is, is read from the text.
abbrev IsRead : Setting → Text → Option ActionObj → Type 0
IsRead set text found = (obj : ActionObj) → found ≡ some obj → ReadsFrom set text obj

choose-IsRead :
    (set : Setting) (text : Text) (first_valid : Option ActionObj) (candidates : List Text)
    → IsRead set text first_valid
    → All (IsPart text) candidates
    → IsRead set text (choose set first_valid candidates)
unfolding choose
choose-IsRead set text first_valid [] first parts = first
choose-IsRead set text first_valid (c ∷ rest) first (lies, parts) =
    elim (Loaded-cases (set.loads c)) [
      | inl unread ↦ rw (unread, choose) (choose-IsRead set text first_valid rest first parts)
      | inr (obj, true, reads) ↦
          rw (reads, choose)
            (λ o same. (c, true, reads ∙ ap (λ x. object x true) (some-inj same), part c lies))
      | inr (obj, false, reads) ↦ elim (Option-cases first_valid) [
        | inl nothing ↦
            rw (reads, nothing, choose)
              (choose-IsRead set text (some obj) rest
                (λ o same.
                  (c, false, reads ∙ ap (λ x. object x false) (some-inj same), part c lies))
                parts)
        | inr (o, something) ↦
            rw (reads, something, choose)
              (choose-IsRead set text (some o) rest (subst (λ f. IsRead set text f) something first)
                parts)
      ]
    ]

from_candidates-IsRead : (set : Setting) (text : Text) → IsRead set text (from_candidates set text)
from_candidates-IsRead set text =
    choose-IsRead set text none (extract_json_candidates text)
      (λ o same. absurd (ground (arith, same))) (candidates-IsPart text)

from_fence-IsRead :
    (set : Setting) (text : Text) (found : Option Text)
    → set.fence_match text ≡ found
    → IsRead set text (from_fence set text found)
unfolding from_fence
from_fence-IsRead set text none h = from_candidates-IsRead set text
from_fence-IsRead set text (some inner) h = elim (Loaded-cases (set.loads inner)) [
  | inl unread ↦ rw (unread, from_fence) (from_candidates-IsRead set text)
  | inr (obj, acts, reads) ↦
      rw (reads, from_fence)
        (λ o same. (inner, acts, reads ∙ ap (λ x. object x acts) (some-inj same), fence inner h))
]

parse_stripped-IsRead : (set : Setting) (text : Text) → IsRead set text (parse_stripped set text)
unfolding parse_stripped
parse_stripped-IsRead set [] = λ o same. absurd (ground (arith, same))
parse_stripped-IsRead set (c ∷ text) = elim (Loaded-cases (set.loads (c ∷ text))) [
  | inl unread ↦
      rw (unread, parse_stripped)
        (from_fence-IsRead set (c ∷ text) (set.fence_match (c ∷ text)) refl)
  | inr (obj, acts, reads) ↦
      rw (reads, parse_stripped)
        (λ o same. (c ∷ text, acts, reads ∙ ap (λ x. object x acts) (some-inj same), whole_text))
]

-- An object that `parse_json` returns is what `json.loads` reads in the stripped text, in its fenced
-- object, or in a contiguous part of it that starts with an opening brace and ends with a closing one.
pub parse_json-ReadsFrom :
    (set : Setting) (text : Text) (obj : ActionObj)
    → parse_json set text ≡ some obj
    → ReadsFrom set (set.strip text) obj
unfolding parse_json
parse_json-ReadsFrom set text obj h = parse_stripped-IsRead set (set.strip text) obj h
