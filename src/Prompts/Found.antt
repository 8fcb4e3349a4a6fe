-- ===== src/Prompts/Found.antt =====
-- Lists of prompts and the identifiers in them.
use smallpieclaw.Dict
use smallpieclaw.Dict.{Dict}
use smallpieclaw.Prelude.{
  String, ◌==◌, string_eq, nat_eq, ◌≡◌, refl, ap, ◌∙◌, inl, inr, Bool, true, false, ◌&&◌, ◌||◌,
  none, some, List, [], ◌∷◌, ◌++◌, arith, if◌then◌else◌, leb, keep, contains, Bool-cases,
}
use smallpieclaw.Prompts.{PromptRecord}
use smallpieclaw.Prompts.Evict.{IsKeyed}
use smallpieclaw.Prompts.Search.{insert_prompt, sort_prompts, ids}
use smallpieclaw.Prompts.Pages.{}

contains-insert :
    (r : PromptRecord) (records : List PromptRecord) (k : String)
    → contains (ids (insert_prompt r records)) k ≡ (r.prompt_id == k || contains (ids records) k)
unfolding insert_prompt contains
contains-insert r [] k = refl
contains-insert r (s ∷ records) k = elim (Bool-cases (leb s.started_at r.started_at)) [
  | inl newer ↦ rw (newer) refl
  | inr older ↦ rw (older) ground (arith, contains-insert r records k)
]

pub contains-sort :
    (records : List PromptRecord) (k : String)
    → contains (ids (sort_prompts records)) k ≡ contains (ids records) k
unfolding sort_prompts contains
contains-sort [] k = refl
contains-sort (r ∷ records) k =
    contains-insert r (sort_prompts records) k
    ∙ ap (λ b. r.prompt_id == k || b) (contains-sort records k)

pub contains-ids_append :
    (a b : List PromptRecord) (k : String)
    → contains (ids (a ++ b)) k ≡ (contains (ids a) k || contains (ids b) k)
unfolding contains
contains-ids_append [] b k = refl
contains-ids_append (r ∷ a) b k = ground (arith, contains-ids_append a b k)

pub contains-ids_if :
    (b : Bool) (r : PromptRecord) (records : List PromptRecord) (k : String)
    → contains (ids (if b then r ∷ records else records)) k
      ≡ (b && r.prompt_id == k || contains (ids records) k)
unfolding contains
contains-ids_if true r records k = refl
contains-ids_if false r records k = refl

pub in_both :
    (b : Bool) (x y : List PromptRecord) (k : String)
    → contains (ids x) k ≡ true
    → contains (ids y) k ≡ true
    → contains (ids (if b then x else y)) k ≡ true
in_both true x y k h j = h
in_both false x y k h j = j

pub kept-found :
    (p : PromptRecord → Bool) (d : Dict String PromptRecord) (k : String) (r : PromptRecord)
    → IsKeyed d
    → Dict.get d k ≡ some r
    → p r ≡ true
    → contains (ids (keep p (Dict.values d))) k ≡ true
unfolding Dict.get keep
kept-found p [] k r keyed h fits = absurd (ground (arith, h))
kept-found p ((j, s) ∷ d) k r (at, keyed) h fits =
    let step = contains-ids_if (p s) s (keep p (Dict.values d)) k in
    elim (Bool-cases (j == k)) [
      | inl same ↦
          let here : s ≡ r = ground (arith, h, same) in
          let chosen : p s ≡ true = ap p here ∙ fits in
          let found : (s.prompt_id == k) ≡ true = ap (λ i. i == k) at ∙ same in
          step ∙ ground (arith, chosen, found)
      | inr other ↦
          let rest = kept-found p d k r keyed (ground (arith, h, other)) fits in
          step ∙ ground (arith, rest)
    ]

pub kept-absent :
    (p : PromptRecord → Bool) (d : Dict String PromptRecord) (k : String)
    → IsKeyed d
    → Dict.get d k ≡ none
    → contains (ids (keep p (Dict.values d))) k ≡ false
unfolding Dict.get keep contains
kept-absent p [] k keyed h = refl
kept-absent p ((j, s) ∷ d) k (at, keyed) h =
    let other : (j == k) ≡ false = ground (arith, h) in
    let rest = kept-absent p d k keyed (ground (arith, h, other)) in
    let apart : (s.prompt_id == k) ≡ false = ap (λ i. i == k) at ∙ other in
    contains-ids_if (p s) s (keep p (Dict.values d)) k ∙ ground (arith, apart, rest)
