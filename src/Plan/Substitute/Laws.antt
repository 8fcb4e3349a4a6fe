-- ===== src/Plan/Substitute/Laws.antt =====
-- Which texts a substitution of results changes.
use mathlib.Core.List.{append_assoc}
use smallpieclaw.Prelude.{
  length-append, ℕ, ◌+◌, ◌==◌, nat_eq, list_eq, ◌≡◌, refl, ap, ◌∙◌, sym, true, false, none, some,
  [], ◌∷◌, ◌++◌, arith, length, all, contains, String,
}
use smallpieclaw.Dict.{Dict}
use smallpieclaw.Outcome.{Outcome}
use smallpieclaw.Plan.Substitute.{
  Text, is_id_char, id_run, placeholder, replacement, substitute_text,
}

-- A run of id characters ends at the first brace.
id_run-name :
    (name post : Text)
    → all is_id_char name ≡ true
    → id_run (name ++ b'}' ∷ post) ≡ (name, b'}' ∷ post)
unfolding id_run all
id_run-name [] post h = ground arith
id_run-name (c ∷ name) post h = ground (arith, id_run-name name post)

abbrev pub open_close : Text → Text → Text
open_close name post = b'{' ∷ b'{' ∷ (name ++ b'}' ∷ b'}' ∷ post)

placeholder-open_close :
    (c : ℕ) (name post : Text)
    → all is_id_char (c ∷ name) ≡ true
    → placeholder (open_close (c ∷ name) post) ≡ some (c ∷ name)
unfolding placeholder
placeholder-open_close c name post h = rw (id_run-name (c ∷ name) (b'}' ∷ post) h)

placeholder-other : (c : ℕ) (t : Text) → (c == b'{') ≡ false → placeholder (c ∷ t) ≡ none
unfolding placeholder
placeholder-other c [] h = refl
placeholder-other c (d ∷ t) h = ground arith

module _ (dumps : Outcome → Text) (results : Dict String Outcome) where
  skip_text :
      (xs t : Text)
      → substitute_text dumps results (length xs) (xs ++ t) ≡ substitute_text dumps results 0 t
  unfolding substitute_text
  skip_text [] t = refl
  skip_text (x ∷ xs) t = skip_text xs t

  skip_close :
      (name post : Text)
      → substitute_text dumps results (length name + 3) (b'{' ∷ (name ++ b'}' ∷ b'}' ∷ post))
        ≡ substitute_text dumps results 0 post
  skip_close name post =
      ap (λ n. substitute_text dumps results n (b'{' ∷ (name ++ b'}' ∷ b'}' ∷ post)))
        (omega (arith, length-append name (b'}' ∷ b'}' ∷ [])))
      ∙ ap
          (λ t.
            substitute_text dumps results (length (b'{' ∷ (name ++ b'}' ∷ b'}' ∷ []))) (b'{' ∷ t))
          (sym (append_assoc name (b'}' ∷ b'}' ∷ []) post))
      ∙ skip_text (b'{' ∷ (name ++ b'}' ∷ b'}' ∷ [])) post

  -- The first placeholder of a text, with no opening brace before it, becomes its replacement: the
  -- dumped result where the results have one under its name, and else the placeholder as it
  -- stands. The text before it is kept, and the text behind it is substituted in turn.
  substitute_text-first :
      (pre : Text) (c : ℕ) (name post : Text)
      → contains pre b'{' ≡ false
      → all is_id_char (c ∷ name) ≡ true
      → substitute_text dumps results 0 (pre ++ open_close (c ∷ name) post)
        ≡ pre ++ (replacement dumps results (c ∷ name) ++ substitute_text dumps results 0 post)
  unfolding substitute_text contains
  substitute_text-first [] c name post h n =
      rw (placeholder-open_close c name post n, substitute_text)
        (ap (λ t. replacement dumps results (c ∷ name) ++ t) (skip_close (c ∷ name) post))
  substitute_text-first (x ∷ pre) c name post h n =
      rw (placeholder-other x (pre ++ open_close (c ∷ name) post) (ground arith), substitute_text)
        (ap (λ t. x ∷ t) (substitute_text-first pre c name post (ground arith) n))

  -- A text with no opening brace is left as it is.
  substitute_text-plain :
      (t : Text) → contains t b'{' ≡ false → substitute_text dumps results 0 t ≡ t
  unfolding substitute_text contains
  substitute_text-plain [] h = refl
  substitute_text-plain (x ∷ t) h =
      rw (placeholder-other x t (ground arith), substitute_text)
        (ap (λ t. x ∷ t) (substitute_text-plain t (ground arith)))
