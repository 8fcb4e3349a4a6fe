-- ===== src/React/Candidates.antt =====
-- What `extract_json_candidates` finds.
use mathlib.Core.List.{append_assoc, append-nil}
use smallpieclaw.Prelude.Int.{pos}
use smallpieclaw.Prelude.{
  ℕ, ◌==◌, nat_eq, ◌≡◌, inl, inr, refl, ap, sym, ◌∙◌, subst, true, false, ◌&&◌, Option, none, some,
  List, [], ◌∷◌, ◌++◌, All, Bool-cases,
}
use smallpieclaw.Compaction.{Text}
use smallpieclaw.React.Extract.{
  is_zero, decreased, Scan, extend, grow, open_brace, finish_candidate, close_brace, scan_char,
  scan, extract_json_candidates,
}

-- A part of the text that starts with an opening brace and ends with a closing one.
abbrev pub IsPart : Text → Text → Type 0
IsPart text part =
    (before : Text) × (inner : Text) × (after : Text) × (text ≡ (before ++ part) ++ after)
    × (part ≡ b'{' ∷ (inner ++ b'}' ∷ []))

-- What the scan has of an object so far ends what it has read, and starts with an opening brace.
abbrev IsOpen : Text → Option Text → Type 0
IsOpen text none = Unit
IsOpen text (some current) =
    (before : Text) × (inner : Text) × (text ≡ before ++ current) × (current ≡ b'{' ∷ inner)

abbrev IsRight : Text → Scan → Type 0
IsRight text s = IsOpen text s.current × All (IsPart text) s.candidates

extend-IsOpen :
    (text : Text) (c : ℕ) (current : Option Text)
    → IsOpen text current
    → IsOpen (text ++ c ∷ []) (extend c current)
extend-IsOpen text c none is_open = tt
extend-IsOpen text c (some current) (before, inner, ends, starts) = (
  before,
  inner ++ c ∷ [],
  ap (λ t. t ++ c ∷ []) ends ∙ append_assoc before current (c ∷ []),
  ap (λ t. t ++ c ∷ []) starts,
)

extend-IsPart :
    (text : Text) (c : ℕ) (parts : List Text)
    → All (IsPart text) parts
    → All (IsPart (text ++ c ∷ [])) parts
extend-IsPart text c [] all = tt
extend-IsPart text c (part ∷ parts) ((before, inner, after, lies, braces), rest) = (
  (
    before,
    inner,
    after ++ c ∷ [],
    ap (λ t. t ++ c ∷ []) lies ∙ append_assoc (before ++ part) after (c ∷ []),
    braces,
  ),
  extend-IsPart text c parts rest,
)

add-IsPart :
    (text part : Text) (parts : List Text)
    → IsPart text part
    → All (IsPart text) parts
    → All (IsPart text) (parts ++ part ∷ [])
add-IsPart text part [] here all = (here, tt)
add-IsPart text part (p ∷ parts) here (first, rest) = (first, add-IsPart text part parts here rest)

grow-IsRight :
    (text : Text) (c : ℕ) (s : Scan) → IsRight text s → IsRight (text ++ c ∷ []) (grow c s)
grow-IsRight text c s (is_open, parts) =
    (extend-IsOpen text c s.current is_open, extend-IsPart text c s.candidates parts)

open_brace-IsRight :
    (text : Text) (s : Scan) → IsRight text s → IsRight (text ++ b'{' ∷ []) (open_brace b'{' s)
unfolding open_brace
open_brace-IsRight text s (is_open, parts) = elim (Bool-cases (is_zero s.depth)) [
  | inl outside ↦
      rw (outside, open_brace) ((text, [], refl, refl), extend-IsPart text b'{' s.candidates parts)
  | inr inside ↦ rw (inside, open_brace) (grow-IsRight text b'{' s (is_open, parts))
]

finish_candidate-IsRight :
    (text : Text) (current : Option Text) (s : Scan)
    → IsOpen text current
    → s.current ≡ extend b'}' current
    → All (IsPart (text ++ b'}' ∷ [])) s.candidates
    → IsRight (text ++ b'}' ∷ []) (finish_candidate (extend b'}' current) s)
finish_candidate-IsRight text none s is_open same parts =
    (subst (λ c. IsOpen (text ++ b'}' ∷ []) c) (sym same) tt, parts)
finish_candidate-IsRight text (some current) s (before, inner, ends, starts) same parts = (
  tt,
  add-IsPart (text ++ b'}' ∷ []) (current ++ b'}' ∷ []) s.candidates
      (
        before,
        inner,
        [],
        ap (λ t. t ++ b'}' ∷ []) ends
            ∙ append_assoc before current (b'}' ∷ [])
            ∙ sym (append-nil (before ++ (current ++ b'}' ∷ []))),
        ap (λ t. t ++ b'}' ∷ []) starts,
      )
      parts,
)

close_brace-IsRight :
    (text : Text) (s : Scan)
    → IsRight text s
    → IsRight (text ++ b'}' ∷ []) (close_brace (grow b'}' s))
unfolding close_brace
close_brace-IsRight text s (is_open, parts) =
    let longer = extend-IsPart text b'}' s.candidates parts in
    let depth = decreased s.depth in
    elim (Bool-cases (is_zero depth)) [
      | inl outside ↦
          rw (outside, close_brace)
            (finish_candidate-IsRight text s.current (record (grow b'}' s) { depth = depth })
              is_open refl longer)
      | inr inside ↦ rw (inside, close_brace) (extend-IsOpen text b'}' s.current is_open, longer)
    ]

brace_eq : (c d : ℕ) → (c == d) ≡ true → c ≡ d
brace_eq c d h = (nat_eq.beq_iff c d).0 h

scan_char-open :
    (s : Scan) → s.escape_next ≡ false → s.in_string ≡ false → scan_char b'{' s ≡ open_brace b'{' s
unfolding scan_char
scan_char-open s fresh outside = rw (fresh, outside, scan_char) refl

scan_char-close :
    (s : Scan)
    → s.escape_next ≡ false
    → s.in_string ≡ false
    → scan_char b'}' s ≡ close_brace (grow b'}' s)
unfolding scan_char
scan_char-close s fresh outside = rw (fresh, outside, scan_char) refl

scan_char-IsRight :
    (text : Text) (c : ℕ) (s : Scan) → IsRight text s → IsRight (text ++ c ∷ []) (scan_char c s)
unfolding scan_char
scan_char-IsRight text c s right =
    let grown = grow-IsRight text c s right in
    elim (Bool-cases s.escape_next) [
      | inl escaped ↦ rw (escaped, scan_char) grown
      | inr fresh ↦ elim (Bool-cases (c == b'\\' && s.in_string)) [
        | inl backslash ↦ rw (fresh, backslash, scan_char) grown
        | inr no_backslash ↦ elim (Bool-cases (c == b'"')) [
          | inl quote ↦ rw (fresh, no_backslash, quote, scan_char) grown
          | inr no_quote ↦ elim (Bool-cases s.in_string) [
            | inl inside ↦ rw (fresh, no_backslash, no_quote, inside, scan_char) grown
            | inr outside ↦ elim (Bool-cases (c == b'{')) [
              | inl opens ↦
                  subst (λ x. IsRight (text ++ x ∷ []) (scan_char x s))
                    (sym (brace_eq c b'{' opens))
                    (subst (λ t. IsRight (text ++ b'{' ∷ []) t)
                      (sym (scan_char-open s fresh outside)) (open_brace-IsRight text s right))
              | inr no_open ↦ elim (Bool-cases (c == b'}')) [
                | inl closes ↦
                    subst (λ x. IsRight (text ++ x ∷ []) (scan_char x s))
                      (sym (brace_eq c b'}' closes))
                      (subst (λ t. IsRight (text ++ b'}' ∷ []) t)
                        (sym (scan_char-close s fresh outside)) (close_brace-IsRight text s right))
                | inr plain ↦
                    rw (fresh, no_backslash, no_quote, outside, no_open, plain, scan_char) grown
              ]
            ]
          ]
        ]
      ]
    ]

scan-IsRight : (text read : Text) (s : Scan) → IsRight read s → IsRight (read ++ text) (scan text s)
unfolding scan
scan-IsRight [] read s right = subst (λ t. IsRight t s) (sym (append-nil read)) right
scan-IsRight (c ∷ text) read s right =
    subst (λ t. IsRight t (scan text (scan_char c s))) (append_assoc read (c ∷ []) text)
      (scan-IsRight text (read ++ c ∷ []) (scan_char c s) (scan_char-IsRight read c s right))

pub candidates-IsPart : (text : Text) → All (IsPart text) (extract_json_candidates text)
unfolding extract_json_candidates
candidates-IsPart text =
    (scan-IsRight text []
      (record {
        depth = pos 0;
        current = none;
        in_string = false;
        escape_next = false;
        candidates = [];
      })
      (tt, tt)).1
