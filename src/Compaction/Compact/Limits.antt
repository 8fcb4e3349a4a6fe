-- ===== src/Compaction/Compact/Limits.antt =====
-- The tightening loop of `maybe_compact` ends, and how large its result can be.
use smallpieclaw.Prelude.{
  ℕ, zero, suc, ◌+◌, ◌-◌, ◌/◌, ◌≤◌, max, ◌≡◌, ◌⊎◌, inl, inr, refl, ◌&&◌, ◌||◌, Option, none, some,
  List, [], ◌∷◌, ◌++◌, arith, leb, ltb, length, take, drop, length-append, length-take, length-drop,
  Bool-cases, All,
}
use smallpieclaw.Compaction.{
  Text, Message, shrink_floor, last_chars, truncate_head_tail, cap_string_message, capped_content,
  capped,
}
use smallpieclaw.Compaction.Shrinking.{reach, reach-floor}
use smallpieclaw.Compaction.Compact.{
  Services, Parts, Caps, wide, build_compacted, summary_message, tighten, heading,
}

abbrev pub uniform : ℕ → Caps
uniform n = record { of_summary = n; of_recent = n; of_first = n }

module _ (sv : Services) (parts : Parts) (summary : Text) (threshold : ℕ) where
  tighten-total :
      (fuel limit : ℕ)
      → 400 ≤ limit
      → limit ≤ reach fuel
      → (end : ℕ) × (tighten sv parts summary threshold (suc fuel) (uniform limit)
          ≡ some (uniform end))
        × (400 ≤ end)
        × (end ≤ limit)
        × ((sv.estimate (build_compacted sv parts summary (uniform end)) ≤ threshold) ⊎ (end ≡ 400))
  unfolding tighten
  tighten-total zero limit low h = (limit, ground arith, low, omega arith, inr (omega arith))
  tighten-total (suc fuel) limit low h =
      elim (Bool-cases (
        ltb threshold (sv.estimate (build_compacted sv parts summary (uniform limit)))
        && (ltb shrink_floor limit || ltb shrink_floor limit || ltb shrink_floor limit))) [
          | inl again ↦
              let (end, runs, above, below, good) =
                tighten-total fuel (max shrink_floor (limit / 2)) (omega arith)
                  (omega (arith, reach-floor fuel)) in
              (end, rw (again, tighten) runs, above, omega arith, good)
          | inr stops ↦ (limit, rw (stops, tighten) refl, low, omega arith, ground arith)
        ]

  pub tighten-ends :
      (end : ℕ) × (tighten sv parts summary threshold 5 wide ≡ some (uniform end))
      × (400 ≤ end)
      × (end ≤ 6000)
      × ((sv.estimate (build_compacted sv parts summary (uniform end)) ≤ threshold) ⊎ (end ≡ 400))
  tighten-ends = tighten-total 4 6000 (omega arith) (omega arith)

-- A content is not text, or it has at most so many characters.
abbrev pub ShortContent : ℕ → Option Text → Type 0
ShortContent n none = Unit
ShortContent n (some text) = length text ≤ n

abbrev pub IsShort : ℕ → Message → Type 0
IsShort n m = ShortContent n m.content

module _ (marker : ℕ → Text) (mark : ℕ) (small : (n : ℕ) → length (marker n) ≤ mark) where
  cut-length :
      (text : Text)
      → length (take 200 text ++ (marker (length text - 200 - 200) ++ last_chars 200 text))
        ≤ 400 + mark
  unfolding last_chars
  cut-length text =
      let middle = marker (length text - 200 - 200) in
      let end = drop (length text - 200) text in
      omega (
        arith,
        small (length text - 200 - 200),
        length-append (take 200 text) (middle ++ end),
        length-append middle end,
        length-take 200 text,
        length-drop (length text - 200) text,
      )

  pub truncate_head_tail-short :
      (text : Text) → length (truncate_head_tail marker text 200 200) ≤ 400 + mark
  unfolding truncate_head_tail
  truncate_head_tail-short text = elim (Bool-cases (leb (length text) (200 + 200))) [
    | inl short ↦
        let fits : length text ≤ 400 + mark = ground arith in rw (short, truncate_head_tail) fits
    | inr long ↦ rw (long, truncate_head_tail) (cut-length text)
  ]

  capped_content-short :
      (content : Option Text) → ShortContent (444 + mark) (capped_content marker 400 content)
  capped_content-short none = tt
  capped_content-short (some text) = elim (Bool-cases (ltb 400 (length text))) [
    | inl long ↦
        let fits : length (truncate_head_tail marker text 200 200) ≤ 444 + mark =
          omega (arith, truncate_head_tail-short text) in
        rw (long, capped_content) fits
    | inr short ↦
        let fits : length text ≤ 444 + mark = ground arith in rw (short, capped_content) fits
  ]

  pub capped-IsShort : (ms : List Message) → All (IsShort (444 + mark)) (capped marker ms 400)
  unfolding cap_string_message
  capped-IsShort [] = tt
  capped-IsShort (m ∷ ms) = (capped_content-short m.content, capped-IsShort ms)

module _ (sv : Services) (mark : ℕ) (small : (n : ℕ) → length (sv.marker n) ≤ mark) where
  All-append :
      (n : ℕ) (xs ys : List Message)
      → All (IsShort n) xs
      → All (IsShort n) ys
      → All (IsShort n) (xs ++ ys)
  All-append n [] ys a b = b
  All-append n (x ∷ xs) ys a b = (a.0, All-append n xs ys a.1 b)

  pub build_compacted-IsShort :
      (parts : Parts) (summary : Text)
      → All (IsShort (444 + mark)) (build_compacted sv parts summary (uniform 400))
  unfolding build_compacted summary_message
  build_compacted-IsShort parts summary =
      let bounded = truncate_head_tail sv.marker summary 200 200 in
      let fits : length (heading ++ bounded) ≤ 444 + mark = omega (
        arith,
        length-append heading bounded,
        truncate_head_tail-short sv.marker mark small summary,
      ) in
      All-append (444 + mark) (capped sv.marker parts.first 400)
        (summary_message sv summary 400 ∷ capped sv.marker parts.last 400)
        (capped-IsShort sv.marker mark small parts.first)
        (fits, capped-IsShort sv.marker mark small parts.last)
