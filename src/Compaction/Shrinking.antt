-- ===== src/Compaction/Shrinking.antt =====
-- The loop that tightens the caps ends, and what truncation keeps.
use mathlib.Core.List.{append_assoc}
use smallpieclaw.Prelude.{
  ℕ, zero, suc, ◌+◌, ◌*◌, ◌-◌, ◌/◌, ◌≤◌, ◌<◌, max, ◌≡◌, ◌⊎◌, inl, inr, refl, ap, ◌∙◌, sym, false,
  ◌&&◌, some, List, [], ◌∷◌, ◌++◌, arith, leb, ltb, length, take, drop, length-append, length-take,
  length-drop, Bool-cases,
}
use smallpieclaw.Compaction.{
  Text, Message, shrink_floor, last_chars, truncate_head_tail, capped, shrink,
  cap_short_overbudget_context,
}

-- The largest limit that so many rounds bring down to the floor.
abbrev pub reach : ℕ → ℕ
reach zero = 400
reach (suc n) = 2 * reach n + 1

pub reach-floor : (fuel : ℕ) → 400 ≤ reach fuel
reach-floor zero = omega arith
reach-floor (suc fuel) = omega (arith, reach-floor fuel)

module _ (marker : ℕ → Text) (estimate : List Message → ℕ) (messages : List Message)
    (threshold : ℕ) where
  shrink-total :
      (fuel limit : ℕ)
      → 400 ≤ limit
      → limit ≤ reach fuel
      → (end : ℕ) × (shrink marker estimate messages threshold (suc fuel) limit ≡ some end)
        × (400 ≤ end)
        × (end ≤ limit)
        × ((estimate (capped marker messages end) ≤ threshold) ⊎ (end ≡ 400))
  unfolding shrink
  shrink-total zero limit low h = (limit, ground arith, low, omega arith, inr (omega arith))
  shrink-total (suc fuel) limit low h =
      elim (Bool-cases
        (ltb threshold (estimate (capped marker messages limit)) && ltb shrink_floor limit)) [
          | inl again ↦
              let (end, runs, above, below, good) =
                shrink-total fuel (max shrink_floor (limit / 2)) (omega arith)
                  (omega (arith, reach-floor fuel)) in
              (end, rw (again, shrink) runs, above, omega arith, good)
          | inr stops ↦ (limit, rw (stops, shrink) refl, low, omega arith, ground arith)
        ]

  -- The tightening of an over-long short context ends: it returns the messages capped at some limit
  -- between 400 and 6000 characters, and either the estimate of what it returns is within the
  -- threshold or the limit is the floor of 400.
  pub cap_short_overbudget_context-ends :
      (limit : ℕ) × (cap_short_overbudget_context marker estimate messages threshold
        ≡ some (capped marker messages limit))
      × (400 ≤ limit)
      × (limit ≤ 6000)
      × ((estimate (capped marker messages limit) ≤ threshold) ⊎ (limit ≡ 400))
  unfolding cap_short_overbudget_context
  cap_short_overbudget_context-ends =
      let (limit, runs, above, below, good) = shrink-total 4 6000 (omega arith) (omega arith) in
      (limit, rw (runs, cap_short_overbudget_context) refl, above, below, good)

take-append_first : (n : ℕ) (xs ys : Text) → n ≤ length xs → take n (take n xs ++ ys) ≡ take n xs
take-append_first zero xs ys h = refl
take-append_first (suc n) [] ys h = absurd (omega arith)
take-append_first (suc n) (x ∷ xs) ys h = ap (λ t. x ∷ t) (take-append_first n xs ys (omega arith))

drop-append_last : (xs ys : Text) → drop (length xs) (xs ++ ys) ≡ ys
drop-append_last [] ys = refl
drop-append_last (x ∷ xs) ys = drop-append_last xs ys

module _ (marker : ℕ → Text) where
  -- A text longer than the two ends together keeps its first `head` characters and its last
  -- `tail + 1` characters, with the marker for all the others between them.
  truncate_head_tail-ends :
      (text : Text) (head tail : ℕ)
      → head + suc tail < length text
      → (take head (truncate_head_tail marker text head (suc tail)) ≡ take head text)
        × (last_chars (suc tail) (truncate_head_tail marker text head (suc tail))
            ≡ last_chars (suc tail) text)
        × (length (truncate_head_tail marker text head (suc tail))
            ≡ head + length (marker (length text - head - suc tail)) + suc tail)
  unfolding truncate_head_tail last_chars
  truncate_head_tail-ends text head tail h =
      let first = take head text in
      let middle = marker (length text - head - suc tail) in
      let end = drop (length text - suc tail) text in
      let long : leb (length text) (head + suc tail) ≡ false = ground arith in
      let ends : length end ≡ suc tail = omega (arith, length-drop (length text - suc tail) text) in
      let starts : length first ≡ head = omega (arith, length-take head text) in
      let two : length (middle ++ end) ≡ length middle + suc tail =
        omega (arith, length-append middle end) in
      let size : length (first ++ (middle ++ end)) ≡ head + length middle + suc tail =
        omega (arith, length-append first (middle ++ end)) in
      let front : length (first ++ (middle ++ end)) - suc tail ≡ length (first ++ middle) =
        omega (arith, length-append first middle) in
      rw (long, truncate_head_tail)
        (
          take-append_first head text (middle ++ end) (omega arith),
          ap (λ n. drop n (first ++ (middle ++ end))) front
              ∙ ap (λ t. drop (length (first ++ middle)) t) (sym (append_assoc first middle end))
              ∙ drop-append_last (first ++ middle) end,
          size,
        )
