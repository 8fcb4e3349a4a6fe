-- ===== src/Scheduler/ExecutionLog/Rotation.antt =====
-- What the rotation of the execution log keeps.
use mathlib.Core.List.{reverse, reverse-cons, append-nil}
use smallpieclaw.Prelude.{
  ℕ, zero, suc, ◌+◌, ◌-◌, ◌<◌, String, ◌==◌, nat_eq, list_eq, ◌≡◌, refl, ap, sym, ◌∙◌, Bool, false,
  some, List, [], ◌∷◌, ◌++◌, if◌then◌else◌, arith, ltb, ltb→lt, ltb-false→le, take, keep,
  Bool-cases, inl, inr,
}
use smallpieclaw.Dict
use smallpieclaw.Dict.{Dict}
use smallpieclaw.Scheduler.Tags.{Text}
use smallpieclaw.Scheduler.ExecutionLog.{LogEntry, count_of, keep_newest, rotate}

-- The entries of one tag.
abbrev pub of_tag : Text → List LogEntry → List LogEntry
unfolding keep
of_tag tag entries = keep (λ e. e.tag == tag) entries

keep-append :
    (p : LogEntry → Bool) (xs ys : List LogEntry) → keep p (xs ++ ys) ≡ keep p xs ++ keep p ys
unfolding keep
keep-append p [] ys = refl
keep-append p (x ∷ xs) ys = ground (arith, keep-append p xs ys)

keep-reverse :
    (p : LogEntry → Bool) (xs : List LogEntry) → keep p (reverse xs) ≡ reverse (keep p xs)
unfolding keep
keep-reverse p [] = refl
keep-reverse p (x ∷ xs) =
    let split = ap (λ t. keep p t) (reverse-cons x xs) ∙ keep-append p (reverse xs) (x ∷ []) in
    let inner = keep-reverse p xs in
    elim (Bool-cases (p x)) [
      | inl in_tag ↦
          let alone : keep p (x ∷ []) ≡ x ∷ [] = ground (arith, in_tag) in
          let whole : x ∷ keep p xs ≡ keep p (x ∷ xs) = ground (arith, in_tag) in
          split
          ∙ ap (λ t. keep p (reverse xs) ++ t) alone
          ∙ ap (λ t. t ++ x ∷ []) inner
          ∙ sym (reverse-cons x (keep p xs))
          ∙ ap reverse whole
      | inr out ↦
          let alone : keep p (x ∷ []) ≡ [] = ground (arith, out) in
          let whole : keep p xs ≡ keep p (x ∷ xs) = ground (arith, out) in
          split
          ∙ ap (λ t. keep p (reverse xs) ++ t) alone
          ∙ append-nil (keep p (reverse xs))
          ∙ inner
          ∙ ap reverse whole
    ]

take-nil : (n : ℕ) → Path (List LogEntry) (take n []) []
take-nil zero = refl
take-nil (suc n) = refl

take-pos :
    (n : ℕ) (x : LogEntry) (xs : List LogEntry) → 0 < n → take n (x ∷ xs) ≡ x ∷ take (n - 1) xs
take-pos zero x xs h = absurd (omega arith)
take-pos (suc n) x xs h = ap (λ m. x ∷ take m xs) (omega arith)

take-none : (n : ℕ) (xs : List LogEntry) → n ≡ 0 → take n xs ≡ []
take-none n xs h = ap (λ m. take m xs) h

module _ (max_per_job : ℕ) where
  -- How many more entries of the tag may be kept.
  left_for : Dict Text ℕ → Text → ℕ
  left_for counts tag = max_per_job - count_of (Dict.get counts tag)

  left-nil : (tag : Text) → left_for [] tag ≡ max_per_job
  unfolding left_for Dict.get
  left-nil tag = omega arith

  left-put_self :
      (counts : Dict Text ℕ) (tag : Text) (n : ℕ)
      → left_for (Dict.put counts tag n) tag ≡ max_per_job - n
  unfolding left_for
  left-put_self counts tag n = ap (λ o. max_per_job - count_of o) (Dict.get-put_self counts tag n)

  left-put_other :
      (counts : Dict Text ℕ) (tag other : Text) (n : ℕ)
      → (tag == other) ≡ false
      → left_for (Dict.put counts tag n) other ≡ left_for counts other
  unfolding left_for
  left-put_other counts tag other n h =
      ap (λ o. max_per_job - count_of o) {y = Dict.get counts other}
        (Dict.get-put counts tag other n ∙ ap (λ b. if b then some n else Dict.get counts other) h)

  keep_newest-of_tag :
      (counts : Dict Text ℕ) (entries : List LogEntry) (tag : Text)
      → of_tag tag (keep_newest max_per_job counts entries)
        ≡ take (left_for counts tag) (of_tag tag entries)
  unfolding keep_newest keep left_for
  keep_newest-of_tag counts [] tag = sym (take-nil (left_for counts tag))
  keep_newest-of_tag counts (e ∷ entries) tag =
      let count = count_of (Dict.get counts e.tag) in
      let counts' = Dict.put counts e.tag (count + 1) in
      let taken = keep_newest max_per_job counts' entries in
      let dropped = keep_newest max_per_job counts entries in
      let rest = of_tag tag entries in
      elim (Bool-cases (ltb count max_per_job)) [
        | inl room ↦ elim (Bool-cases (e.tag == tag)) [
          | inl same ↦
              let eq = (list_eq.beq_iff e.tag tag).0 same in
              let here : left_for counts tag ≡ max_per_job - count =
                ap (λ t. left_for counts t) (sym eq) in
              let below = ltb→lt count max_per_job room in
              let fewer : left_for counts' tag ≡ left_for counts tag - 1 =
                let after : left_for counts' tag ≡ max_per_job - (count + 1) =
                  ap (λ t. left_for counts' t) (sym eq) ∙ left-put_self counts e.tag (count + 1) in
                omega (arith, after, here) in
              let kept : of_tag tag taken ≡ take (left_for counts tag - 1) rest =
                keep_newest-of_tag counts' entries tag ∙ ap (λ n. take n rest) fewer in
              rw (room, same)
                (ap (λ t. e ∷ t) kept
                  ∙ sym (take-pos (left_for counts tag) e rest (omega (arith, here, below))))
          | inr other ↦
              rw (room, other)
                (keep_newest-of_tag counts' entries tag
                  ∙ ap (λ n. take n rest) (left-put_other counts e.tag tag (count + 1) other))
        ]
        | inr full ↦ elim (Bool-cases (e.tag == tag)) [
          | inl same ↦
              let eq = (list_eq.beq_iff e.tag tag).0 same in
              let here : left_for counts tag ≡ max_per_job - count =
                ap (λ t. left_for counts t) (sym eq) in
              let none_left : left_for counts tag ≡ 0 =
                omega (arith, here, ltb-false→le count max_per_job full) in
              rw (full) (
                keep_newest-of_tag counts entries tag
                ∙ take-none (left_for counts tag) rest none_left
                ∙ sym (take-none (left_for counts tag) (of_tag tag (e ∷ entries)) none_left))
          | inr other ↦ rw (full, other) (keep_newest-of_tag counts entries tag)
        ]
      ]

module _ (max_per_job : ℕ) (at_least : String → String → Bool) (cutoff : String)
    (entries : List LogEntry) where
  -- The rotation keeps, of the entries of each tag, the `max_per_job` newest of those that are not
  -- older than the cutoff, in their order, and nothing else.
  pub rotate-newest :
      (tag : Text)
      → of_tag tag (rotate max_per_job at_least cutoff entries)
        ≡ reverse
            (take max_per_job (reverse (of_tag tag (keep (λ e. at_least e.ts cutoff) entries))))
  unfolding rotate
  rotate-newest tag =
      let fresh = keep (λ e. at_least e.ts cutoff) entries in
      let p : LogEntry → Bool = λ e. e.tag == tag in
      keep-reverse p (keep_newest max_per_job [] (reverse fresh))
      ∙ ap reverse (
          keep_newest-of_tag max_per_job [] (reverse fresh) tag
          ∙ ap (λ n. take n (of_tag tag (reverse fresh))) {x = left_for max_per_job [] tag}
              {y = max_per_job} (left-nil max_per_job tag)
          ∙ ap (λ t. take max_per_job t) (keep-reverse p fresh))
