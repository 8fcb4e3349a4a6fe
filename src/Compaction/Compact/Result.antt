-- ===== src/Compaction/Compact/Result.antt =====
-- The history that `maybe_compact` returns: its size, and where the goal is in it.
use mathlib.Core.Option
use smallpieclaw.Prelude.Int.{ℤ, pos, difference}
use smallpieclaw.Prelude.{
  ℕ, suc, ◌+◌, ◌-◌, ◌≤◌, ◌<◌, min, ◌≡◌, ◌⊎◌, inl, inr, refl, ap, ◌∙◌, sym, subst, some, List, [],
  ◌∷◌, arith, leb, length, drop, get_elem?, length-drop, length-map, Bool-cases, All, get_elem?-lt,
  get_elem?-drop, get_elem?-map,
}
use smallpieclaw.Compaction.{Message, cap_string_message, capped}
use smallpieclaw.Compaction.Shrinking.{cap_short_overbudget_context-ends}
use smallpieclaw.Compaction.Compact.{
  Services, LlmCfg, divide, summarize, build_compacted, summary_message, compact, new_goal_idx,
  kept_goal_idx, maybe_compact, resolve_compaction_threshold,
}
use smallpieclaw.Compaction.Compact.Division.{divide-Perm}
use smallpieclaw.Compaction.Compact.Limits.{
  uniform, tighten-ends, IsShort, capped-IsShort, build_compacted-IsShort,
}

-- The threshold of a call of `maybe_compact`.
abbrev pub threshold_of : Services → LlmCfg → ℕ → ℕ
threshold_of sv cfg ctx_max_tokens = (resolve_compaction_threshold sv cfg ctx_max_tokens).1

-- Within the threshold, or short: at most four messages of at most 444 characters besides a marker.
abbrev pub Fits : Services → ℕ → ℕ → List Message → Type 0
Fits sv mark threshold result =
    (sv.estimate result ≤ threshold) ⊎ ((length result ≤ 4) × All (IsShort (444 + mark)) result)

-- The index points to the goal, unchanged or cut to a cap between 400 and 6000 characters.
abbrev pub Locates : Services → Message → List Message → ℤ → Type 0
Locates sv goal result idx =
    (i : ℕ) × (idx ≡ pos i)
    × ((get_elem? result i ≡ some goal)
        ⊎ ((limit : ℕ) × (400 ≤ limit)
            × (limit ≤ 6000)
            × (get_elem? result i ≡ some (cap_string_message sv.marker goal limit))))

module _ (sv : Services) (messages : List Message) (goal_idx threshold : ℕ) where
  built : ℕ → List Message
  built limit =
      build_compacted sv (divide messages goal_idx) (summarize sv (divide messages goal_idx).middle)
        (uniform limit)

  compact-ends :
      (limit : ℕ) × (compact sv messages goal_idx threshold ≡ some (built limit))
      × (400 ≤ limit)
      × (limit ≤ 6000)
      × ((sv.estimate (built limit) ≤ threshold) ⊎ (limit ≡ 400))
  unfolding compact built
  compact-ends =
      let parts = divide messages goal_idx in
      let (limit, runs, above, below, good) =
        tighten-ends sv parts (summarize sv parts.middle) threshold in
      (limit, rw (runs, compact) refl, above, below, good)

  -- The anchor, the summary and the two last messages.
  built-shape :
      4 ≤ length messages
      → (anchor : Message) × (get_elem? messages (min goal_idx (length messages - 3)) ≡ some anchor)
        × ((limit : ℕ)
            → (summary : Message) × (built limit
                ≡ cap_string_message sv.marker anchor limit
                  ∷ summary
                  ∷ capped sv.marker (drop (length messages - 2) messages) limit))
  unfolding built build_compacted
  built-shape h =
      let (anchor, found, alone, tail, same) = divide-Perm messages goal_idx h in
      (
        anchor,
        found,
        λ limit. (
          summary_message sv (summarize sv (divide messages goal_idx).middle) limit,
          rw (alone, tail) refl,
        ),
      )

  built-length : (limit : ℕ) → 4 ≤ length messages → length (built limit) ≡ 4
  built-length limit h =
      let (anchor, found, shape) = built-shape h in
      let recent = drop (length messages - 2) messages in
      omega (
        arith,
        ap length (shape limit).1,
        length-map recent (λ m. cap_string_message sv.marker m limit),
        length-drop (length messages - 2) messages,
      )

  built-IsShort :
      (mark : ℕ) → ((n : ℕ) → length (sv.marker n) ≤ mark) → All (IsShort (444 + mark)) (built 400)
  unfolding built
  built-IsShort mark small =
      let parts = divide messages goal_idx in
      build_compacted-IsShort sv mark small parts (summarize sv parts.middle)

  built-goal :
      (goal : Message) (limit : ℕ)
      → 4 ≤ length messages
      → get_elem? messages goal_idx ≡ some goal
      → goal_idx < length messages
      → (i : ℕ) × (new_goal_idx messages (built limit) goal_idx ≡ pos i)
        × (get_elem? (built limit) i ≡ some (cap_string_message sv.marker goal limit))
  unfolding new_goal_idx difference
  built-goal goal limit h at inside =
      let (anchor, found, shape) = built-shape h in
      let recent = drop (length messages - 2) messages in
      elim (Bool-cases (leb goal_idx (length messages - 3))) [
        | inl early ↦
            let same : some anchor ≡ some goal =
              sym found
              ∙ ap (λ i. get_elem? messages i) {x = min goal_idx (length messages - 3)}
                  (ground arith)
              ∙ at in
            (
              0,
              rw (early, new_goal_idx) refl,
              ap (λ t. get_elem? t 0) (shape limit).1
                  ∙ ap (λ o. Option.map (λ m. cap_string_message sv.marker m limit) o) same,
            )
        | inr late ↦
            let j = goal_idx - (length messages - 2) in
            let here : get_elem? recent j ≡ some goal =
              get_elem?-drop (length messages - 2) j messages
              ∙ ap (λ i. get_elem? messages i) {x = length messages - 2 + j} (ground arith)
              ∙ at in
            (
              suc (suc j),
              ground (arith, built-length limit h),
              ap (λ t. get_elem? t (suc (suc j))) (shape limit).1
                  ∙ get_elem?-map (λ m. cap_string_message sv.marker m limit) j recent here,
            )
      ]

-- A loop that ends below the threshold or at the floor returns what fits.
fits :
    (sv : Services) (mark threshold limit : ℕ) (at_limit : ℕ → List Message)
    → length (at_limit limit) ≤ 4
    → All (IsShort (444 + mark)) (at_limit 400)
    → (sv.estimate (at_limit limit) ≤ threshold) ⊎ (limit ≡ 400)
    → Fits sv mark threshold (at_limit limit)
fits sv mark threshold limit at_limit few floor (inl within) = inl within
fits sv mark threshold limit at_limit few floor (inr least) =
    inr (few, subst (λ n. All (IsShort (444 + mark)) (at_limit n)) (sym least) floor)

kept_goal_idx-lt :
    (ms : List Message) (goal_idx : ℕ)
    → goal_idx < length ms
    → kept_goal_idx ms goal_idx ≡ pos goal_idx
unfolding kept_goal_idx
kept_goal_idx-lt [] goal_idx h = absurd (omega arith)
kept_goal_idx-lt (m ∷ ms) goal_idx h = ap pos (omega arith)

module _ (sv : Services) (cfg : LlmCfg) (messages : List Message)
    (ctx_max_tokens goal_idx tool_defs_tokens : ℕ) where
  -- `maybe_compact` ends, whatever the estimate and the model answer, and what it returns is within
  -- the threshold by the estimate of its messages, or has at most four messages whose texts have at
  -- most 444 characters besides the line for what is left out. `mark` bounds that line.
  pub maybe_compact-Fits :
      (mark : ℕ)
      → ((n : ℕ) → length (sv.marker n) ≤ mark)
      → (result : List Message) × (idx : ℤ) × (maybe_compact sv cfg messages ctx_max_tokens goal_idx
            tool_defs_tokens
          ≡ some (result, idx))
        × Fits sv mark (threshold_of sv cfg ctx_max_tokens) result
  unfolding maybe_compact
  maybe_compact-Fits mark small =
      let threshold = threshold_of sv cfg ctx_max_tokens in
      elim (Bool-cases (leb (sv.estimate messages + tool_defs_tokens) threshold)) [
        | inl within ↦ (messages, pos goal_idx, rw (within, maybe_compact) refl, inl (ground arith))
        | inr over ↦ elim (Bool-cases (leb (length messages) 3)) [
          | inl brief ↦
              let (limit, runs, above, below, good) =
                cap_short_overbudget_context-ends sv.marker sv.estimate messages threshold in
              (
                capped sv.marker messages limit,
                kept_goal_idx (capped sv.marker messages limit) goal_idx,
                rw (over, brief, runs, maybe_compact) refl,
                fits sv mark threshold limit (capped sv.marker messages)
                    (ground
                      (arith, length-map messages (λ m. cap_string_message sv.marker m limit)))
                    (capped-IsShort sv.marker mark small messages) good,
              )
          | inr long ↦
              let (limit, runs, above, below, good) = compact-ends sv messages goal_idx threshold in
              let result = built sv messages goal_idx threshold limit in
              (
                result,
                new_goal_idx messages result goal_idx,
                rw (over, long, runs, maybe_compact) refl,
                fits sv mark threshold limit (built sv messages goal_idx threshold)
                    (omega
                      (arith, built-length sv messages goal_idx threshold limit (ground arith)))
                    (built-IsShort sv messages goal_idx threshold mark small) good,
              )
        ]
      ]

  -- When the goal's index is in range, the index that `maybe_compact` returns points to the goal in
  -- the history that it returns, on every path: the message is unchanged, or its text is cut to a
  -- cap between 400 and 6000 characters.
  pub maybe_compact-goal :
      (goal : Message)
      → get_elem? messages goal_idx ≡ some goal
      → (result : List Message) × (idx : ℤ) × (maybe_compact sv cfg messages ctx_max_tokens goal_idx
            tool_defs_tokens
          ≡ some (result, idx))
        × Locates sv goal result idx
  unfolding maybe_compact
  maybe_compact-goal goal at =
      let threshold = threshold_of sv cfg ctx_max_tokens in
      let inside = get_elem?-lt goal_idx messages at in
      elim (Bool-cases (leb (sv.estimate messages + tool_defs_tokens) threshold)) [
        | inl within ↦
            (messages, pos goal_idx, rw (within, maybe_compact) refl, (goal_idx, refl, inl at))
        | inr over ↦ elim (Bool-cases (leb (length messages) 3)) [
          | inl brief ↦
              let (limit, runs, above, below, good) =
                cap_short_overbudget_context-ends sv.marker sv.estimate messages threshold in
              let result = capped sv.marker messages limit in
              let capping : Message → Message = λ m. cap_string_message sv.marker m limit in
              let size : length result ≡ length messages = length-map messages capping in
              (
                result,
                kept_goal_idx result goal_idx,
                rw (over, brief, runs, maybe_compact) refl,
                (
                  goal_idx,
                  kept_goal_idx-lt result goal_idx (omega (arith, size, inside)),
                  inr (limit, above, below, get_elem?-map capping goal_idx messages at),
                ),
              )
          | inr long ↦
              let (limit, runs, above, below, good) = compact-ends sv messages goal_idx threshold in
              let result = built sv messages goal_idx threshold limit in
              let (i, index, there) =
                built-goal sv messages goal_idx threshold goal limit (ground arith) at inside in
              (
                result,
                new_goal_idx messages result goal_idx,
                rw (over, long, runs, maybe_compact) refl,
                (i, index, inr (limit, above, below, there)),
              )
        ]
      ]
