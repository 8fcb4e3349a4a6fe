-- ===== src/Compaction/Compact/Tests.antt =====
-- Histories of four and five messages, and services whose model fails.
use mathlib.Core.List.{Perm}
use smallpieclaw.Prelude.Int.{ℤ, pos}
use smallpieclaw.Prelude.{
  ℕ, ◌-◌, ◌*◌, min, ◌≡◌, refl, false, none, some, List, [], ◌∷◌, ◌++◌, arith, length, get_elem?,
  drop, map,
}
use smallpieclaw.Compaction.{Message}
use smallpieclaw.Compaction.Compact.{
  Services, LlmCfg, divide, maybe_compact, summary_message, fallback_summary,
}
use smallpieclaw.Compaction.Compact.Division.{divide-Perm}
use smallpieclaw.Compaction.Compact.Result.{
  Fits, Locates, threshold_of, maybe_compact-Fits, maybe_compact-goal,
}

abbrev said : ℕ → Message
said c = record { role = "user"; content = some (c ∷ []); tool_calls = [] }

-- A hundred tokens a message; the model does not answer.
abbrev services : Services
services = record {
  marker = λ n. b'#' ∷ [];
  estimate = λ ms. 100 * length ms;
  margin = λ n. n;
  chat = λ text. none;
  is_space = λ c. false;
  characters = λ role. b'u' ∷ [];
  other = [];
}

abbrev cfg : LlmCfg
cfg = record { context_window = none; max_tokens = some 1000 }

abbrev history : List Message
history = map said (1 ∷ 2 ∷ 3 ∷ 4 ∷ 5 ∷ [])

-- The goal is the second message, and the first one and the third one are summarised.
compacted :
    maybe_compact services cfg history 1410 1 0
    ≡ some (
      said 2
          ∷ summary_message services (fallback_summary services (said 1 ∷ said 3 ∷ [])) 6000
          ∷ said 4
          ∷ said 5
          ∷ [],
      pos 0,
    )
unfolding maybe_compact summary_message fallback_summary
compacted = refl

divide-Perm_example :
    (anchor : Message) × (get_elem? history (min 1 (length history - 3)) ≡ some anchor)
    × ((divide history 1).first ≡ anchor ∷ [])
    × ((divide history 1).last ≡ drop (length history - 2) history)
    × Perm (anchor ∷ ((divide history 1).middle ++ (divide history 1).last)) history
divide-Perm_example = divide-Perm history 1 (omega arith)

maybe_compact-Fits_example :
    (result : List Message) × (idx : ℤ) × (maybe_compact services cfg history 1410 4 20
      ≡ some (result, idx))
    × Fits services 1 (threshold_of services cfg 1410) result
maybe_compact-Fits_example = maybe_compact-Fits services cfg history 1410 4 20 1 (λ n. omega arith)

maybe_compact-goal_example :
    (result : List Message) × (idx : ℤ) × (maybe_compact services cfg history 1410 4 20
      ≡ some (result, idx))
    × Locates services (said 5) result idx
maybe_compact-goal_example = maybe_compact-goal services cfg history 1410 4 20 (said 5) refl
