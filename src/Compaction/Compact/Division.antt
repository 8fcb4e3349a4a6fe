-- ===== src/Compaction/Compact/Division.antt =====
-- How `maybe_compact` divides a long history.
use mathlib.Core.List.{Perm, perm_middle, append_assoc}
use mathlib.Core.List.Perm
use smallpieclaw.Prelude.{
  ℕ, suc, ◌+◌, ◌-◌, ◌≤◌, min, ◌≡◌, refl, sym, ap, ◌∙◌, subst, some, List, [], ◌∷◌, ◌++◌, arith,
  length, take, drop, get_elem?, append-take-drop, drop-drop, split_at,
}
use smallpieclaw.Compaction.{Message}
use smallpieclaw.Compaction.Compact.{divide}

-- In a history of four messages or more, the anchor is the goal, or the third message from the end
-- when the goal is nearer to the end; the two last messages are the last part; and every message of
-- the history is, once, in exactly one of the three parts.
pub divide-Perm :
    (messages : List Message) (goal_idx : ℕ)
    → 4 ≤ length messages
    → (anchor : Message) × (get_elem? messages (min goal_idx (length messages - 3)) ≡ some anchor)
      × ((divide messages goal_idx).first ≡ anchor ∷ [])
      × ((divide messages goal_idx).last ≡ drop (length messages - 2) messages)
      × Perm
          (anchor ∷ ((divide messages goal_idx).middle ++ (divide messages goal_idx).last))
          messages
unfolding divide
divide-Perm messages goal_idx h =
    let size = length messages in
    let goal = min goal_idx (size - 3) in
    let (anchor, found, alone, whole) = split_at goal messages (omega arith) in
    let rest = drop (suc goal) messages in
    let between = size - 2 - suc goal in
    let tail : drop between rest ≡ drop (size - 2) messages =
      drop-drop (suc goal) between messages
      ∙ ap (λ i. drop i messages) {x = suc goal + between} {y = size - 2} (omega arith) in
    let halves : take between rest ++ drop (size - 2) messages ≡ rest =
      ap (λ t. take between rest ++ t) (sym tail) ∙ append-take-drop between rest in
    let joined : (take goal messages ++ take between rest) ++ drop (size - 2) messages
        ≡ take goal messages ++ rest =
      append_assoc (take goal messages) (take between rest) (drop (size - 2) messages)
      ∙ ap (λ t. take goal messages ++ t) halves in
    (
      anchor,
      found,
      alone,
      refl,
      subst (λ t. Perm (anchor ∷ t) messages) (sym joined)
          (subst (λ t. Perm (anchor ∷ (take goal messages ++ rest)) t) (sym whole)
            (Perm.symm (perm_middle (take goal messages) rest))),
    )
