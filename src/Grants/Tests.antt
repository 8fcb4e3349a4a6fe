-- ===== src/Grants/Tests.antt =====
-- Containment and a small history of grants, run on concrete inputs.
use smallpieclaw.Prelude.{
  ◌≡◌, ◌↔◌, refl, true, false, none, some, List, [], ◌∷◌, contains, list_beq, arith,
}
use smallpieclaw.Paths.{FilePath, is_contained}
use smallpieclaw.Paths.Containment.{render, is_prefix, is_contained-prefix}
use smallpieclaw.Grants.{
  prompt, session, Grant, grant_beq, Op, add_op, clear_prompt_op, check, replay,
}
use smallpieclaw.Grants.Consent.{stands, Covers, check_iff}

-- "a" and "ab" as components.
abbrev a : FilePath
a = b'a' ∷ []

abbrev ab : FilePath
ab = b'a' ∷ b'b' ∷ []

is_contained-prefix_example :
    is_contained (render (ab ∷ a ∷ [])) (render (a ∷ [])) ≡ is_prefix (a ∷ []) (ab ∷ a ∷ [])
unfolding contains
is_contained-prefix_example =
    is_contained-prefix (a ∷ []) (ab ∷ a ∷ []) (λ e. absurd (ground arith))
      ((λ e. absurd (ground arith), refl), tt)
      ((λ e. absurd (ground arith), refl), ((λ e. absurd (ground arith), refl), tt))

-- The sibling "/ab" is not in "/a".
sibling : is_prefix (a ∷ []) (ab ∷ a ∷ []) ≡ false
unfolding is_prefix list_beq
sibling = refl

abbrev same : FilePath → FilePath
same path = path

-- A sub-agent's prompt grant, a session grant for all, a vetoed one, and the end of the prompt.
abbrev history : List Op
history =
    add_op "file_write" (render (a ∷ [])) prompt (some "sa-1")
    ∷ add_op "file_read" (render (a ∷ [])) session none
    ∷ add_op "shell" (render (a ∷ [])) session none
    ∷ clear_prompt_op none
    ∷ []

check_iff_example :
    (check same (replay same history []) "file_write" (render (a ∷ ab ∷ [])) (some "sa-1") ≡ true)
    ↔ ((g : Grant) × (stands same history g ≡ true)
        × Covers same g "file_write" (render (a ∷ ab ∷ [])) (some "sa-1"))
check_iff_example = check_iff same history "file_write" (render (a ∷ ab ∷ [])) (some "sa-1")

-- The sub-agent is let through and the main agent is not; the session grant covers both.
own_scope :
    check same (replay same history []) "file_write" (render (a ∷ ab ∷ [])) (some "sa-1") ≡ true
unfolding check replay render grant_beq list_beq
own_scope = refl

other_scope : check same (replay same history []) "file_write" (render (a ∷ ab ∷ [])) none ≡ false
unfolding check replay render grant_beq list_beq
other_scope = refl

vetoed : check same (replay same history []) "shell" (render (a ∷ [])) none ≡ false
unfolding check replay render grant_beq list_beq
vetoed = refl
