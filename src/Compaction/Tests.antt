-- ===== src/Compaction/Tests.antt =====
-- Small texts and a small context.
use smallpieclaw.Prelude.{ℕ, ◌≡◌, refl, [], ◌∷◌}
use smallpieclaw.Compaction.{Text, truncate_head_tail}

-- "#" stands for the line of the marker.
abbrev hash : ℕ → Text
hash n = b'#' ∷ []

abbrev digits : Text
digits = b'1' ∷ b'2' ∷ b'3' ∷ b'4' ∷ b'5' ∷ []

truncated : truncate_head_tail hash digits 1 2 ≡ b'1' ∷ b'#' ∷ b'4' ∷ b'5' ∷ []
unfolding truncate_head_tail
truncated = refl
