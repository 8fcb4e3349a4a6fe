-- ===== src/Paths/Containment.antt =====
-- Containment of rendered paths is the prefix order on their components.
use mathlib.Core.List.{append_assoc}
use smallpieclaw.Prelude.{
  ◌==◌, nat_eq, list_eq, list_beq, ◌≡◌, ◌≢◌, refl, Bool, true, false, ◌&&◌, ◌||◌, List, [], ◌∷◌,
  ◌++◌, All, arith, contains,
}
use smallpieclaw.Paths.{FilePath, starts_with, is_contained}

-- The components of an absolute path, each behind its separator.
unfoldable pub render_below : List FilePath → FilePath
render_below [] = []
render_below (c ∷ cs) = b'/' ∷ (c ++ render_below cs)

-- The root is "/", any other path "/a/b".
unfoldable pub render : List FilePath → FilePath
unfolding render_below
render [] = b'/' ∷ []
render (c ∷ cs) = render_below (c ∷ cs)

-- A name in a path: not empty, and without a separator.
abbrev pub IsComponent : FilePath → Type 0
IsComponent c = (c ≢ []) × (contains c b'/' ≡ false)

unfoldable pub is_prefix : List FilePath → List FilePath → Bool
is_prefix [] path = true
is_prefix (z ∷ zone) [] = false
is_prefix (z ∷ zone) (c ∷ path) = c == z && is_prefix zone path

-- What may stand behind a component: nothing, or a separator.
abbrev Led : FilePath → Type 0
Led [] = Unit
Led (c ∷ t) = c ≡ b'/'

render_below-Led : (cs : List FilePath) → Led (render_below cs)
unfolding render_below
render_below-Led [] = tt
render_below-Led (c ∷ cs) = refl

split :
    (p z t u : FilePath)
    → contains p b'/' ≡ false
    → contains z b'/' ≡ false
    → Led t
    → Led u
    → (p ++ t == z ++ u || starts_with (p ++ t) (z ++ (u ++ b'/' ∷ [])))
      ≡ (p == z && (t == u || starts_with t (u ++ b'/' ∷ [])))
unfolding starts_with contains list_beq
split [] [] t u hp hz ht hu = refl
split [] (d ∷ z) [] u hp hz ht hu = refl
split [] (d ∷ z) (c ∷ t) u hp hz ht hu = ground arith
split (c ∷ p) [] t [] hp hz ht hu = ground arith
split (c ∷ p) [] t (d ∷ u) hp hz ht hu = ground arith
split (c ∷ p) (d ∷ z) t u hp hz ht hu = ground (arith, split p z t u)

below :
    (zone path : List FilePath)
    → All IsComponent zone
    → All IsComponent path
    → is_contained (render_below path) (render_below zone) ≡ is_prefix zone path
unfolding is_contained render_below is_prefix starts_with list_beq
below [] [] hz hp = refl
below [] (c ∷ path) hz hp = ground arith
below (z ∷ zone) [] hz hp = refl
below (z ∷ zone) (c ∷ path) hz hp = rw (append_assoc z (render_below zone) (b'/' ∷ [])) (
    ground (
      arith,
      split c z (render_below path) (render_below zone) hp.0.1 hz.0.1 (render_below-Led path)
          (render_below-Led zone),
      below zone path hz.1 hp.1,
    ))

-- Below the root, a zone contains exactly the paths whose components start with those of the zone:
-- a sibling with a longer name is not contained.
pub is_contained-prefix :
    (zone path : List FilePath)
    → zone ≢ []
    → All IsComponent zone
    → All IsComponent path
    → is_contained (render path) (render zone) ≡ is_prefix zone path
unfolding render is_contained is_prefix starts_with list_beq
is_contained-prefix [] path n hz hp = absurd (n refl)
is_contained-prefix ([] ∷ zone) [] n hz hp = absurd (hz.0.0 refl)
is_contained-prefix ((d ∷ z) ∷ zone) [] n hz hp = refl
is_contained-prefix (z ∷ zone) (c ∷ path) n hz hp = below (z ∷ zone) (c ∷ path) hz hp

-- The root as a zone contains no path but itself.
is_contained-root :
    (path : List FilePath)
    → path ≢ []
    → All IsComponent path
    → is_contained (render path) (render []) ≡ false
unfolding is_contained render starts_with list_beq contains
is_contained-root [] n h = absurd (n refl)
is_contained-root ([] ∷ path) n h = absurd (h.0.0 refl)
is_contained-root ((c ∷ p) ∷ path) n h = ground (arith, h.0.1)
