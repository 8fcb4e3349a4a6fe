-- ===== src/Plan/Sort/Counting.antt =====
-- Counting occurrences in lists of ids, and the dependencies of a step that are still missing.
use smallpieclaw.Prelude.{
  ℕ, ◌+◌, ◌<◌, String, ◌==◌, ==_self, ◌≡◌, refl, inl, inr, false, List, [], ◌∷◌, ◌++◌, arith,
  if◌then◌else◌, contains, contains-append, length, string_eq, Bool-cases,
}
use smallpieclaw.Subsets.{In}

unfoldable pub count : String → List String → ℕ
count a [] = 0
count a (x ∷ xs) = (if x == a then 1 else 0) + count a xs

-- How many entries of `deps` are not in `done`.
unfoldable pub missing : List String → List String → ℕ
missing done [] = 0
missing done (d ∷ deps) = (if contains done d then 0 else 1) + missing done deps

pub count-append : (a : String) (xs ys : List String) → count a (xs ++ ys) ≡ count a xs + count a ys
unfolding count
count-append a [] ys = omega arith
count-append a (x ∷ xs) ys = omega (arith, count-append a xs ys)

pub count-zero_iff : (a : String) (xs : List String) → contains xs a ≡ false → count a xs ≡ 0
unfolding count contains
count-zero_iff a [] h = refl
count-zero_iff a (x ∷ xs) h = ground (arith, count-zero_iff a xs)

pub count-pos : (a : String) (xs : List String) → In xs a → 0 < count a xs
unfolding count contains
count-pos a [] h = ground arith
count-pos a (x ∷ xs) h = ground (arith, count-pos a xs)

pub missing-nil : (deps : List String) → missing [] deps ≡ length deps
unfolding missing contains
missing-nil [] = refl
missing-nil (d ∷ deps) = omega (arith, missing-nil deps)

-- A new entry of `done` is no longer missing.
pub missing-snoc :
    (done deps : List String) (c : String)
    → contains done c ≡ false
    → missing done deps ≡ missing (done ++ c ∷ []) deps + count c deps
unfolding missing count contains
missing-snoc done [] c h = refl
missing-snoc done (d ∷ deps) c h = ground (
  arith,
  missing-snoc done deps c h,
  contains-append done (c ∷ []) d,
  string_eq.beq_iff c d,
  string_eq.beq_iff d c,
)

pub missing-zero→In :
    (done deps : List String) (d : String) → missing done deps ≡ 0 → In deps d → In done d
unfolding missing contains
missing-zero→In done [] d h m = ground arith
missing-zero→In done (x ∷ deps) d h m =
    ground (arith, missing-zero→In done deps d, string_eq.beq_iff x d)

-- A dependency that is missing, if the count is not zero.
pub missing-suc→dep :
    (done deps : List String)
    → 0 < missing done deps
    → (d : String) × In deps d × (contains done d ≡ false)
unfolding missing contains
missing-suc→dep done [] h = absurd (omega arith)
missing-suc→dep done (x ∷ deps) h = elim (Bool-cases (contains done x)) [
  | inl there ↦
      let (d, m, absent) = missing-suc→dep done deps (ground arith) in (d, ground arith, absent)
  | inr absent ↦ (x, ground (arith, ==_self x), absent)
]
