-- ===== src/Policy/Create/Overlap.antt =====
-- Two zones that contain the same path overlap.
use smallpieclaw.Prelude.{
  ◌==◌, nat_eq, list_eq, list_beq, ==_self, ◌≡◌, ◌⊎◌, inl, inr, refl, subst, true, [], ◌∷◌, ◌++◌,
  arith, Bool-cases,
}
use smallpieclaw.Paths.{FilePath, starts_with, is_contained}
use smallpieclaw.Policy.Create.{overlaps}

prefixes-nested :
    (path a b : FilePath)
    → starts_with path a ≡ true
    → starts_with path b ≡ true
    → (starts_with a b ≡ true) ⊎ (starts_with b a ≡ true)
unfolding starts_with
prefixes-nested path [] b ha hb = inr refl
prefixes-nested path (c ∷ a) [] ha hb = inl refl
prefixes-nested [] (c ∷ a) (d ∷ b) ha hb = absurd (ground arith)
prefixes-nested (e ∷ path) (c ∷ a) (d ∷ b) ha hb =
    elim (prefixes-nested path a b (ground arith) (ground arith)) [
      | inl first ↦ inl (ground (arith, nat_eq.beq_iff e c, nat_eq.beq_iff e d, ==_self c))
      | inr second ↦ inr (ground (arith, nat_eq.beq_iff e c, nat_eq.beq_iff e d, ==_self c))
    ]

slash-contained :
    (p z : FilePath)
    → starts_with (p ++ b'/' ∷ []) (z ++ b'/' ∷ []) ≡ true
    → is_contained p z ≡ true
unfolding starts_with is_contained list_beq
slash-contained [] [] h = refl
slash-contained [] (c ∷ []) h = absurd (ground arith)
slash-contained [] (c ∷ d ∷ z) h = absurd (ground arith)
slash-contained (d ∷ p) [] h = ground arith
slash-contained (d ∷ p) (c ∷ z) h = ground (arith, slash-contained p z)

pub overlaps-contained :
    (path zone other : FilePath)
    → is_contained path zone ≡ true
    → is_contained path other ≡ true
    → overlaps zone other ≡ true
unfolding is_contained
overlaps-contained path zone other hz ho = elim (Bool-cases (path == zone)) [
  | inl same ↦
      let inside : is_contained zone other ≡ true =
        subst (λ p. is_contained p other ≡ true) ((list_eq.beq_iff path zone).0 same) ho in
      ground arith
  | inr below ↦ elim (Bool-cases (path == other)) [
    | inl same ↦
        let inside : is_contained other zone ≡ true =
          subst (λ p. is_contained p zone ≡ true) ((list_eq.beq_iff path other).0 same) hz in
        ground arith
    | inr inside ↦
        elim (prefixes-nested path (zone ++ b'/' ∷ []) (other ++ b'/' ∷ []) (ground arith)
          (ground arith)) [
            | inl first ↦ ground (arith, slash-contained zone other first)
            | inr second ↦ ground (arith, slash-contained other zone second)
          ]
  ]
]
