-- ===== src/Policy/Create/Built.antt =====
-- What a policy that `create` has built keeps apart, and what it classifies.
use smallpieclaw.Prelude.{
  String, nat_eq, list_eq, string_eq, ==_self, ◌≡◌, inl, inr, refl, sym, ◌∙◌, subst, true, false,
  not, Option, none, some, List, [], ◌∷◌, arith, any, keep, contains, contains-keep, Bool-cases,
  Option-cases, Sum-cases, map,
}
use smallpieclaw.Paths.{FilePath, is_contained}
use smallpieclaw.Policy.{ProhibitedEntry, PathPolicy, tier2_entries}
use smallpieclaw.Policy.Verdicts.{within}
use smallpieclaw.Policy.Create.{
  Host, PolicyConfig, realify_list, is_empty, overlaps, first_overlap, tier1_conflict, is_some,
  assemble, create, resolve, tier1_zones, dedupe,
}
use smallpieclaw.Policy.Create.Overlap.{overlaps-contained}

-- A policy that is built is that of the resolved lists, and no zone of Tier 1 is in conflict.
pub create-inr :
    (host : Host) (c : PolicyConfig) (policy : PathPolicy)
    → create host c ≡ inr policy
    → (configured : List FilePath) × (tier2 : List FilePath) × (realify_list host c.prohibited_dirs
          "prohibited_dirs" false
        ≡ inr configured)
      × (realify_list host c.allowed_dirs "allowed_dirs" true ≡ inr tier2)
      × (tier1_conflict policy.prohibited_entries policy.tier1 ≡ none)
      × (assemble host c configured tier2 ≡ policy)
unfolding create
create-inr host c policy h =
    elim (Sum-cases (realify_list host c.prohibited_dirs "prohibited_dirs" false)) [
      | inl (error, fails) ↦ absurd (ground (arith, h, fails))
      | inr (configured, first) ↦
          elim (Sum-cases (realify_list host c.allowed_dirs "allowed_dirs" true)) [
            | inl (error, fails) ↦ absurd (ground (arith, h, first, fails))
            | inr (tier2, second) ↦
                let built = assemble host c configured tier2 in
                elim (Option-cases (tier1_conflict built.prohibited_entries built.tier1)) [
                  | inr (error, fails) ↦ absurd (ground (arith, h, first, second, fails))
                  | inl clear ↦
                      let same : built ≡ policy = ground (arith, h, first, second, clear) in
                      (
                        configured,
                        tier2,
                        first,
                        second,
                        subst (λ p. tier1_conflict p.prohibited_entries p.tier1 ≡ none) same clear,
                        same,
                      )
                ]
          ]
    ]

-- No zone of the list overlaps an entry of Tier 0.
unfoldable pub AreApart : List (FilePath × ProhibitedEntry) → List FilePath → Type 0
AreApart entries [] = Unit
AreApart entries (zone ∷ zones) =
    (any (λ e. overlaps zone e.0) entries ≡ false) × AreApart entries zones

first_overlap-none :
    (entries : List (FilePath × ProhibitedEntry)) (zone : FilePath)
    → first_overlap entries zone ≡ none
    → any (λ e. overlaps zone e.0) entries ≡ false
unfolding first_overlap any
first_overlap-none [] zone h = refl
first_overlap-none ((path, entry) ∷ entries) zone h =
    ground (arith, first_overlap-none entries zone)

tier1_conflict-AreApart :
    (entries : List (FilePath × ProhibitedEntry)) (zones : List (FilePath × String))
    → tier1_conflict entries zones ≡ none
    → AreApart entries (map (λ z. z.0) zones)
unfolding tier1_conflict AreApart
tier1_conflict-AreApart entries [] h = tt
tier1_conflict-AreApart entries ((zone, mode) ∷ zones) h =
    elim (Option-cases (first_overlap entries zone)) [
      | inl clear ↦ (
        first_overlap-none entries zone clear,
        tier1_conflict-AreApart entries zones (ground (arith, h, clear)),
      )
      | inr (path, clash) ↦ absurd (ground (arith, h, clash))
    ]

is_some-false→none : {A : Type 0} (o : Option A) → is_some o ≡ false → o ≡ none
is_some-false→none none h = refl
is_some-false→none (some a) h = absurd (ground (arith, h))

-- What is kept as a conflict is what is taken out of Tier 2.
unskipped-AreApart :
    (entries : List (FilePath × ProhibitedEntry)) (skips zones : List FilePath)
    → ((z : FilePath)
        → contains zones z ≡ true
        → contains skips z ≡ is_some (first_overlap entries z))
    → AreApart entries (keep (λ z. not (contains skips z)) zones)
unfolding AreApart keep contains
unskipped-AreApart entries skips [] same = tt
unskipped-AreApart entries skips (z ∷ zones) same =
    let rest = unskipped-AreApart entries skips zones (λ y m. same y (ground (arith, m))) in
    elim (Bool-cases (contains skips z)) [
      | inl skipped ↦ rw (skipped) rest
      | inr kept ↦ rw (kept) (
        first_overlap-none entries z (
            is_some-false→none (first_overlap entries z)
              (sym (same z (ground (arith, ==_self z))) ∙ kept)),
        rest,
      )
    ]

assemble-AreApart :
    (host : Host) (c : PolicyConfig) (configured tier2 : List FilePath)
    → AreApart
        (assemble host c configured tier2).prohibited_entries
        (tier2_entries (assemble host c configured tier2))
unfolding assemble tier2_entries
assemble-AreApart host c configured tier2 =
    let policy = assemble host c configured tier2 in
    unskipped-AreApart policy.prohibited_entries policy.conflict_skips tier2 (λ z m.
      contains-keep (λ zone. is_some (first_overlap policy.prohibited_entries zone)) tier2 z
      ∙ ground (arith, m))

-- In a policy that `create` has built no zone of Tier 1, and no zone of Tier 2 that the sandbox
-- mounts, overlaps an entry of Tier 0.
pub create-AreApart :
    (host : Host) (c : PolicyConfig) (policy : PathPolicy)
    → create host c ≡ inr policy
    → AreApart policy.prohibited_entries (map (λ z. z.0) policy.tier1)
      × AreApart policy.prohibited_entries (tier2_entries policy)
create-AreApart host c policy h =
    let (configured, tier2, first, second, clear, same) = create-inr host c policy h in
    (
      tier1_conflict-AreApart policy.prohibited_entries policy.tier1 clear,
      subst (λ p. AreApart p.prohibited_entries (tier2_entries p)) same
          (assemble-AreApart host c configured tier2),
    )

pub apart-within :
    (entries : List (FilePath × ProhibitedEntry)) (zone path : FilePath)
    → any (λ e. overlaps zone e.0) entries ≡ false
    → is_contained path zone ≡ true
    → within entries path ≡ false
unfolding any within
apart-within [] zone path h inside = refl
apart-within ((other, entry) ∷ entries) zone path h inside =
    elim (Bool-cases (is_contained path other)) [
      | inl both ↦
          let clash = overlaps-contained path zone other inside both in
          absurd (ground (arith, h, clash))
      | inr out ↦ ground (arith, apart-within entries zone path, h, inside, out)
    ]

-- The first zone is the workspace.
pub assemble-workspace :
    (host : Host) (c : PolicyConfig) (configured tier2 : List FilePath)
    → is_empty (resolve host c.workspace_dir) ≡ false
    → (rest : List (FilePath × String)) × ((assemble host c configured tier2).tier1
        ≡ (resolve host c.workspace_dir, "rw") ∷ rest)
unfolding assemble tier1_zones dedupe contains
assemble-workspace host c configured tier2 h = rw (h) (_, refl)
