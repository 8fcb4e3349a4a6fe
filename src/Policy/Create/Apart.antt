-- ===== src/Policy/Create/Apart.antt =====
-- What `create` keeps apart, in terms of the components of paths.
use smallpieclaw.Dict
use smallpieclaw.Prelude.{
  ◌==◌, list_eq, nat_eq, ◌≡◌, ◌≢◌, sym, ◌∙◌, subst, inl, inr, true, false, List, [], ◌∷◌, ◌++◌, All,
  any, map, arith, contains, Bool-cases,
}
use smallpieclaw.Paths.{FilePath, is_contained}
use smallpieclaw.Paths.Containment.{render, is_prefix, IsComponent, is_contained-prefix}
use smallpieclaw.Policy.{ProhibitedEntry, PathPolicy, tier2_entries}
use smallpieclaw.Policy.Verdicts.{within}
use smallpieclaw.Policy.Create.{Host, PolicyConfig, overlaps, create}
use smallpieclaw.Policy.Create.Built.{AreApart, create-AreApart, apart-within}

-- The zones that the sandbox may mount: those of Tier 1, and those of Tier 2 without a conflict.
abbrev pub zones_of : PathPolicy → List FilePath
zones_of policy = map (λ z. z.0) policy.tier1 ++ tier2_entries policy

AreApart-append :
    (entries : List (FilePath × ProhibitedEntry)) (a b : List FilePath)
    → AreApart entries a
    → AreApart entries b
    → AreApart entries (a ++ b)
unfolding AreApart
AreApart-append entries [] b first second = second
AreApart-append entries (zone ∷ a) b (here, first) second =
    (here, AreApart-append entries a b first second)

AreApart-contains :
    (entries : List (FilePath × ProhibitedEntry)) (zones : List FilePath) (zone : FilePath)
    → AreApart entries zones
    → contains zones zone ≡ true
    → any (λ e. overlaps zone e.0) entries ≡ false
unfolding AreApart contains
AreApart-contains entries [] zone apart h = absurd (ground (arith, h))
AreApart-contains entries (z ∷ zones) zone (here, apart) h = elim (Bool-cases (z == zone)) [
  | inl same ↦
      subst (λ y. any (λ e. overlaps y e.0) entries ≡ false) ((list_eq.beq_iff z zone).0 same) here
  | inr other ↦ AreApart-contains entries zones zone apart (ground (arith, h, other))
]

-- What lies within none of the entries lies not within this one.
within-has :
    (entries : List (FilePath × ProhibitedEntry)) (path entry : FilePath)
    → within entries path ≡ false
    → Dict.has entries entry ≡ true
    → is_contained path entry ≡ false
unfolding within Dict.has any
within-has [] path entry h there = absurd (ground (arith, there))
within-has ((e, what) ∷ entries) path entry h there = elim (Bool-cases (e == entry)) [
  | inl same ↦
      subst (λ x. is_contained path x ≡ false) ((list_eq.beq_iff e entry).0 same)
        (ground (arith, h))
  | inr other ↦ within-has entries path entry (ground (arith, h)) (ground (arith, there, other))
]

-- In a policy that `create` has built, take a zone of Tier 1, or one of Tier 2 that the sandbox
-- mounts, and an entry of Tier 0, neither of them the root: no path lies within both. A path lies
-- within a directory when its components start with those of the directory.
pub create-disjoint :
    (host : Host) (c : PolicyConfig) (policy : PathPolicy) (zone entry path : List FilePath)
    → create host c ≡ inr policy
    → (zone ≢ []) × All IsComponent zone
    → (entry ≢ []) × All IsComponent entry
    → All IsComponent path
    → contains (zones_of policy) (render zone) ≡ true
    → Dict.has policy.prohibited_entries (render entry) ≡ true
    → is_prefix zone path ≡ true
    → is_prefix entry path ≡ false
create-disjoint host c policy zone entry path built is_zone is_entry is_path mounted prohibited
      inside =
    let entries = policy.prohibited_entries in
    let (first, second) = create-AreApart host c policy built in
    let apart =
      AreApart-contains entries (zones_of policy) (render zone)
        (AreApart-append entries (map (λ z. z.0) policy.tier1) (tier2_entries policy) first second)
        mounted in
    let below = is_contained-prefix zone path is_zone.0 is_zone.1 is_path ∙ inside in
    let out = apart-within entries (render zone) (render path) apart below in
    sym (is_contained-prefix entry path is_entry.0 is_entry.1 is_path)
    ∙ within-has entries (render path) (render entry) out prohibited
