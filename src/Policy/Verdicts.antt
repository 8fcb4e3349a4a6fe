-- ===== src/Policy/Verdicts.antt =====
-- What a verdict of `classify` says of the path.
use smallpieclaw.Prelude.{
  String, ◌==◌, nat_eq, string_eq, list_eq, ◌≡◌, ◌≢◌, ◌↔◌, inl, inr, refl, ap, ◌∙◌, Bool, true,
  false, not, ◌&&◌, ◌||◌, Option, none, some, List, [], ◌∷◌, arith, any, Bool-cases, Option-cases,
}
use smallpieclaw.Paths.{FilePath, is_contained}
use smallpieclaw.Policy.{
  PathVerdict, prohibited, allowed, ProhibitedEntry, Inode, PathPolicy, is_alias, first_prohibited,
  tier1_mode, tier2_contains, classify_open, classify,
}

-- Some zone of the list contains the path.
unfoldable pub within : {A : Type 0} → List (FilePath × A) → FilePath → Bool
unfolding any
within zones path = any (λ z. is_contained path z.0) zones

pub first_prohibited-within :
    (entries : List (FilePath × ProhibitedEntry)) (path : FilePath)
    → (within entries path ≡ false) ↔ (first_prohibited entries path ≡ none)
unfolding within any first_prohibited
first_prohibited-within [] path = ground arith
first_prohibited-within ((zone, entry) ∷ entries) path =
    ground (arith, first_prohibited-within entries path)

-- A zone of Tier 1 with the mode "rw", or rather any mode but "r", contains the path.
unfoldable pub writable : List (FilePath × String) → FilePath → Bool
unfolding any
writable zones path = any (λ z. not (z.1 == "r") && is_contained path z.0) zones

tier1_mode-writable :
    (zones : List (FilePath × String)) (path : FilePath) (mode : String)
    → tier1_mode zones path "write" ≡ some mode
    → (writable zones path ≡ true) × (mode ≢ "r")
unfolding tier1_mode writable any
tier1_mode-writable [] path mode h = absurd (ground arith)
tier1_mode-writable ((zone, m) ∷ zones) path mode h =
    ground (arith, tier1_mode-writable zones path mode, string_eq.beq_iff m "r")

tier1_mode-within :
    (zones : List (FilePath × String)) (path : FilePath) (operation mode : String)
    → tier1_mode zones path operation ≡ some mode
    → within zones path ≡ true
unfolding tier1_mode within any
tier1_mode-within [] path operation mode h = absurd (ground arith)
tier1_mode-within ((zone, m) ∷ zones) path operation mode h =
    ground (arith, tier1_mode-within zones path operation mode)

-- No entry of Tier 0 contains the path, and it is no alias of a prohibited file.
abbrev pub Clear : (FilePath → Option Inode) → PathPolicy → FilePath → Type 0
Clear stat policy path =
    (is_alias policy.prohibited_inodes (stat path) ≡ false)
    × (within policy.prohibited_entries path ≡ false)

classify_open-open :
    (policy : PathPolicy) (path : FilePath) (operation : String)
    → (classify_open policy path operation).0 ≢ prohibited
unfolding classify_open
classify_open-open policy path operation = ground arith

rw_not_r : Path String "rw" "r" → ⊥
rw_not_r e = absurd (ground (arith, (string_eq.beq_iff "rw" "r").1 e))

rw_mode : (mode : String) → Path (PathVerdict × String) (allowed, "rw") (allowed, mode) → mode ≢ "r"
rw_mode mode h e = rw_not_r (ap (λ x. x.1) h ∙ e)

classify_open-write :
    (policy : PathPolicy) (path : FilePath) (mode : String)
    → classify_open policy path "write" ≡ (allowed, mode)
    → ((writable policy.tier1 path || tier2_contains policy.tier2 path) ≡ true) × (mode ≢ "r")
unfolding classify_open
classify_open-write policy path mode h =
    elim (Option-cases (tier1_mode policy.tier1 path "write")) [
      | inl undecided ↦ (ground (arith, h, undecided), rw_mode mode (ground (arith, h, undecided)))
      | inr (m, decided) ↦
          let (w, n) = tier1_mode-writable policy.tier1 path m decided in
          (ground arith, λ e. n (ground (arith, h, decided, e)))
    ]

module _ (stat : FilePath → Option Inode) (policy : PathPolicy) (path : FilePath) where
  -- For each operation that it knows, `classify` gives a verdict; it is prohibited exactly when the
  -- path is an alias of a prohibited file or lies within an entry of Tier 0, whatever Tier 1 and
  -- Tier 2 allow.
  pub classify-prohibited :
      (operation : String)
      → (operation == "read" || operation == "write") ≡ true
      → (verdict : PathVerdict) × (detail : String) × (classify stat policy path operation
          ≡ some (verdict, detail))
        × ((verdict ≡ prohibited) ↔ (
            (is_alias policy.prohibited_inodes (stat path) || within policy.prohibited_entries path)
            ≡ true))
  unfolding classify
  classify-prohibited operation known =
      elim (Bool-cases (is_alias policy.prohibited_inodes (stat path))) [
        | inl aliased ↦ (
          prohibited,
          "prohibited file alias (hardlink)",
          rw (known, aliased, classify) refl,
          (λ _. ground arith, λ _. refl),
        )
        | inr plain ↦ elim (Option-cases (first_prohibited policy.prohibited_entries path)) [
          | inl clear ↦
              let out = (first_prohibited-within policy.prohibited_entries path).1 clear in
              (
                (classify_open policy path operation).0,
                (classify_open policy path operation).1,
                rw (known, plain, clear, classify) refl,
                (
                  λ e. absurd (classify_open-open policy path operation e),
                  λ e. absurd (ground arith),
                ),
              )
          | inr (entry, inside) ↦
              let in_zone : within policy.prohibited_entries path ≡ true =
                ground (arith, inside, first_prohibited-within policy.prohibited_entries path) in
              (
                prohibited,
                entry.reason,
                rw (known, plain, inside, classify) refl,
                (λ _. ground arith, λ _. refl),
              )
        ]
      ]

  -- A write is allowed only at a path that is clear of Tier 0 and lies in a zone of Tier 1 that is
  -- not read-only or in a zone of Tier 2; the mode that comes with it is never "r".
  pub classify-write :
      (mode : String)
      → classify stat policy path "write" ≡ some (allowed, mode)
      → Clear stat policy path
        × ((writable policy.tier1 path || tier2_contains policy.tier2 path) ≡ true)
        × (mode ≢ "r")
  unfolding classify
  classify-write mode h = elim (Bool-cases (is_alias policy.prohibited_inodes (stat path))) [
    | inl aliased ↦ absurd (ground (arith, h, aliased))
    | inr plain ↦ elim (Option-cases (first_prohibited policy.prohibited_entries path)) [
      | inl clear ↦ (
        (plain, (first_prohibited-within policy.prohibited_entries path).1 clear),
        (classify_open-write policy path mode (ground (arith, h, plain, clear))).0,
        (classify_open-write policy path mode (ground (arith, h, plain, clear))).1,
      )
      | inr (entry, inside) ↦ absurd (ground (arith, h, plain, inside))
    ]
  ]
