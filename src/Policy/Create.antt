-- ===== src/Policy/Create.antt =====
-- path_policy.py: `PathPolicy.create` and `_collect_prohibited_inodes`; the children Inputs and Tier0
-- have the functions that it calls. `Host` holds what they take from the operating system. The attributes of a policy that only repeat its arguments are left out, and so
-- are the warnings.
mod Inputs
mod Tier0
pub mod Overlap
pub mod Built
pub mod Apart
pub mod Collected
pub mod Tiers
mod Tests
pub use Inputs.{
  Host, RawItem, RawList, PolicyConfig, ConfigError, is_empty, resolve, text, not_text, missing,
  not_a_list, entries, must_be_a_list, must_be_strings, tier1_overlap,
}
unfoldable pub use Inputs.{realify_items, realify_list}
pub use Tier0.{hardcoded_prohibited, credential_home_paths, home, resolved_file}
unfoldable pub use Tier0.{
  resolve_agent_dir, resolve_config_home, collect_prohibited_inodes, system_entries,
  with_credentials, with_derived, with_configured, derived_entries, prohibited_of,
}
use smallpieclaw.Prelude.{
  ℕ, String, ◌==◌, nat_eq, list_eq, Bool, true, false, not, ◌&&◌, ◌||◌, Option, none, some, List,
  [], ◌∷◌, ◌++◌, ◌⊎◌, inl, inr, map, if◌then◌else◌, keep, contains, any,
}
use smallpieclaw.Dict
use smallpieclaw.Dict.{Dict}
use smallpieclaw.Paths.{FilePath, is_contained}
use smallpieclaw.Policy.{ProhibitedEntry, external, agent_internal, agent_state, Inode, PathPolicy}

abbrev or_else : FilePath → FilePath → FilePath
or_else path fallback = if is_empty path then fallback else path

-- "/tmp/", "~/.", "/skills" and "/results"
abbrev tmp_prefix : FilePath
tmp_prefix = b'/' ∷ b't' ∷ b'm' ∷ b'p' ∷ b'/' ∷ []

abbrev dot_home : FilePath
dot_home = b'~' ∷ b'/' ∷ b'.' ∷ []

abbrev skills_suffix : FilePath
skills_suffix = b'/' ∷ b's' ∷ b'k' ∷ b'i' ∷ b'l' ∷ b'l' ∷ b's' ∷ []

abbrev results_suffix : FilePath
results_suffix = b'/' ∷ b'r' ∷ b'e' ∷ b's' ∷ b'u' ∷ b'l' ∷ b't' ∷ b's' ∷ []

-- The zones of Tier 1 with their modes, in the order of the source.
unfoldable pub tier1_zones : Host → PolicyConfig → List (FilePath × String)
tier1_zones host c =
    (resolve host c.workspace_dir, "rw")
    ∷ (resolve host c.downloads_dir, "rw")
    ∷ (resolve host (or_else c.tmp_dir (tmp_prefix ++ c.agent_name)), "rw")
    ∷ (resolve host (or_else c.skills_dir (dot_home ++ (c.agent_name ++ skills_suffix))), "r")
    ∷ (resolve host (or_else c.results_dir (dot_home ++ (c.agent_name ++ results_suffix))), "rw")
    ∷ []

-- The loop that drops empty paths and repetitions; `seen` is its set.
unfoldable pub dedupe : List FilePath → List (FilePath × String) → List (FilePath × String)
unfolding contains
dedupe seen [] = []
dedupe seen ((path, mode) ∷ zones) =
    let kept = dedupe (path ∷ seen) zones in
    let dropped = dedupe seen zones in
    if not (is_empty path) && not (contains seen path) then (path, mode) ∷ kept else dropped

abbrev pub overlaps : FilePath → FilePath → Bool
overlaps zone prohibited_path =
    is_contained prohibited_path zone || is_contained zone prohibited_path

-- The first entry of Tier 0 that overlaps the zone.
unfoldable pub first_overlap : Dict FilePath ProhibitedEntry → FilePath → Option FilePath
first_overlap [] zone = none
first_overlap ((path, entry) ∷ prohibited) zone =
    let rest = first_overlap prohibited zone in if overlaps zone path then some path else rest

abbrev pub is_some : {A : Type 0} → Option A → Bool
is_some none = false
is_some (some a) = true

-- The loop that raises for a zone of Tier 1; `none` when it does not.
unfoldable pub tier1_conflict :
    Dict FilePath ProhibitedEntry → List (FilePath × String) → Option ConfigError
unfolding first_overlap
tier1_conflict prohibited [] = none
tier1_conflict prohibited ((zone, mode) ∷ zones) =
    let rest = tier1_conflict prohibited zones in
    elim (first_overlap prohibited zone) [
      | none ↦ rest
      | some path ↦ some (tier1_overlap zone path)
    ]

-- The policy of resolved lists.
unfoldable pub assemble : Host → PolicyConfig → (configured tier2 : List FilePath) → PathPolicy
unfolding prohibited_of tier1_zones dedupe first_overlap keep collect_prohibited_inodes
assemble host c configured tier2 =
    let prohibited = prohibited_of host c configured in
    record {
      prohibited_entries = prohibited;
      tier1 = dedupe [] (tier1_zones host c);
      tier2 = tier2;
      prohibited_inodes =
          collect_prohibited_inodes host
            (resolved_file host c.vault_path ∷ resolved_file host c.config_path ∷ []);
      conflict_skips = keep (λ zone. is_some (first_overlap prohibited zone)) tier2;
    }

unfoldable pub create : Host → PolicyConfig → ConfigError ⊎ PathPolicy
unfolding realify_list tier1_conflict assemble
create host c = elim (realify_list host c.prohibited_dirs "prohibited_dirs" false) [
  | inl error ↦ inl error
  | inr configured ↦ elim (realify_list host c.allowed_dirs "allowed_dirs" true) [
    | inl error ↦ inl error
    | inr tier2 ↦
        let policy = assemble host c configured tier2 in
        elim (tier1_conflict policy.prohibited_entries policy.tier1) [
          | some error ↦ inl error
          | none ↦ inr policy
        ]
  ]
]
