-- ===== src/Policy.antt =====
-- path_policy.py: `PathPolicy.classify`, `prohibited_category` and `tier2_entries`,
-- over the collections that a policy has when it is built. `os.stat` is a parameter; `none` stands
-- for an OSError.
pub mod Create
pub mod Verdicts
mod Tests
use smallpieclaw.Prelude.{
  ℕ, String, ◌==◌, nat_eq, string_eq, list_eq, Bool, true, false, not, ◌&&◌, ◌||◌, Option, none,
  some, List, [], ◌∷◌, if◌then◌else◌, any, keep, contains,
}
use smallpieclaw.Paths.{FilePath, is_contained}

pub data PathVerdict : Type 0 where
  prohibited allowed unrecognised : PathVerdict

pub data ProhibitedCategory : Type 0 where
  agent_state agent_internal external : ProhibitedCategory

pub record ProhibitedEntry : Type 0 where
  pub reason : String
  pub category : ProhibitedCategory

-- Device and inode number.
pub record Inode : Type 0 where
  pub dev : ℕ
  pub ino : ℕ

pub record PathPolicy : Type 0 where
  -- the resolved entries, in the order of the dictionary
  pub prohibited_entries : List (FilePath × ProhibitedEntry)
  pub tier1 : List (FilePath × String)
  pub tier2 : List FilePath
  pub prohibited_inodes : List Inode
  pub conflict_skips : List FilePath

-- (st.st_dev, st.st_ino) in self._prohibited_inodes
unfoldable pub is_alias : List Inode → Option Inode → Bool
unfolding any
is_alias inodes none = false
is_alias inodes (some st) = any (λ i. i.dev == st.dev && i.ino == st.ino) inodes

-- The first entry of Tier 0 that contains the path.
unfoldable pub first_prohibited :
    List (FilePath × ProhibitedEntry) → FilePath → Option ProhibitedEntry
first_prohibited [] path = none
first_prohibited ((zone, entry) ∷ entries) path =
    let rest = first_prohibited entries path in if is_contained path zone then some entry else rest

-- The loop over Tier 1: `none` when no zone decides, also behind its `break`.
unfoldable pub tier1_mode : List (FilePath × String) → FilePath → String → Option String
tier1_mode [] path operation = none
tier1_mode ((zone, mode) ∷ zones) path operation =
    let rest = tier1_mode zones path operation in
    if is_contained path zone
    then (if mode == "r" && operation == "write" then none else some mode)
    else rest

unfoldable pub tier2_contains : List FilePath → FilePath → Bool
unfolding any
tier2_contains zones path = any (λ zone. is_contained path zone) zones

-- Tier 1, Tier 2 and the fallback.
unfoldable pub classify_open : PathPolicy → FilePath → String → PathVerdict × String
unfolding tier1_mode tier2_contains
classify_open policy path operation = elim (tier1_mode policy.tier1 path operation) [
  | some mode ↦ (allowed, mode)
  | none ↦ if tier2_contains policy.tier2 path then (allowed, "rw") else (unrecognised, "")
]

-- `none` is the ValueError for an operation other than "read" and "write".
unfoldable pub classify :
    (FilePath → Option Inode) → PathPolicy → FilePath → String → Option (PathVerdict × String)
unfolding is_alias first_prohibited classify_open
classify stat policy path operation =
    if not (operation == "read" || operation == "write")
    then none
    else if is_alias policy.prohibited_inodes (stat path)
    then some (prohibited, "prohibited file alias (hardlink)")
    else elim (first_prohibited policy.prohibited_entries path) [
      | some entry ↦ some (prohibited, entry.reason)
      | none ↦ some (classify_open policy path operation)
    ]

unfoldable pub prohibited_category : PathPolicy → FilePath → ProhibitedCategory
unfolding first_prohibited
prohibited_category policy path = elim (first_prohibited policy.prohibited_entries path) [
  | none ↦ external
  | some entry ↦ entry.category
]

unfoldable pub tier2_entries : PathPolicy → List FilePath
unfolding keep contains
tier2_entries policy = keep (λ z. not (contains policy.conflict_skips z)) policy.tier2
