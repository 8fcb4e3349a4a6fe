-- ===== src/Policy/Create/Inputs.antt =====
-- path_policy.py: what `PathPolicy.create` takes from the operating system and from the
-- configuration, and `_realify_list`.
use smallpieclaw.Prelude.{
  String, nat_eq, list_eq, Bool, true, false, not, ◌&&◌, Option, List, [], ◌∷◌, ◌⊎◌, inl, inr,
  if◌then◌else◌,
}
use smallpieclaw.Paths.{FilePath}
use smallpieclaw.Policy.{Inode}

pub record Host : Type 0 where
  pub realpath : FilePath → FilePath
  pub expanduser : FilePath → FilePath
  pub join : FilePath → FilePath → FilePath
  pub exists : FilePath → Bool
  -- os.stat; `none` stands for an OSError
  pub stat : FilePath → Option Inode
  pub environ : String → Option FilePath

-- What stands in the configuration where a list of directories is expected.
pub data RawItem : Type 0 where
  text : FilePath → RawItem
  not_text : RawItem

pub data RawList : Type 0 where
  missing not_a_list : RawList
  entries : List RawItem → RawList

-- The arguments of `create`; an empty path is one that is not given.
pub record PolicyConfig : Type 0 where
  pub agent_name : FilePath
  pub workspace_dir : FilePath
  pub downloads_dir : FilePath
  pub tmp_dir : FilePath
  pub skills_dir : FilePath
  pub results_dir : FilePath
  pub data_home : FilePath
  pub state_home : FilePath
  pub config_home : FilePath
  pub vault_path : FilePath
  pub config_path : FilePath
  pub prohibited_dirs : RawList
  pub allowed_dirs : RawList

pub data ConfigError : Type 0 where
  must_be_a_list must_be_strings : (label : String) → ConfigError
  tier1_overlap : (zone prohibited_path : FilePath) → ConfigError

abbrev pub is_empty : FilePath → Bool
is_empty [] = true
is_empty (c ∷ path) = false

abbrev pub resolve : Host → FilePath → FilePath
resolve host path = host.realpath (host.expanduser path)

-- The loop of `_realify_list`.
unfoldable pub realify_items :
    Host → String → (require_exists : Bool) → List RawItem → ConfigError ⊎ List FilePath
realify_items host label require_exists [] = inr []
realify_items host label require_exists (not_text ∷ items) = inl (must_be_strings label)
realify_items host label require_exists (text item ∷ items) =
    let expanded = resolve host item in
    elim (realify_items host label require_exists items) [
      | inl error ↦ inl error
      | inr resolved ↦
          if not (host.exists expanded) && require_exists
          then inr resolved
          else inr (expanded ∷ resolved)
    ]

unfoldable pub realify_list :
    Host → RawList → String → (require_exists : Bool) → ConfigError ⊎ List FilePath
unfolding realify_items
realify_list host missing label require_exists = inr []
realify_list host not_a_list label require_exists = inl (must_be_a_list label)
realify_list host (entries items) label require_exists =
    realify_items host label require_exists items
