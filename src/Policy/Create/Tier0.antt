-- ===== src/Policy/Create/Tier0.antt =====
-- path_policy.py: the part of `PathPolicy.create` that fills the dictionary of prohibited paths, with
-- `_resolve_agent_dir` and `_resolve_config_home`.
use smallpieclaw.Prelude.{
  String, nat_eq, list_eq, not, none, some, List, [], ◌∷◌, map, if◌then◌else◌,
}
use smallpieclaw.Dict
use smallpieclaw.Dict.{Dict}
use smallpieclaw.Paths.{FilePath}
use smallpieclaw.Policy.{ProhibitedEntry, external, agent_internal, agent_state, Inode}
use smallpieclaw.Policy.Create.Inputs.{Host, PolicyConfig, is_empty, resolve}

abbrev local_share : FilePath
local_share =
    b'~' ∷ b'/' ∷ b'.' ∷ b'l' ∷ b'o' ∷ b'c' ∷ b'a' ∷ b'l' ∷ b'/' ∷ b's' ∷ b'h' ∷ b'a' ∷ b'r' ∷ b'e'
    ∷ []

abbrev local_state : FilePath
local_state =
    b'~' ∷ b'/' ∷ b'.' ∷ b'l' ∷ b'o' ∷ b'c' ∷ b'a' ∷ b'l' ∷ b'/' ∷ b's' ∷ b't' ∷ b'a' ∷ b't' ∷ b'e'
    ∷ []

abbrev home_config : FilePath
home_config = b'~' ∷ b'/' ∷ b'.' ∷ b'c' ∷ b'o' ∷ b'n' ∷ b'f' ∷ b'i' ∷ b'g' ∷ []

unfoldable pub resolve_agent_dir : Host → FilePath → FilePath → String → FilePath → FilePath
resolve_agent_dir host path agent_name variable default_base =
    if not (is_empty path)
    then resolve host path
    else let xdg_base = elim (host.environ variable) as (λ _. FilePath) [
      | none ↦ []
      | some base ↦ base
    ] in
      let base =
        if is_empty xdg_base then host.expanduser default_base else host.expanduser xdg_base in
      host.realpath (host.join base agent_name)

-- Here the value of the variable is not expanded, and an empty one counts.
unfoldable pub resolve_config_home : Host → FilePath → FilePath → FilePath
resolve_config_home host path agent_name =
    if not (is_empty path)
    then resolve host path
    else let base = elim (host.environ "XDG_CONFIG_HOME") as (λ _. FilePath) [
      | none ↦ host.expanduser home_config
      | some base ↦ base
    ] in
      host.realpath (host.join base agent_name)

unfoldable pub collect_prohibited_inodes : Host → List FilePath → List Inode
collect_prohibited_inodes host [] = []
collect_prohibited_inodes host (path ∷ paths) =
    let rest = collect_prohibited_inodes host paths in
    if is_empty path
    then rest
    else elim (host.stat path) [ none ↦ rest | some inode ↦ inode ∷ rest ]

abbrev pub hardcoded_prohibited : List FilePath
hardcoded_prohibited =
    (b'/' ∷ b'e' ∷ b't' ∷ b'c' ∷ [])
    ∷ (b'/' ∷ b'p' ∷ b'r' ∷ b'o' ∷ b'c' ∷ [])
    ∷ (b'/' ∷ b's' ∷ b'y' ∷ b's' ∷ [])
    ∷ (b'/' ∷ b'd' ∷ b'e' ∷ b'v' ∷ [])
    ∷ (b'/' ∷ b'b' ∷ b'o' ∷ b'o' ∷ b't' ∷ [])
    ∷ (b'/' ∷ b'b' ∷ b'i' ∷ b'n' ∷ [])
    ∷ (b'/' ∷ b's' ∷ b'b' ∷ b'i' ∷ b'n' ∷ [])
    ∷ (b'/' ∷ b'l' ∷ b'i' ∷ b'b' ∷ [])
    ∷ (b'/' ∷ b'l' ∷ b'i' ∷ b'b' ∷ b'6' ∷ b'4' ∷ [])
    ∷ (b'/' ∷ b'u' ∷ b's' ∷ b'r' ∷ [])
    ∷ (b'/' ∷ b'r' ∷ b'o' ∷ b'o' ∷ b't' ∷ [])
    ∷ (b'/' ∷ b'v' ∷ b'a' ∷ b'r' ∷ [])
    ∷ (b'/' ∷ b'r' ∷ b'u' ∷ b'n' ∷ [])
    ∷ []

abbrev pub credential_home_paths : List (FilePath × String)
credential_home_paths =
    (b'.' ∷ b's' ∷ b's' ∷ b'h' ∷ [], "SSH credentials")
    ∷ (b'.' ∷ b'g' ∷ b'n' ∷ b'u' ∷ b'p' ∷ b'g' ∷ [], "GPG keyring")
    ∷ (b'.' ∷ b'a' ∷ b'w' ∷ b's' ∷ [], "AWS credentials")
    ∷ (b'.' ∷ b'k' ∷ b'u' ∷ b'b' ∷ b'e' ∷ [], "Kubernetes credentials")
    ∷ (b'.' ∷ b'd' ∷ b'o' ∷ b'c' ∷ b'k' ∷ b'e' ∷ b'r' ∷ [], "Docker credentials")
    ∷ []

abbrev pub home : FilePath
home = b'~' ∷ []

-- The entries of Tier 0, in the order in which the dictionary is filled.
unfoldable pub system_entries : Dict FilePath ProhibitedEntry
system_entries =
    map (λ p. (p, record { reason = "system directory"; category = external })) hardcoded_prohibited

unfoldable pub with_credentials :
    Host → List (FilePath × String) → Dict FilePath ProhibitedEntry → Dict FilePath ProhibitedEntry
unfolding Dict.put
with_credentials host [] prohibited = prohibited
with_credentials host ((rel, reason) ∷ rels) prohibited = with_credentials host rels (
    Dict.put prohibited (host.realpath (host.join (host.expanduser home) rel))
      (record { reason = reason; category = external }))

-- `if path: prohibited[path] = entry` for one entry behind the other.
unfoldable pub with_derived :
    List (FilePath × ProhibitedEntry)
    → Dict FilePath ProhibitedEntry
    → Dict FilePath ProhibitedEntry
unfolding Dict.put
with_derived [] prohibited = prohibited
with_derived ((path, entry) ∷ derived) prohibited =
    with_derived derived (if is_empty path then prohibited else Dict.put prohibited path entry)

-- prohibited.setdefault for each directory of the configuration
unfoldable pub with_configured :
    List FilePath → Dict FilePath ProhibitedEntry → Dict FilePath ProhibitedEntry
unfolding Dict.put Dict.has
with_configured [] prohibited = prohibited
with_configured (path ∷ paths) prohibited = with_configured paths (
    if Dict.has prohibited path
    then prohibited
    else Dict.put prohibited path
        (record { reason = "prohibited directory from config"; category = external }))

-- `resolve(path) if path else ""`
abbrev pub resolved_file : Host → FilePath → FilePath
resolved_file host path = if is_empty path then [] else resolve host path

-- The agent's own directories and files, in the order of the source.
unfoldable pub derived_entries : Host → PolicyConfig → List (FilePath × ProhibitedEntry)
unfolding resolve_agent_dir resolve_config_home
derived_entries host c =
    (
      resolve_agent_dir host c.data_home c.agent_name "XDG_DATA_HOME" local_share,
      record {
        reason = "agent data home — use memory tools and the dedicated data directory instead";
        category = agent_internal;
      },
    )
    ∷ (
      resolve_agent_dir host c.state_home c.agent_name "XDG_STATE_HOME" local_state,
      record {
        reason = "agent state home — use log_query, memory_*, or secret_get instead";
        category = agent_state;
      },
    )
    ∷ (
      resolve_config_home host c.config_home c.agent_name,
      record {
        reason = "agent config home — configuration is managed outside the agent";
        category = agent_internal;
      },
    )
    ∷ (
      resolved_file host c.vault_path,
      record { reason = "agent vault file"; category = agent_internal },
    )
    ∷ (
      resolved_file host c.config_path,
      record { reason = "agent config file"; category = agent_internal },
    )
    ∷ []

unfoldable pub prohibited_of : Host → PolicyConfig → List FilePath → Dict FilePath ProhibitedEntry
unfolding system_entries with_credentials with_derived with_configured derived_entries
prohibited_of host c configured = with_configured configured (
    with_derived (derived_entries host c)
      (with_credentials host credential_home_paths system_entries))
