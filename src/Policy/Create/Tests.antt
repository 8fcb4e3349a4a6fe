-- ===== src/Policy/Create/Tests.antt =====
-- A policy that is built on a small system, where every path is its own real path.
use smallpieclaw.Prelude.{
  contains, false, arith, String, nat_eq, list_eq, string_eq, list_beq, ◌≡◌, inl, inr, refl, true,
  none, some, [], ◌∷◌, ◌++◌,
}
use smallpieclaw.Paths.{FilePath, is_contained}
use smallpieclaw.Policy.{prohibited, PathPolicy, classify, tier2_entries}
use smallpieclaw.Policy.Create.{
  Host, PolicyConfig, text, not_text, entries, must_be_strings, tier1_overlap, assemble, create,
}
use smallpieclaw.Dict
use smallpieclaw.Paths.Containment.{render, is_prefix, IsComponent}
use smallpieclaw.Policy.Create.Apart.{zones_of, create-disjoint}
use smallpieclaw.Policy.Create.Tiers.{create-prohibited}
use smallpieclaw.Policy.Create.Collected.{configured}

abbrev agent : FilePath
agent = b'a' ∷ []

abbrev work : FilePath
work = b'/' ∷ b'w' ∷ []

abbrev note : FilePath
note = b'/' ∷ b'w' ∷ b'/' ∷ b'n' ∷ []

abbrev downloads : FilePath
downloads = b'/' ∷ b'd' ∷ []

abbrev private : FilePath
private = b'/' ∷ b'p' ∷ []

abbrev key : FilePath
key = b'/' ∷ b'p' ∷ b'/' ∷ b'k' ∷ []

abbrev shared : FilePath
shared = b'/' ∷ b'p' ∷ b'/' ∷ b's' ∷ []

abbrev media : FilePath
media = b'/' ∷ b'm' ∷ []

abbrev host : Host
host = record {
  realpath = λ path. path;
  expanduser = λ path. path;
  join = λ a b. a ++ (b'/' ∷ b);
  exists = λ path. true;
  stat = λ path. none;
  environ = λ variable. none;
}

-- "/p" is prohibited; of the allowed directories "/p/s" lies within it and "/m" does not.
abbrev config : PolicyConfig
config = record {
  agent_name = agent;
  workspace_dir = work;
  downloads_dir = downloads;
  tmp_dir = [];
  skills_dir = [];
  results_dir = [];
  data_home = [];
  state_home = [];
  config_home = [];
  vault_path = [];
  config_path = [];
  prohibited_dirs = entries (text private ∷ []);
  allowed_dirs = entries (text shared ∷ text media ∷ []);
}

abbrev policy : PathPolicy
policy = assemble host config (private ∷ []) (shared ∷ media ∷ [])

created : create host config ≡ inr policy
unfolding create list_beq is_contained
created = refl

mounted : tier2_entries policy ≡ media ∷ []
unfolding tier2_entries assemble list_beq is_contained
mounted = refl

-- A workspace below a prohibited directory, and a list that is not of strings.
overlapping : create host (record config { workspace_dir = key }) ≡ inl (tier1_overlap key private)
unfolding create list_beq is_contained
overlapping = refl

malformed :
    create host (record config { allowed_dirs = entries (not_text ∷ []) })
    ≡ inl (must_be_strings "allowed_dirs")
unfolding create list_beq is_contained
malformed = refl

abbrev m : FilePath
m = b'm' ∷ []

abbrev p : FilePath
p = b'p' ∷ []

m-IsComponent : IsComponent m
unfolding contains
m-IsComponent = ((λ e. absurd (ground arith)), refl)

p-IsComponent : IsComponent p
unfolding contains
p-IsComponent = ((λ e. absurd (ground arith)), refl)

media_mounted : contains (zones_of policy) (render (m ∷ [])) ≡ true
unfolding tier2_entries assemble render list_beq is_contained contains
media_mounted = refl

private_prohibited : Dict.has policy.prohibited_entries (render (p ∷ [])) ≡ true
unfolding assemble render list_beq Dict.has
private_prohibited = refl

-- "/m" is mounted and "/p" is prohibited: "/m/p" is not below "/p".
create-disjoint_example : is_prefix (p ∷ []) (m ∷ p ∷ []) ≡ false
unfolding is_prefix list_beq
create-disjoint_example =
    create-disjoint host config policy (m ∷ []) (p ∷ []) (m ∷ p ∷ []) created
      ((λ e. absurd (ground arith)), (m-IsComponent, tt))
      ((λ e. absurd (ground arith)), (p-IsComponent, tt)) (m-IsComponent, (p-IsComponent, tt))
      media_mounted private_prohibited refl

create-prohibited_example :
    (reason : String) × (classify host.stat policy key "read" ≡ some (prohibited, reason))
unfolding is_contained list_beq
create-prohibited_example =
    create-prohibited host config policy private key "read" created
      (configured (text private ∷ []) 0 {dir = private} refl refl) refl refl
