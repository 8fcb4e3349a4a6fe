-- ===== src/Paths.antt =====
-- The containment test that confirmation.py (`grant_covers`) and path_policy.py (`is_contained`)
-- share, on a POSIX system, where `os.path.normcase` changes nothing. A path is the list of its code
-- points; `os.path.realpath` behind `expanduser` is a parameter.
pub mod Containment
use smallpieclaw.Prelude.{
  ℕ, ◌==◌, nat_eq, list_eq, Bool, true, false, ◌&&◌, ◌||◌, List, [], ◌∷◌, ◌++◌,
}

abbrev pub FilePath : Type 0
FilePath = List ℕ

-- path.startswith(prefix)
unfoldable pub starts_with : FilePath → FilePath → Bool
starts_with path [] = true
starts_with [] (c ∷ prefix) = false
starts_with (d ∷ path) (c ∷ prefix) = d == c && starts_with path prefix

unfoldable pub is_contained : FilePath → FilePath → Bool
unfolding starts_with
is_contained path zone = path == zone || starts_with path (zone ++ b'/' ∷ [])

unfoldable pub grant_covers : (FilePath → FilePath) → FilePath → FilePath → Bool
unfolding is_contained
grant_covers realpath dir path = is_contained (realpath path) dir
