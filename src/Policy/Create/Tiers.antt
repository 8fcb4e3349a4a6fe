-- ===== src/Policy/Create/Tiers.antt =====
-- How a policy that `create` has built classifies the workspace and the directories of Tier 0.
use smallpieclaw.Dict
use smallpieclaw.Dict.{Dict}
use smallpieclaw.Prelude.{
  String, ◌==◌, nat_eq, list_eq, string_eq, ◌≡◌, inr, ap, sym, ◌∙◌, subst, true, false, ◌||◌, none,
  some, List, ◌∷◌, arith, map,
}
use smallpieclaw.Paths.{FilePath, is_contained}
use smallpieclaw.Policy.{
  prohibited, allowed, PathPolicy, is_alias, first_prohibited, tier1_mode, classify_open, classify,
}
use smallpieclaw.Policy.Verdicts.{first_prohibited-within, classify-prohibited}
use smallpieclaw.Policy.Create.{Host, PolicyConfig, is_empty, resolve, assemble, create}
use smallpieclaw.Policy.Create.Built.{
  AreApart, create-inr, create-AreApart, apart-within, assemble-workspace,
}
use smallpieclaw.Policy.Create.Collected.{IsTier0, or_right, has-within, prohibited_of-has}

classify_open-first :
    (policy : PathPolicy) (zone path : FilePath) (rest : List (FilePath × String))
    (operation : String)
    → policy.tier1 ≡ (zone, "rw") ∷ rest
    → is_contained path zone ≡ true
    → classify_open policy path operation ≡ (allowed, "rw")
unfolding classify_open tier1_mode
classify_open-first policy zone path rest operation h inside =
    let decided : tier1_mode policy.tier1 path operation ≡ some "rw" =
      ap (λ zones. tier1_mode zones path operation) h ∙ ground (arith, inside) in
    ground (arith, decided)

-- In a policy that `create` has built, every path in the workspace that is no hard link to the vault
-- or the config file may be read and written. The workspace's real path is not empty.
create-workspace :
    (host : Host) (c : PolicyConfig) (policy : PathPolicy) (path : FilePath) (operation : String)
    → create host c ≡ inr policy
    → is_empty (resolve host c.workspace_dir) ≡ false
    → is_contained path (resolve host c.workspace_dir) ≡ true
    → is_alias policy.prohibited_inodes (host.stat path) ≡ false
    → (operation == "read" || operation == "write") ≡ true
    → classify host.stat policy path operation ≡ some (allowed, "rw")
unfolding classify AreApart
create-workspace host c policy path operation h given inside plain known =
    let zone = resolve host c.workspace_dir in
    let (configured, tier2, first, second, clear, same) = create-inr host c policy h in
    let (rest, shape) = assemble-workspace host c configured tier2 given in
    let tier1 : policy.tier1 ≡ (zone, "rw") ∷ rest = sym (ap (λ p. p.tier1) same) ∙ shape in
    let apart =
      subst (λ zones. AreApart policy.prohibited_entries (map (λ z. z.0) zones)) tier1
        (create-AreApart host c policy h).0 in
    let out : first_prohibited policy.prohibited_entries path ≡ none =
      (first_prohibited-within policy.prohibited_entries path).0
        (apart-within policy.prohibited_entries zone path apart.0 inside) in
    let first_zone = classify_open-first policy zone path rest operation tier1 inside in
    rw (known, plain, out, classify) (ap some first_zone)

-- In a policy that `create` has built, every path within a directory of Tier 0 is prohibited, for
-- reading and for writing: the system directories, the credentials in the home directory, the
-- agent's own directories and files, and each directory that the configuration prohibits.
pub create-prohibited :
    (host : Host) (c : PolicyConfig) (policy : PathPolicy) (dir path : FilePath)
    (operation : String)
    → create host c ≡ inr policy
    → IsTier0 host c dir
    → is_contained path dir ≡ true
    → (operation == "read" || operation == "write") ≡ true
    → (reason : String) × (classify host.stat policy path operation ≡ some (prohibited, reason))
unfolding assemble
create-prohibited host c policy dir path operation h tier0 inside known =
    let (dirs, tier2, first, second, clear, same) = create-inr host c policy h in
    let listed : Dict.has policy.prohibited_entries dir ≡ true =
      subst (λ p. Dict.has p.prohibited_entries dir ≡ true) same
        (prohibited_of-has host c dirs dir first tier0) in
    let within_tier0 = has-within policy.prohibited_entries dir path listed inside in
    let (verdict, detail, runs, exact) =
      classify-prohibited host.stat policy path operation known in
    let is_prohibited = exact.1 (or_right _ within_tier0) in
    (detail, runs ∙ ap (λ v. some (v, detail)) is_prohibited)
