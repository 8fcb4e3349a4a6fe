-- ===== src/Checkpoints/Listing.antt =====
-- What `list` returns, and what `load` returns.
use smallpieclaw.Dict
use smallpieclaw.Prelude.{
  String, string_eq, ◌≡◌, ap, sym, ◌∙◌, true, some, List, [], ◌∷◌, arith, All, map, contains,
  distinct, inl, inr, subst, Bool-cases, Option-cases,
}
use smallpieclaw.Checkpoints.{
  Directory, text_le, Checkpoint, load, collect_valid, insert_checkpoint, sort_checkpoints, list,
}
use smallpieclaw.Checkpoints.Named.{
  is_loaded, loaded_of, named, of_named, IsStored, collect_valid-named, map-sort, contains-sort,
  distinct-sort, sort_named-All, named-IsStored, distinct-named, contains-named, load-keys,
  sort_named,
}
use smallpieclaw.Checkpoints.Sorting.{text_le_total, text_le_trans}

-- No checkpoint is newer than one before it.
abbrev IsOlder : Checkpoint → Checkpoint → Type 0
IsOlder c b = text_le b.0 c.0 ≡ true

abbrev pub IsNewestFirst : List Checkpoint → Type 0
IsNewestFirst [] = Unit
IsNewestFirst (c ∷ checkpoints) = All (IsOlder c) checkpoints × IsNewestFirst checkpoints

All-IsOlder :
    (c b : Checkpoint) (checkpoints : List Checkpoint)
    → IsOlder c b
    → All (IsOlder b) checkpoints
    → All (IsOlder c) checkpoints
All-IsOlder c b [] h all = tt
All-IsOlder c b (a ∷ checkpoints) h (first, all) =
    (text_le_trans a.0 b.0 c.0 first h, All-IsOlder c b checkpoints h all)

insert-All :
    (P : Checkpoint → Type 0) (c : Checkpoint) (checkpoints : List Checkpoint)
    → P c
    → All P checkpoints
    → All P (insert_checkpoint c checkpoints)
unfolding insert_checkpoint
insert-All P c [] here all = (here, tt)
insert-All P c (b ∷ checkpoints) here (first, all) = elim (Bool-cases (text_le b.0 c.0)) [
  | inl newer ↦ rw (newer) (here, (first, all))
  | inr older ↦ rw (older) (first, insert-All P c checkpoints here all)
]

insert-IsNewestFirst :
    (c : Checkpoint) (checkpoints : List Checkpoint)
    → IsNewestFirst checkpoints
    → IsNewestFirst (insert_checkpoint c checkpoints)
unfolding insert_checkpoint
insert-IsNewestFirst c [] sorted = (tt, tt)
insert-IsNewestFirst c (b ∷ checkpoints) (first, sorted) = elim (Bool-cases (text_le b.0 c.0)) [
  | inl newer ↦ rw (newer) ((newer, All-IsOlder c b checkpoints newer first), (first, sorted))
  | inr older ↦ rw (older) (
    insert-All (IsOlder b) c checkpoints (text_le_total b.0 c.0 older) first,
    insert-IsNewestFirst c checkpoints sorted,
  )
]

sort-IsNewestFirst : (checkpoints : List Checkpoint) → IsNewestFirst (sort_checkpoints checkpoints)
unfolding sort_checkpoints
sort-IsNewestFirst [] = tt
sort-IsNewestFirst (c ∷ checkpoints) =
    insert-IsNewestFirst c (sort_checkpoints checkpoints) (sort-IsNewestFirst checkpoints)

-- `checkpoints` are what `load` returns for some names, each once: for exactly the names for which
-- it returns a checkpoint. They stand newest first.
pub record IsListing (d : Directory) (checkpoints : List Checkpoint) : Type 0 where
  pub newest_first : IsNewestFirst checkpoints
  pub names : List String
  pub once : distinct names ≡ true
  pub same : map (λ k. load k d) names ≡ map loaded_of checkpoints
  pub whole : (k : String) → contains names k ≡ is_loaded (load k d)

-- In a directory with each name once, where `list` raises nothing, the checkpoints that it returns
-- are those that `load` returns for some names, with their times and payloads and in the order of
-- these names: each name for which `load` returns a checkpoint is among the names, once, and no
-- other. They stand newest first.
pub list-load :
    (d : Directory) (checkpoints : List Checkpoint)
    → Dict.IsUnique d
    → list d ≡ some checkpoints
    → IsListing d checkpoints
unfolding list load
list-load d checkpoints unique returned = elim (Option-cases (collect_valid d)) [
  | inl fails ↦ absurd (ground (arith, returned, fails))
  | inr (found, collected) ↦
      let whole : map of_named (sort_named (named d)) ≡ checkpoints =
        map-sort (named d)
        ∙ ap sort_checkpoints (sym (collect_valid-named d found collected))
        ∙ ground (arith, returned, collected) in
      subst (λ cs. IsListing d cs) whole
        (record {
          newest_first = rw (map-sort (named d)) (sort-IsNewestFirst (map of_named (named d)));
          names = Dict.keys (sort_named (named d));
          once = distinct-sort (named d) (distinct-named d unique);
          same =
              load-keys d (sort_named (named d))
                (sort_named-All (IsStored d) (named d) (named-IsStored d unique));
          whole = λ k. contains-sort (named d) k ∙ contains-named d k unique;
        })
]
