-- ===== src/Checkpoints/Survivors.antt =====
-- The files that the pruning spares, and those that it deletes.
use smallpieclaw.Dict
use smallpieclaw.Subsets.{Subset, length-le_of_distinct}
use smallpieclaw.Prelude.{
  ℕ, ◌≤◌, String, string_eq, nat_eq, ◌≡◌, ap, sym, ◌∙◌, inl, inr, true, false, ◌||◌, some, List, [],
  arith, length, length-take, take, drop, contains, contains-append, Bool-cases,
}
use smallpieclaw.Checkpoints.{
  Text, checkpoint, corrupted, Directory, text_le, Entry, sort_entries, doomed, delete_files,
}
use smallpieclaw.Checkpoints.Sorting.{
  sort_entries-IsSorted, has-sort_entries, get-sort_entries, sort_entries-IsUnique,
}
use smallpieclaw.Checkpoints.Pruning.{
  corrupted_names, doomed-split_lem, has-delete_files, get-delete_files, delete_files-IsUnique,
  times, entries_of, get-entries_of, has-entries_of, entries_of-IsUnique,
}
use smallpieclaw.Checkpoints.Order.{
  contains-keys, distinct-keys, length-keys, has_split_at, get-take, take-IsUnique, get-corrupted,
  corrupted-get, take-le-drop,
}

-- The entries of a directory that can be read, sorted, and the names that are deleted.
abbrev pub sorted_of : Directory → List Entry
sorted_of d = sort_entries (entries_of d)

abbrev pub doomed_of : ℕ → Directory → List String
doomed_of cap d = doomed cap 0 (sorted_of d)

module _ (d : Directory) (unique : Dict.IsUnique d) (n : ℕ) where
  pub get-sorted_of : (k : String) → Dict.get (sorted_of d) k ≡ times (Dict.get d k)
  get-sorted_of k =
      get-sort_entries (entries_of d) k (entries_of-IsUnique d unique) ∙ get-entries_of d k

  has-sorted_of : (k : String) → Dict.has (sorted_of d) k ≡ Dict.has d k
  has-sorted_of k = has-sort_entries (entries_of d) k ∙ has-entries_of d k

  pub sorted_of-IsUnique : Dict.IsUnique (sorted_of d)
  sorted_of-IsUnique = sort_entries-IsUnique (entries_of d) (entries_of-IsUnique d unique)

  contains-doomed_of :
      (k : String)
      → contains (doomed_of n d) k
        ≡ (contains (corrupted_names (take n (sorted_of d))) k || Dict.has (drop n (sorted_of d)) k)
  contains-doomed_of k =
      ap (λ names. contains names k) (doomed-split_lem n (sorted_of d))
      ∙ contains-append (corrupted_names (take n (sorted_of d))) (Dict.keys (drop n (sorted_of d)))
          k
      ∙ ap (λ b. contains (corrupted_names (take n (sorted_of d))) k || b)
          (contains-keys (drop n (sorted_of d)) k)

  -- A file that is not deleted stands among the first.
  survivor-first :
      (k : String)
      → Dict.has d k ≡ true
      → contains (doomed_of n d) k ≡ false
      → Dict.has (take n (sorted_of d)) k ≡ true
  survivor-first k h spared =
      ground
        (arith, has_split_at n (sorted_of d) k, has-sorted_of k, contains-doomed_of k, h, spared)

  -- A checkpoint that is deleted stands behind the first.
  pub doomed-behind :
      (k : String) (created_at payload : Text)
      → Dict.get d k ≡ some (checkpoint created_at payload)
      → contains (doomed_of n d) k ≡ true
      → Dict.has (drop n (sorted_of d)) k ≡ true
  doomed-behind k created_at payload h gone =
      elim (Bool-cases (contains (corrupted_names (take n (sorted_of d))) k)) [
        | inl broken ↦
            let at =
              corrupted-get (take n (sorted_of d)) k
                (take-IsUnique n (sorted_of d) sorted_of-IsUnique) broken in
            let inside = Dict.has-get (take n (sorted_of d)) k at in
            absurd
              (ground (arith, at, get-take n (sorted_of d) k inside, get-sorted_of k, ap times h))
        | inr whole ↦ ground (arith, contains-doomed_of k, gone, whole)
      ]

  -- What is kept and what is deleted.
  pub survivor-newer :
      (a b : String) (s t p q : Text)
      → Dict.get d a ≡ some (checkpoint s p)
      → Dict.get d b ≡ some (checkpoint t q)
      → contains (doomed_of n d) a ≡ false
      → contains (doomed_of n d) b ≡ true
      → text_le t s ≡ true
  survivor-newer a b s t p q at_a at_b spared gone =
      take-le-drop n (sorted_of d) a b (some s) (some t) (sort_entries-IsSorted (entries_of d))
        sorted_of-IsUnique (survivor-first a (Dict.has-get d a at_a) spared)
        (doomed-behind b t q at_b gone) (get-sorted_of a ∙ ap times at_a)
        (get-sorted_of b ∙ ap times at_b)

  abbrev pub survivors : Directory
  survivors = delete_files [] (doomed_of n d) d

  pub length-survivors : length survivors ≤ n
  length-survivors =
      let first = Dict.keys (take n (sorted_of d)) in
      let inside : Subset (Dict.keys survivors) first = λ k m.
        let left =
          sym (has-delete_files (doomed_of n d) d k) ∙ sym (contains-keys survivors k) ∙ m in
        contains-keys (take n (sorted_of d)) k
        ∙ survivor-first k (ground (arith, left)) (ground (arith, left)) in
      let few =
        length-le_of_distinct (Dict.keys survivors) first
          (distinct-keys survivors (delete_files-IsUnique (doomed_of n d) d unique)) inside in
      omega (
        arith,
        few,
        length-keys survivors,
        length-keys (take n (sorted_of d)),
        length-take n (sorted_of d),
      )

  pub survivors-whole : (k : String) → Dict.get survivors k ≡ some corrupted → ⊥
  survivors-whole k h =
      let left = get-delete_files (doomed_of n d) d k in
      let spared : contains (doomed_of n d) k ≡ false = ground (arith, left, h) in
      let there : Dict.get d k ≡ some corrupted = ground (arith, left, h, spared) in
      let first = survivor-first k (Dict.has-get d k there) spared in
      let broken =
        get-corrupted (take n (sorted_of d)) k
          (get-take n (sorted_of d) k first ∙ get-sorted_of k ∙ ap times there) in
      ground (arith, broken, contains-doomed_of k, spared)
