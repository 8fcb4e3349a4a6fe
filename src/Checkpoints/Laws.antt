-- ===== src/Checkpoints/Laws.antt =====
-- What `save` leaves in the directory.
use smallpieclaw.Dict
use smallpieclaw.Prelude.{
  ℕ, suc, ◌≤◌, String, ◌==◌, string_eq, nat_eq, ==_self, ◌≡◌, ◌≢◌, refl, ap, sym, ◌∙◌, subst, inl,
  inr, true, false, Option, none, some, List, [], ◌∷◌, arith, length, contains, drop, Bool-cases,
}
use smallpieclaw.Checkpoints.{
  Text, Content, checkpoint, corrupted, no_object, unreadable, Directory, text_le, Entry, key_of,
  prune, RunState, settle, save, loaded, load,
}
use smallpieclaw.Checkpoints.Sorting.{IsSorted, sort_entries-IsSorted}
use smallpieclaw.Checkpoints.Pruning.{
  get-delete_files, AreReadable, collect-entries_of, put-AreReadable, times, entries_of,
}
use smallpieclaw.Checkpoints.Order.{take-le-drop, has_split_at}
use smallpieclaw.Checkpoints.Survivors.{
  sorted_of, doomed_of, survivors, get-sorted_of, sorted_of-IsUnique, doomed-behind, survivor-newer,
  length-survivors, survivors-whole,
}

-- A state with a time.
abbrev pub dated : Text → Text → RunState
dated created_at payload = record { created_at = some created_at; payload = payload }

module _ (d : Directory) (unique : Dict.IsUnique d) (readable : AreReadable d) (n : ℕ) (k : String)
    (c p : Text) where
  -- The directory behind `os.replace`.
  abbrev written : Directory
  written = Dict.put d k (checkpoint c p)

  written-IsUnique : Dict.IsUnique written
  written-IsUnique = Dict.put-IsUnique d k (checkpoint c p) unique

  save-survivors : save (suc n) [] true k (dated c p) d ≡ survivors written written-IsUnique (suc n)
  unfolding save prune settle
  save-survivors =
      let collected =
        collect-entries_of written (put-AreReadable d k (checkpoint c p) refl readable) in
      let positive : (suc n == 0) ≡ false = ground arith in
      rw (positive, collected, save, prune, settle) refl

  -- In a directory whose files can all be read as objects, with each name once, and where every write
  -- and removal succeeds, `save` with a cap above 0 leaves at most as many files as the cap, and none
  -- of them is corrupted.
  pub save-length :
      (j : String)
      → (length (save (suc n) [] true k (dated c p) d) ≤ suc n)
        × (Dict.get (save (suc n) [] true k (dated c p) d) j ≢ some corrupted)
  save-length j = rw (save-survivors) (
    length-survivors written written-IsUnique (suc n),
    survivors-whole written written-IsUnique (suc n) j,
  )

  -- In a directory whose files can all be read as objects, with each name once, and where every write
  -- and removal succeeds, no checkpoint that `save` with a cap above 0 deletes is newer than one that
  -- it leaves.
  pub save-newest :
      (a b : String) (s t q r : Text)
      → Dict.get (save (suc n) [] true k (dated c p) d) a ≡ some (checkpoint s q)
      → Dict.get (Dict.put d k (checkpoint c p)) b ≡ some (checkpoint t r)
      → Dict.get (save (suc n) [] true k (dated c p) d) b ≡ none
      → text_le t s ≡ true
  save-newest a b s t q r kept before gone =
      let at_a = sym (ap (λ f. Dict.get f a) save-survivors) ∙ kept in
      let at_b = sym (ap (λ f. Dict.get f b) save-survivors) ∙ gone in
      let left_a = get-delete_files (doomed_of (suc n) written) written a in
      let left_b = get-delete_files (doomed_of (suc n) written) written b in
      let spared : contains (doomed_of (suc n) written) a ≡ false = ground (arith, left_a, at_a) in
      survivor-newer written written-IsUnique (suc n) a b s t q r
        (ground (arith, left_a, at_a, spared)) before spared (ground (arith, left_b, at_b, before))

  -- A time that comes after all those of the directory is that of the newest entry.
  behind-head :
      (e : Entry) (entries : List Entry)
      → sorted_of written ≡ e ∷ entries
      → Dict.has (drop (suc n) (e ∷ entries)) k ≡ true
      → (e.0 == k) ≡ false
      → Dict.get (e ∷ entries) k ≡ some (some c)
      → Dict.IsUnique (e ∷ entries)
      → text_le c (key_of e.1) ≡ true
  unfolding Dict.has Dict.get
  behind-head e entries whole behind other at_k apart =
      take-le-drop (suc n) (e ∷ entries) e.0 k e.1 (some c)
        (subst (λ es. IsSorted es) whole (sort_entries-IsSorted (entries_of written))) apart
        (ground (arith, ==_self e.0)) behind (ground (arith, ==_self e.0)) at_k

  no-older :
      text_le c [] ≡ false
      → ((j : String) (t q : Text) → Dict.get d j ≡ some (checkpoint t q) → text_le c t ≡ false)
      → (j : String) (t : Option Text) (content : Option Content) → times content ≡ some t
      → Dict.get d j ≡ content
      → text_le c (key_of t) ≡ false
  no-older late newest j t none here at = absurd (ground (arith, here))
  no-older late newest j t (some (checkpoint s q)) here at =
      let same : some s ≡ t = ground (arith, here) in
      ap (λ u. text_le c (key_of u)) (sym same) ∙ newest j s q at
  no-older late newest j t (some corrupted) here at =
      let same : none ≡ t = ground (arith, here) in ap (λ u. text_le c (key_of u)) (sym same) ∙ late
  no-older late newest j t (some no_object) here at =
      let same : none ≡ t = ground (arith, here) in ap (λ u. text_le c (key_of u)) (sym same) ∙ late
  no-older late newest j t (some unreadable) here at =
      let same : none ≡ t = ground (arith, here) in ap (λ u. text_le c (key_of u)) (sym same) ∙ late

  -- An entry that stands before it would be of a time of the directory.
  not-behind :
      text_le c [] ≡ false
      → ((j : String) (t q : Text) → Dict.get d j ≡ some (checkpoint t q) → text_le c t ≡ false)
      → (entries : List Entry) → sorted_of written ≡ entries
      → Dict.has (drop (suc n) entries) k ≢ true
  unfolding Dict.has Dict.get
  not-behind late newest [] whole behind = ground (arith, behind)
  not-behind late newest ((j, t) ∷ entries) whole behind =
      let apart =
        subst (λ es. Dict.IsUnique es) whole
          (sorted_of-IsUnique written written-IsUnique (suc n)) in
      let inside : Dict.has entries k ≡ true = ground (arith, has_split_at n entries k, behind) in
      let other : (j == k) ≡ false = ground (arith, inside, apart.0, string_eq.beq_iff j k) in
      let at = λ (i : String).
        ap (λ es. Dict.get es i) (sym whole) ∙ get-sorted_of written written-IsUnique (suc n) i in
      let older =
        behind-head (j, t) entries whole behind other
          (at k ∙ ap times (Dict.get-put_self d k (checkpoint c p))) apart in
      let here : times (Dict.get d j) ≡ some t = ground (
        arith,
        at j,
        ==_self j,
        other,
        string_eq.beq_iff j k,
        string_eq.beq_iff k j,
        Dict.get-put d k j (checkpoint c p),
      ) in
      ground (arith, no-older late newest j t (Dict.get d j) here refl, older)

  -- In a directory whose files can all be read as objects, with each name once, and where every write
  -- and removal succeeds: a checkpoint whose time is not empty and comes after that of every
  -- checkpoint of the directory is there when `save` with a cap above 0 has saved it, and `load`
  -- returns it.
  pub load-save :
      text_le c [] ≡ false
      → ((j : String) (t q : Text) → Dict.get d j ≡ some (checkpoint t q) → text_le c t ≡ false)
      → load k (save (suc n) [] true k (dated c p) d) ≡ loaded c p
  unfolding load
  load-save late newest = elim (Bool-cases (contains (doomed_of (suc n) written) k)) [
    | inl gone ↦ absurd (
        not-behind late newest (sorted_of written) refl (
          doomed-behind written written-IsUnique (suc n) k c p
            (Dict.get-put_self d k (checkpoint c p)) gone))
    | inr spared ↦
        let left = get-delete_files (doomed_of (suc n) written) written k in
        let kept : Dict.get (survivors written written-IsUnique (suc n)) k ≡ some (checkpoint c p) =
          ground (arith, left, spared, Dict.get-put_self d k (checkpoint c p)) in
        rw (save-survivors, kept) refl
  ]
