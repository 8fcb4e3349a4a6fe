-- ===== src/Prompts/Searched.antt =====
-- What `search` finds, and what `show` finds.
use smallpieclaw.Dict
use smallpieclaw.Dict.{Dict}
use smallpieclaw.Prelude.{
  ℕ, ◌≤◌, ◌+◌, String, ◌==◌, ==_self, length-take, string_eq, nat_eq, ◌≡◌, ap, ◌∙◌, inl, inr, true,
  false, ◌||◌, Option, none, some, List, [], ◌∷◌, ◌++◌, arith, if◌then◌else◌, length, take, drop,
  keep, contains, All, Bool-cases, Option-cases,
}
use smallpieclaw.Prompts.{PromptRecord, Archived, Registry, unreadable, snapshot}
use smallpieclaw.Prompts.Operations.{get, has_id, find_snapshot, find_in_archive, show}
use smallpieclaw.Prompts.Evict.{IsKeyed}
use smallpieclaw.Prompts.Search.{Query, ids, matches, search_lines, search_archive, matched, search}
use smallpieclaw.Prompts.Pages.{
  keep-All, sort-All, append-All, take-All, drop-All, sort-IsNewestFirst, take-IsNewestFirst,
  drop-IsNewestFirst, take_add, drop_add, take-whole, IsNewestFirst,
}
use smallpieclaw.Prompts.Found.{
  contains-sort, contains-ids_append, contains-ids_if, in_both, kept-found, kept-absent,
}

module _ (lower : List ℕ → List ℕ) (q : Query) where
  lines-found :
      (seen : List String) (lines : List Archived) (k : String) (r : PromptRecord)
      → find_snapshot lines k ≡ some r
      → contains seen k ≡ false
      → matches lower q r ≡ true
      → contains (ids (search_lines lower q seen lines)) k ≡ true
  unfolding find_snapshot search_lines
  lines-found seen [] k r h new fits = absurd (ground (arith, h))
  lines-found seen (unreadable ∷ lines) k r h new fits = lines-found seen lines k r h new fits
  lines-found seen (snapshot s ∷ lines) k r h new fits =
      let rest = search_lines lower q seen lines in
      let step = contains-ids_if (matches lower q s) s rest k in
      elim (Bool-cases (has_id k s)) [
        | inl here ↦
            let same : s ≡ r = ground (arith, h, here) in
            let chosen : matches lower q s ≡ true = ap (λ t. matches lower q t) same ∙ fits in
            let named : s.prompt_id ≡ k = ground (arith, here, string_eq.beq_iff s.prompt_id k) in
            let unseen : contains seen s.prompt_id ≡ false =
              ap (λ i. contains seen i) named ∙ new in
            let wanted : (s.prompt_id == "" || contains seen s.prompt_id) ≡ false =
              ground (arith, here, unseen) in
            rw (wanted) (step ∙ ground (arith, chosen, ap (λ i. i == k) named, ==_self k))
        | inr later ↦
            let found = lines-found seen lines k r (ground (arith, h, later)) new fits in
            in_both (s.prompt_id == "" || contains seen s.prompt_id) rest
              (if matches lower q s then s ∷ rest else rest) k found (step ∙ ground (arith, found))
      ]

  lines-All :
      (seen : List String) (lines : List Archived)
      → All (λ s. matches lower q s ≡ true) (search_lines lower q seen lines)
  unfolding search_lines
  lines-All seen [] = tt
  lines-All seen (unreadable ∷ lines) = lines-All seen lines
  lines-All seen (snapshot s ∷ lines) =
      elim (Bool-cases (s.prompt_id == "" || contains seen s.prompt_id)) [
        | inl skip ↦ rw (skip) (lines-All seen lines)
        | inr wanted ↦ elim (Bool-cases (matches lower q s)) [
          | inl fits ↦ rw (wanted, fits) (fits, lines-All seen lines)
          | inr out ↦ rw (wanted, out) (lines-All seen lines)
        ]
      ]

  archive-All :
      (seen : List String) (archive : Option (List Archived))
      → All (λ s. matches lower q s ≡ true) (search_archive lower q seen archive)
  unfolding search_archive
  archive-All seen none = tt
  archive-All seen (some lines) = lines-All seen lines

  archive-found :
      (seen : List String) (archive : Option (List Archived)) (k : String) (r : PromptRecord)
      → find_in_archive archive k ≡ some r
      → contains seen k ≡ false
      → matches lower q r ≡ true
      → contains (ids (search_archive lower q seen archive)) k ≡ true
  unfolding search_archive find_in_archive
  archive-found seen none k r h new fits = absurd (ground (arith, h))
  archive-found seen (some lines) k r h new fits = lines-found seen lines k r h new fits

  matched-All : (g : Registry) → All (λ s. matches lower q s ≡ true) (matched lower q g)
  unfolding matched
  matched-All g =
      let found = keep (matches lower q) (Dict.values g.memory.records) in
      let wanted = λ (s : PromptRecord). matches lower q s ≡ true in
      sort-All wanted (found ++ search_archive lower q (ids found) g.archive) (
        append-All wanted found (search_archive lower q (ids found) g.archive)
          (keep-All (matches lower q) (Dict.values g.memory.records))
          (archive-All (ids found) g.archive))

  matched-IsNewestFirst : (g : Registry) → IsNewestFirst (matched lower q g)
  unfolding matched
  matched-IsNewestFirst g =
      let found = keep (matches lower q) (Dict.values g.memory.records) in
      sort-IsNewestFirst (found ++ search_archive lower q (ids found) g.archive)

  matched-found :
      (g : Registry) (k : String) (r : PromptRecord)
      → IsKeyed g.memory.records
      → show g k ≡ some r
      → matches lower q r ≡ true
      → contains (ids (matched lower q g)) k ≡ true
  unfolding matched show get
  matched-found g k r keyed shown fits =
      let found = keep (matches lower q) (Dict.values g.memory.records) in
      let archived = search_archive lower q (ids found) g.archive in
      contains-sort (found ++ archived) k
      ∙ contains-ids_append found archived k
      ∙ elim (Option-cases (Dict.get g.memory.records k)) [
        | inl absent ↦
            let new = kept-absent (matches lower q) g.memory.records k keyed absent in
            let old =
              archive-found (ids found) g.archive k r (ground (arith, shown, absent)) new fits in
            ground (arith, old)
        | inr (s, present) ↦
            let here =
              kept-found (matches lower q) g.memory.records k r keyed
                (ground (arith, shown, present)) fits in
            ground (arith, here)
      ]

  -- In a registry whose records stand under their own identifiers, a search whose limit is no less
  -- than the number it reports and that starts at the first result finds every prompt that `show`
  -- finds as a record that the query matches.
  pub search-show :
      (g : Registry) (k : String) (r : PromptRecord) (limit : ℕ)
      → IsKeyed g.memory.records
      → show g k ≡ some r
      → matches lower q r ≡ true
      → (search lower q limit 0 g).total_matched ≤ limit
      → contains (ids (search lower q limit 0 g).results) k ≡ true
  unfolding search
  search-show g k r limit keyed shown fits few =
      ap (λ records. contains (ids records) k) (take-whole limit (matched lower q g) few)
      ∙ matched-found g k r keyed shown fits

  -- A page of a search has at most as many records as its limit, the query matches each of them, and
  -- they stand newest first. A page with a larger limit starts with it, and goes on with the page
  -- behind it.
  pub search-IsPage :
      (g : Registry) (limit more offset : ℕ)
      → (length (search lower q limit offset g).results ≤ limit)
        × All (λ s. matches lower q s ≡ true) (search lower q limit offset g).results
        × IsNewestFirst (search lower q limit offset g).results
        × ((search lower q (limit + more) offset g).results
            ≡ (search lower q limit offset g).results
              ++ (search lower q more (offset + limit) g).results)
  unfolding search
  search-IsPage g limit more offset = (
    omega (arith, length-take limit (drop offset (matched lower q g))),
    take-All (λ s. matches lower q s ≡ true) limit (drop offset (matched lower q g))
        (drop-All (λ s. matches lower q s ≡ true) offset (matched lower q g) (matched-All g)),
    take-IsNewestFirst limit (drop offset (matched lower q g))
        (drop-IsNewestFirst offset (matched lower q g) (matched-IsNewestFirst g)),
    take_add limit more (drop offset (matched lower q g))
        ∙ ap (λ rest. take limit (drop offset (matched lower q g)) ++ take more rest)
            (drop_add offset limit (matched lower q g)),
  )
