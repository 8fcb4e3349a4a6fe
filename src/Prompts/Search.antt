-- ===== src/Prompts/Search.antt =====
-- prompt_registry.py: `search` and `list_recent`. `lower` stands for `str.lower`; the times of a query
-- are numbers, as `_parse_iso` gives them, and `cutoff` is the present less the days.
use smallpieclaw.Dict
use smallpieclaw.Prelude.{
  ℕ, String, ◌==◌, string_eq, nat_eq, Bool, true, false, ◌&&◌, ◌||◌, Option, none, some, List, [],
  ◌∷◌, ◌++◌, if◌then◌else◌, leb, length, take, drop, keep, contains,
}
use smallpieclaw.Prompts.{PromptRecord, Archived, Registry, unreadable, snapshot}

-- `in` of texts
unfoldable pub begins_with : List ℕ → List ℕ → Bool
begins_with [] text = true
begins_with (c ∷ part) [] = false
begins_with (c ∷ part) (d ∷ text) = c == d && begins_with part text

unfoldable pub occurs_in : List ℕ → List ℕ → Bool
unfolding begins_with
occurs_in part [] = begins_with part []
occurs_in part (c ∷ text) = begins_with part (c ∷ text) || occurs_in part text

pub record Query : Type 0 where
  pub text : List ℕ
  pub status : Option String
  pub trace_id : Option String
  pub since : Option ℕ
  pub until : Option ℕ
  pub cutoff : Option ℕ

-- _build_time_filter
abbrev pub time_filter : (since until cutoff : Option ℕ) → ℕ → Bool
time_filter none none none at = true
time_filter none none (some cutoff) at = leb cutoff at
time_filter none (some until) cutoff at = leb at until
time_filter (some since) none cutoff at = leb since at
time_filter (some since) (some until) cutoff at = leb since at && leb at until

abbrev is_wanted : Option String → String → Bool
is_wanted none s = true
is_wanted (some wanted) s = s == wanted

abbrev pub is_in : List ℕ → List ℕ → Bool
is_in [] text = true
is_in (c ∷ part) text = occurs_in (c ∷ part) text

-- `sort` by started_at with `reverse=True`: equal records keep their order.
unfoldable pub insert_prompt : PromptRecord → List PromptRecord → List PromptRecord
insert_prompt r [] = r ∷ []
insert_prompt r (s ∷ records) =
    let rest = insert_prompt r records in
    if leb s.started_at r.started_at then r ∷ s ∷ records else s ∷ rest

unfoldable pub sort_prompts : List PromptRecord → List PromptRecord
unfolding insert_prompt
sort_prompts [] = []
sort_prompts (r ∷ records) = insert_prompt r (sort_prompts records)

pub record SearchPage : Type 0 where
  pub results : List PromptRecord
  pub total_matched : ℕ

abbrev pub ids : List PromptRecord → List String
ids [] = []
ids (r ∷ records) = r.prompt_id ∷ ids records

module _ (lower : List ℕ → List ℕ) where
  abbrev pub matches : Query → PromptRecord → Bool
  matches q r =
      is_in (lower q.text) (lower r.text)
      && is_wanted q.status r.status
      && is_wanted q.trace_id r.trace_id
      && time_filter q.since q.until q.cutoff r.started_at

  -- The archive, less the identifiers that were seen.
  unfoldable pub search_lines : Query → (seen : List String) → List Archived → List PromptRecord
  unfolding contains
  search_lines q seen [] = []
  search_lines q seen (unreadable ∷ lines) = search_lines q seen lines
  search_lines q seen (snapshot r ∷ lines) =
      let rest = search_lines q seen lines in
      if r.prompt_id == "" || contains seen r.prompt_id
      then rest
      else if matches q r
      then r ∷ rest
      else rest

  unfoldable pub search_archive :
      Query → (seen : List String) → Option (List Archived) → List PromptRecord
  unfolding search_lines
  search_archive q seen none = []
  search_archive q seen (some lines) = search_lines q seen lines

  unfoldable pub matched : Query → Registry → List PromptRecord
  unfolding search_archive sort_prompts
  matched q g =
      let found = keep (matches q) (Dict.values g.memory.records) in
      sort_prompts (found ++ search_archive q (ids found) g.archive)

  unfoldable pub search : Query → (limit offset : ℕ) → Registry → SearchPage
  unfolding matched
  search q limit offset g =
      let all = matched q g in
      record { results = take limit (drop offset all); total_matched = length all }

unfoldable pub list_recent : ℕ → Registry → List PromptRecord
unfolding sort_prompts
list_recent n g = take n (sort_prompts (Dict.values g.memory.records))
