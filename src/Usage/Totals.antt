-- ===== src/Usage/Totals.antt =====
-- The totals of a day are the sums of the calls of that day.
use smallpieclaw.Prelude.{
  ℕ, ◌+◌, ◌≤◌, String, ◌==◌, nat_eq, string_eq, ◌≡◌, refl, Option, none, some, List, [], ◌∷◌, arith,
  if◌then◌else◌, Bool-cases, inl, inr,
}
use smallpieclaw.Dict
use smallpieclaw.Usage.{
  Usage, UsageTable, opened, add, record_usage, get_today, sum, get_today_totals, Call, replay,
}

-- The tokens of a day, of the prompts and of the completions, in a history of calls.
unfoldable pub prompt_on : ℕ → List Call → ℕ
prompt_on today [] = 0
prompt_on today (c ∷ calls) =
    let rest = prompt_on today calls in if c.day == today then c.prompt + rest else rest

unfoldable pub completion_on : ℕ → List Call → ℕ
completion_on today [] = 0
completion_on today (c ∷ calls) =
    let rest = completion_on today calls in if c.day == today then c.completion + rest else rest

-- The days of the calls do not fall: from `first` on, up to `last`.
abbrev pub Between : ℕ → ℕ → List Call → Type 0
Between first last [] = first ≤ last
Between first last (c ∷ calls) = (first ≤ c.day) × Between c.day last calls

Between-le : (first last : ℕ) (calls : List Call) → Between first last calls → first ≤ last
Between-le first last [] h = h
Between-le first last (c ∷ calls) (h, rest) = omega (arith, Between-le c.day last calls rest)

-- No entry is of a day behind this one.
abbrev NotAfter : ℕ → UsageTable → Type 0
NotAfter day [] = Unit
NotAfter day ((model, u) ∷ table) = (u.date ≤ day) × NotAfter day table

NotAfter-later : (d e : ℕ) (table : UsageTable) → d ≤ e → NotAfter d table → NotAfter e table
NotAfter-later d e [] le h = tt
NotAfter-later d e ((model, u) ∷ table) le (h, rest) =
    (omega arith, NotAfter-later d e table le rest)

NotAfter-put :
    (day : ℕ) (table : UsageTable) (model : String) (u : Usage)
    → u.date ≤ day
    → NotAfter day table
    → NotAfter day (Dict.put table model u)
unfolding Dict.put
NotAfter-put day [] model u le h = (le, tt)
NotAfter-put day ((m, v) ∷ table) model u le (h, rest) = elim (Bool-cases (m == model)) [
  | inl same ↦ rw (same, Dict.put) (le, rest)
  | inr other ↦ rw (other, Dict.put) (h, NotAfter-put day table model u le rest)
]

prompts-put :
    (day today : ℕ) (table : UsageTable) (model : String) (p c : ℕ)
    → day ≤ today
    → NotAfter day table
    → (get_today_totals today (record_usage day model p c table)).prompt
      ≡ (get_today_totals today table).prompt + (if day == today then p else 0)
unfolding get_today_totals record_usage get_today sum opened add Dict.get Dict.put
prompts-put day today [] model p c le h = ground arith
prompts-put day today ((m, u) ∷ table) model p c le h =
    ground (arith, prompts-put day today table model p c)

completions-put :
    (day today : ℕ) (table : UsageTable) (model : String) (p c : ℕ)
    → day ≤ today
    → NotAfter day table
    → (get_today_totals today (record_usage day model p c table)).completion
      ≡ (get_today_totals today table).completion + (if day == today then c else 0)
unfolding get_today_totals record_usage get_today sum opened add Dict.get Dict.put
completions-put day today [] model p c le h = ground arith
completions-put day today ((m, u) ∷ table) model p c le h =
    ground (arith, completions-put day today table model p c)

opened-date : (day : ℕ) (o : Option Usage) → (opened day o).date ≡ day
unfolding opened
opened-date day none = refl
opened-date day (some u) = ground arith

NotAfter-record :
    (day : ℕ) (model : String) (p c : ℕ) (table : UsageTable)
    → NotAfter day table
    → NotAfter day (record_usage day model p c table)
unfolding record_usage add
NotAfter-record day model p c table h =
    NotAfter-put day table model (add (opened day (Dict.get table model)) p c)
      (omega (arith, opened-date day (Dict.get table model))) h

replay_totals :
    (today first : ℕ) (calls : List Call) (table : UsageTable)
    → Between first today calls
    → NotAfter first table
    → ((get_today_totals today (replay calls table)).prompt
        ≡ (get_today_totals today table).prompt + prompt_on today calls)
      × ((get_today_totals today (replay calls table)).completion
          ≡ (get_today_totals today table).completion + completion_on today calls)
unfolding replay prompt_on completion_on
replay_totals today first [] table b h = (omega arith, omega arith)
replay_totals today first (c ∷ calls) table (le, b) h =
    let now = NotAfter-later first c.day table le h in
    let until = Between-le c.day today calls b in
    let next = record_usage c.day c.model c.prompt c.completion table in
    let (ps, cs) =
      replay_totals today c.day calls next b
        (NotAfter-record c.day c.model c.prompt c.completion table now) in
    (
      ground (arith, ps, prompts-put c.day today table c.model c.prompt c.completion until now),
      ground (arith, cs, completions-put c.day today table c.model c.prompt c.completion until now),
    )

-- For a history of calls whose days do not fall and are not behind today, `get_today_totals` gives
-- the sums of the prompt and of the completion tokens of today's calls, of all models, and their
-- sum.
pub get_today_totals-replay :
    (today first : ℕ) (calls : List Call)
    → Between first today calls
    → get_today_totals today (replay calls []) ≡ record {
      prompt = prompt_on today calls;
      completion = completion_on today calls;
      total = prompt_on today calls + completion_on today calls;
    }
unfolding get_today_totals get_today sum
get_today_totals-replay today first calls b =
    let (ps, cs) = replay_totals today first calls [] b tt in ground (arith, ps, cs)
