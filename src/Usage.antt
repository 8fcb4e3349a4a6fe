-- ===== src/Usage.antt =====
-- token_usage.py: `TokenUsageRegistry`. A day is a number; the code only compares the dates for
-- equality. The lock makes each operation one step.
pub mod Totals
mod Tests
use smallpieclaw.Prelude.{
  ℕ, ◌+◌, String, ◌==◌, nat_eq, string_eq, Option, none, some, List, [], ◌∷◌, if◌then◌else◌, map,
}
use smallpieclaw.Dict
use smallpieclaw.Dict.{Dict}

pub record Usage : Type 0 where
  pub date : ℕ
  pub prompt : ℕ
  pub completion : ℕ

pub record Counts : Type 0 where
  pub prompt : ℕ
  pub completion : ℕ
  pub total : ℕ

abbrev pub UsageTable : Type 0
UsageTable = Dict String Usage

-- The entry that `record` adds to: a new one when there is none for the day.
unfoldable pub opened : ℕ → Option Usage → Usage
opened today none = record { date = today; prompt = 0; completion = 0 }
opened today (some u) =
    if u.date == today then u else record { date = today; prompt = 0; completion = 0 }

unfoldable pub add : Usage → ℕ → ℕ → Usage
add u prompt completion = record u {
  prompt = u.prompt + prompt;
  completion = u.completion + completion;
}

unfoldable pub record_usage : ℕ → String → ℕ → ℕ → UsageTable → UsageTable
unfolding opened add Dict.get Dict.put
record_usage today model prompt completion table =
    Dict.put table model (add (opened today (Dict.get table model)) prompt completion)

abbrev pub counts_of : Usage → Counts
counts_of u = record {
  prompt = u.prompt;
  completion = u.completion;
  total = u.prompt + u.completion;
}

unfoldable pub get_today : ℕ → UsageTable → Dict String Counts
get_today today [] = []
get_today today ((model, u) ∷ table) =
    let rest = get_today today table in
    if u.date == today then (model, counts_of u) ∷ rest else rest

unfoldable pub sum : List ℕ → ℕ
sum [] = 0
sum (n ∷ ns) = n + sum ns

unfoldable pub get_today_totals : ℕ → UsageTable → Counts
unfolding get_today sum
get_today_totals today table =
    let counts = Dict.values (get_today today table) in
    let prompt = sum (map (λ c. c.prompt) counts) in
    let completion = sum (map (λ c. c.completion) counts) in
    record { prompt = prompt; completion = completion; total = prompt + completion }

-- A call of `record`, with the day on which it is made.
pub record Call : Type 0 where
  pub day : ℕ
  pub model : String
  pub prompt : ℕ
  pub completion : ℕ

unfoldable pub replay : List Call → UsageTable → UsageTable
unfolding record_usage
replay [] table = table
replay (c ∷ calls) table = replay calls (record_usage c.day c.model c.prompt c.completion table)
