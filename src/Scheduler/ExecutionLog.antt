-- ===== src/Scheduler/ExecutionLog.antt =====
-- scheduler.py: `JobExecutionLog`, over the entries of its file; a line that is no JSON is no entry.
-- `at_least a b` stands for the comparison `a >= b` of time stamps. A key that an entry lacks has its
-- default.
pub mod Rotation
use mathlib.Core.List.{reverse}
use smallpieclaw.Prelude.{
  ℕ, zero, suc, ◌+◌, ◌-◌, String, nat_eq, list_eq, Bool, Option, none, some, List, [], ◌∷◌, ◌++◌,
  if◌then◌else◌, ltb, length, take, drop, keep,
}
use smallpieclaw.Dict
use smallpieclaw.Dict.{Dict}
use smallpieclaw.Scheduler.Tags.{Text, is_empty}

pub record LogEntry : Type 0 where
  pub ts : String
  pub tag : Text
  pub task : Text
  pub result : Text
  pub success : Bool
  pub elapsed_s : ℕ
  pub model : Text
  -- `none` when the key is not written
  pub error_type : Option Text

abbrev pub result_max_chars : ℕ
result_max_chars = 2000

abbrev pub count_of : Option ℕ → ℕ
count_of none = 0
count_of (some n) = n

module _ (max_per_job : ℕ) where
  -- The loop over the entries from the newest to the oldest, with the counts of the tags.
  unfoldable pub keep_newest : Dict Text ℕ → List LogEntry → List LogEntry
  unfolding Dict.get Dict.put
  keep_newest counts [] = []
  keep_newest counts (e ∷ entries) =
      let count = count_of (Dict.get counts e.tag) in
      let kept = keep_newest (Dict.put counts e.tag (count + 1)) entries in
      let dropped = keep_newest counts entries in
      if ltb count max_per_job then e ∷ kept else dropped

  unfoldable pub rotate :
      (at_least : String → String → Bool) → String → List LogEntry → List LogEntry
  unfolding keep_newest keep
  rotate at_least cutoff entries =
      reverse (keep_newest [] (reverse (keep (λ e. at_least e.ts cutoff) entries)))

  -- The entries behind a call of `record`. `loaded` are those that could be read, and a write that
  -- fails leaves the file as it is.
  unfoldable pub record_entry :
      (at_least : String → String → Bool)
      → (cutoff : String) → (loaded : List LogEntry) → (write_fails : Bool) → LogEntry
      → List LogEntry
      → List LogEntry
  unfolding rotate
  record_entry at_least cutoff loaded write_fails e file =
      let cut = record e { task = take 200 e.task; result = take result_max_chars e.result } in
      if write_fails then file else rotate at_least cutoff (loaded ++ cut ∷ [])

-- entries[-n:], which is all of them for 0
unfoldable pub read_recent : ℕ → List LogEntry → List LogEntry
read_recent zero entries = entries
read_recent (suc n) entries = drop (length entries - suc n) entries
