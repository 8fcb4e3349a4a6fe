-- ===== src/Prompts.antt =====
-- prompt_registry.py: `PromptRegistry`. The log and the archive are files of JSON lines; a line is
-- what `json.loads` makes of it. Times are numbers, and `started_at` of a new prompt is an argument,
-- as its identifier is. `Disk` says which writes of an operation the system refuses; reading the files
-- succeeds.
pub mod Operations
pub mod Evict
pub mod Replay
pub mod Logged
pub mod Recovery
pub mod Archive
pub mod Kept
pub mod Faithful
pub mod Shown
pub mod Effects
pub mod Starts
pub mod Search
pub mod Pages
pub mod Found
pub mod Searched
pub mod Ulid
mod Tests
use smallpieclaw.Dict
use smallpieclaw.Dict.{Dict}
use smallpieclaw.Prelude.{
  ℕ, String, ◌==◌, string_eq, Bool, true, false, not, ◌&&◌, Option, none, some, List, [], ◌∷◌, ◌++◌,
  if◌then◌else◌, leb, length, take, keep, contains,
}

abbrev pub max_in_memory : ℕ
max_in_memory = 100

pub record PromptRecord : Type 0 where
  pub prompt_id : String
  pub trace_id : String
  pub text : List ℕ
  pub started_at : ℕ
  pub ended_at : Option ℕ
  pub status : String
  pub sub_agent_ids : List String

-- A line of the log. `None` is a key that is missing.
pub data Line : Type 0 where
  -- no JSON, or a prompt_id that is neither a number nor a text
  skipped : Line
  start_line :
      (prompt_id trace_id : String) (text : List ℕ) (started_at : ℕ) (ended_at : Option ℕ)
      (status : Option String) (sub_agent_ids : Option (List String))
      → Line
  add_line : (prompt_id : String) (agent_id : String) → Line
  finish_line :
      (prompt_id : String) (ended_at : Option ℕ) (status : Option String)
      (sub_agent_ids : Option (List String))
      → Line
  -- any other action
  other_line : (prompt_id : String) → Line

-- A line of the archive.
pub data Archived : Type 0 where
  unreadable : Archived
  snapshot : PromptRecord → Archived

pub record Memory : Type 0 where
  pub records : Dict String PromptRecord
  pub trace_to_id : Dict String String

pub record Registry : Type 0 where
  pub memory : Memory
  pub log : List Line
  -- `none` is a file that does not exist
  pub archive : Option (List Archived)

pub record Disk : Type 0 where
  pub log_ok : Bool
  pub archive_ok : Bool

abbrev pub no_memory : Memory
no_memory = record { records = []; trace_to_id = [] }

abbrev or_default {ℓ} : {A : Type ℓ} → Option A → A → A
or_default none b = b
or_default (some a) b = a

abbrev pub is_final : PromptRecord → Bool
is_final r = not (r.status == "running")

-- The body of `add_sub_agent`, where the record is known.
unfoldable pub with_agent : String → PromptRecord → PromptRecord
unfolding contains
with_agent agent_id r =
    if contains r.sub_agent_ids agent_id
    then r
    else record r { sub_agent_ids = r.sub_agent_ids ++ agent_id ∷ [] }

-- One line of `_replay`.
unfoldable pub replay_update : Memory → String → (PromptRecord → PromptRecord) → Memory
replay_update m prompt_id change = elim (Dict.get m.records prompt_id) [
  | none ↦ m
  | some r ↦ record m { records = Dict.put m.records prompt_id (change r) }
]

unfoldable pub replay_line : Line → Memory → Memory
unfolding with_agent replay_update
replay_line skipped m = m
replay_line (start_line prompt_id trace_id text started_at ended_at status agents) m =
    let r : PromptRecord = record {
      prompt_id = prompt_id;
      trace_id = trace_id;
      text = text;
      started_at = started_at;
      ended_at = ended_at;
      status = or_default status "running";
      sub_agent_ids = or_default agents [];
    } in
    record {
      records = Dict.put m.records prompt_id r;
      trace_to_id = Dict.put m.trace_to_id trace_id prompt_id;
    }
replay_line (add_line prompt_id agent_id) m =
    replay_update m prompt_id λ r. if agent_id == "" then r else with_agent agent_id r
replay_line (finish_line prompt_id ended_at status agents) m = replay_update m prompt_id λ r.
    record r {
      ended_at = ended_at;
      status = or_default status "done";
      sub_agent_ids = or_default agents r.sub_agent_ids;
    }
replay_line (other_line prompt_id) m = m

-- The rest of the log, on what its start has made.
unfoldable pub replay_from : List Line → Memory → Memory
unfolding replay_line
replay_from [] m = m
replay_from (line ∷ log) m = replay_from log (replay_line line m)

unfoldable pub replay_log : List Line → Memory
unfolding replay_from
replay_log log = replay_from log no_memory

-- _archive_snapshot
abbrev pub archive_snapshot : PromptRecord → Option (List Archived) → Option (List Archived)
archive_snapshot r none = some (snapshot r ∷ [])
archive_snapshot r (some lines) = some (lines ++ snapshot r ∷ [])

-- `_backfill_archive`, which stops at the first write that fails
unfoldable pub backfill_archive :
    Bool → List PromptRecord → Option (List Archived) → Option (List Archived)
backfill_archive ok [] archive = archive
backfill_archive ok (r ∷ rest) archive =
    if ok then backfill_archive ok rest (archive_snapshot r archive) else archive

-- The constructor, on the files that are there.
unfoldable pub open_registry : Disk → List Line → Option (List Archived) → Registry
unfolding replay_log backfill_archive
open_registry disk log (some lines) = record {
  memory = replay_log log;
  log = log;
  archive = some lines;
}
open_registry disk log none =
    let m = replay_log log in
    record {
      memory = m;
      log = log;
      archive = backfill_archive disk.archive_ok (keep is_final (Dict.values m.records)) none;
    }
