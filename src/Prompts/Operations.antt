-- ===== src/Prompts/Operations.antt =====
-- prompt_registry.py: the operations of `PromptRegistry`, and histories of them.
use smallpieclaw.Dict
use smallpieclaw.Dict.{Dict}
use smallpieclaw.Prelude.{
  ℕ, String, ◌==◌, string_eq, Bool, true, false, not, ◌&&◌, Option, none, some, List, [], ◌∷◌, ◌++◌,
  if◌then◌else◌, leb, length, take, keep,
}
use smallpieclaw.Prompts.{
  max_in_memory, PromptRecord, Archived, Memory, Registry, Disk, is_final, with_agent,
  archive_snapshot, open_registry, start_line, add_line, finish_line, unreadable, snapshot,
}

-- `min` by started_at: the first of the least.
unfoldable pub oldest_of : PromptRecord → List PromptRecord → PromptRecord
oldest_of r [] = r
oldest_of r (s ∷ rest) = oldest_of (if leb r.started_at s.started_at then r else s) rest

unfoldable pub evict_record : List PromptRecord → Memory → Memory
unfolding oldest_of
evict_record [] m = m
evict_record (r ∷ rest) m =
    let oldest = oldest_of r rest in
    record {
      records = Dict.remove m.records oldest.prompt_id;
      trace_to_id = Dict.remove m.trace_to_id oldest.trace_id;
    }

unfoldable pub evict_oldest : Memory → Memory
unfolding evict_record
evict_oldest m =
    if leb (length m.records) max_in_memory
    then m
    else evict_record (keep is_final (Dict.values m.records)) m

abbrev pub started : (prompt_id trace_id : String) → List ℕ → (now : ℕ) → PromptRecord
started prompt_id trace_id text now = record {
  prompt_id = prompt_id;
  trace_id = trace_id;
  text = take 200 text;
  started_at = now;
  ended_at = none;
  status = "running";
  sub_agent_ids = [];
}

abbrev pub remember : PromptRecord → Memory → Memory
remember r m = record {
  records = Dict.put m.records r.prompt_id r;
  trace_to_id = Dict.put m.trace_to_id r.trace_id r.prompt_id;
}

-- An operation that a failing write of the log ends raises OSError: `false`.
unfoldable pub start :
    Disk → (prompt_id trace_id : String) → List ℕ → (now : ℕ) → Registry → Registry × Bool
unfolding evict_oldest
start disk prompt_id trace_id text now g =
    let r = started prompt_id trace_id text now in
    let m = remember r g.memory in
    if disk.log_ok
    then (
      record g {
        memory = evict_oldest m;
        log =
            g.log ++ start_line prompt_id trace_id r.text now none (some "running") (some []) ∷ [];
      },
      true,
    )
    else (record g { memory = m }, false)

abbrev pub finished : PromptRecord → (status : String) → (now : ℕ) → PromptRecord
finished r status now = record r { ended_at = some now; status = status }

unfoldable pub finish : Disk → (prompt_id status : String) → (now : ℕ) → Registry → Registry × Bool
finish disk prompt_id status now g = elim (Dict.get g.memory.records prompt_id) [
  | none ↦ (g, true)
  | some r ↦
      let ended = finished r status now in
      let m : Memory = record g.memory { records = Dict.put g.memory.records prompt_id ended } in
      if disk.log_ok
      then (
        record {
          memory = m;
          log = g.log ++ finish_line prompt_id (some now) (some status) (some r.sub_agent_ids) ∷ [];
          archive = if disk.archive_ok then archive_snapshot ended g.archive else g.archive;
        },
        true,
      )
      else (record g { memory = m }, false)
]

unfoldable pub add_sub_agent : Disk → (prompt_id agent_id : String) → Registry → Registry × Bool
unfolding with_agent
add_sub_agent disk prompt_id agent_id g = elim (Dict.get g.memory.records prompt_id) [
  | none ↦ (g, true)
  | some r ↦
      let m : Memory = record g.memory {
        records = Dict.put g.memory.records prompt_id (with_agent agent_id r);
      } in
      if disk.log_ok
      then (record g { memory = m; log = g.log ++ add_line prompt_id agent_id ∷ [] }, true)
      else (record g { memory = m }, false)
]

unfoldable pub get : Registry → String → Option PromptRecord
get g prompt_id = Dict.get g.memory.records prompt_id

unfoldable pub by_trace : Registry → String → Option PromptRecord
by_trace g trace_id = elim (Dict.get g.memory.trace_to_id trace_id) [
  | none ↦ none
  | some prompt_id ↦ Dict.get g.memory.records prompt_id
]

-- `_record_from_archive_line`, where the identifier has to be a text that is not empty
abbrev pub has_id : String → PromptRecord → Bool
has_id prompt_id r = not (r.prompt_id == "") && r.prompt_id == prompt_id

unfoldable pub find_snapshot : List Archived → String → Option PromptRecord
find_snapshot [] prompt_id = none
find_snapshot (unreadable ∷ lines) prompt_id = find_snapshot lines prompt_id
find_snapshot (snapshot r ∷ lines) prompt_id =
    let rest = find_snapshot lines prompt_id in if has_id prompt_id r then some r else rest

unfoldable pub find_in_archive : Option (List Archived) → String → Option PromptRecord
unfolding find_snapshot
find_in_archive none prompt_id = none
find_in_archive (some lines) prompt_id = find_snapshot lines prompt_id

unfoldable pub show : Registry → String → Option PromptRecord
unfolding get find_in_archive
show g prompt_id = elim (get g prompt_id) [
  | some r ↦ some r
  | none ↦ find_in_archive g.archive prompt_id
]

pub data Op : Type 0 where
  do_start : (prompt_id trace_id : String) (text : List ℕ) (now : ℕ) → Op
  do_finish : (prompt_id status : String) (now : ℕ) → Op
  do_add : (prompt_id agent_id : String) → Op
  -- the process ends, and another one opens the files
  restart : Op

unfoldable pub perform : Disk → Op → Registry → Registry
unfolding start finish add_sub_agent open_registry
perform disk (do_start prompt_id trace_id text now) g = (start disk prompt_id trace_id text now g).0
perform disk (do_finish prompt_id status now) g = (finish disk prompt_id status now g).0
perform disk (do_add prompt_id agent_id) g = (add_sub_agent disk prompt_id agent_id g).0
perform disk restart g = open_registry disk g.log g.archive

-- A history of operations, each with what the disk does.
unfoldable pub run_ops : List (Disk × Op) → Registry → Registry
unfolding perform
run_ops [] g = g
run_ops ((disk, op) ∷ ops) g = run_ops ops (perform disk op g)
