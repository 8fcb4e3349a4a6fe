-- ===== src/Prompts/Logged.antt =====
-- What the operations append to the log, and what its replay makes of it.
use smallpieclaw.Dict
use smallpieclaw.Dict.{Dict}
use smallpieclaw.Prelude.{
  ℕ, String, ◌==◌, string_eq, ◌≡◌, inl, inr, refl, ap, sym, ◌∙◌, subst, true, false, if◌then◌else◌,
  Option, none, some, List, [], ◌∷◌, ◌++◌, Option-cases,
}
use smallpieclaw.Prompts.{
  PromptRecord, Line, start_line, add_line, finish_line, Archived, Memory, Registry, Disk,
  with_agent, replay_update, replay_line, replay_log,
}
use smallpieclaw.Prompts.Operations.{
  evict_oldest, started, remember, start, finish, finished, add_sub_agent, Op, do_start, do_finish,
  do_add, restart,
}
use smallpieclaw.Prompts.Evict.{
  get-IsKeyed, remove-IsKeyed, Eviction, within, all_running, evicted, evict_oldest-Eviction,
}
use smallpieclaw.Prompts.Replay.{
  Agrees, IsTable, put-IsTable, put-Agrees, get-Agrees, remove-Agrees, replay_log-append,
  replay_update-found, with_agent-prompt_id,
}

-- Every write of the operation succeeds.
abbrev Writes : Disk → Type 0
Writes disk = (disk.log_ok ≡ true) × (disk.archive_ok ≡ true)

-- Every write succeeds, and identifiers are not empty.
abbrev pub IsClean : Disk × Op → Type 0
IsClean (disk, do_start k t text now) = Writes disk × ((k == "") ≡ false)
IsClean (disk, do_finish k status now) = Writes disk
IsClean (disk, do_add k agent) = Writes disk × ((agent == "") ≡ false)
IsClean (disk, restart) = Writes disk

pub record IsSound (g : Registry) : Type 0 where
  pub table : IsTable g.memory.records
  pub agrees : Agrees g.memory.records (replay_log g.log).records

Eviction-IsSound :
    (m after : Memory) (log : List Line) (archive : Option (List Archived))
    → Eviction m after
    → IsTable m.records
    → Agrees m.records (replay_log log).records
    → IsSound (record { memory = after; log = log; archive = archive })
Eviction-IsSound m t log archive (within few) table agrees = record {
  table = table;
  agrees = agrees;
}
Eviction-IsSound m t log archive (all_running none_left) table agrees = record {
  table = table;
  agrees = agrees;
}
Eviction-IsSound m after log archive (evicted gone e) (keyed, unique) agrees =
    let k = gone.prompt_id in
    record {
      table =
          subst (λ d. IsTable d) (sym e.left)
            (remove-IsKeyed m.records k keyed, Dict.remove-IsUnique m.records k unique);
      agrees =
          subst (λ d. Agrees d (replay_log log).records) (sym e.left)
            (remove-Agrees m.records (replay_log log).records k gone agrees e.present e.final);
    }

-- The record that the line of a start gives.
abbrev logged_start : String → String → List ℕ → ℕ → PromptRecord
logged_start k t text now = record {
  prompt_id = k;
  trace_id = t;
  text = text;
  started_at = now;
  ended_at = none;
  status = "running";
  sub_agent_ids = [];
}

replay_line-start :
    (m : Memory) (k t : String) (text : List ℕ) (now : ℕ)
    → (replay_line (start_line k t text now none (some "running") (some [])) m).records
      ≡ Dict.put m.records k (logged_start k t text now)
unfolding replay_line
replay_line-start m k t text now = refl

pub replay_log-start :
    (log : List Line) (k t : String) (text : List ℕ) (now : ℕ)
    → (replay_log (log ++ start_line k t text now none (some "running") (some []) ∷ [])).records
      ≡ Dict.put (replay_log log).records k (logged_start k t text now)
replay_log-start log k t text now =
    ap (λ (m : Memory). m.records)
      (replay_log-append log (start_line k t text now none (some "running") (some [])))
    ∙ replay_line-start (replay_log log) k t text now

pub start-IsSound :
    (disk : Disk) (k t : String) (text : List ℕ) (now : ℕ) (g : Registry)
    → disk.log_ok ≡ true
    → IsSound g
    → IsSound (start disk k t text now g).0
unfolding start
start-IsSound disk k t text now g ok sound =
    let r = started k t text now in
    let m = remember r g.memory in
    let line = start_line k t r.text now none (some "running") (some []) in
    let table = put-IsTable g.memory.records k r refl sound.table in
    let logged = replay_log-start g.log k t r.text now in
    rw (ok, start)
      (Eviction-IsSound m (evict_oldest m) (g.log ++ line ∷ []) g.archive
        (evict_oldest-Eviction m table.0 table.1) table
        (subst (λ d. Agrees m.records d) (sym logged)
          (put-Agrees g.memory.records (replay_log g.log).records k r sound.agrees)))

pub replay_log-change :
    (g : Registry) (k : String) (r changed : PromptRecord) (line : Line)
    (change : PromptRecord → PromptRecord)
    → Dict.get g.memory.records k ≡ some r
    → replay_line line (replay_log g.log) ≡ replay_update (replay_log g.log) k change
    → change r ≡ changed
    → IsSound g
    → (replay_log (g.log ++ line ∷ [])).records ≡ Dict.put (replay_log g.log).records k changed
replay_log-change g k r changed line change found writes gives sound =
    let logged = get-Agrees g.memory.records (replay_log g.log).records k r sound.agrees found in
    ap (λ (m : Memory). m.records)
      (replay_log-append g.log line
        ∙ writes
        ∙ replay_update-found (replay_log g.log) k change r logged)
    ∙ ap (λ x. Dict.put (replay_log g.log).records k x) gives

-- One record changes, in the memory and by a line of the log.
change-IsSound :
    (g : Registry) (k : String) (r changed : PromptRecord) (line : Line)
    (change : PromptRecord → PromptRecord) (archive : Option (List Archived))
    → Dict.get g.memory.records k ≡ some r
    → replay_line line (replay_log g.log) ≡ replay_update (replay_log g.log) k change
    → change r ≡ changed
    → changed.prompt_id ≡ r.prompt_id
    → IsSound g
    → IsSound (record {
      memory = record g.memory { records = Dict.put g.memory.records k changed };
      log = g.log ++ line ∷ [];
      archive = archive;
    })
change-IsSound g k r changed line change archive found writes gives same sound =
    let replayed = replay_log-change g k r changed line change found writes gives sound in
    record {
      table =
          put-IsTable g.memory.records k changed
            (same ∙ get-IsKeyed g.memory.records k r sound.table.0 found) sound.table;
      agrees =
          subst (λ d. Agrees (Dict.put g.memory.records k changed) d) (sym replayed)
            (put-Agrees g.memory.records (replay_log g.log).records k changed sound.agrees);
    }

pub finish-IsSound :
    (disk : Disk) (k status : String) (now : ℕ) (g : Registry)
    → disk.log_ok ≡ true
    → IsSound g
    → IsSound (finish disk k status now g).0
unfolding finish replay_line
finish-IsSound disk k status now g ok sound = elim (Option-cases (Dict.get g.memory.records k)) [
  | inl unknown ↦ rw (unknown, finish) sound
  | inr (r, found) ↦
      rw (found, ok, finish)
        (change-IsSound g k r (finished r status now)
          (finish_line k (some now) (some status) (some r.sub_agent_ids))
          (λ x. record x { ended_at = some now; status = status; sub_agent_ids = r.sub_agent_ids })
          _ found refl refl refl sound)
]

pub add_sub_agent-IsSound :
    (disk : Disk) (k agent : String) (g : Registry)
    → disk.log_ok ≡ true
    → (agent == "") ≡ false
    → IsSound g
    → IsSound (add_sub_agent disk k agent g).0
unfolding add_sub_agent replay_line
add_sub_agent-IsSound disk k agent g ok named sound =
    elim (Option-cases (Dict.get g.memory.records k)) [
      | inl unknown ↦ rw (unknown, add_sub_agent) sound
      | inr (r, found) ↦
          rw (found, ok, add_sub_agent)
            (change-IsSound g k r (with_agent agent r) (add_line k agent)
              (λ x. if agent == "" then x else with_agent agent x) g.archive found refl
              (rw (named) refl) (with_agent-prompt_id agent r) sound)
    ]
