-- ===== src/Scheduler/Runs.antt =====
-- scheduler.py: `Scheduler._run_job` with `_handle_empty_task`, `_run_via_spawn_agent`,
-- `_run_via_agent_fn`, `_remove_once_job` and `_mark_job_finished`. Runs and operations on the table
-- interleave: a run is in flight from the overlap check to the end of its job, and an `Action` is one
-- step of some thread.
pub mod Skips
pub mod Quiet
pub mod Slots
pub mod Places
pub mod Overlap
use smallpieclaw.Prelude.{
  ℕ, zero, suc, String, ◌==◌, nat_eq, list_eq, string_eq, Bool, true, false, not, ◌&&◌, Option,
  none, some, List, [], ◌∷◌, ◌++◌, if◌then◌else◌, contains, get_elem?,
}
use smallpieclaw.Dict
use smallpieclaw.Dict.{Dict}
use smallpieclaw.Scheduler.Tags.{Text, is_empty}
use smallpieclaw.Scheduler.Schedule.{Library, Kind, once_job, cron_job}
use smallpieclaw.Scheduler.{
  JobMeta, RunHistory, Scheduler, JobRequest, empty, discard, include, save_state,
  save_scheduler_toml, add_job, remove_job, pause_job, resume_job, reload,
}

-- The start of `_run_job`: the dictionary of the job that goes on, if one does. Reading the job and
-- the overlap check are one step here; the source reads the job before it takes the lock.
unfoldable pub begin_run : Text → Scheduler → Option JobMeta × Scheduler
unfolding include Dict.get contains
begin_run tag s = elim (Dict.get s.jobs tag) [
  | none ↦ (none, s)
  | some meta ↦
      if not meta.enabled
      then (none, s)
      else if contains s.running tag && meta.overlap_policy == "skip"
      then (none, s)
      else (some meta, record s { running = include tag s.running })
]

-- _mark_job_finished
unfoldable pub mark_job_finished : Text → Scheduler → Scheduler
unfolding discard
mark_job_finished tag s = record s { running = discard tag s.running }

unfoldable pub remove_once_job : Text → Scheduler → Scheduler
unfolding discard save_state Dict.remove
remove_once_job tag s =
    save_scheduler_toml (
      save_state
        (record s { jobs = Dict.remove s.jobs tag; registered = discard tag s.registered }))

unfoldable pub remove_if_once : Kind → Text → Scheduler → Scheduler
unfolding remove_once_job
remove_if_once once_job tag s = remove_once_job tag s
remove_if_once cron_job tag s = s

-- A write to the dictionary with this serial, wherever the table has it; when the table has it no
-- more, nobody sees the write.
unfoldable pub write_meta : ℕ → (JobMeta → JobMeta) → Dict Text JobMeta → Dict Text JobMeta
write_meta serial write [] = []
write_meta serial write ((tag, meta) ∷ jobs) =
    let rest = write_meta serial write jobs in
    if meta.serial == serial then (tag, write meta) ∷ rest else (tag, meta) ∷ rest

unfoldable pub handle_empty_task : Text → JobMeta → (now : Text) → Scheduler → Scheduler
unfolding write_meta save_state mark_job_finished remove_if_once Dict.put
handle_empty_task tag meta now s =
    let noted = record s {
      jobs = write_meta meta.serial (λ m. record m { last_run = some now }) s.jobs;
      history = Dict.put s.history tag (record { last_run = some now; last_error = none });
    } in
    remove_if_once meta.kind tag (mark_job_finished tag (save_state noted))

abbrev error_of : Option RunHistory → Option Text
error_of none = none
error_of (some hist) = hist.last_error

abbrev last_run_of : Option RunHistory → Option Text
last_run_of none = none
last_run_of (some hist) = hist.last_run

-- Before the sub-agent is spawned.
unfoldable pub note_spawn : Text → JobMeta → (now : Text) → Scheduler → Scheduler
unfolding write_meta save_state Dict.put Dict.get
note_spawn tag meta now s = save_state (record s {
  jobs = write_meta meta.serial (λ m. record m { last_run = some now }) s.jobs;
  history =
      Dict.put s.history tag
        (record { last_run = some now; last_error = error_of (Dict.get s.history tag) });
})

-- When `spawn_agent` answers with an error.
unfoldable pub fail_spawn : Text → JobMeta → (error : Text) → Scheduler → Scheduler
unfolding write_meta save_state mark_job_finished Dict.put Dict.get
fail_spawn tag meta error s = mark_job_finished tag (
    save_state (record s {
      jobs = write_meta meta.serial (λ m. record m { last_error = some error }) s.jobs;
      history =
          Dict.put s.history tag
            (record { last_run = last_run_of (Dict.get s.history tag); last_error = some error });
    }))

-- `error` is the result of an agent that failed.
unfoldable pub run_via_agent_fn :
    Text → JobMeta → (now : Text) → (error : Option Text) → Scheduler → Scheduler
unfolding write_meta save_state mark_job_finished remove_if_once Dict.put
run_via_agent_fn tag meta now error s =
    let released = mark_job_finished tag s in
    let noted = save_state (record released {
      jobs =
          write_meta meta.serial (λ m. record m { last_run = some now; last_error = error })
            released.jobs;
      history = Dict.put released.history tag (record { last_run = some now; last_error = error });
    }) in
    elim error [ none ↦ remove_if_once meta.kind tag noted | some result ↦ noted ]

-- A run in flight: before the job is handed over, or with a sub-agent that runs.
pub record Flight : Type 0 where
  pub tag : Text
  pub meta : JobMeta
  pub spawned : Bool

pub record System : Type 0 where
  pub scheduler : Scheduler
  pub flights : List Flight
  -- the tags of runs that ended without `_mark_job_finished`
  pub lost : List Text

-- What a run that is handed over meets.
pub data Handover : Type 0 where
  spawn_succeeds : Handover
  spawn_fails : (error : Text) → Handover
  -- without an executor: the result of the agent when it failed
  agent_ends : (error : Option Text) → Handover
  -- an exception that the code does not catch
  spawn_raises agent_raises : Handover

pub data Action : Type 0 where
  add : Library → JobRequest → Text → Option (Dict Text JobMeta) → Action
  remove pause resume : Library → Text → Action
  reread : Dict Text JobMeta → Action
  trigger : Text → Action
  -- the run with this number goes on, at this time
  hand_over : Library → ℕ → (now : Text) → Handover → Action
  -- the sub-agent of the run ends; the callback is called unless closing the runner raises
  end_run : ℕ → (close_raises : Bool) → Action

unfoldable pub drop_at : {A : Type 0} → ℕ → List A → List A
drop_at n [] = []
drop_at zero (f ∷ fs) = fs
drop_at (suc n) (f ∷ fs) = f ∷ drop_at n fs

unfoldable pub set_spawned : ℕ → List Flight → List Flight
set_spawned n [] = []
set_spawned zero (f ∷ fs) = record f { spawned = true } ∷ fs
set_spawned (suc n) (f ∷ fs) = f ∷ set_spawned n fs

abbrev on_scheduler : (Scheduler → Scheduler) → System → System
on_scheduler f sys = record sys { scheduler = f sys.scheduler }

-- The run behind the guard for an empty task.
unfoldable pub hand_over_task : ℕ → Flight → (now : Text) → Handover → System → System
unfolding note_spawn fail_spawn run_via_agent_fn remove_if_once mark_job_finished drop_at
    set_spawned
hand_over_task n f now spawn_succeeds sys = record sys {
  scheduler = remove_if_once f.meta.kind f.tag (note_spawn f.tag f.meta now sys.scheduler);
  flights = set_spawned n sys.flights;
}
hand_over_task n f now (spawn_fails error) sys = record sys {
  scheduler = fail_spawn f.tag f.meta error (note_spawn f.tag f.meta now sys.scheduler);
  flights = drop_at n sys.flights;
}
hand_over_task n f now (agent_ends error) sys = record sys {
  scheduler = run_via_agent_fn f.tag f.meta now error sys.scheduler;
  flights = drop_at n sys.flights;
}
hand_over_task n f now spawn_raises sys = record sys {
  scheduler = note_spawn f.tag f.meta now sys.scheduler;
  flights = drop_at n sys.flights;
  lost = f.tag ∷ sys.lost;
}
hand_over_task n f now agent_raises sys = record sys {
  scheduler = mark_job_finished f.tag sys.scheduler;
  flights = drop_at n sys.flights;
}

unfoldable pub hand_over_flight : Library → ℕ → Flight → (now : Text) → Handover → System → System
unfolding handle_empty_task hand_over_task drop_at
hand_over_flight lib n f now how sys =
    if is_empty (lib.strip f.meta.task)
    then record sys {
      scheduler = handle_empty_task f.tag f.meta now sys.scheduler;
      flights = drop_at n sys.flights;
    }
    else hand_over_task n f now how sys

-- What a trigger leaves behind.
unfoldable pub launch : Text → Option JobMeta × Scheduler → System → System
launch tag (none, s) sys = sys
launch tag (some meta, s) sys = record sys {
  scheduler = s;
  flights = record { tag = tag; meta = meta; spawned = false } ∷ sys.flights;
}

unfoldable pub perform : Action → System → System
unfolding add_job remove_job pause_job resume_job reload begin_run launch hand_over_flight
    mark_job_finished drop_at
perform (add lib request now file) sys = on_scheduler (λ s. (add_job lib request now file s).1) sys
perform (remove lib tag) sys = on_scheduler (λ s. (remove_job lib tag s).1) sys
perform (pause lib tag) sys = on_scheduler (λ s. (pause_job lib tag s).1) sys
perform (resume lib tag) sys = on_scheduler (λ s. (resume_job lib tag s).1) sys
perform (reread file) sys = on_scheduler (λ s. reload file s) sys
perform (trigger tag) sys = launch tag (begin_run tag sys.scheduler) sys
perform (hand_over lib n now how) sys = elim (get_elem? sys.flights n) [
  | none ↦ sys
  | some f ↦ if f.spawned then sys else hand_over_flight lib n f now how sys
]
perform (end_run n close_raises) sys = elim (get_elem? sys.flights n) [
  | none ↦ sys
  | some f ↦
      if not f.spawned
      then sys
      else if close_raises
      then record sys { flights = drop_at n sys.flights; lost = f.tag ∷ sys.lost }
      else record sys {
        scheduler = mark_job_finished f.tag sys.scheduler;
        flights = drop_at n sys.flights;
      }
]

-- The system behind a history of actions, the last one first.
unfoldable pub replay : List Action → System
unfolding perform
replay [] = record { scheduler = empty; flights = []; lost = [] }
replay (action ∷ actions) = perform action (replay actions)
