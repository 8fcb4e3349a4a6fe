-- ===== src/Scheduler.antt =====
-- scheduler.py: the table of scheduled jobs, `add_job`, `remove_job`, `pause_job`, `resume_job`,
-- `reload` and the history of runs. A job's dictionary is shared between the table and the runs that
-- have read it: `serial` says which dictionary it is. Each operation is one step, as its writes are
-- under the lock; the texts of logs and notifications are left out, and so is the next time of a
-- cron job.
pub mod Tags
pub mod Schedule
pub mod ExecutionLog
pub mod Runs
mod Tests
use smallpieclaw.Prelude.{
  ℕ, suc, ◌+◌, String, ◌==◌, nat_eq, list_eq, string_eq, Bool, true, false, not, ◌&&◌, ◌||◌, Option,
  none, some, List, [], ◌∷◌, ◌++◌, ◌⊎◌, inl, inr, if◌then◌else◌, contains, keep,
}
use smallpieclaw.Dict
use smallpieclaw.Dict.{Dict}
use smallpieclaw.Scheduler.Tags.{Text, is_empty, normalize_tag, normalize_context_key}
use smallpieclaw.Scheduler.Schedule.{
  Library, ScheduleType, Kind, once_job, cron_job, ScheduleError, or_text, resolve_schedule,
}

pub record JobMeta : Type 0 where
  pub serial : ℕ
  pub task : Text
  pub kind : Kind
  pub cron : Option Text
  pub run_at : Option Text
  pub notify : Bool
  pub enabled : Bool
  pub source : String
  pub last_run : Option Text
  pub last_error : Option Text
  pub created_at : Text
  pub model : Option Text
  pub preserve_context : Bool
  pub context_max_messages : ℕ
  pub overlap_policy : String

-- An entry of `_run_history`.
pub record RunHistory : Type 0 where
  pub last_run : Option Text
  pub last_error : Option Text

pub record Scheduler : Type 0 where
  -- `_jobs_meta`
  pub jobs : Dict Text JobMeta
  -- `_run_history`
  pub history : Dict Text RunHistory
  -- `_running_jobs`
  pub running : List Text
  -- the tags that the schedule library fires
  pub registered : List Text
  -- the jobs that scheduler.toml holds
  pub saved : Dict Text JobMeta
  pub next_serial : ℕ

abbrev pub empty : Scheduler
empty = record {
  jobs = [];
  history = [];
  running = [];
  registered = [];
  saved = [];
  next_serial = 0;
}

-- running.discard(tag), and schedule.clear(tag)
unfoldable pub discard : Text → List Text → List Text
unfolding keep
discard tag tags = keep (λ t. not (t == tag)) tags

-- running.add(tag)
unfoldable pub include : Text → List Text → List Text
unfolding contains
include tag tags = if contains tags tag then tags else tags ++ tag ∷ []

abbrev is_set : Option Text → Bool
is_set none = false
is_set (some text) = not (is_empty text)

-- The history with the last runs and errors of the jobs of a snapshot.
unfoldable pub merge_history : Dict Text JobMeta → Dict Text RunHistory → Dict Text RunHistory
unfolding Dict.put
merge_history [] history = history
merge_history ((tag, meta) ∷ jobs) history = merge_history jobs (
    if is_set meta.last_run || is_set meta.last_error
    then Dict.put history tag (record { last_run = meta.last_run; last_error = meta.last_error })
    else history)

unfoldable pub save_state : Scheduler → Scheduler
unfolding merge_history
save_state s = record s { history = merge_history s.jobs s.history }

abbrev pub save_scheduler_toml : Scheduler → Scheduler
save_scheduler_toml s = record s { saved = s.jobs }

-- The last resort of `_resolve_tag`.
unfoldable pub find_normalized : Library → Text → Dict Text JobMeta → Option Text
unfolding normalize_tag
find_normalized lib normalized [] = none
find_normalized lib normalized ((stored, meta) ∷ jobs) =
    let rest = find_normalized lib normalized jobs in
    if normalize_tag lib.strip lib.lower stored == normalized then some stored else rest

unfoldable pub resolve_tag : Library → Text → Scheduler → Option Text
unfolding normalize_tag find_normalized Dict.has
resolve_tag lib tag s =
    let normalized = normalize_tag lib.strip lib.lower tag in
    if is_empty tag
    then none
    else if Dict.has s.jobs tag
    then some tag
    else if Dict.has s.jobs normalized
    then some normalized
    else find_normalized lib normalized s.jobs

-- self._resolve_tag(tag) or tag
unfoldable pub resolved : Library → Text → Scheduler → Text
unfolding resolve_tag
resolved lib tag s = elim (resolve_tag lib tag s) [
  | none ↦ tag
  | some stored ↦ if is_empty stored then tag else stored
]

-- A once job is registered with the schedule library.
unfoldable pub register_job : Text → JobMeta → Scheduler → Scheduler
unfolding discard
register_job tag meta s = elim meta.kind [
  | once_job ↦ record s { registered = discard tag s.registered ++ tag ∷ [] }
  | cron_job ↦ record s { registered = discard tag s.registered }
]

unfoldable pub register_enabled : Dict Text JobMeta → Scheduler → Scheduler
unfolding register_job
register_enabled [] s = s
register_enabled ((tag, meta) ∷ jobs) s =
    register_enabled jobs (if meta.enabled then register_job tag meta s else s)

abbrev size : Dict Text JobMeta → ℕ
size [] = 0
size (job ∷ jobs) = suc (size jobs)

-- The jobs that a file gives, as new dictionaries with what the history says of them.
unfoldable pub overlay : ℕ → Dict Text RunHistory → Dict Text JobMeta → Dict Text JobMeta
unfolding Dict.get
overlay serial history [] = []
overlay serial history ((tag, meta) ∷ jobs) =
    let fresh = record meta { serial = serial } in
    let rest = overlay (suc serial) history jobs in
    elim (Dict.get history tag) [
      | none ↦ (tag, fresh) ∷ rest
      | some hist ↦
          (
            tag,
            record fresh {
              last_run = or_text hist.last_run meta.last_run;
              last_error = or_text hist.last_error meta.last_error;
            },
          )
          ∷ rest
    ]

-- `file` is what `_read_config_jobs` reads from a file that needs no migration.
unfoldable pub reload : Dict Text JobMeta → Scheduler → Scheduler
unfolding overlay register_enabled
reload file s =
    let jobs = overlay s.next_serial s.history file in
    register_enabled jobs
      (record s { jobs = jobs; registered = []; next_serial = s.next_serial + size file })

pub record JobRequest : Type 0 where
  pub tag : Text
  pub schedule_type : ScheduleType
  pub task : Text
  pub notify : Bool
  pub hours : Option ℕ
  pub minutes : Option ℕ
  pub time_str : Option Text
  pub run_at : Option Text
  pub cron : Option Text
  pub source : String
  pub model : Option Text
  pub preserve_context : Bool
  pub context_max_messages : ℕ
  pub overlap_policy : String

unfoldable pub build_job_meta :
    ℕ → JobRequest → (expr : Option Text) → Kind → (effective_run_at : Option Text) → Text → JobMeta
build_job_meta serial request expr kind effective_run_at now = record {
  serial = serial;
  task = request.task;
  kind = kind;
  cron = expr;
  run_at = elim kind [ once_job ↦ effective_run_at | cron_job ↦ none ];
  notify = request.notify;
  enabled = true;
  source = request.source;
  last_run = none;
  last_error = none;
  created_at = now;
  model = or_text request.model none;
  preserve_context = request.preserve_context;
  context_max_messages = request.context_max_messages;
  overlap_policy = request.overlap_policy;
}

pub data AddError : Type 0 where
  already_exists : Text → AddError
  bad_schedule : ScheduleError → AddError

-- `file` is what the reload behind it reads, when the scheduler's thread is alive.
unfoldable pub add_job :
    Library
    → JobRequest
    → (now : Text) → (file : Option (Dict Text JobMeta)) → Scheduler
    → Option AddError × Scheduler
unfolding normalize_context_key resolve_schedule build_job_meta save_state reload Dict.has Dict.put
add_job lib request now file s =
    let tag = normalize_context_key lib.strip lib.lower request.tag in
    if Dict.has s.jobs tag
    then (some (already_exists tag), s)
    else elim (resolve_schedule lib request.schedule_type request.cron request.time_str
          request.hours request.minutes request.run_at)
        as (λ _. Option AddError × Scheduler) [
          | inl error ↦ (some (bad_schedule error), s)
          | inr (expr, kind, effective_run_at) ↦
              let meta = build_job_meta s.next_serial request expr kind effective_run_at now in
              let added = save_scheduler_toml (
                save_state (record s {
                  jobs = Dict.put s.jobs tag meta;
                  next_serial = suc s.next_serial;
                })) in
              elim file [ none ↦ (none, added) | some jobs ↦ (none, reload jobs added) ]
        ]

unfoldable pub remove_job : Library → Text → Scheduler → Bool × Scheduler
unfolding resolved discard save_state Dict.has Dict.remove
remove_job lib name s =
    let tag = resolved lib name s in
    if not (Dict.has s.jobs tag) then (false, s) else (
      true,
      save_scheduler_toml (
          save_state
            (record s { jobs = Dict.remove s.jobs tag; registered = discard tag s.registered })),
    )

unfoldable pub pause_job : Library → Text → Scheduler → Bool × Scheduler
unfolding resolved discard save_state Dict.get Dict.put
pause_job lib name s =
    let tag = resolved lib name s in
    elim (Dict.get s.jobs tag) [
      | none ↦ (false, s)
      | some meta ↦ (
        true,
        save_scheduler_toml (
            save_state (record s {
              jobs = Dict.put s.jobs tag (record meta { enabled = false });
              registered = discard tag s.registered;
            })),
      )
    ]

unfoldable pub resume_job : Library → Text → Scheduler → Bool × Scheduler
unfolding resolved register_job save_state Dict.get Dict.put
resume_job lib name s =
    let tag = resolved lib name s in
    elim (Dict.get s.jobs tag) [
      | none ↦ (false, s)
      | some meta ↦
          let enabled = record meta { enabled = true } in
          (
            true,
            save_scheduler_toml (
                save_state
                  (register_job tag enabled (record s { jobs = Dict.put s.jobs tag enabled }))),
          )
    ]
