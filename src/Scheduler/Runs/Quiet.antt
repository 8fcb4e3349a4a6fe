-- ===== src/Scheduler/Runs/Quiet.antt =====
-- What the operations of the scheduler do to the set of running jobs and to the overlap policies.
use smallpieclaw.Dict
use smallpieclaw.Dict.{Dict}
use smallpieclaw.Prelude.{
  suc, nat_eq, list_eq, string_eq, ◌≡◌, refl, ap, sym, ◌∙◌, subst, true, false, Option, none, some,
  [], ◌∷◌, if◌then◌else◌, arith, Bool-cases, Option-cases, Sum-cases, inl, inr,
}
use smallpieclaw.Scheduler.Tags.{Text, normalize_context_key}
use smallpieclaw.Scheduler.Schedule.{Library, Kind, once_job, cron_job, resolve_schedule}
use smallpieclaw.Scheduler.{
  JobMeta, Scheduler, JobRequest, discard, save_state, overlay, register_job, register_enabled,
  reload, add_job, remove_job, pause_job, resume_job, resolved, save_scheduler_toml, build_job_meta,
  AddError,
}
use smallpieclaw.Scheduler.Runs.{
  write_meta, remove_once_job, remove_if_once, mark_job_finished, handle_empty_task, note_spawn,
  fail_spawn, run_via_agent_fn,
}
use smallpieclaw.Scheduler.Runs.Skips.{
  AllSkip, put-AllSkip, remove-AllSkip, get-AllSkip, write_meta-AllSkip, overlay-AllSkip,
}

-- The table stays one of jobs that skip.
abbrev pub Quiet : Scheduler → Scheduler → Type 0
Quiet before after = (after.running ≡ before.running) × (AllSkip before.jobs → AllSkip after.jobs)

-- So it does, and the tag is no more among the running ones.
abbrev pub Released : Text → Scheduler → Scheduler → Type 0
Released tag before after =
    (after.running ≡ discard tag before.running) × (AllSkip before.jobs → AllSkip after.jobs)

register_enabled-Quiet :
    (jobs : Dict Text JobMeta) (s : Scheduler)
    → ((register_enabled jobs s).running ≡ s.running) × ((register_enabled jobs s).jobs ≡ s.jobs)
unfolding register_enabled register_job
register_enabled-Quiet [] s = (refl, refl)
register_enabled-Quiet ((tag, meta) ∷ jobs) s =
    let first = if meta.enabled then register_job tag meta s else s in
    let (same_running, same_jobs) = register_enabled-Quiet jobs first in
    (same_running ∙ ground arith, same_jobs ∙ ground arith)

pub reload-Quiet :
    (file : Dict Text JobMeta) (s : Scheduler) → AllSkip file → Quiet s (reload file s)
unfolding reload
reload-Quiet file s h =
    let jobs = overlay s.next_serial s.history file in
    let (same_running, same_jobs) = register_enabled-Quiet jobs _ in
    (
      same_running,
      λ _. subst AllSkip (sym same_jobs) (overlay-AllSkip s.next_serial s.history file h),
    )

abbrev pub FileSkips : Option (Dict Text JobMeta) → Type 0
FileSkips none = Unit
FileSkips (some jobs) = AllSkip jobs

register_job-Quiet :
    (tag : Text) (meta : JobMeta) (s : Scheduler)
    → ((register_job tag meta s).running ≡ s.running) × ((register_job tag meta s).jobs ≡ s.jobs)
unfolding register_job
register_job-Quiet tag meta s = ground arith

-- The state of `add_job` behind its writes.
added : Scheduler → Text → JobMeta → Scheduler
unfolding save_state
added s tag meta =
    save_scheduler_toml
      (save_state (record s { jobs = Dict.put s.jobs tag meta; next_serial = suc s.next_serial }))

added-Quiet :
    (s : Scheduler) (tag : Text) (meta : JobMeta) (file : Option (Dict Text JobMeta))
    → meta.overlap_policy ≡ "skip"
    → FileSkips file
    → Quiet s (
        (elim file as (λ _. Option AddError × Scheduler) [
          | none ↦ (none, added s tag meta)
          | some jobs ↦ (none, reload jobs (added s tag meta))
        ]).1)
unfolding added save_state
added-Quiet s tag meta none skips file_skips = (refl, λ h. put-AllSkip s.jobs tag meta h skips)
added-Quiet s tag meta (some jobs) skips file_skips =
    let (same, keeps) = reload-Quiet jobs (added s tag meta) file_skips in
    (same, λ h. keeps (put-AllSkip s.jobs tag meta h skips))

pub add_job-Quiet :
    (lib : Library) (request : JobRequest) (now : Text) (file : Option (Dict Text JobMeta))
    (s : Scheduler)
    → request.overlap_policy ≡ "skip"
    → FileSkips file
    → Quiet s (add_job lib request now file s).1
unfolding add_job save_state build_job_meta added
add_job-Quiet lib request now file s skips file_skips =
    let tag = normalize_context_key lib.strip lib.lower request.tag in
    elim (Bool-cases (Dict.has s.jobs tag)) [
      | inl there ↦ rw (there, add_job) (refl, λ h. h)
      | inr new ↦
          elim (Sum-cases (
            resolve_schedule lib request.schedule_type request.cron request.time_str request.hours
              request.minutes request.run_at)) [
                | inl (error, fails) ↦ rw (new, fails, add_job) (refl, λ h. h)
                | inr ((expr, kind, at), found) ↦
                    let meta = build_job_meta s.next_serial request expr kind at now in
                    rw (new, found, add_job) (added-Quiet s tag meta file skips file_skips)
              ]
    ]

pub remove_job-Quiet :
    (lib : Library) (name : Text) (s : Scheduler) → Quiet s (remove_job lib name s).1
unfolding remove_job save_state
remove_job-Quiet lib name s =
    let tag = resolved lib name s in
    elim (Bool-cases (Dict.has s.jobs tag)) [
      | inl there ↦ rw (there, remove_job) (refl, λ h. remove-AllSkip s.jobs tag h)
      | inr gone ↦ rw (gone, remove_job) (refl, λ h. h)
    ]

pub pause_job-Quiet :
    (lib : Library) (name : Text) (s : Scheduler) → Quiet s (pause_job lib name s).1
unfolding pause_job save_state
pause_job-Quiet lib name s =
    let tag = resolved lib name s in
    elim (Option-cases (Dict.get s.jobs tag)) [
      | inl gone ↦ rw (gone, pause_job) (refl, λ h. h)
      | inr (meta, there) ↦
          rw (there, pause_job)
            (
              refl,
              λ h.
                  put-AllSkip s.jobs tag (record meta { enabled = false }) h
                    (get-AllSkip s.jobs tag meta h there),
            )
    ]

pub resume_job-Quiet :
    (lib : Library) (name : Text) (s : Scheduler) → Quiet s (resume_job lib name s).1
unfolding resume_job save_state register_job
resume_job-Quiet lib name s =
    let tag = resolved lib name s in
    elim (Option-cases (Dict.get s.jobs tag)) [
      | inl gone ↦ rw (gone, resume_job) (refl, λ h. h)
      | inr (meta, there) ↦
          let enabled : JobMeta = record meta { enabled = true } in
          let changed : Scheduler = record s { jobs = Dict.put s.jobs tag enabled } in
          let (same_running, same_jobs) = register_job-Quiet tag enabled changed in
          rw (there, resume_job)
            (
              same_running,
              λ h.
                  subst AllSkip (sym same_jobs)
                    (put-AllSkip s.jobs tag enabled h (get-AllSkip s.jobs tag meta h there)),
            )
    ]

remove_if_once-Quiet :
    (kind : Kind) (tag : Text) (s : Scheduler) → Quiet s (remove_if_once kind tag s)
unfolding remove_if_once remove_once_job save_state
remove_if_once-Quiet once_job tag s = (refl, λ h. remove-AllSkip s.jobs tag h)
remove_if_once-Quiet cron_job tag s = (refl, λ h. h)

pub note_spawn-Quiet :
    (tag : Text) (meta : JobMeta) (now : Text) (s : Scheduler) → Quiet s (note_spawn tag meta now s)
unfolding note_spawn save_state
note_spawn-Quiet tag meta now s = (
  refl,
  λ h. write_meta-AllSkip meta.serial (λ m. record m { last_run = some now }) s.jobs (λ m. refl) h,
)

pub spawned-Quiet :
    (tag : Text) (meta : JobMeta) (now : Text) (s : Scheduler)
    → Quiet s (remove_if_once meta.kind tag (note_spawn tag meta now s))
spawned-Quiet tag meta now s =
    let (noted, keeps) = note_spawn-Quiet tag meta now s in
    let (same, still) = remove_if_once-Quiet meta.kind tag (note_spawn tag meta now s) in
    (same ∙ noted, λ h. still (keeps h))

pub handle_empty_task-Released :
    (tag : Text) (meta : JobMeta) (now : Text) (s : Scheduler)
    → Released tag s (handle_empty_task tag meta now s)
unfolding handle_empty_task mark_job_finished save_state
handle_empty_task-Released tag meta now s =
    let noted : Scheduler = record s {
      jobs = write_meta meta.serial (λ m. record m { last_run = some now }) s.jobs;
      history = Dict.put s.history tag (record { last_run = some now; last_error = none });
    } in
    let (same, still) =
      remove_if_once-Quiet meta.kind tag (mark_job_finished tag (save_state noted)) in
    (
      same,
      λ h. still (
          write_meta-AllSkip meta.serial (λ m. record m { last_run = some now }) s.jobs (λ m. refl)
            h),
    )

pub fail_spawn-Released :
    (tag : Text) (meta : JobMeta) (now error : Text) (s : Scheduler)
    → Released tag s (fail_spawn tag meta error (note_spawn tag meta now s))
unfolding fail_spawn mark_job_finished save_state
fail_spawn-Released tag meta now error s =
    let before = note_spawn tag meta now s in
    let (noted, keeps) = note_spawn-Quiet tag meta now s in
    (
      ap (λ r. discard tag r) noted,
      λ h.
          write_meta-AllSkip meta.serial (λ m. record m { last_error = some error }) before.jobs
            (λ m. refl) (keeps h),
    )

-- The state of `run_via_agent_fn` behind its writes.
agent_noted : Text → JobMeta → Text → Option Text → Scheduler → Scheduler
unfolding mark_job_finished save_state
agent_noted tag meta now error s =
    let released = mark_job_finished tag s in
    save_state (record released {
      jobs =
          write_meta meta.serial (λ m. record m { last_run = some now; last_error = error })
            released.jobs;
      history = Dict.put released.history tag (record { last_run = some now; last_error = error });
    })

agent_noted-AllSkip :
    (tag : Text) (meta : JobMeta) (now : Text) (error : Option Text) (s : Scheduler)
    → AllSkip s.jobs
    → AllSkip (agent_noted tag meta now error s).jobs
unfolding agent_noted mark_job_finished save_state
agent_noted-AllSkip tag meta now error s h =
    write_meta-AllSkip meta.serial (λ m. record m { last_run = some now; last_error = error })
      s.jobs (λ m. refl) h

pub run_via_agent_fn-Released :
    (tag : Text) (meta : JobMeta) (now : Text) (error : Option Text) (s : Scheduler)
    → Released tag s (run_via_agent_fn tag meta now error s)
unfolding run_via_agent_fn agent_noted mark_job_finished save_state
run_via_agent_fn-Released tag meta now none s =
    let noted = agent_noted tag meta now none s in
    let (same, still) = remove_if_once-Quiet meta.kind tag noted in
    (same, λ h. still (agent_noted-AllSkip tag meta now none s h))
run_via_agent_fn-Released tag meta now (some error) s =
    (refl, λ h. agent_noted-AllSkip tag meta now (some error) s h)
