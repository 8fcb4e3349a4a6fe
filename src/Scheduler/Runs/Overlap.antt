-- ===== src/Scheduler/Runs/Overlap.antt =====
-- Jobs with the policy "skip" never overlap with themselves, in any interleaving.
use smallpieclaw.Dict
use smallpieclaw.Dict.{Dict}
use smallpieclaw.Prelude.{
  ℕ, nat_eq, list_eq, string_eq, ◌≡◌, ◌⊎◌, refl, sym, ◌∙◌, subst, false, none, some, List, [], ◌∷◌,
  ◌++◌, contains, distinct, get_elem?, arith, All, Bool-cases, Option-cases, inl, inr,
  contains-append,
}
use smallpieclaw.Scheduler.Tags.{Text, is_empty}
use smallpieclaw.Scheduler.Schedule.{Library}
use smallpieclaw.Scheduler.{
  Scheduler, JobMeta, include, add_job, remove_job, pause_job, resume_job, reload,
}
use smallpieclaw.Scheduler.Runs.{
  Flight, System, Handover, spawn_succeeds, spawn_fails, agent_ends, spawn_raises, agent_raises,
  Action, add, remove, pause, resume, reread, trigger, hand_over, end_run, set_spawned, begin_run,
  mark_job_finished, handle_empty_task, hand_over_task, launch, hand_over_flight, perform, replay,
  remove_if_once, note_spawn, fail_spawn, run_via_agent_fn,
}
use smallpieclaw.Scheduler.Runs.Quiet.{
  FileSkips, Quiet, add_job-Quiet, remove_job-Quiet, pause_job-Quiet, resume_job-Quiet,
  reload-Quiet, spawned-Quiet, note_spawn-Quiet, handle_empty_task-Released, fail_spawn-Released,
  run_via_agent_fn-Released,
}
use smallpieclaw.Scheduler.Runs.Skips.{AllSkip, get-AllSkip}
use smallpieclaw.Scheduler.Runs.Slots.{}
use smallpieclaw.Scheduler.Runs.Places.{
  occupied, IsSound, Released-IsSound, lost-IsSound, set_spawned-tags, Quiet-IsSound,
}

-- A trigger starts a run only when the tag is not among the running ones.
begin_run-cases :
    (tag : Text) (s : Scheduler)
    → AllSkip s.jobs
    → (begin_run tag s ≡ (none, s))
      ⊎ ((meta : JobMeta) × (begin_run tag s
            ≡ (some meta, record s { running = s.running ++ tag ∷ [] }))
          × (contains s.running tag ≡ false))
unfolding begin_run include
begin_run-cases tag s h = elim (Option-cases (Dict.get s.jobs tag)) [
  | inl gone ↦ inl (rw (gone, begin_run) refl)
  | inr (meta, found) ↦
      let skips = get-AllSkip s.jobs tag meta h found in
      elim (Bool-cases meta.enabled) [
        | inr disabled ↦ inl (rw (found, disabled, begin_run) refl)
        | inl enabled ↦ elim (Bool-cases (contains s.running tag)) [
          | inl busy ↦ inl (rw (found, enabled, busy, skips, begin_run) refl)
          | inr free ↦ inr (meta, rw (found, enabled, free, begin_run, include) refl, free)
        ]
      ]
]

started-IsSound :
    (tag : Text) (meta : JobMeta) (sys : System)
    → contains sys.scheduler.running tag ≡ false
    → IsSound sys
    → IsSound (record sys {
      scheduler = record sys.scheduler { running = sys.scheduler.running ++ tag ∷ [] };
      flights = record { tag = tag; meta = meta; spawned = false } ∷ sys.flights;
    })
unfolding distinct contains
started-IsSound tag meta sys free sound =
    let s = sys.scheduler in
    let new : contains (occupied sys) tag ≡ false = sym (sound.2 tag) ∙ free in
    (
      sound.0,
      ground (arith, sound.1, new),
      λ t. contains-append s.running (tag ∷ []) t ∙ ground (arith, sound.2 t),
    )

trigger-IsSound :
    (tag : Text) (sys : System)
    → IsSound sys
    → IsSound (launch tag (begin_run tag sys.scheduler) sys)
unfolding launch
trigger-IsSound tag sys sound = elim (begin_run-cases tag sys.scheduler sound.0) [
  | inl same ↦ subst (λ b. IsSound (launch tag b sys)) (sym same) sound
  | inr (meta, starts, free) ↦
      subst (λ b. IsSound (launch tag b sys)) (sym starts) (started-IsSound tag meta sys free sound)
]

hand_over_task-IsSound :
    (n : ℕ) (f : Flight) (now : Text) (how : Handover) (sys : System)
    → get_elem? sys.flights n ≡ some f
    → IsSound sys
    → IsSound (hand_over_task n f now how sys)
unfolding hand_over_task mark_job_finished
hand_over_task-IsSound n f now spawn_succeeds sys at sound =
    Quiet-IsSound sys (remove_if_once f.meta.kind f.tag (note_spawn f.tag f.meta now sys.scheduler))
      (set_spawned n sys.flights) (set_spawned-tags n sys.flights)
      (spawned-Quiet f.tag f.meta now sys.scheduler) sound
hand_over_task-IsSound n f now (spawn_fails error) sys at sound =
    Released-IsSound sys n f at sound
      (fail_spawn f.tag f.meta error (note_spawn f.tag f.meta now sys.scheduler))
      (fail_spawn-Released f.tag f.meta now error sys.scheduler)
hand_over_task-IsSound n f now (agent_ends error) sys at sound =
    Released-IsSound sys n f at sound (run_via_agent_fn f.tag f.meta now error sys.scheduler)
      (run_via_agent_fn-Released f.tag f.meta now error sys.scheduler)
hand_over_task-IsSound n f now spawn_raises sys at sound =
    lost-IsSound sys n f at sound (note_spawn f.tag f.meta now sys.scheduler)
      (note_spawn-Quiet f.tag f.meta now sys.scheduler)
hand_over_task-IsSound n f now agent_raises sys at sound =
    Released-IsSound sys n f at sound (mark_job_finished f.tag sys.scheduler) (refl, λ h. h)

hand_over-IsSound :
    (lib : Library) (n : ℕ) (f : Flight) (now : Text) (how : Handover) (sys : System)
    → get_elem? sys.flights n ≡ some f
    → IsSound sys
    → IsSound (hand_over_flight lib n f now how sys)
unfolding hand_over_flight
hand_over-IsSound lib n f now how sys at sound =
    elim (Bool-cases (is_empty (lib.strip f.meta.task))) [
      | inl idle ↦
          rw (idle, hand_over_flight)
            (Released-IsSound sys n f at sound (handle_empty_task f.tag f.meta now sys.scheduler)
              (handle_empty_task-Released f.tag f.meta now sys.scheduler))
      | inr work ↦ rw (work, hand_over_flight) (hand_over_task-IsSound n f now how sys at sound)
    ]

-- The jobs that the action adds have the policy "skip".
abbrev pub AddsSkip : Action → Type 0
AddsSkip (add lib request now file) = (request.overlap_policy ≡ "skip") × FileSkips file
AddsSkip (reread file) = AllSkip file
AddsSkip (remove lib tag) = Unit
AddsSkip (pause lib tag) = Unit
AddsSkip (resume lib tag) = Unit
AddsSkip (trigger tag) = Unit
AddsSkip (hand_over lib n now how) = Unit
AddsSkip (end_run n close_raises) = Unit

table-IsSound :
    (sys : System) (after : Scheduler)
    → Quiet sys.scheduler after
    → IsSound sys
    → IsSound (record sys { scheduler = after })
table-IsSound sys after quiet sound = Quiet-IsSound sys after sys.flights refl quiet sound

perform-IsSound :
    (action : Action) (sys : System) → AddsSkip action → IsSound sys → IsSound (perform action sys)
unfolding perform mark_job_finished
perform-IsSound (add lib request now file) sys skips sound =
    table-IsSound sys (add_job lib request now file sys.scheduler).1
      (add_job-Quiet lib request now file sys.scheduler skips.0 skips.1) sound
perform-IsSound (remove lib tag) sys skips sound =
    table-IsSound sys (remove_job lib tag sys.scheduler).1 (remove_job-Quiet lib tag sys.scheduler)
      sound
perform-IsSound (pause lib tag) sys skips sound =
    table-IsSound sys (pause_job lib tag sys.scheduler).1 (pause_job-Quiet lib tag sys.scheduler)
      sound
perform-IsSound (resume lib tag) sys skips sound =
    table-IsSound sys (resume_job lib tag sys.scheduler).1 (resume_job-Quiet lib tag sys.scheduler)
      sound
perform-IsSound (reread file) sys skips sound =
    table-IsSound sys (reload file sys.scheduler) (reload-Quiet file sys.scheduler skips) sound
perform-IsSound (trigger tag) sys skips sound = trigger-IsSound tag sys sound
perform-IsSound (hand_over lib n now how) sys skips sound =
    elim (Option-cases (get_elem? sys.flights n)) [
      | inl out ↦ rw (out, perform) sound
      | inr (f, at) ↦ elim (Bool-cases f.spawned) [
        | inl gone ↦ rw (at, gone, perform) sound
        | inr waits ↦ rw (at, waits, perform) (hand_over-IsSound lib n f now how sys at sound)
      ]
    ]
perform-IsSound (end_run n close_raises) sys skips sound =
    elim (Option-cases (get_elem? sys.flights n)) [
      | inl out ↦ rw (out, perform) sound
      | inr (f, at) ↦ elim (Bool-cases f.spawned) [
        | inr waits ↦ rw (at, waits, perform) sound
        | inl runs ↦ elim (Bool-cases close_raises) [
          | inl raised ↦
              rw (at, runs, raised, perform)
                (lost-IsSound sys n f at sound sys.scheduler (refl, λ h. h))
          | inr closed ↦
              rw (at, runs, closed, perform)
                (Released-IsSound sys n f at sound (mark_job_finished f.tag sys.scheduler)
                  (refl, λ h. h))
        ]
      ]
    ]

-- After every interleaving of operations on the table, triggers, hand-overs and ends of runs, in
-- which only jobs with the policy "skip" are added: no two runs in flight have the same tag, and a
-- tag is marked as running exactly when a run of it is in flight or has ended without
-- `_mark_job_finished`.
pub replay-IsSound : (actions : List Action) → All AddsSkip actions → IsSound (replay actions)
unfolding replay distinct
replay-IsSound [] skips = (tt, refl, λ t. refl)
replay-IsSound (action ∷ actions) skips =
    perform-IsSound action (replay actions) skips.0 (replay-IsSound actions skips.1)
