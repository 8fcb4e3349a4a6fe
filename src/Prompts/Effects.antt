-- ===== src/Prompts/Effects.antt =====
-- The effect of each operation on the log's table and on the archive.
use smallpieclaw.Dict
use smallpieclaw.Dict.{Dict}
use smallpieclaw.Prelude.{
  ℕ, String, ◌==◌, string_eq, ◌≡◌, inl, inr, refl, ap, sym, ◌∙◌, subst, true, false, if◌then◌else◌,
  Option, none, some, List, [], ◌∷◌, arith, All, keep, Bool-cases, Option-cases,
}
use smallpieclaw.Prompts.{
  PromptRecord, Archived, add_line, finish_line, Registry, Disk, is_final, with_agent, replay_line,
  replay_log, backfill_archive, open_registry,
}
use smallpieclaw.Prompts.Operations.{
  started, start, finish, finished, add_sub_agent, find_in_archive, Op, do_start, do_finish, do_add,
  restart, perform,
}
use smallpieclaw.Prompts.Evict.{get-IsKeyed, IsFound, values-IsFound}
use smallpieclaw.Prompts.Replay.{get-Agrees, replay_log-IsTable}
use smallpieclaw.Prompts.Logged.{IsClean, IsSound, replay_log-start, replay_log-change}
use smallpieclaw.Prompts.Archive.{IsArchived}
use smallpieclaw.Prompts.Kept.{IsKept}
use smallpieclaw.Prompts.Shown.{none-IsArchived}
use smallpieclaw.Prompts.Faithful.{
  IsSameStart, Effect, unchanged, changed, began, archive_snapshot-either,
}

start-Effect :
    (disk : Disk) (k t : String) (text : List ℕ) (now : ℕ) (g : Registry)
    → disk.log_ok ≡ true
    → Effect g (start disk k t text now g).0 (k ∷ [])
unfolding start
start-Effect disk k t text now g ok =
    let r = started k t text now in
    began k r (rw (ok, start) (replay_log-start g.log k t r.text now)) (rw (ok, start) refl)

finish-Effect :
    (disk : Disk) (k status : String) (now : ℕ) (g : Registry)
    → disk.log_ok ≡ true
    → disk.archive_ok ≡ true
    → IsSound g
    → Effect g (finish disk k status now g).0 []
unfolding finish replay_line
finish-Effect disk k status now g ok kept_ok sound =
    elim (Option-cases (Dict.get g.memory.records k)) [
      | inl unknown ↦ rw (unknown, finish) (unchanged refl (λ j s h. h))
      | inr (r, found) ↦
          let ended = finished r status now in
          let at = get-IsKeyed g.memory.records k r sound.table.0 found in
          changed k r ended
            (get-Agrees g.memory.records (replay_log g.log).records k r sound.agrees found)
            (record { trace = refl; words = refl; time = refl })
            (rw (found, ok, finish)
              (replay_log-change g k r ended
                (finish_line k (some now) (some status) (some r.sub_agent_ids))
                (λ x. record x {
                  ended_at = some now;
                  status = status;
                  sub_agent_ids = r.sub_agent_ids;
                })
                found refl refl sound))
            (rw (found, ok, kept_ok, finish)
              (λ j s h. elim (archive_snapshot-either g.archive ended j s h) [
                | inl before ↦ inl before
                | inr (last, name) ↦ inr (last, name ∙ at)
              ]))
    ]

with_agent-IsSameStart : (agent : String) (r : PromptRecord) → IsSameStart r (with_agent agent r)
unfolding with_agent
with_agent-IsSameStart agent r = record {
  trace = ground arith;
  words = ground arith;
  time = ground arith;
}

add_sub_agent-Effect :
    (disk : Disk) (k agent : String) (g : Registry)
    → disk.log_ok ≡ true
    → (agent == "") ≡ false
    → IsSound g
    → Effect g (add_sub_agent disk k agent g).0 []
unfolding add_sub_agent replay_line
add_sub_agent-Effect disk k agent g ok told sound =
    elim (Option-cases (Dict.get g.memory.records k)) [
      | inl unknown ↦ rw (unknown, add_sub_agent) (unchanged refl (λ j s h. h))
      | inr (r, found) ↦
          changed k r (with_agent agent r)
            (get-Agrees g.memory.records (replay_log g.log).records k r sound.agrees found)
            (with_agent-IsSameStart agent r)
            (rw (found, ok, add_sub_agent)
              (replay_log-change g k r (with_agent agent r) (add_line k agent)
                (λ x. if agent == "" then x else with_agent agent x) found refl (rw (told) refl)
                sound))
            (rw (found, ok, add_sub_agent) (λ j s h. inl h))
    ]

-- Where no record of the table has ended, there is nothing to backfill.
no_finals :
    (d : Dict String PromptRecord) (values : List PromptRecord)
    → All (IsFound d) values
    → ((k : String) (r : PromptRecord) → Dict.get d k ≡ some r → is_final r ≡ true → ⊥)
    → keep is_final values ≡ []
unfolding keep
no_finals d [] found running = refl
no_finals d (r ∷ values) (here, found) running = elim (Bool-cases (is_final r)) [
  | inl final ↦ absurd (running r.prompt_id r here final)
  | inr runs ↦ rw (runs, keep) (no_finals d values found running)
]

open_files-Effect :
    (disk : Disk) (g : Registry) (archive : Option (List Archived))
    → g.archive ≡ archive
    → IsKept g
    → Effect g (open_registry disk g.log archive) []
unfolding open_registry backfill_archive
open_files-Effect disk g (some lines) same old =
    unchanged refl (λ j s h. ap (λ a. find_in_archive a j) same ∙ h)
open_files-Effect disk g none same old =
    let table = replay_log-IsTable g.log in
    let empty =
      no_finals (replay_log g.log).records (Dict.values (replay_log g.log).records)
        (values-IsFound (replay_log g.log).records table.0 table.1)
        (λ k r h final.
          none-IsArchived k (subst (λ a. IsArchived a k) same (old.kept k r h final))) in
    unchanged refl (λ j s h.
      ap (λ a. find_in_archive a j) same
      ∙ ap (λ finals. find_in_archive (backfill_archive disk.archive_ok finals none) j) (sym empty)
      ∙ h)

-- The identifiers that a history starts.
abbrev pub begun : Op → List String
begun (do_start k t text now) = k ∷ []
begun (do_finish k status now) = []
begun (do_add k agent) = []
begun restart = []

pub perform-Effect :
    (disk : Disk) (op : Op) (g : Registry)
    → IsClean (disk, op)
    → IsSound g
    → IsKept g
    → Effect g (perform disk op g) (begun op)
unfolding perform
perform-Effect disk (do_start k t text now) g ((ok, kept_ok), named) sound old =
    start-Effect disk k t text now g ok
perform-Effect disk (do_finish k status now) g (ok, kept_ok) sound old =
    finish-Effect disk k status now g ok kept_ok sound
perform-Effect disk (do_add k agent) g ((ok, kept_ok), told) sound old =
    add_sub_agent-Effect disk k agent g ok told sound
perform-Effect disk restart g clean sound old = open_files-Effect disk g g.archive refl old
