-- ===== src/Prompts/Recovery.antt =====
-- Recovery of the registry from its log, at any point of a history.
use smallpieclaw.Prelude.{String, string_eq, inl, refl, Option, none, some, List, [], ◌∷◌, All}
use smallpieclaw.Prompts.{Line, Archived, Registry, Disk, no_memory, replay_log, open_registry}
use smallpieclaw.Prompts.Operations.{Op, do_start, do_finish, do_add, restart, perform, run_ops}
use smallpieclaw.Prompts.Evict.{}
use smallpieclaw.Prompts.Replay.{AgreesAt, replay_log-IsTable}
use smallpieclaw.Prompts.Logged.{
  IsClean, IsSound, start-IsSound, finish-IsSound, add_sub_agent-IsSound,
}

open_registry-IsSound :
    (disk : Disk) (log : List Line) (archive : Option (List Archived))
    → IsSound (open_registry disk log archive)
unfolding open_registry
open_registry-IsSound disk log none = record {
  table = replay_log-IsTable log;
  agrees = λ k. inl refl;
}
open_registry-IsSound disk log (some lines) = record {
  table = replay_log-IsTable log;
  agrees = λ k. inl refl;
}

pub perform-IsSound :
    (disk : Disk) (op : Op) (g : Registry)
    → IsClean (disk, op)
    → IsSound g
    → IsSound (perform disk op g)
unfolding perform
perform-IsSound disk (do_start k t text now) g clean sound =
    start-IsSound disk k t text now g clean.0.0 sound
perform-IsSound disk (do_finish k status now) g clean sound =
    finish-IsSound disk k status now g clean.0 sound
perform-IsSound disk (do_add k agent) g clean sound =
    add_sub_agent-IsSound disk k agent g clean.0.0 clean.1 sound
perform-IsSound disk restart g clean sound = open_registry-IsSound disk g.log g.archive

run_ops-IsSound :
    (ops : List (Disk × Op)) (g : Registry) → All IsClean ops → IsSound g → IsSound (run_ops ops g)
unfolding run_ops
run_ops-IsSound [] g clean sound = sound
run_ops-IsSound ((disk, op) ∷ ops) g (first, clean) sound =
    run_ops-IsSound ops (perform disk op g) clean (perform-IsSound disk op g first sound)

-- The registry of an empty directory.
abbrev pub empty_registry : Registry
empty_registry = record { memory = no_memory; log = []; archive = none }

pub empty_registry-IsSound : IsSound empty_registry
unfolding replay_log
empty_registry-IsSound = record { table = (tt, tt); agrees = λ k. inl refl }

-- After any history of operations and restarts of a new registry whose writes all succeed, and with
-- identifiers that are not empty, the log gives back the memory: under every identifier the replay
-- of the log has the very record that the memory has, or one that has ended and was evicted.
pub run_ops-AgreesAt :
    (ops : List (Disk × Op)) (k : String)
    → All IsClean ops
    → AgreesAt
        (run_ops ops empty_registry).memory.records
        (replay_log (run_ops ops empty_registry).log).records
        k
run_ops-AgreesAt ops k clean =
    (run_ops-IsSound ops empty_registry clean empty_registry-IsSound).agrees k
