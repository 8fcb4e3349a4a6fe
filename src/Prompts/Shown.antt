-- ===== src/Prompts/Shown.antt =====
-- What `show` finds for a prompt of the log.
use smallpieclaw.Dict
use smallpieclaw.Prelude.{
  String, ◌==◌, string_eq, ◌≡◌, ◌⊎◌, inl, inr, refl, ◌∙◌, true, false, Option, none, some, List, [],
  ◌∷◌, arith, All,
}
use smallpieclaw.Prompts.{
  PromptRecord, Line, Archived, Registry, Disk, is_final, replay_log, open_registry,
}
use smallpieclaw.Prompts.Operations.{
  get, find_in_archive, show, Op, do_start, do_finish, do_add, restart, perform, run_ops,
}
use smallpieclaw.Prompts.Evict.{get-IsKeyed}
use smallpieclaw.Prompts.Recovery.{perform-IsSound, empty_registry}
use smallpieclaw.Prompts.Logged.{IsClean, IsSound}
use smallpieclaw.Prompts.Archive.{IsArchived, find_in_archive-prompt_id}
use smallpieclaw.Prompts.Kept.{start-IsKept, finish-IsKept, add_sub_agent-IsKept, IsKept}

pub none-IsArchived : (k : String) → IsArchived none k → ⊥
unfolding find_in_archive
none-IsArchived k (s, h) = ground (arith, h)

open_files-IsKept :
    (disk : Disk) (log : List Line) (archive : Option (List Archived))
    → ((k : String) (r : PromptRecord)
        → Dict.get (replay_log log).records k ≡ some r
        → (k == "") ≡ false)
    → ((k : String) (r : PromptRecord)
        → Dict.get (replay_log log).records k ≡ some r
        → is_final r ≡ true
        → IsArchived archive k)
    → IsKept (open_registry disk log archive)
unfolding open_registry
open_files-IsKept disk log none named kept = record {
  named = named;
  kept = λ k r h final. absurd (none-IsArchived k (kept k r h final));
}
open_files-IsKept disk log (some lines) named kept = record { named = named; kept = kept }

pub perform-IsKept :
    (disk : Disk) (op : Op) (g : Registry)
    → IsClean (disk, op)
    → IsSound g
    → IsKept g
    → IsKept (perform disk op g)
unfolding perform
perform-IsKept disk (do_start k t text now) g ((ok, kept_ok), named) sound old =
    start-IsKept disk k t text now g ok named old
perform-IsKept disk (do_finish k status now) g (ok, kept_ok) sound old =
    finish-IsKept disk k status now g ok kept_ok sound old
perform-IsKept disk (do_add k agent) g ((ok, kept_ok), told) sound old =
    add_sub_agent-IsKept disk k agent g ok told sound old
perform-IsKept disk restart g clean sound old =
    open_files-IsKept disk g.log g.archive old.named old.kept

pub run_ops-IsKept :
    (ops : List (Disk × Op)) (g : Registry)
    → All IsClean ops
    → IsSound g
    → IsKept g
    → IsSound (run_ops ops g) × IsKept (run_ops ops g)
unfolding run_ops
run_ops-IsKept [] g clean sound kept = (sound, kept)
run_ops-IsKept ((disk, op) ∷ ops) g (first, clean) sound kept =
    run_ops-IsKept ops (perform disk op g) clean (perform-IsSound disk op g first sound)
      (perform-IsKept disk op g first sound kept)

pub show-logged :
    (g : Registry) (k : String) (r : PromptRecord)
    → IsSound g
    → IsKept g
    → Dict.get (replay_log g.log).records k ≡ some r
    → (s : PromptRecord) × (show g k ≡ some s) × (s.prompt_id ≡ k) × ((s ≡ r) ⊎ (is_final r ≡ true))
unfolding show get
show-logged g k r sound kept h = elim (sound.agrees k) [
  | inl same ↦ (
    r,
    rw (same, h, show, get) refl,
    get-IsKeyed g.memory.records k r sound.table.0 (same ∙ h),
    inl refl,
  )
  | inr (absent, q, logged, final) ↦
      let (s, archived) = kept.kept k q logged final in
      (
        s,
        rw (absent, show, get) archived,
        find_in_archive-prompt_id g.archive k s archived,
        inr (ground (arith, final, h, logged)),
      )
]

pub empty_registry-IsKept : IsKept empty_registry
unfolding replay_log Dict.get
empty_registry-IsKept = record {
  named = λ k r h. absurd (ground (arith, h));
  kept = λ k r h final. absurd (ground (arith, h));
}
