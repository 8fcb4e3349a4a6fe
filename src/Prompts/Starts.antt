-- ===== src/Prompts/Starts.antt =====
-- Histories that start each identifier at most once, and what `show` finds after them.
use smallpieclaw.Dict
use smallpieclaw.Dict.{Dict}
use smallpieclaw.Prelude.{
  String, string_eq, ◌≡◌, ◌⊎◌, inl, inr, refl, subst, true, false, none, some, List, [], ◌∷◌, arith,
  All, contains, contains-append, ◌++◌, distinct, Option-cases,
}
use smallpieclaw.Prompts.{PromptRecord, Registry, Disk, is_final, replay_log}
use smallpieclaw.Prompts.Operations.{get, show, find_in_archive, Op, perform, run_ops}
use smallpieclaw.Prompts.Replay.{get-Agrees}
use smallpieclaw.Prompts.Logged.{IsClean, IsSound}
use smallpieclaw.Prompts.Recovery.{perform-IsSound, empty_registry, empty_registry-IsSound}
use smallpieclaw.Prompts.Kept.{IsKept}
use smallpieclaw.Prompts.Shown.{perform-IsKept, run_ops-IsKept, show-logged, empty_registry-IsKept}
use smallpieclaw.Prompts.Faithful.{
  IsSameStart, IsFaithful, equal-IsSameStart, Effect-IsFaithful, Effect-fresh,
}
use smallpieclaw.Prompts.Effects.{begun, perform-Effect}

-- The identifiers that a history starts.
abbrev pub starts : List (Disk × Op) → List String
starts [] = []
starts ((disk, op) ∷ ops) = begun op ++ starts ops

apart :
    (a b : List String) (j : String)
    → distinct (a ++ b) ≡ true
    → contains b j ≡ true
    → contains a j ≡ false
unfolding distinct contains
apart [] b j once h = refl
apart (x ∷ a) b j once h =
    ground (arith, once, h, apart a b j, contains-append a b x, string_eq.beq_iff x j)

distinct-rest : (a b : List String) → distinct (a ++ b) ≡ true → distinct b ≡ true
unfolding distinct
distinct-rest [] b once = once
distinct-rest (x ∷ a) b once = distinct-rest a b (ground (arith, once))

run_ops-IsFaithful :
    (ops : List (Disk × Op)) (g : Registry)
    → All IsClean ops
    → distinct (starts ops) ≡ true
    → IsSound g
    → IsKept g
    → ((k : String) → contains (starts ops) k ≡ true → Dict.get (replay_log g.log).records k ≡ none)
    → IsFaithful g
    → IsFaithful (run_ops ops g)
unfolding run_ops
run_ops-IsFaithful [] g clean once sound kept fresh faithful = faithful
run_ops-IsFaithful ((disk, op) ∷ ops) g (first, clean) once sound kept fresh faithful =
    let after = perform disk op g in
    let effect = perform-Effect disk op g first sound kept in
    let among = contains-append (begun op) (starts ops) in
    run_ops-IsFaithful ops after clean (distinct-rest (begun op) (starts ops) once)
      (perform-IsSound disk op g first sound) (perform-IsKept disk op g first sound kept)
      (λ k later.
        Effect-fresh g after (begun op) k effect (apart (begun op) (starts ops) k once later)
          (fresh k (ground (arith, among k, later))))
      (Effect-IsFaithful g after (begun op) effect (λ k now. fresh k (ground (arith, among k, now)))
        faithful)

empty_registry-IsFaithful : IsFaithful empty_registry
unfolding find_in_archive
empty_registry-IsFaithful = record { told = λ k s h. absurd (ground (arith, h)) }

unlogged :
    (ids : List String) (j : String)
    → contains ids j ≡ true
    → Dict.get (replay_log empty_registry.log).records j ≡ none
unfolding Dict.get replay_log
unlogged ids j later = refl

shown-IsSameStart :
    (g : Registry) (k : String) (s r : PromptRecord)
    → IsSound g
    → IsFaithful g
    → show g k ≡ some s
    → Dict.get (replay_log g.log).records k ≡ some r
    → IsSameStart s r
unfolding show get
shown-IsSameStart g k s r sound faithful shown h =
    elim (Option-cases (Dict.get g.memory.records k)) [
      | inl absent ↦
          let (q, logged, same) = faithful.told k s (ground (arith, shown, absent)) in
          let one : q ≡ r = ground (arith, logged, h) in subst (λ x. IsSameStart s x) one same
      | inr (q, present) ↦
          let logged =
            get-Agrees g.memory.records (replay_log g.log).records k q sound.agrees present in
          equal-IsSameStart s r (ground (arith, shown, present, logged, h))
    ]

-- After any history of operations and restarts of a new registry whose writes of the log and of the
-- archive all succeed, which starts each identifier at most once, and whose identifiers are not
-- empty, `show` finds every prompt that the log knows, whether it was evicted or not: under its
-- identifier, with its run, its text and the time of its start, and, while it runs, the very record
-- of the log.
pub show-run_ops :
    (ops : List (Disk × Op)) (k : String) (r : PromptRecord)
    → All IsClean ops
    → distinct (starts ops) ≡ true
    → Dict.get (replay_log (run_ops ops empty_registry).log).records k ≡ some r
    → (s : PromptRecord) × (show (run_ops ops empty_registry) k ≡ some s)
      × (s.prompt_id ≡ k)
      × IsSameStart s r
      × ((s ≡ r) ⊎ (is_final r ≡ true))
show-run_ops ops k r clean once h =
    let (sound, kept) =
      run_ops-IsKept ops empty_registry clean empty_registry-IsSound empty_registry-IsKept in
    let faithful =
      run_ops-IsFaithful ops empty_registry clean once empty_registry-IsSound empty_registry-IsKept
        (unlogged (starts ops)) empty_registry-IsFaithful in
    let (s, shown, name, alike) = show-logged (run_ops ops empty_registry) k r sound kept h in
    let same = shown-IsSameStart (run_ops ops empty_registry) k s r sound faithful shown h in
    (s, shown, name, same, alike)
