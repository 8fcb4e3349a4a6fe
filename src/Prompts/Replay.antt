-- ===== src/Prompts/Replay.antt =====
-- The log gives back what the memory holds.
use smallpieclaw.Dict
use smallpieclaw.Dict.{Dict}
use smallpieclaw.Prelude.{
  String, ◌==◌, string_eq, ◌≡◌, ◌⊎◌, inl, inr, refl, sym, ◌∙◌, subst, true, none, some, List, [],
  ◌∷◌, ◌++◌, arith, Bool-cases, Option-cases,
}
use smallpieclaw.Prompts.{
  PromptRecord, Line, skipped, start_line, add_line, finish_line, other_line, Memory, no_memory,
  is_final, with_agent, replay_update, replay_line, replay_from, replay_log,
}
use smallpieclaw.Prompts.Evict.{IsKeyed, get-IsKeyed, put-IsKeyed}

abbrev Table : Type 0
Table = Dict String PromptRecord

-- What the log gives under an identifier is what the memory has, or a record that has ended and
-- that the memory has no more.
abbrev pub AgreesAt : Dict String PromptRecord → Dict String PromptRecord → String → Type 0
AgreesAt d e k =
    (Dict.get d k ≡ Dict.get e k)
    ⊎ ((Dict.get d k ≡ none) × (r : PromptRecord) × (Dict.get e k ≡ some r) × (is_final r ≡ true))

abbrev pub Agrees : Dict String PromptRecord → Dict String PromptRecord → Type 0
Agrees d e = (k : String) → AgreesAt d e k

pub put-Agrees :
    (d e : Table) (k : String) (r : PromptRecord)
    → Agrees d e
    → Agrees (Dict.put d k r) (Dict.put e k r)
put-Agrees d e k r agree j = elim (Bool-cases (k == j)) [
  | inl same ↦ inl (ground (arith, same, Dict.get-put d k j r, Dict.get-put e k j r))
  | inr other ↦ rw (Dict.get-put d k j r, Dict.get-put e k j r, other) (agree j)
]

-- What the memory has is in the log.
pub get-Agrees :
    (d e : Table) (k : String) (r : PromptRecord)
    → Agrees d e
    → Dict.get d k ≡ some r
    → Dict.get e k ≡ some r
get-Agrees d e k r agree h = elim (agree k) [
  | inl same ↦ sym same ∙ h
  | inr (absent, s, logged, final) ↦ absurd (ground (arith, absent, h))
]

pub remove-Agrees :
    (d e : Table) (k : String) (r : PromptRecord)
    → Agrees d e
    → Dict.get d k ≡ some r
    → is_final r ≡ true
    → Agrees (Dict.remove d k) e
remove-Agrees d e k r agree h final j = elim (Bool-cases (k == j)) [
  | inl same ↦ inr (
    ground (arith, same, Dict.get-remove d k j),
    r,
    subst (λ i. Dict.get e i ≡ some r) ((string_eq.beq_iff k j).0 same)
        (get-Agrees d e k r agree h),
    final,
  )
  | inr other ↦ rw (Dict.get-remove d k j, other) (agree j)
]

replay_from-append :
    (log : List Line) (line : Line) (m : Memory)
    → replay_from (log ++ line ∷ []) m ≡ replay_line line (replay_from log m)
unfolding replay_from
replay_from-append [] line m = refl
replay_from-append (l ∷ log) line m = replay_from-append log line (replay_line l m)

pub replay_log-append :
    (log : List Line) (line : Line)
    → replay_log (log ++ line ∷ []) ≡ replay_line line (replay_log log)
unfolding replay_log
replay_log-append log line = replay_from-append log line no_memory

pub replay_update-found :
    (m : Memory) (k : String) (change : PromptRecord → PromptRecord) (r : PromptRecord)
    → Dict.get m.records k ≡ some r
    → replay_update m k change ≡ record m { records = Dict.put m.records k (change r) }
unfolding replay_update
replay_update-found m k change r h = rw (h, replay_update) refl

-- The records of a memory stand under their identifiers, once each.
abbrev pub IsTable : Table → Type 0
IsTable d = IsKeyed d × Dict.IsUnique d

pub put-IsTable :
    (d : Table) (k : String) (r : PromptRecord)
    → r.prompt_id ≡ k
    → IsTable d
    → IsTable (Dict.put d k r)
put-IsTable d k r at (keyed, unique) = (put-IsKeyed d k r at keyed, Dict.put-IsUnique d k r unique)

replay_update-IsTable :
    (m : Memory) (k : String) (change : PromptRecord → PromptRecord)
    → ((r : PromptRecord) → (change r).prompt_id ≡ r.prompt_id)
    → IsTable m.records
    → IsTable (replay_update m k change).records
unfolding replay_update
replay_update-IsTable m k change same table = elim (Option-cases (Dict.get m.records k)) [
  | inl absent ↦ rw (absent, replay_update) table
  | inr (r, found) ↦
      rw (found, replay_update)
        (put-IsTable m.records k (change r) (same r ∙ get-IsKeyed m.records k r table.0 found)
          table)
]

pub with_agent-prompt_id :
    (agent : String) (r : PromptRecord) → (with_agent agent r).prompt_id ≡ r.prompt_id
unfolding with_agent
with_agent-prompt_id agent r = ground arith

replay_line-IsTable :
    (line : Line) (m : Memory) → IsTable m.records → IsTable (replay_line line m).records
unfolding replay_line
replay_line-IsTable skipped m table = table
replay_line-IsTable (start_line k t text now ended status agents) m table =
    put-IsTable m.records k _ refl table
replay_line-IsTable (add_line k agent) m table =
    replay_update-IsTable m k _ (λ r. ground (arith, with_agent-prompt_id agent r)) table
replay_line-IsTable (finish_line k ended status agents) m table =
    replay_update-IsTable m k _ (λ r. refl) table
replay_line-IsTable (other_line k) m table = table

replay_from-IsTable :
    (log : List Line) (m : Memory) → IsTable m.records → IsTable (replay_from log m).records
unfolding replay_from
replay_from-IsTable [] m table = table
replay_from-IsTable (line ∷ log) m table =
    replay_from-IsTable log (replay_line line m) (replay_line-IsTable line m table)

pub replay_log-IsTable : (log : List Line) → IsTable (replay_log log).records
unfolding replay_log
replay_log-IsTable log = replay_from-IsTable log no_memory (tt, tt)
