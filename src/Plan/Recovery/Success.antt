-- ===== src/Plan/Recovery/Success.antt =====
-- Where a successful outcome of the retry loop comes from.
use smallpieclaw.Prelude.{
  ℕ, ◌+◌, ◌<◌, ◌≡◌, true, false, some, List, [], arith, if◌then◌else◌, ltb, Bool-cases, inl, inr,
  nat_beq,
}
use smallpieclaw.ErrorTypes
use smallpieclaw.ErrorTypes.{ErrorTypeRegistry}
use smallpieclaw.Outcome.{Outcome}
use smallpieclaw.Plan.Recovery.{
  Round, Diagnostic, Event, return, retry, turn, with_retries, execute_step_with_recovery,
}
use smallpieclaw.Plan.Recovery.Rounds.{turn-retry, retry_policy-some}
use smallpieclaw.Plan.Recovery.Bounds.{attempt_ind}

-- Each of the first `k` rounds failed with an error that the sub-agent called recoverable.
abbrev pub Failed : (ℕ → Round) → ℕ → Type 0
Failed rounds k =
    (i : ℕ) → i < k → ((rounds i).outcome.success ≡ false) × ((rounds i).outcome.recoverable ≡ true)

-- The outcome of the round `k`, with the number of rounds before it if there were any.
abbrev pub After : (ℕ → Round) → ℕ → Outcome
After rounds k = if ltb 0 k then with_retries (rounds k).outcome k else (rounds k).outcome

module _ (types : ErrorTypeRegistry) (rounds : ℕ → Round) (d : Diagnostic) where
  turn-success :
      (k : ℕ) (events : List Event) (o : Outcome) (all : List Event)
      → turn types rounds d k events ≡ return o all
      → o.success ≡ true
      → ((rounds k).outcome.success ≡ true) × (o ≡ After rounds k)
  unfolding turn
  turn-success k events o all h s = ground arith

  Failed-suc :
      (k : ℕ) (events all : List Event)
      → Failed rounds k
      → turn types rounds d k events ≡ retry all
      → Failed rounds (k + 1)
  Failed-suc k events all before e i h = elim (Bool-cases (nat_beq i k)) [
    | inl last ↦
        let (info, again, fails, _) = turn-retry types rounds d k events all e in
        let (_, _, recoverable) = retry_policy-some types (rounds k).outcome k info again in
        let here : i ≡ k = ground arith in rw here (fails, recoverable)
    | inr earlier ↦ before i (ground arith)
  ]

-- An outcome that succeeds is that of some round `k` that succeeded, marked with `retry_count` k if
-- k is not 0, and every round before it failed with an error that its sub-agent called recoverable.
pub execute_step_with_recovery-success :
    (rounds : ℕ → Round) (d : Diagnostic) (o : Outcome) (events : List Event)
    → execute_step_with_recovery rounds d ≡ some (o, events)
    → o.success ≡ true
    → (k : ℕ) × ((rounds k).outcome.success ≡ true) × (o ≡ After rounds k) × Failed rounds k
unfolding execute_step_with_recovery
execute_step_with_recovery-success rounds d o events h =
    attempt_ind ErrorTypes.defaults rounds d (λ k _. Failed rounds k)
      (λ o _.
        o.success ≡ true
        → (k : ℕ) × ((rounds k).outcome.success ≡ true) × (o ≡ After rounds k) × Failed rounds k)
      (Failed-suc ErrorTypes.defaults rounds d)
      (λ k events o all before e s.
        let (good, same) = turn-success ErrorTypes.defaults rounds d k events o all e s in
        (k, good, same, before))
      3 0 [] o events (λ i i-lt. absurd (omega arith)) h
