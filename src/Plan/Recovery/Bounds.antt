-- ===== src/Plan/Recovery/Bounds.antt =====
-- The retry loop of a plan step: it ends within its fuel, leaves no runner and no registration
-- behind, and runs and waits no more than the policies allow.
use native.Mathlib.Nat.{pow-suc}
use native.Mathlib.Numerals.{add-one}
use smallpieclaw.Prelude.{
  ℕ, zero, suc, ◌+◌, ◌*◌, ◌^◌, ◌≤◌, ◌<◌, string_eq, ◌≡◌, refl, some, List, [], arith, leb,
  Bool-cases, ◌⊎◌, inl, inr,
}
use smallpieclaw.ErrorTypes
use smallpieclaw.ErrorTypes.{
  ErrorTypeRegistry, ErrorTypeInfo, PoliciesWithin, defaults-PoliciesWithin,
}
use smallpieclaw.Outcome.{Outcome}
use smallpieclaw.Plan.Recovery.{
  Round, Diagnostic, Event, create, cancel, close, register_plan_step, deregister_plan_step,
  register_diagnostic, deregister_diagnostic, back_off, ran, backoff, Turn, return, retry, turn,
  attempt, retry_policy, execute_step_with_recovery,
}
use smallpieclaw.Plan.Recovery.Rounds.{
  retry_policy-some, weigh, Grown, unchanged, discarded, plain, diagnosed, backed, return_weight,
  retry_weight, turn-retry, policy_at,
}

abbrev pub creates : Event → ℕ
creates create = 1
creates _ = 0

abbrev pub closes : Event → ℕ
closes close = 1
closes _ = 0

abbrev pub registers : Event → ℕ
registers register_plan_step = 1
registers register_diagnostic = 1
registers _ = 0

abbrev pub deregisters : Event → ℕ
deregisters deregister_plan_step = 1
deregisters deregister_diagnostic = 1
deregisters _ = 0

abbrev pub step_runs : Event → ℕ
step_runs register_plan_step = 1
step_runs _ = 0

abbrev pub seconds : Event → ℕ
seconds (back_off n) = n
seconds _ = 0

module _ (types : ErrorTypeRegistry) (rounds : ℕ → Round) (d : Diagnostic) where
  Turn-cases :
      (t : Turn)
      → ((o : Outcome) × (all : List Event) × (t ≡ return o all))
        ⊎ ((all : List Event) × (t ≡ retry all))
  Turn-cases (return o all) = inl (o, all, refl)
  Turn-cases (retry all) = inr (all, refl)

  -- A rule for the loop: what every round keeps, holds of the events of its result.
  module _ (P : ℕ → List Event → Type 0) (Q : Outcome → List Event → Type 0)
      (on_retry : (k : ℕ) (events all : List Event)
        → P k events
        → turn types rounds d k events ≡ retry all
        → P (k + 1) all)
      (on_return : (k : ℕ) (events : List Event) (o : Outcome) (all : List Event)
        → P k events
        → turn types rounds d k events ≡ return o all
        → Q o all) where
    pub attempt_ind :
        (fuel k : ℕ) (events : List Event) (o : Outcome) (all : List Event)
        → P k events
        → attempt types rounds d fuel k events ≡ some (o, all)
        → Q o all
    unfolding attempt
    attempt_ind zero k events o all p h = absurd (ground arith)
    attempt_ind (suc fuel) k events o all p h = elim (Turn-cases (turn types rounds d k events)) [
      | inl (o', all', e) ↦ on_return k events o all p (ground (arith, e))
      | inr (all', e) ↦
          attempt_ind fuel (k + 1) all' o all (on_retry k events all' p e) (rw (e, attempt) at h)
    ]

  attempt-total :
      (m b : ℕ)
      → PoliciesWithin m b types
      → (fuel k : ℕ) (events : List Event) → m < k + fuel
      → k ≤ m
      → (o : Outcome) × (all : List Event) × (attempt types rounds d fuel k events ≡ some (o, all))
  unfolding attempt
  attempt-total m b few zero k events h h' = absurd (omega arith)
  attempt-total m b few (suc fuel) k events h h' =
      elim (Turn-cases (turn types rounds d k events)) [
        | inl (o, all, e) ↦ (o, all, rw (e, attempt))
        | inr (all, e) ↦
            let (info, again, _, _) = turn-retry types rounds d k events all e in
            let (entry, room, _) = retry_policy-some types (rounds k).outcome k info again in
            let (o, all', runs) =
              attempt-total m b few fuel (k + 1) all (omega arith)
                (omega (arith, (few.bound (rounds k).outcome.error_type info entry).0)) in
            (o, all', rw (e, attempt) runs)
      ]

pow_mono : (k m : ℕ) → k ≤ m → 2 ^ k ≤ 2 ^ m
pow_mono k zero h = rw (zero_eq k h) (omega arith)
  where
    zero_eq : (k : ℕ) → k ≤ 0 → k ≡ 0
    zero_eq k h = omega arith
pow_mono k (suc m) h = elim (Bool-cases (leb k m)) [
  | inl below ↦ omega (arith, pow_mono k m (ground arith), pow-suc 2 m)
  | inr last ↦ let e : k ≡ suc m = ground arith in rw e (omega arith)
]

-- One more backoff keeps the sum below the next power.
waits_step :
    (base b p before : ℕ) → base ≤ b → before + b ≤ b * p → before + base * p + b ≤ b * (p * 2)
waits_step base b p before h h' = grind arith

pow-add_one : (k : ℕ) → 2 ^ (k + 1) ≡ 2 ^ k * 2
pow-add_one k = rw add-one (pow-suc 2 k)

-- What the loop has done when it comes to its k-th round.
record Progress (m b k : ℕ) (events : List Event) : Type 0 where
  few : k ≤ m
  closed : weigh creates events ≡ weigh closes events
  undone : weigh registers events ≡ weigh deregisters events
  runs : weigh step_runs events ≡ k
  waits : weigh seconds events + b ≤ b * 2 ^ k

-- What the events of a finished loop show: every runner that was created is closed, every
-- registration is undone, at most `m + 1` runs and at most `b * (2 ^ m - 1)` seconds of backoff.
pub record IsContained (m b : ℕ) (events : List Event) : Type 0 where
  pub closed : weigh creates events ≡ weigh closes events
  pub undone : weigh registers events ≡ weigh deregisters events
  pub runs : weigh step_runs events ≤ m + 1
  pub waits : weigh seconds events + b ≤ b * 2 ^ m

module _ (types : ErrorTypeRegistry) (rounds : ℕ → Round) (d : Diagnostic) (m b : ℕ)
    (policies : PoliciesWithin m b types) where
  waits_longer :
      (k : ℕ) (info : ErrorTypeInfo) (before : ℕ)
      → retry_policy types (rounds k).outcome k ≡ some info
      → before + b ≤ b * 2 ^ k
      → (before + info.backoff_base * 2 ^ k + b ≤ b * 2 ^ (k + 1)) × (k + 1 ≤ m)
  waits_longer k info before again h =
      let (entry, room, _) = retry_policy-some types (rounds k).outcome k info again in
      let (most, base) = policies.bound (rounds k).outcome.error_type info entry in
      (rw pow-add_one (waits_step info.backoff_base b (2 ^ k) before base h), omega arith)

  on_retry :
      (k : ℕ) (events all : List Event)
      → Progress m b k events
      → turn types rounds d k events ≡ retry all
      → Progress m b (k + 1) all
  unfolding weigh
  on_retry k events all p e =
      let (info, again, grows) = retry_weight types rounds d k events all e in
      let (longer, room) = waits_longer k info (weigh seconds events) again p.waits in
      record {
        few = room;
        closed = omega (arith, p.closed, grows creates, grows closes);
        undone = omega (arith, p.undone, grows registers, grows deregisters);
        runs = omega (arith, p.runs, grows step_runs);
        waits = omega (arith, longer, grows seconds);
      }

  -- A round that adds as many runners as it closes, and so on, leaves the events contained.
  module _ {k : ℕ} {events all : List Event} (p : Progress m b k events) (more : (Event → ℕ) → ℕ)
      (grows : (w : Event → ℕ) → weigh w all ≡ weigh w events + more w) where
    contained :
        more creates ≡ more closes
        → more registers ≡ more deregisters
        → more step_runs ≤ 1
        → weigh seconds events + more seconds + b ≤ b * 2 ^ m
        → IsContained m b all
    contained shut gone one fits = record {
      closed = omega (arith, p.closed, shut, grows creates, grows closes);
      undone = omega (arith, p.undone, gone, grows registers, grows deregisters);
      runs = omega (arith, p.runs, p.few, one, grows step_runs);
      waits = omega (arith, fits, grows seconds);
    }

  waits_within : (k : ℕ) (waiting : ℕ) → k ≤ m → waiting + b ≤ b * 2 ^ k → waiting + b ≤ b * 2 ^ m
  waits_within k waiting few fits = let more = pow_mono k m few in grind arith

  contain :
      {k : ℕ} {events all : List Event}
      → Progress m b k events
      → Grown (policy_at types rounds d k) k events all
      → IsContained m b all
  unfolding weigh
  contain {k} p (unchanged grows) =
      contained p (λ w. 0) (λ w. omega (arith, grows w)) refl refl (omega arith)
        (omega (arith, waits_within k _ p.few p.waits))
  contain {k} p (discarded grows) =
      contained p (λ w. w create + w cancel + w close) (λ w. omega (arith, grows w)) refl refl
        (omega arith) (omega (arith, waits_within k _ p.few p.waits))
  contain {k} p (plain grows) =
      contained p (λ w. weigh w ran) grows refl refl (omega arith)
        (omega (arith, waits_within k _ p.few p.waits))
  contain {k} p (diagnosed grows) =
      contained p
        (λ w. weigh w ran + w create + w register_diagnostic + w deregister_diagnostic + w close)
        (λ w. omega (arith, grows w)) refl refl (omega arith)
        (omega (arith, waits_within k _ p.few p.waits))
  contain {k} {events} p (backed info again grows) =
      let (longer, room) = waits_longer k info (weigh seconds events) again p.waits in
      contained p (λ w. weigh w ran + w (back_off (backoff info k))) (λ w. omega (arith, grows w))
        refl refl (omega arith) (omega (arith, waits_within (k + 1) _ room longer))

  attempt-IsContained :
      (fuel : ℕ) (o : Outcome) (all : List Event)
      → attempt types rounds d fuel 0 [] ≡ some (o, all)
      → IsContained m b all
  unfolding weigh
  attempt-IsContained fuel o all h =
      attempt_ind types rounds d (Progress m b) (λ o all. IsContained m b all) on_retry
        (λ k events o all p e. contain p (return_weight types rounds d k events o all e)) fuel 0 []
        o all
        (record {
          few = omega arith;
          closed = refl;
          undone = refl;
          runs = refl;
          waits = omega arith;
        })
        h

-- Whatever the factory, the sub-agents and the cancel event do, the loop returns an outcome within
-- three rounds; every runner that it created is closed and every registration undone; and it runs
-- the step at most three times and waits at most six seconds in all.
pub execute_step_with_recovery-IsContained :
    (rounds : ℕ → Round) (d : Diagnostic)
    → (o : Outcome) × (events : List Event) × (execute_step_with_recovery rounds d
        ≡ some (o, events))
      × (weigh creates events ≡ weigh closes events)
      × (weigh registers events ≡ weigh deregisters events)
      × (weigh step_runs events ≤ 3)
      × (weigh seconds events ≤ 6)
unfolding execute_step_with_recovery
execute_step_with_recovery-IsContained rounds d =
    let types = ErrorTypes.defaults in
    let (o, events, runs) =
      attempt-total types rounds d 2 2 defaults-PoliciesWithin 3 0 [] (omega arith) (omega arith) in
    let c = attempt-IsContained types rounds d 2 2 defaults-PoliciesWithin 3 o events runs in
    (o, events, runs, c.closed, c.undone, c.runs, omega (arith, c.waits))
