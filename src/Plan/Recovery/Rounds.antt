-- ===== src/Plan/Recovery/Rounds.antt =====
-- The retry loop of a plan step: it ends within its fuel, leaves no runner behind, and waits and
-- retries no more than the policies allow.
use smallpieclaw.Prelude.{
  ℕ, ◌+◌, ◌<◌, string_eq, ◌≡◌, ap, ◌∙◌, true, false, Option, none, some, List, [], ◌∷◌, ◌++◌, arith,
  Option-cases, ◌⊎◌, inl, inr,
}
use smallpieclaw.ErrorTypes
use smallpieclaw.ErrorTypes.{ErrorTypeRegistry, ErrorTypeInfo}
use smallpieclaw.Outcome.{Outcome}
use smallpieclaw.Plan.Recovery.{
  Round, Diagnostic, Event, create, cancel, close, register_plan_step, deregister_plan_step,
  register_diagnostic, deregister_diagnostic, back_off, ran, backoff, return, retry, judge, turn,
  retry_policy,
}

-- A policy is found only below its own limit, and it is an entry of the table.
pub retry_policy-some :
    (types : ErrorTypeRegistry) (o : Outcome) (k : ℕ) (info : ErrorTypeInfo)
    → retry_policy types o k ≡ some info
    → (ErrorTypes.get types o.error_type ≡ some info)
      × (k < info.max_retries)
      × (o.recoverable ≡ true)
unfolding retry_policy
retry_policy-some types o k info h = ground arith

-- The sum of a weight over the events: a count of one kind, or the seconds of backoff.
unfoldable pub weigh : (Event → ℕ) → List Event → ℕ
weigh w [] = 0
weigh w (e ∷ events) = w e + weigh w events

weigh-append : (w : Event → ℕ) (xs ys : List Event) → weigh w (xs ++ ys) ≡ weigh w xs + weigh w ys
unfolding weigh
weigh-append w [] ys = omega arith
weigh-append w (x ∷ xs) ys = omega (arith, weigh-append w xs ys)

abbrev pub creates : Event → ℕ
creates create = 1
creates _ = 0

abbrev pub closes : Event → ℕ
closes close = 1
closes _ = 0

abbrev pub registers : Event → ℕ
registers register_plan_step = 1
registers register_diagnostic = 1
registers _ = 0

abbrev pub deregisters : Event → ℕ
deregisters deregister_plan_step = 1
deregisters deregister_diagnostic = 1
deregisters _ = 0

abbrev pub step_runs : Event → ℕ
step_runs register_plan_step = 1
step_runs _ = 0

abbrev pub seconds : Event → ℕ
seconds (back_off n) = n
seconds _ = 0

-- How a round that returns adds to every weight: nothing, a runner that was discarded, a run, a
-- run with a diagnosis, or a run with a backoff that was cut short.
pub data Grown (policy : Option ErrorTypeInfo) (k : ℕ) (events all : List Event) : Type 0 where
  unchanged : ((w : Event → ℕ) → weigh w all ≡ weigh w events) → Grown policy k events all
  discarded :
      ((w : Event → ℕ) → weigh w all ≡ weigh w events + w create + w cancel + w close)
      → Grown policy k events all
  plain : ((w : Event → ℕ) → weigh w all ≡ weigh w events + weigh w ran) → Grown policy k events all
  diagnosed :
      ((w : Event → ℕ)
        → weigh w all
          ≡ weigh w events
            + weigh w ran
            + w create
            + w register_diagnostic
            + w deregister_diagnostic
            + w close)
      → Grown policy k events all
  backed :
      (info : ErrorTypeInfo)
      → policy ≡ some info
      → ((w : Event → ℕ)
          → weigh w all ≡ weigh w events + weigh w ran + w (back_off (backoff info k)))
      → Grown policy k events all

module _ (types : ErrorTypeRegistry) (rounds : ℕ → Round) (d : Diagnostic) where
  abbrev pub policy_at : ℕ → Option ErrorTypeInfo
  policy_at k = retry_policy types (rounds k).outcome k

  pub turn-retry :
      (k : ℕ) (events all : List Event)
      → turn types rounds d k events ≡ retry all
      → (info : ErrorTypeInfo) × (retry_policy types (rounds k).outcome k ≡ some info)
        × ((rounds k).outcome.success ≡ false)
        × (all ≡ (events ++ ran) ++ back_off (backoff info k) ∷ [])
  unfolding turn
  turn-retry k events all h = ground arith

  turn-return :
      (k : ℕ) (events : List Event) (o : Outcome) (all : List Event)
      → turn types rounds d k events ≡ return o all
      → (all ≡ events)
        ⊎ (all ≡ events ++ create ∷ cancel ∷ close ∷ [])
        ⊎ (judge types rounds d k (events ++ ran) ≡ return o all)
  unfolding turn
  turn-return k events o all h = ground arith

  judge-return_none :
      (k : ℕ) (events : List Event) (o : Outcome) (all : List Event)
      → retry_policy types (rounds k).outcome k ≡ none
      → judge types rounds d k events ≡ return o all
      → (all ≡ events)
        ⊎ (all ≡ events ++ create ∷ register_diagnostic ∷ deregister_diagnostic ∷ close ∷ [])
        ⊎ (all ≡ events ++ [])
  unfolding judge
  judge-return_none k events o all e h = ground arith

  judge-return_some :
      (k : ℕ) (events : List Event) (o : Outcome) (all : List Event) (info : ErrorTypeInfo)
      → retry_policy types (rounds k).outcome k ≡ some info
      → judge types rounds d k events ≡ return o all
      → (all ≡ events) ⊎ (all ≡ events ++ back_off (backoff info k) ∷ [])
  unfolding judge
  judge-return_some k events o all info e h = ground arith

  ran_and :
      (events more : List Event) (w : Event → ℕ)
      → weigh w ((events ++ ran) ++ more) ≡ weigh w events + weigh w ran + weigh w more
  ran_and events more w =
      omega (arith, weigh-append w (events ++ ran) more, weigh-append w events ran)

  judge_weight :
      (k : ℕ) (events : List Event) (o : Outcome) (all : List Event)
      → judge types rounds d k (events ++ ran) ≡ return o all
      → Grown (policy_at k) k events all
  unfolding weigh
  judge_weight k events o all h = elim (Option-cases (policy_at k)) [
    | inl over ↦ elim (judge-return_none k (events ++ ran) o all over h) [
      | inl same ↦ plain (λ w. ap (weigh w) same ∙ weigh-append w events ran)
      | inr (inl more) ↦ diagnosed λ w.
          ap (weigh w) more
          ∙ omega (
            arith,
            ran_and events (create ∷ register_diagnostic ∷ deregister_diagnostic ∷ close ∷ []) w,
          )
      | inr (inr same) ↦ plain (λ w. ap (weigh w) same ∙ omega (arith, ran_and events [] w))
    ]
    | inr (info, again) ↦ elim (judge-return_some k (events ++ ran) o all info again h) [
      | inl same ↦ plain (λ w. ap (weigh w) same ∙ weigh-append w events ran)
      | inr waits ↦
          backed info again λ w.
            ap (weigh w) waits ∙ omega (arith, ran_and events (back_off (backoff info k) ∷ []) w)
    ]
  ]

  pub return_weight :
      (k : ℕ) (events : List Event) (o : Outcome) (all : List Event)
      → turn types rounds d k events ≡ return o all
      → Grown (policy_at k) k events all
  unfolding weigh
  return_weight k events o all h = elim (turn-return k events o all h) [
    | inl same ↦ unchanged (λ w. ap (weigh w) same)
    | inr (inl early) ↦ discarded λ w.
        ap (weigh w) early ∙ omega (arith, weigh-append w events (create ∷ cancel ∷ close ∷ []))
    | inr (inr judged) ↦ judge_weight k events o all judged
  ]

  pub retry_weight :
      (k : ℕ) (events all : List Event)
      → turn types rounds d k events ≡ retry all
      → (info : ErrorTypeInfo) × (retry_policy types (rounds k).outcome k ≡ some info)
        × ((w : Event → ℕ)
            → weigh w all ≡ weigh w events + weigh w ran + w (back_off (backoff info k)))
  unfolding weigh
  retry_weight k events all h =
      let (info, again, fails, e) = turn-retry k events all h in
      (
        info,
        again,
        λ w. ap (weigh w) e ∙ omega (arith, ran_and events (back_off (backoff info k) ∷ []) w),
      )
