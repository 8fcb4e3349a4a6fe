-- ===== src/Agents/Retention.antt =====
-- What the registry keeps of sub-agents that ended, and for how long.
use smallpieclaw.Prelude.{
  ℕ, ◌+◌, String, string_eq, ◌≡◌, refl, sym, true, some, List, [], ◌∷◌, arith, ltb, Bool-cases,
  Option-cases, inl, inr,
}
use smallpieclaw.Dict
use smallpieclaw.Dict.{Dict}
use smallpieclaw.Agents.{
  SubAgentRecord, set_cancelled, is_final, completed_ttl, Registry, empty, register, stale,
  drop_all, complete, unregister, time_or_zero, get_completed, alter, update_iteration, set_status,
  cancel, find_by_label, cancel_all_managed, Op, register_op, unregister_op, get_completed_op,
  update_iteration_op, set_status_op, cancel_op, cancel_all_managed_op, apply, replay,
}

-- The two tables of ended sub-agents have the same keys, each once, and only final records.
pub record WellFormed (reg : Registry) : Type 0 where
  pub paired : (k : String) → Dict.has reg.completed k ≡ Dict.has reg.completed_at k
  pub once : Dict.IsUnique reg.completed_at
  pub final :
      (k : String) (rec : SubAgentRecord)
      → Dict.get reg.completed k ≡ some rec
      → is_final rec.status ≡ true

-- The tables of ended sub-agents stay as they are.
abbrev pub SameCompleted : Registry → Registry → Type 0
SameCompleted r s = (r.completed ≡ s.completed) × (r.completed_at ≡ s.completed_at)

pub SameCompleted-WellFormed : (r s : Registry) → SameCompleted r s → WellFormed r → WellFormed s
SameCompleted-WellFormed r s (a, b) w = record {
  paired = λ k. rw (sym a, sym b) (w.paired k);
  once = rw (sym b) w.once;
  final = λ k rec. rw (sym a) (w.final k rec);
}

drop_all-WellFormed :
    (ks : List String) (reg : Registry) → WellFormed reg → WellFormed (drop_all ks reg)
unfolding drop_all
drop_all-WellFormed [] reg w = w
drop_all-WellFormed (k ∷ ks) reg w = drop_all-WellFormed ks _ (record {
  paired = λ j.
      ground (
        arith,
        w.paired j,
        Dict.has-remove reg.completed k j,
        Dict.has-remove reg.completed_at k j,
      );
  once = Dict.remove-IsUnique reg.completed_at k w.once;
  final = λ j rec e. w.final j rec (ground (arith, e, Dict.get-remove reg.completed k j));
})

module _ (reg : Registry) (w : WellFormed reg) where
  complete-WellFormed :
      (now : ℕ) (agent_id : String) (rec : SubAgentRecord)
      → is_final rec.status ≡ true
      → WellFormed (complete now agent_id rec reg)
  unfolding complete
  complete-WellFormed now agent_id rec h =
      drop_all-WellFormed (stale now (Dict.put reg.completed_at agent_id now)) _ (record {
        paired = λ j. ground (
          arith,
          w.paired j,
          Dict.has-put reg.completed agent_id j rec,
          Dict.has-put reg.completed_at agent_id j now,
        );
        once = Dict.put-IsUnique reg.completed_at agent_id now w.once;
        final =
            λ j r e. ground (arith, e, h, w.final j r, Dict.get-put reg.completed agent_id j rec);
      })

pub unregister-WellFormed :
    (now : ℕ) (agent_id : String) (reg : Registry)
    → WellFormed reg
    → WellFormed (unregister now agent_id reg)
unfolding unregister
unregister-WellFormed now agent_id reg w = elim (Option-cases (Dict.get reg.agents agent_id)) [
  | inl absent ↦ rw (absent, unregister) (left (Dict.remove reg.agents agent_id))
  | inr (rec, there) ↦ elim (Bool-cases (is_final rec.status)) [
    | inl ended ↦
        rw (there, ended, unregister)
          (complete-WellFormed _ (left (Dict.remove reg.agents agent_id)) now agent_id rec ended)
    | inr active ↦ rw (there, active, unregister) (left (Dict.remove reg.agents agent_id))
  ]
]
  where
    left : (agents : Dict String SubAgentRecord) → WellFormed (record reg { agents = agents })
    left agents = record { paired = w.paired; once = w.once; final = w.final }

get_completed-WellFormed :
    (now : ℕ) (agent_id : String) (reg : Registry)
    → WellFormed reg
    → WellFormed (get_completed now agent_id reg).1
unfolding get_completed
get_completed-WellFormed now agent_id reg w =
    elim (Option-cases (Dict.get reg.completed agent_id)) [
      | inl absent ↦ rw (absent, get_completed) w
      | inr (rec, there) ↦
          elim (Bool-cases
            (ltb (time_or_zero (Dict.get reg.completed_at agent_id) + completed_ttl) now)) [
              | inl old ↦ rw (there, old, get_completed) (drop_all-WellFormed (agent_id ∷ []) reg w)
              | inr kept ↦ rw (there, kept, get_completed) w
            ]
    ]

alter-SameCompleted :
    (agent_id : String) (f : SubAgentRecord → SubAgentRecord) (reg : Registry)
    → SameCompleted reg (alter agent_id f reg)
unfolding alter
alter-SameCompleted agent_id f reg = elim (Option-cases (Dict.get reg.agents agent_id)) [
  | inl absent ↦ rw (absent, alter) (refl, refl)
  | inr (rec, there) ↦ rw (there, alter) (refl, refl)
]

cancel-SameCompleted : (name : String) (reg : Registry) → SameCompleted reg (cancel name reg).1
unfolding cancel
cancel-SameCompleted name reg = elim (Bool-cases (Dict.has reg.agents name)) [
  | inl there ↦ rw (there, cancel) (alter-SameCompleted name set_cancelled reg)
  | inr absent ↦ elim (Option-cases (find_by_label name reg.agents)) [
    | inl unknown ↦ rw (absent, unknown, cancel) (refl, refl)
    | inr (k, found) ↦ rw (absent, found, cancel) (alter-SameCompleted k set_cancelled reg)
  ]
]

pub apply-WellFormed : (op : Op) (reg : Registry) → WellFormed reg → WellFormed (apply op reg)
unfolding apply register update_iteration set_status cancel_all_managed
apply-WellFormed (register_op rec) reg w = SameCompleted-WellFormed reg _ (refl, refl) w
apply-WellFormed (unregister_op now agent_id) reg w = unregister-WellFormed now agent_id reg w
apply-WellFormed (get_completed_op now agent_id) reg w = get_completed-WellFormed now agent_id reg w
apply-WellFormed (update_iteration_op agent_id iteration) reg w =
    SameCompleted-WellFormed reg _ (alter-SameCompleted agent_id _ reg) w
apply-WellFormed (set_status_op agent_id status) reg w =
    SameCompleted-WellFormed reg _ (alter-SameCompleted agent_id _ reg) w
apply-WellFormed (cancel_op name) reg w =
    SameCompleted-WellFormed reg _ (cancel-SameCompleted name reg) w
apply-WellFormed cancel_all_managed_op reg w = SameCompleted-WellFormed reg _ (refl, refl) w

replay-from : (ops : List Op) (reg : Registry) → WellFormed reg → WellFormed (replay ops reg)
unfolding replay
replay-from [] reg w = w
replay-from (op ∷ ops) reg w = replay-from ops (apply op reg) (apply-WellFormed op reg w)

-- After any history of operations on an empty registry, the records of ended sub-agents and their
-- times are under the same ids, each time once, and every record kept is done, failed or cancelled.
pub replay-WellFormed : (ops : List Op) → WellFormed (replay ops empty)
unfolding Dict.has Dict.get
replay-WellFormed ops =
    replay-from ops empty
      (record { paired = λ k. refl; once = tt; final = λ k rec e. absurd (ground arith) })
