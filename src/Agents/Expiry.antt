-- ===== src/Agents/Expiry.antt =====
-- How long the registry keeps the records of sub-agents that ended.
use smallpieclaw.Prelude.{
  ℕ, ◌+◌, ◌≤◌, String, ◌==◌, string_eq, ◌≡◌, refl, ap, sym, ◌∙◌, true, false, none, some, List, [],
  ◌∷◌, arith, if◌then◌else◌, ltb, contains, Bool-cases, Option-cases, inl, inr,
}
use smallpieclaw.Dict
use smallpieclaw.Dict.{Dict}
use smallpieclaw.Agents.{
  SubAgentRecord, is_final, completed_ttl, Registry, stale, drop_all, complete, unregister,
  get_completed,
}
use smallpieclaw.Agents.Retention.{unregister-WellFormed, WellFormed, SameCompleted-WellFormed}

get-drop_all :
    (ks : List String) (reg : Registry) (j : String)
    → (Dict.get (drop_all ks reg).completed j
        ≡ (if contains ks j then none else Dict.get reg.completed j))
      × (Dict.get (drop_all ks reg).completed_at j
          ≡ (if contains ks j then none else Dict.get reg.completed_at j))
unfolding drop_all contains
get-drop_all [] reg j = (refl, refl)
get-drop_all (k ∷ ks) reg j = ground (
  arith,
  get-drop_all ks
      (record reg {
        completed = Dict.remove reg.completed k;
        completed_at = Dict.remove reg.completed_at k;
      })
      j,
  Dict.get-remove reg.completed k j,
  Dict.get-remove reg.completed_at k j,
)

agents-drop_all : (ks : List String) (reg : Registry) → (drop_all ks reg).agents ≡ reg.agents
unfolding drop_all
agents-drop_all [] reg = refl
agents-drop_all (k ∷ ks) reg = agents-drop_all ks _

stale-absent :
    (now : ℕ) (times : Dict String ℕ) (k : String)
    → Dict.has times k ≡ false
    → contains (stale now times) k ≡ false
unfolding stale contains Dict.has
stale-absent now [] k h = refl
stale-absent now ((j, s) ∷ times) k h = ground (arith, stale-absent now times k)

-- A time is dropped when it is older than the retention.
contains-stale :
    (now : ℕ) (times : Dict String ℕ) (k : String) (t : ℕ)
    → Dict.IsUnique times
    → Dict.get times k ≡ some t
    → contains (stale now times) k ≡ ltb (t + completed_ttl) now
unfolding stale contains Dict.get
contains-stale now [] k t u h = absurd (ground arith)
contains-stale now ((j, s) ∷ times) k t u h = elim (Bool-cases (j == k)) [
  | inl same ↦
      let here : j ≡ k = (string_eq.beq_iff j k).0 same in
      let out : contains (stale now times) k ≡ false =
        stale-absent now times k (rw (sym here) u.0) in
      ground (arith, out)
  | inr other ↦ ground (arith, contains-stale now times k t u.1)
]

-- What `get_completed` returns of a well-formed registry is the record kept under the id, it is of
-- a sub-agent that ended at most the retention ago, and the registry is left as it is.
get_completed-some :
    (now : ℕ) (agent_id : String) (reg : Registry) (rec : SubAgentRecord)
    → WellFormed reg
    → (get_completed now agent_id reg).0 ≡ some rec
    → (t : ℕ) × (Dict.get reg.completed_at agent_id ≡ some t)
      × (now ≤ t + completed_ttl)
      × (Dict.get reg.completed agent_id ≡ some rec)
      × (is_final rec.status ≡ true)
      × ((get_completed now agent_id reg).1 ≡ reg)
unfolding get_completed
get_completed-some now agent_id reg rec w h =
    elim (Option-cases (Dict.get reg.completed agent_id)) [
      | inl absent ↦ absurd (ground (arith, absent))
      | inr (kept, there) ↦
          let has_time = sym (w.paired agent_id) ∙ Dict.has-get reg.completed agent_id there in
          let (t, at) = Dict.get-has reg.completed_at agent_id has_time in
          elim (Bool-cases (ltb (t + completed_ttl) now)) [
            | inl old ↦ absurd (ground (arith, h, there, at, old))
            | inr fresh ↦
                let same : Dict.get reg.completed agent_id ≡ some rec =
                  ground (arith, h, there, at, fresh) in
                (
                  t,
                  at,
                  ground (arith, fresh),
                  same,
                  w.final agent_id rec same,
                  rw (there, at, fresh, get_completed) refl,
                )
          ]
    ]

agents-complete :
    (now : ℕ) (agent_id : String) (rec : SubAgentRecord) (reg : Registry)
    → (complete now agent_id rec reg).agents ≡ reg.agents
unfolding complete
agents-complete now agent_id rec reg =
    let times = Dict.put reg.completed_at agent_id now in
    agents-drop_all (stale now times)
      (record reg { completed = Dict.put reg.completed agent_id rec; completed_at = times })

-- What `complete` leaves under the id, and how old the times are.
record Kept (now : ℕ) (agent_id : String) (rec : SubAgentRecord) (reg : Registry) : Type 0 where
  there : Dict.get reg.completed agent_id ≡ some rec
  at : Dict.get reg.completed_at agent_id ≡ some now
  fresh : (k : String) (t : ℕ) → Dict.get reg.completed_at k ≡ some t → now ≤ t + completed_ttl

complete-Kept :
    (now : ℕ) (agent_id : String) (rec : SubAgentRecord) (reg : Registry)
    → WellFormed reg
    → Kept now agent_id rec (complete now agent_id rec reg)
unfolding complete
complete-Kept now agent_id rec reg w = record {
  there = ground (arith, dropped agent_id, Dict.get-put_self reg.completed agent_id rec, stays);
  at = ground (arith, dropped agent_id, Dict.get-put_self reg.completed_at agent_id now, stays);
  fresh = λ k t e.
      let put_in : Dict.get times k ≡ some t = ground (arith, e, dropped k) in
      ground (arith, e, dropped k, contains-stale now times k t unique put_in);
}
  where
    times : Dict String ℕ
    times = Dict.put reg.completed_at agent_id now

    unique : Dict.IsUnique times
    unique = Dict.put-IsUnique reg.completed_at agent_id now w.once

    stays : contains (stale now times) agent_id ≡ false
    stays = ground (
      arith,
      contains-stale now times agent_id now unique
          (Dict.get-put_self reg.completed_at agent_id now),
    )

    dropped :
        (j : String)
        → (Dict.get (complete now agent_id rec reg).completed j ≡ (
            if contains (stale now times) j
            then none
            else Dict.get (Dict.put reg.completed agent_id rec) j))
          × (Dict.get (complete now agent_id rec reg).completed_at j
              ≡ (if contains (stale now times) j then none else Dict.get times j))
    dropped j =
        get-drop_all (stale now times)
          (record reg { completed = Dict.put reg.completed agent_id rec; completed_at = times }) j

get_completed-Kept :
    (now : ℕ) (agent_id : String) (rec : SubAgentRecord) (reg : Registry)
    → Kept now agent_id rec reg
    → (get_completed now agent_id reg).0 ≡ some rec
unfolding get_completed
get_completed-Kept now agent_id rec reg k = ground (arith, k.there, k.at)

-- When a sub-agent that ended is unregistered from a well-formed registry, it is no longer listed,
-- `get_completed` finds its record at that time, exactly the ids with a record of an ended sub-agent
-- have a time, and none of these times is longer ago than the retention.
pub unregister-final :
    (now : ℕ) (agent_id : String) (reg : Registry) (rec : SubAgentRecord)
    → WellFormed reg
    → Dict.get reg.agents agent_id ≡ some rec
    → is_final rec.status ≡ true
    → (Dict.get (unregister now agent_id reg).agents agent_id ≡ none)
      × ((get_completed now agent_id (unregister now agent_id reg)).0 ≡ some rec)
      × ((k : String)
          → Dict.has (unregister now agent_id reg).completed k
            ≡ Dict.has (unregister now agent_id reg).completed_at k)
      × ((k : String) (t : ℕ)
          → Dict.get (unregister now agent_id reg).completed_at k ≡ some t
          → now ≤ t + completed_ttl)
unfolding unregister
unregister-final now agent_id reg rec w there ended =
    let left = record reg { agents = Dict.remove reg.agents agent_id } in
    let w' : WellFormed left = SameCompleted-WellFormed reg left (refl, refl) w in
    let kept = complete-Kept now agent_id rec left w' in
    let gone : Dict.get (complete now agent_id rec left).agents agent_id ≡ none =
      ap (λ agents. Dict.get agents agent_id) (agents-complete now agent_id rec left)
      ∙ Dict.get-remove_self reg.agents agent_id in
    let paired = (unregister-WellFormed now agent_id reg w).paired in
    (
      rw (there, ended, unregister) gone,
      rw (there, ended, unregister) (get_completed-Kept now agent_id rec _ kept),
      paired,
      rw (there, ended, unregister) kept.fresh,
    )
