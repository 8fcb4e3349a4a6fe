-- ===== src/Agents.antt =====
-- sub_agent_registry.py: `SubAgentRegistry`, the running sub-agents and the results kept of those
-- that ended. The lock makes each operation one step. Clocks count in whole units, given to each
-- operation that reads the time; the records that the registry shares with the runners are changed
-- through it (`set_status` stands for `_finalize_terminal`, which writes the status of a running
-- record). The client of a record and its other display fields are left out.
pub mod Retention
pub mod Expiry
pub mod Cancelling
mod Tests
use smallpieclaw.Prelude.{
  ℕ, suc, ◌+◌, String, ◌==◌, string_eq, Bool, true, false, Option, none, some, List, [], ◌∷◌,
  if◌then◌else◌, ltb,
}
use smallpieclaw.Dict
use smallpieclaw.Dict.{Dict}

pub data Source : Type 0 where
  on_demand scheduled plan_step diagnostic : Source

pub data Status : Type 0 where
  running done failed cancelled : Status

pub record SubAgentRecord : Type 0 where
  pub agent_id : String
  pub label : String
  pub source : Source
  pub iteration : ℕ
  pub status : Status
  -- the cancel event is set
  pub is_cancelled : Bool

-- source in CAPACITY_COUNTED_SOURCES
unfoldable pub is_managed : SubAgentRecord → Bool
is_managed rec = elim rec.source [
  | on_demand ↦ true
  | scheduled ↦ true
  | plan_step ↦ false
  | diagnostic ↦ false
]

-- status in ("done", "failed", "cancelled")
unfoldable pub is_final : Status → Bool
is_final running = false
is_final done = true
is_final failed = true
is_final cancelled = true

abbrev pub set_cancelled : SubAgentRecord → SubAgentRecord
set_cancelled rec = record rec { is_cancelled = true }

abbrev pub completed_ttl : ℕ
completed_ttl = 300

pub record Registry : Type 0 where
  pub agents : Dict String SubAgentRecord
  pub completed : Dict String SubAgentRecord
  pub completed_at : Dict String ℕ

abbrev pub empty : Registry
empty = record { agents = []; completed = []; completed_at = [] }

unfoldable pub register : SubAgentRecord → Registry → Registry
unfolding Dict.put
register rec reg = record reg { agents = Dict.put reg.agents rec.agent_id rec }

-- [k for k, t in self._completed_at.items() if t < now - ttl]
unfoldable pub stale : ℕ → Dict String ℕ → List String
stale now [] = []
stale now ((k, t) ∷ times) =
    let rest = stale now times in if ltb (t + completed_ttl) now then k ∷ rest else rest

-- for k in stale: the record and its time are popped
unfoldable pub drop_all : List String → Registry → Registry
unfolding Dict.remove
drop_all [] reg = reg
drop_all (k ∷ ks) reg = drop_all ks (record reg {
  completed = Dict.remove reg.completed k;
  completed_at = Dict.remove reg.completed_at k;
})

unfoldable pub complete : ℕ → String → SubAgentRecord → Registry → Registry
unfolding Dict.put stale drop_all
complete now agent_id rec reg =
    let times = Dict.put reg.completed_at agent_id now in
    drop_all (stale now times)
      (record reg { completed = Dict.put reg.completed agent_id rec; completed_at = times })

unfoldable pub unregister : ℕ → String → Registry → Registry
unfolding Dict.get Dict.remove complete is_final
unregister now agent_id reg =
    let left = record reg { agents = Dict.remove reg.agents agent_id } in
    elim (Dict.get reg.agents agent_id) [
      | none ↦ left
      | some rec ↦ if is_final rec.status then complete now agent_id rec left else left
    ]

abbrev pub time_or_zero : Option ℕ → ℕ
time_or_zero none = 0
time_or_zero (some t) = t

-- `get_completed`: what it returns, and the tables without an entry that is too old.
unfoldable pub get_completed : ℕ → String → Registry → Option SubAgentRecord × Registry
unfolding Dict.get drop_all
get_completed now agent_id reg = elim (Dict.get reg.completed agent_id) [
  | none ↦ (none, reg)
  | some rec ↦
      if ltb (time_or_zero (Dict.get reg.completed_at agent_id) + completed_ttl) now
      then (none, drop_all (agent_id ∷ []) reg)
      else (some rec, reg)
]

-- A change to the record that is registered under an id.
unfoldable pub alter : String → (SubAgentRecord → SubAgentRecord) → Registry → Registry
unfolding Dict.get Dict.put
alter agent_id f reg = elim (Dict.get reg.agents agent_id) [
  | none ↦ reg
  | some rec ↦ record reg { agents = Dict.put reg.agents agent_id (f rec) }
]

unfoldable pub update_iteration : String → ℕ → Registry → Registry
unfolding alter
update_iteration agent_id iteration reg =
    alter agent_id (λ rec. record rec { iteration = iteration }) reg

unfoldable pub set_status : String → Status → Registry → Registry
unfolding alter
set_status agent_id status reg = alter agent_id (λ rec. record rec { status = status }) reg

-- The id of the first record with this label, as `find_by_label` looks for it.
unfoldable pub find_by_label : String → Dict String SubAgentRecord → Option String
find_by_label label [] = none
find_by_label label ((k, rec) ∷ agents) =
    let rest = find_by_label label agents in if rec.label == label then some k else rest

-- `cancel`: by id, and else by label.
unfoldable pub cancel : String → Registry → Bool × Registry
unfolding alter Dict.has find_by_label
cancel name reg =
    if Dict.has reg.agents name
    then (true, alter name set_cancelled reg)
    else elim (find_by_label name reg.agents) [
      | none ↦ (false, reg)
      | some k ↦ (true, alter k set_cancelled reg)
    ]

unfoldable pub count_managed : Dict String SubAgentRecord → ℕ
unfolding is_managed
count_managed [] = 0
count_managed ((k, rec) ∷ agents) =
    let rest = count_managed agents in if is_managed rec then suc rest else rest

-- The two loops of `cancel_all_managed`, with the count of its targets.
unfoldable pub cancel_managed : Dict String SubAgentRecord → ℕ × Dict String SubAgentRecord
unfolding is_managed
cancel_managed [] = (0, [])
cancel_managed ((k, rec) ∷ agents) =
    let (n, rest) = cancel_managed agents in
    if is_managed rec then (suc n, (k, set_cancelled rec) ∷ rest) else (n, (k, rec) ∷ rest)

unfoldable pub cancel_all_managed : Registry → ℕ × Registry
unfolding cancel_managed
cancel_all_managed reg =
    let (n, agents) = cancel_managed reg.agents in (n, record reg { agents = agents })

-- The operations that change the registry, for histories of them.
pub data Op : Type 0 where
  register_op : SubAgentRecord → Op
  unregister_op get_completed_op : (now : ℕ) → String → Op
  update_iteration_op : String → ℕ → Op
  set_status_op : String → Status → Op
  cancel_op : String → Op
  cancel_all_managed_op : Op

unfoldable pub apply : Op → Registry → Registry
unfolding register unregister get_completed update_iteration set_status cancel cancel_all_managed
apply (register_op rec) reg = register rec reg
apply (unregister_op now agent_id) reg = unregister now agent_id reg
apply (get_completed_op now agent_id) reg = (get_completed now agent_id reg).1
apply (update_iteration_op agent_id iteration) reg = update_iteration agent_id iteration reg
apply (set_status_op agent_id status) reg = set_status agent_id status reg
apply (cancel_op name) reg = (cancel name reg).1
apply cancel_all_managed_op reg = (cancel_all_managed reg).1

unfoldable pub replay : List Op → Registry → Registry
unfolding apply
replay [] reg = reg
replay (op ∷ ops) reg = replay ops (apply op reg)
