-- ===== src/Agents/Cancelling.antt =====
-- `cancel_all_managed` reaches exactly the sub-agents that count against the capacity.
use smallpieclaw.Prelude.{
  String, string_eq, ◌≡◌, refl, Option, none, some, [], ◌∷◌, arith, if◌then◌else◌,
}
use smallpieclaw.Dict
use smallpieclaw.Dict.{Dict}
use smallpieclaw.Agents.{
  SubAgentRecord, set_cancelled, is_managed, Registry, count_managed, cancel_managed,
  cancel_all_managed,
}

-- The record after `cancel_all_managed`.
abbrev pub after_cancel : Option SubAgentRecord → Option SubAgentRecord
after_cancel none = none
after_cancel (some rec) = some (if is_managed rec then set_cancelled rec else rec)

count_cancel_managed :
    (agents : Dict String SubAgentRecord) → (cancel_managed agents).0 ≡ count_managed agents
unfolding cancel_managed count_managed
count_cancel_managed [] = refl
count_cancel_managed ((k, rec) ∷ agents) = ground (arith, count_cancel_managed agents)

get-cancel_managed :
    (agents : Dict String SubAgentRecord) (j : String)
    → Dict.get (cancel_managed agents).1 j ≡ after_cancel (Dict.get agents j)
unfolding cancel_managed Dict.get
get-cancel_managed [] j = refl
get-cancel_managed ((k, rec) ∷ agents) j = ground (arith, get-cancel_managed agents j)

-- `cancel_all_managed` sets the cancel event of every record that counts against the capacity, leaves
-- every other record as it is, and returns what `count_managed` says.
cancel_all_managed-targets :
    (reg : Registry)
    → ((cancel_all_managed reg).0 ≡ count_managed reg.agents)
      × ((j : String)
          → Dict.get (cancel_all_managed reg).1.agents j ≡ after_cancel (Dict.get reg.agents j))
unfolding cancel_all_managed
cancel_all_managed-targets reg =
    (count_cancel_managed reg.agents, λ j. get-cancel_managed reg.agents j)
