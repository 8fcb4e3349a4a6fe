-- ===== src/Agents/Tests.antt =====
-- Runs of the registry.
use smallpieclaw.Prelude.{
  ℕ, ◌+◌, ◌≤◌, String, string_eq, ◌≡◌, refl, subst, true, false, none, some, List, [], ◌∷◌,
}
use smallpieclaw.Dict
use smallpieclaw.Agents.{
  SubAgentRecord, on_demand, plan_step, done, running, is_final, completed_ttl, Registry, empty, Op,
  register_op, set_status_op, get_completed, unregister, unregister_op, cancel, replay,
}
use smallpieclaw.Agents.Retention.{WellFormed, replay-WellFormed}
use smallpieclaw.Agents.Expiry.{unregister-final}

abbrev helper : SubAgentRecord
helper = record {
  agent_id = "sa-1";
  label = "on-demand";
  source = on_demand;
  iteration = 0;
  status = running;
  is_cancelled = false;
}

abbrev step : SubAgentRecord
step = record helper { agent_id = "sa-2"; label = "fetch"; source = plan_step }

abbrev finished : SubAgentRecord
finished = record helper { status = done }

abbrev history : List Op
history = register_op helper ∷ register_op step ∷ set_status_op "sa-1" done ∷ []

abbrev two_agents : Registry
two_agents = record {
  agents = ("sa-1", finished) ∷ ("sa-2", step) ∷ [];
  completed = [];
  completed_at = [];
}

replayed : replay history empty ≡ two_agents
unfolding replay
replayed = refl

replay-WellFormed_example : WellFormed (replay history empty)
replay-WellFormed_example = replay-WellFormed history

two_agents-WellFormed : WellFormed two_agents
two_agents-WellFormed = subst WellFormed replayed (replay-WellFormed history)

unregister-final_example :
    (Dict.get (unregister 1000 "sa-1" two_agents).agents "sa-1" ≡ none)
    × ((get_completed 1000 "sa-1" (unregister 1000 "sa-1" two_agents)).0 ≡ some finished)
    × ((k : String)
        → Dict.has (unregister 1000 "sa-1" two_agents).completed k
          ≡ Dict.has (unregister 1000 "sa-1" two_agents).completed_at k)
    × ((k : String) (t : ℕ)
        → Dict.get (unregister 1000 "sa-1" two_agents).completed_at k ≡ some t
        → 1000 ≤ t + completed_ttl)
unfolding is_final Dict.get
unregister-final_example =
    unregister-final 1000 "sa-1" two_agents finished two_agents-WellFormed refl refl

abbrev ended : Registry
ended = record {
  agents = [];
  completed = ("sa-1", finished) ∷ [];
  completed_at = ("sa-1", 1000) ∷ [];
}

abbrev ending : List Op
ending = register_op helper ∷ set_status_op "sa-1" done ∷ unregister_op 1000 "sa-1" ∷ []

ended_history : replay ending empty ≡ ended
unfolding replay
ended_history = refl

ended-WellFormed : WellFormed ended
ended-WellFormed = subst WellFormed ended_history (replay-WellFormed ending)

-- Later than the retention, the record is gone.
expired : get_completed 1301 "sa-1" ended ≡ (none, empty)
unfolding get_completed
expired = refl

-- A label is looked for where no id fits.
by_label : (cancel "fetch" two_agents).0 ≡ true
unfolding cancel
by_label = refl
