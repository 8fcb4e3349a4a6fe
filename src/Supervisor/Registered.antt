-- ===== src/Supervisor/Registered.antt =====
-- A submitted run, from its registration to the result that the registry keeps.
use smallpieclaw.Prelude.{
  ℕ, String, ◌==◌, string_eq, ◌≡◌, refl, true, false, none, some, arith, if◌then◌else◌,
}
use smallpieclaw.Dict
use smallpieclaw.Agents
use smallpieclaw.Agents.{
  SubAgentRecord, Status, running, done, failed, cancelled, is_final, Registry, get_completed,
  unregister, set_status, alter,
}
use smallpieclaw.Agents.Retention.{WellFormed, apply-WellFormed}
use smallpieclaw.Agents.Expiry.{unregister-final}
use smallpieclaw.Supervisor.{
  SupervisionOptions, SubmissionRequest, RunEnd, returned, raised, Envelope, save_before_completion,
  finalize_terminal, conclude, clean_up, run_and_notify, runner, submit, register_run, apply_events,
  apply_event,
}

-- The status of a run, by how the runner ends.
unfoldable pub final_status : RunEnd → Status
final_status (raised exc) = failed
final_status (returned result) = if result == "[Cancelled]" then cancelled else done

final_status-is_final : (e : RunEnd) → is_final (final_status e) ≡ true
unfolding final_status is_final
final_status-is_final (raised exc) = refl
final_status-is_final (returned result) = ground arith

-- Of all events only the status and the removal reach the registry.
events-registry :
    (request : SubmissionRequest) (options : SupervisionOptions) (envelope : Envelope) (now : ℕ)
    (agent_id : String) (reg : Registry)
    → apply_events now agent_id (run_and_notify request options envelope) reg
      ≡ unregister now agent_id (set_status agent_id (final_status envelope.run) reg)
unfolding run_and_notify conclude clean_up finalize_terminal save_before_completion apply_events
    apply_event final_status
events-registry request options envelope now agent_id reg = ground arith

get-set_status :
    (agent_id : String) (status : Status) (reg : Registry) (rec : SubAgentRecord)
    → Dict.get reg.agents agent_id ≡ some rec
    → Dict.get (set_status agent_id status reg).agents agent_id
      ≡ some (record rec { status = status })
unfolding set_status alter
get-set_status agent_id status reg rec h =
    ground (arith, h, Dict.get-put_self reg.agents agent_id (record rec { status = status }))

-- When a request is admitted into a well-formed registry and its run is over, the run is no longer
-- listed among the active ones, and `get_completed` finds its record at that time, with the final
-- status that tells how the runner ended.
pub submit-completes :
    (request : SubmissionRequest) (options : SupervisionOptions) (envelope : Envelope) (now : ℕ)
    (agent_id : String) (reg : Registry)
    → WellFormed reg
    → (let start = (submit request options (runner agent_id) reg).1 in
        let over = apply_events now agent_id (run_and_notify request options envelope) start in
        (rec : SubAgentRecord) × (Dict.get over.agents agent_id ≡ none)
        × ((get_completed now agent_id over).0 ≡ some rec)
        × (rec.status ≡ final_status envelope.run)
        × (rec.label ≡ request.label))
unfolding submit register_run Agents.register Agents.apply Agents.set_status
submit-completes request options envelope now agent_id reg w =
    let status = final_status envelope.run in
    let fresh : SubAgentRecord = record {
      agent_id = agent_id;
      label = request.label;
      source = options.source;
      iteration = 0;
      status = running;
      is_cancelled = false;
    } in
    let start = Agents.register fresh reg in
    let started : WellFormed start = apply-WellFormed (Agents.register_op fresh) reg w in
    let ended : WellFormed (set_status agent_id status start) =
      apply-WellFormed (Agents.set_status_op agent_id status) start started in
    let over =
      unregister-final now agent_id (set_status agent_id status start)
        (record fresh { status = status }) ended
        (get-set_status agent_id status start fresh (Dict.get-put_self reg.agents agent_id fresh))
        (final_status-is_final envelope.run) in
    rw (events-registry request options envelope now agent_id start)
      (record fresh { status = status }, over.0, over.1, refl, refl)
