-- ===== src/Supervisor.antt =====
-- sub_agent_supervisor.py: `SubAgentSupervisor.submit`, `_run_and_notify` with `_finalize_terminal`
-- and `_safe_result_log`, on a pool thread. What the thread does to the record, to the registry and
-- to its callbacks is a list of events; what the runner and the callbacks do in return is given by
-- an `Envelope`. Texts of notifications are left out.
pub mod Order
pub mod Registered
mod Tests
use smallpieclaw.Prelude.{
  ℕ, suc, String, ◌==◌, string_eq, Bool, true, false, not, ◌&&◌, ◌||◌, Option, none, some, List, [],
  ◌∷◌, ◌++◌, if◌then◌else◌,
}
use smallpieclaw.Agents
use smallpieclaw.Agents.{Source, SubAgentRecord, Status, running, done, failed, cancelled, Registry}

pub record SupervisionOptions : Type 0 where
  pub job_tag : Option String
  pub has_finish_cb : Bool
  pub has_result_log_cb : Bool
  pub notify : Bool
  pub source : Source
  pub has_grant_scope_cb : Bool

pub record SubmissionRequest : Type 0 where
  pub label : String
  -- `context_key` is a text that is not empty, and there is a `save_context`
  pub has_context_key : Bool
  pub has_save_context : Bool

-- How `runner.run` ends.
pub data RunEnd : Type 0 where
  returned : String → RunEnd
  raised : String → RunEnd

-- What the thread finds outside. The results of the save, of the result log, of the notification
-- and of the scope callback are not here: the code goes on the same way when they raise.
pub record Envelope : Type 0 where
  pub run : RunEnd
  -- get_agent_result cancelled the run because of a timeout
  pub timeout_cancelled : Bool
  pub close_raises : Bool

pub data Event : Type 0 where
  set_status : Status → Event
  set_result : String → Event
  save_context signal_result notification deregister close grant_scope_cb : Event
  result_log : (success : Bool) → Event
  finish_cb : String → Event

-- The events up to a point, and `context_save_attempted`.
pub record Progress : Type 0 where
  pub events : List Event
  pub save_attempted : Bool

abbrev pub emit : List Event → Progress → Progress
emit more p = record p { events = p.events ++ more }

-- job_tag or label
unfoldable pub finish_tag : SupervisionOptions → SubmissionRequest → String
finish_tag options request = elim options.job_tag [
  | none ↦ request.label
  | some tag ↦ if tag == "" then request.label else tag
]

-- `_save_context_before_completion`
unfoldable pub save_before_completion : SubmissionRequest → Progress → Progress
save_before_completion request p =
    if not request.has_context_key || p.save_attempted || not request.has_save_context
    then p
    else record { events = p.events ++ save_context ∷ []; save_attempted = true }

abbrev is_cancelled_status : Status → Bool
is_cancelled_status cancelled = true
is_cancelled_status running = false
is_cancelled_status done = false
is_cancelled_status failed = false

unfoldable pub finalize_terminal :
    SubmissionRequest
    → SupervisionOptions
    → Envelope
    → Status
    → String
    → (success : Bool) → Progress
    → Progress
unfolding save_before_completion
finalize_terminal request options envelope status result success p =
    let saved =
      save_before_completion request (emit (set_status status ∷ set_result result ∷ []) p) in
    let logged =
      emit (signal_result ∷ (if options.has_result_log_cb then result_log success ∷ [] else []))
        saved in
    if not options.notify || is_cancelled_status status && envelope.timeout_cancelled
    then logged
    else emit (notification ∷ []) logged

abbrev pub cancelled_sentinel : String
cancelled_sentinel = "[Cancelled]"

-- The `try` with its `except`.
unfoldable pub conclude : SubmissionRequest → SupervisionOptions → Envelope → Progress → Progress
unfolding finalize_terminal
conclude request options envelope p = elim envelope.run [
  | raised exc ↦ finalize_terminal request options envelope failed exc false p
  | returned result ↦
      if result == cancelled_sentinel
      then finalize_terminal request options envelope cancelled cancelled_sentinel false p
      else finalize_terminal request options envelope done result true p
]

-- The `finally`; when `runner.close` raises, nothing behind it runs.
unfoldable pub clean_up : SubmissionRequest → SupervisionOptions → Envelope → Progress → List Event
unfolding save_before_completion finish_tag
clean_up request options envelope p =
    let closed = (save_before_completion request p).events ++ deregister ∷ close ∷ [] in
    let behind =
      (if options.has_grant_scope_cb then grant_scope_cb ∷ [] else [])
      ++ (if options.has_finish_cb then finish_cb (finish_tag options request) ∷ [] else []) in
    if envelope.close_raises then closed else closed ++ behind

unfoldable pub run_and_notify : SubmissionRequest → SupervisionOptions → Envelope → List Event
unfolding conclude clean_up
run_and_notify request options envelope =
    clean_up request options envelope
      (conclude request options envelope (record { events = []; save_attempted = false }))

-- What `submit` answers: the rejection of an invalid model, or the id of a run that has started.
pub data Admission : Type 0 where
  wrong_model_for_task : String → Admission
  admitted : String → Admission

-- The factory builds a runner with this id, or raises a ValueError.
pub data Built : Type 0 where
  runner : (agent_id : String) → Built
  value_error : String → Built

-- register_run
unfoldable pub register_run : String → Source → String → Registry → Registry
unfolding Agents.register
register_run agent_id source label reg =
    Agents.register
      (record {
        agent_id = agent_id;
        label = label;
        source = source;
        iteration = 0;
        status = running;
        is_cancelled = false;
      })
      reg

unfoldable pub submit :
    SubmissionRequest → SupervisionOptions → Built → Registry → Admission × Registry
unfolding register_run
submit request options built reg = elim built [
  | value_error exc ↦ (wrong_model_for_task exc, reg)
  | runner agent_id ↦ (admitted agent_id, register_run agent_id options.source request.label reg)
]

-- What the events of a run do to the registry, when it is deregistered at the time `now`.
unfoldable pub apply_event : ℕ → String → Event → Registry → Registry
unfolding Agents.set_status Agents.unregister
apply_event now agent_id (set_status status) reg = Agents.set_status agent_id status reg
apply_event now agent_id deregister reg = Agents.unregister now agent_id reg
apply_event now agent_id (set_result result) reg = reg
apply_event now agent_id save_context reg = reg
apply_event now agent_id signal_result reg = reg
apply_event now agent_id notification reg = reg
apply_event now agent_id close reg = reg
apply_event now agent_id grant_scope_cb reg = reg
apply_event now agent_id (result_log success) reg = reg
apply_event now agent_id (finish_cb tag) reg = reg

unfoldable pub apply_events : ℕ → String → List Event → Registry → Registry
unfolding apply_event
apply_events now agent_id [] reg = reg
apply_events now agent_id (e ∷ events) reg =
    apply_events now agent_id events (apply_event now agent_id e reg)
