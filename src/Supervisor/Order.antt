-- ===== src/Supervisor/Order.antt =====
-- The order in which a background run does its terminal steps.
use smallpieclaw.Prelude.{
  ℕ, ◌+◌, String, ◌==◌, string_eq, ◌≡◌, Bool, false, not, ◌&&◌, Option, none, some, List, [], ◌∷◌,
  arith, if◌then◌else◌,
}
use smallpieclaw.Agents.{is_final}
use smallpieclaw.Supervisor.{
  SupervisionOptions, SubmissionRequest, returned, raised, Envelope, Event, set_status, set_result,
  save_context, signal_result, notification, deregister, close, grant_scope_cb, result_log,
  finish_cb, finish_tag, save_before_completion, finalize_terminal, conclude, clean_up,
  run_and_notify,
}

-- How far a run has come, by the events that its observers see.
pub data Phase : Type 0 where
  fresh named filled saved signalled logged notified removed closed scoped finished : Phase

-- The events that a phase allows, and where they lead: a final status and the result come before
-- the context is saved, which comes before the completion is signalled; the log and the
-- notification come behind it, then the removal from the registry, the close, and the callbacks.
unfoldable pub advance : Phase → Event → Option Phase
unfolding is_final
advance fresh (set_status status) = if is_final status then some named else none
advance named (set_result result) = some filled
advance filled save_context = some saved
advance filled signal_result = some signalled
advance saved signal_result = some signalled
advance signalled (result_log success) = some logged
advance signalled notification = some notified
advance signalled deregister = some removed
advance logged notification = some notified
advance logged deregister = some removed
advance notified deregister = some removed
advance removed close = some closed
advance closed grant_scope_cb = some scoped
advance closed (finish_cb tag) = some finished
advance scoped (finish_cb tag) = some finished
advance _ _ = none

unfoldable pub follow : Phase → List Event → Option Phase
follow phase [] = some phase
follow phase (e ∷ events) = elim (advance phase e) [ none ↦ none | some next ↦ follow next events ]

-- Where the run is over: behind the close when that raises, else behind the callbacks that it has.
unfoldable pub end_phase : SupervisionOptions → Envelope → Phase
end_phase options envelope =
    if envelope.close_raises
    then closed
    else if options.has_finish_cb
    then finished
    else if options.has_grant_scope_cb
    then scoped
    else closed

-- Every background run goes through its terminal steps in that order, each at most once, whatever
-- the runner and the callbacks do.
pub run_and_notify-follows :
    (request : SubmissionRequest) (options : SupervisionOptions) (envelope : Envelope)
    → follow fresh (run_and_notify request options envelope) ≡ some (end_phase options envelope)
unfolding run_and_notify conclude clean_up finalize_terminal save_before_completion follow advance
    end_phase
run_and_notify-follows request options envelope = ground arith

-- How many notifications are sent, and with which tags the finish callback is called.
unfoldable pub notifications : List Event → ℕ
notifications [] = 0
notifications (notification ∷ events) = 1 + notifications events
notifications (_ ∷ events) = notifications events

unfoldable pub finish_tags : List Event → List String
finish_tags [] = []
finish_tags (finish_cb tag ∷ events) = tag ∷ finish_tags events
finish_tags (_ ∷ events) = finish_tags events

-- A run is suppressed when get_agent_result has given up on it and it ends as cancelled.
unfoldable pub is_suppressed : Envelope → Bool
is_suppressed envelope = elim envelope.run [
  | raised exc ↦ false
  | returned result ↦ result == "[Cancelled]" && envelope.timeout_cancelled
]

-- One notification is sent, unless notifications are off or the run is suppressed; and the finish
-- callback is called once, with the job's tag or else the label, unless there is none or the
-- runner's close raises.
run_and_notify-callbacks :
    (request : SubmissionRequest) (options : SupervisionOptions) (envelope : Envelope)
    → (notifications (run_and_notify request options envelope)
        ≡ (if options.notify && not (is_suppressed envelope) then 1 else 0))
      × (finish_tags (run_and_notify request options envelope) ≡ (
          if options.has_finish_cb && not envelope.close_raises
          then finish_tag options request ∷ []
          else []))
unfolding run_and_notify conclude clean_up finalize_terminal save_before_completion notifications
    finish_tags is_suppressed
run_and_notify-callbacks request options envelope = ground arith
