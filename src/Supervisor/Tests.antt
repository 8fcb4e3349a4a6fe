-- ===== src/Supervisor/Tests.antt =====
-- A scheduled run that is cancelled, and one whose runner does not close.
use smallpieclaw.Prelude.{string_eq, ◌≡◌, refl, true, false, none, some, [], ◌∷◌}
use smallpieclaw.Dict
use smallpieclaw.Agents
use smallpieclaw.Agents.{SubAgentRecord, cancelled, scheduled, Registry, empty, get_completed}
use smallpieclaw.Agents.Retention.{replay-WellFormed}
use smallpieclaw.Supervisor.{
  SupervisionOptions, SubmissionRequest, returned, Envelope, set_status, set_result, save_context,
  signal_result, deregister, close, finish_cb, run_and_notify, runner, submit, apply_events,
}
use smallpieclaw.Supervisor.Order.{fresh, follow, end_phase, finish_tags, run_and_notify-follows}
use smallpieclaw.Supervisor.Registered.{final_status, submit-completes}

abbrev request : SubmissionRequest
request = record { label = "daily"; has_context_key = true; has_save_context = true }

abbrev options : SupervisionOptions
options = record {
  job_tag = some "job-1";
  has_finish_cb = true;
  has_result_log_cb = false;
  notify = true;
  source = scheduled;
  has_grant_scope_cb = false;
}

abbrev stopped : Envelope
stopped = record { run = returned "[Cancelled]"; timeout_cancelled = true; close_raises = false }

cancelled_trace :
    run_and_notify request options stopped
    ≡ set_status cancelled
      ∷ set_result "[Cancelled]"
      ∷ save_context
      ∷ signal_result
      ∷ deregister
      ∷ close
      ∷ finish_cb "job-1"
      ∷ []
unfolding run_and_notify
cancelled_trace = refl

-- The scheduler's callback is lost when the close raises.
lost_finish :
    finish_tags (run_and_notify request options (record stopped { close_raises = true })) ≡ []
unfolding run_and_notify finish_tags
lost_finish = refl

run_and_notify-follows_example :
    follow fresh (run_and_notify request options stopped) ≡ some (end_phase options stopped)
run_and_notify-follows_example = run_and_notify-follows request options stopped

submit-completes_example :
    (let over =
        apply_events 50 "sa-9"
          (run_and_notify request options stopped)
          (submit request options (runner "sa-9") empty).1 in
      (rec : SubAgentRecord) × (Dict.get over.agents "sa-9" ≡ none)
      × ((get_completed 50 "sa-9" over).0 ≡ some rec)
      × (rec.status ≡ final_status stopped.run)
      × (rec.label ≡ "daily"))
unfolding Agents.replay
submit-completes_example =
    submit-completes request options stopped 50 "sa-9" empty (replay-WellFormed [])
