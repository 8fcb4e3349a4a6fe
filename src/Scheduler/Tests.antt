-- ===== src/Scheduler/Tests.antt =====
-- A job that runs one that does not overlap with itself, and a small log.
use mathlib.Core.List.{reverse}
use smallpieclaw.Dict
use smallpieclaw.Prelude.{
  String, string_eq, nat_eq, list_eq, list_beq, ◌≡◌, refl, true, false, none, some, List, [], ◌∷◌,
  keep, take,
}
use smallpieclaw.Scheduler.{JobRequest, empty, add_job}
use smallpieclaw.Scheduler.Tags.{Text, is_context_key, normalize_context_key}
use smallpieclaw.Scheduler.Tags.Keys.{normalize_context_key-accepted}
use smallpieclaw.Scheduler.Schedule.{Library, other}
use smallpieclaw.Scheduler.ExecutionLog.{LogEntry, rotate}
use smallpieclaw.Scheduler.ExecutionLog.Rotation.{of_tag, rotate-newest}
use smallpieclaw.Scheduler.Runs.{Action, add, trigger, hand_over, end_run, spawn_succeeds, replay}
use smallpieclaw.Scheduler.Runs.Places.{IsSound}
use smallpieclaw.Scheduler.Runs.Overlap.{replay-IsSound}

-- Stripping and lowering change none of the texts here.
abbrev library : Library
library = record {
  strip = λ text. text;
  lower = λ text. text;
  decimal = λ text. some text;
  show = λ n. n ∷ [];
  is_cron = λ text. true;
}

abbrev raw_tag : Text
raw_tag = b'-' ∷ b'a' ∷ b'!' ∷ b'?' ∷ b'-' ∷ b'b' ∷ []

-- "-a!?-b" becomes "a_b".
normalized : normalize_context_key (λ t. t) (λ t. t) raw_tag ≡ b'a' ∷ b'_' ∷ b'b' ∷ []
unfolding normalize_context_key
normalized = refl

normalize_context_key-accepted_example :
    is_context_key (normalize_context_key (λ t. t) (λ t. t) raw_tag) ≡ true
normalize_context_key-accepted_example =
    normalize_context_key-accepted (λ t. t) (λ t. t) raw_tag (λ text safe. refl) (λ text safe. refl)

abbrev job : Text
job = b'a' ∷ []

abbrev request : JobRequest
request = record {
  tag = job;
  schedule_type = other;
  task = b't' ∷ [];
  notify = true;
  hours = none;
  minutes = none;
  time_str = none;
  run_at = none;
  cron = some (b'*' ∷ []);
  source = "dynamic";
  model = none;
  preserve_context = false;
  context_max_messages = 50;
  overlap_policy = "skip";
}

-- The second trigger comes while the sub-agent runs, and closing its runner raises.
abbrev history : List Action
history =
    trigger job
    ∷ end_run 0 true
    ∷ trigger job
    ∷ hand_over library 0 (b'1' ∷ []) spawn_succeeds
    ∷ trigger job
    ∷ add library request (b'0' ∷ []) none
    ∷ []

replay-IsSound_example : IsSound (replay history)
replay-IsSound_example = replay-IsSound history (tt, (tt, (tt, (tt, (tt, ((refl, tt), tt))))))

-- The tag stays marked as running: the job is not started again.
lost_forever : (replay history).flights ≡ []
unfolding replay list_beq Dict.get
lost_forever = refl

-- A cron expression of spaces that are stripped is accepted, and the job has no expression.
abbrev blank : JobRequest
blank = record request { cron = some (32 ∷ []) }

blank_accepted :
    (add_job (record library { strip = λ text. [] }) blank (b'0' ∷ []) none empty).0 ≡ none
unfolding add_job
blank_accepted = refl

abbrev entry : Text → String → LogEntry
entry tag ts = record {
  ts = ts;
  tag = tag;
  task = [];
  result = [];
  success = true;
  elapsed_s = 0;
  model = [];
  error_type = none;
}

abbrev entries : List LogEntry
entries = entry job "1" ∷ entry [] "2" ∷ entry job "3" ∷ entry job "4" ∷ []

rotated : rotate 2 (λ a b. true) "0" entries ≡ entry [] "2" ∷ entry job "3" ∷ entry job "4" ∷ []
unfolding rotate list_beq
rotated = refl

rotate-newest_example :
    of_tag job (rotate 2 (λ a b. true) "0" entries)
    ≡ reverse (take 2 (reverse (of_tag job (keep (λ e. true) entries))))
rotate-newest_example = rotate-newest 2 (λ a b. true) "0" entries job
