-- ===== src/Outcome.antt =====
-- outcome_utils.py and the outcome dictionaries of execution_plan.py. A key that the code sets on
-- some outcomes only (`diagnosis`, `retry_count`) is an option; the texts that the executor itself
-- writes are constructors with what they interpolate.
use smallpieclaw.Prelude.{ℕ, String, Bool, false, Option, none}
use smallpieclaw.Prelude.Int.{ℤ, negsuc}

pub data ErrorText : Type 0 where
  text : String → ErrorText
  cancelled_before_execution cancelled_during_creation terminated_before_step : ErrorText
  dependency_did_not_succeed : String → ErrorText
  creation_failed execution_error : String → ErrorText
  cancelled_in_grace timed_out_in_grace cancelled_running timed_out_running : ErrorText
  cancelled_before_step : ErrorText

pub record Outcome : Type 0 where
  pub success : Bool
  pub output : String
  pub error : ErrorText
  pub exit_code : ℤ
  pub error_type : String
  pub recoverable : Bool
  pub suggestion : String
  pub diagnosis : Option String
  pub retry_count : Option ℕ

-- fail_outcome with its default keyword arguments.
unfoldable pub fail_outcome : ErrorText → Outcome
fail_outcome error = record {
  success = false;
  output = "";
  error = error;
  exit_code = negsuc 0;
  error_type = "";
  recoverable = false;
  suggestion = "";
  diagnosis = none;
  retry_count = none;
}
