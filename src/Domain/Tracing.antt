-- ===== src/Domain/Tracing.antt =====
-- domain/backtesting.py: the trace of an evaluation. The closed sets of texts are data types.
use smc_ict_engine.Prelude.{
  ℕ, Option, String, List, str_eq, Result, ok, value_error, ◌>>◌, raise_if,
}

pub data StepKind : Type 0 where
  indicator decision_gate : StepKind

pub data StepState : Type 0 where
  step_pass step_fail step_unavailable step_reject skipped_after_rejection : StepState

pub record PipelineStep : Type 0 where
  pub kind : StepKind
  pub step_id : String
  pub state : StepState
  pub reason : String
  pub dependency_hashes : List (String × String)
  pub output_hash : Option String

-- What is left of `PipelineStep.__post_init__` where the state is one of its kind's.
unfoldable pub checked_step : PipelineStep → Result PipelineStep
checked_step s = do raise_if (str_eq s.reason "") value_error; ok s

pub record PipelineTrace : Type 0 where
  pub instrument_id : String
  pub evaluation_time_ms : ℕ
  pub steps : List PipelineStep
  pub first_rejection : Option String
  pub decision_hash : String
