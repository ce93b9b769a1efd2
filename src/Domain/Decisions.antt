-- ===== src/Domain/Decisions.antt =====
-- domain/decisions.py and the evaluation of domain/backtesting.py. The
-- hashes are SHA-256 digests of canonical JSON: a value carries its digest, and nothing here
-- depends on how it was computed.
use smc_ict_engine.Prelude.{
  ℕ, true, Option, none, some, String, List, str_eq, Result, ok, value_error, not, ◌&&◌, ◌||◌, ◌>>◌,
  raise_if, is_some,
}
use smc_ict_engine.Decimal.{Decimal}
use smc_ict_engine.Domain.Values.{is_instrument_id}
use smc_ict_engine.Domain.Tracing.{PipelineTrace}

pub data DecisionStatus : Type 0 where
  ready no_trade unavailable : DecisionStatus

pub data Direction : Type 0 where
  long short : Direction

pub record Decision : Type 0 where
  pub instrument_id : String
  pub status : DecisionStatus
  pub direction : Option Direction
  pub entry : Option Decimal
  pub stop : Option Decimal
  pub target : Option Decimal
  pub first_failed_signal : Option String
  -- `payload["observation_hashes"]`, in insertion order
  pub observation_hashes : List (String × String)

-- `Decision.__post_init__`: a ready decision has every level and no failed signal, any other has
-- only a failed signal, which is not empty.
unfoldable pub checked_decision : Decision → Result Decision
checked_decision d = do
  raise_if (not (is_instrument_id d.instrument_id)) value_error
  elim d.status [
    | ready ↦
        raise_if
          (not (is_some d.direction)
            || is_some d.first_failed_signal
            || not (is_some d.entry && is_some d.stop && is_some d.target))
          value_error
    | _ ↦
        raise_if
          (is_some d.direction
            || is_some d.entry
            || is_some d.stop
            || is_some d.target
            || elim d.first_failed_signal [ none ↦ true | some s ↦ str_eq s "" ])
          value_error
  ]
  ok d

pub record ReplayEvaluation : Type 0 where
  pub instrument_id : String
  pub evaluation_time_ms : ℕ
  pub decision : Decision
  pub decision_hash : String
  pub trace : PipelineTrace
