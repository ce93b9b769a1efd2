-- ===== src/Policy/Tests.antt =====
-- A decision over two signals, and the theorem at it.
use smc_ict_engine.Prelude.{true, none, String, List, [], ◌∷◌}
use smc_ict_engine.Domain.{Timeframe, Observation, ObservationStatus, Decision, DecisionStatus}
use smc_ict_engine.Graph.{RunContext, Observations}
use smc_ict_engine.Policy.{DecisionSignal, Effect, stopped}

abbrev sample_context : RunContext
sample_context = record {
  instrument_id = "BTC-USDT-PERP";
  evaluation_time_ms = 600_000;
  candles_by_role = [];
  timeframes_by_role = [];
}

abbrev observed : String → ObservationStatus → Observation
observed id status = record {
  signal_id = id;
  instrument_id = "BTC-USDT-PERP";
  timeframe = Timeframe.m5;
  status = status;
  event_type = none;
  direction = none;
  event_time_ms = none;
  known_time_ms = none;
  state = "ready";
  dependency_ids = [];
  parameter_hash = "h";
  source_manifest_ids = [];
  payload_schema_version = 1;
  bounded_reason = "sample";
  payload = [];
  level = none;
  lower = none;
  upper = none;
}

abbrev sample_observations : Observations
sample_observations =
    ("trend", observed "trend" ObservationStatus.pass)
    ∷ ("sweep", observed "sweep" ObservationStatus.fail)
    ∷ []

abbrev sample_signals : List DecisionSignal
sample_signals =
    record { signal_id = "sweep"; required = true; effect = Effect.reject; order = 2 }
    ∷ record { signal_id = "trend"; required = true; effect = Effect.reject; order = 1 }
    ∷ []

abbrev sample_decision : Decision
sample_decision =
    stopped (λ o. o.signal_id) sample_context sample_observations DecisionStatus.no_trade "sweep"
      (("trend", "trend") ∷ ("sweep", "sweep") ∷ [])
