-- ===== src/Replay/Trace.antt =====
-- application/backtesting.py: `PointInTimeReplay._trace`.
use smc_ict_engine.Prelude.{
  Bool, true, false, Option, none, some, String, List, [], ◌∷◌, ◌++◌, str_eq, if◌then◌else◌, lookup,
  map, Result, ok, err, key_error, ◌>>=◌,
}
use smc_ict_engine.Domain.{
  Observation, ObservationStatus, Decision, DecisionStatus, StepKind, StepState, PipelineStep,
  checked_step, PipelineTrace,
}
use smc_ict_engine.Graph.{RunContext, Observations}
use smc_ict_engine.Policy.{DecisionSignal, ordered_signals}

abbrev pub state_of : ObservationStatus → StepState
state_of ObservationStatus.pass = StepState.step_pass
state_of ObservationStatus.fail = StepState.step_fail
state_of ObservationStatus.unavailable = StepState.step_unavailable

-- `tuple((dependency, observation_hashes[dependency]) for dependency in dependency_ids)`
unfoldable pub gather_hashes :
    List (String × String) → List String → Result (List (String × String))
gather_hashes hashes [] = ok []
gather_hashes hashes (d ∷ ds) = elim (lookup d hashes) [
  | none ↦ err key_error
  | some h ↦ elim (gather_hashes hashes ds) [ err e ↦ err e | ok rest ↦ ok ((d, h) ∷ rest) ]
]

module _ (hash_observation : Observation → String) where
  abbrev pub hashes_of : Observations → List (String × String)
  hashes_of = map (λ e. (e.0, hash_observation e.1))

  -- The steps of the indicators.
  unfoldable pub indicator_steps :
      List (String × String) → Observations → Result (List PipelineStep)
  unfolding gather_hashes checked_step
  indicator_steps hashes [] = ok []
  indicator_steps hashes ((id, o) ∷ rest) = do
    dependencies ← gather_hashes hashes o.dependency_ids
    step ← checked_step (record {
      kind = StepKind.indicator;
      step_id = id;
      state = state_of o.status;
      reason = o.bounded_reason;
      dependency_hashes = dependencies;
      output_hash = lookup id hashes;
    })
    steps ← indicator_steps hashes rest
    ok (step ∷ steps)

abbrev pub is_unavailable : DecisionStatus → Bool
is_unavailable DecisionStatus.unavailable = true
is_unavailable _ = false

abbrev pub is_first_failed : Decision → String → Bool
is_first_failed d id = elim d.first_failed_signal [ none ↦ false | some s ↦ str_eq id s ]

abbrev pub gate_step : String → StepState → String → Option String → PipelineStep
gate_step id state reason output = record {
  kind = StepKind.decision_gate;
  step_id = id;
  state = state;
  reason = reason;
  dependency_hashes = elim output [ none ↦ [] | some h ↦ (id, h) ∷ [] ];
  output_hash = output;
}

abbrev pub rejected_step : Decision → String → Option String → PipelineStep
rejected_step d id output =
    if is_unavailable d.status
    then gate_step id StepState.step_unavailable "REQUIRED_SIGNAL_UNAVAILABLE" output
    else gate_step id StepState.step_reject "REQUIRED_SIGNAL_FAILED" output

-- The steps of the gates, `rejected` telling whether one has stopped. No reason is empty.
unfoldable pub gate_steps :
    Decision → List (String × String) → Bool → List DecisionSignal → List PipelineStep
gate_steps d hashes rejected [] = []
gate_steps d hashes true (s ∷ rest) =
    gate_step s.signal_id StepState.skipped_after_rejection "SKIPPED_AFTER_REJECTION" none
    ∷ gate_steps d hashes true rest
gate_steps d hashes false (s ∷ rest) =
    let stops =
      rejected_step d s.signal_id (lookup s.signal_id hashes) ∷ gate_steps d hashes true rest in
    let passes =
      gate_step s.signal_id StepState.step_pass "SIGNAL_ACCEPTED" (lookup s.signal_id hashes)
      ∷ gate_steps d hashes false rest in
    if is_first_failed d s.signal_id then stops else passes

-- `_trace`
unfoldable pub trace :
    (Observation → String)
    → List DecisionSignal
    → RunContext
    → Observations
    → Decision
    → String
    → Result PipelineTrace
unfolding indicator_steps gate_steps ordered_signals
trace hash_observation signals context observations d hash = do
  steps ← indicator_steps hash_observation (hashes_of hash_observation observations) observations
  ok (record {
    instrument_id = context.instrument_id;
    evaluation_time_ms = context.evaluation_time_ms;
    steps =
        steps
        ++ gate_steps d (hashes_of hash_observation observations) false (ordered_signals signals);
    first_rejection = d.first_failed_signal;
    decision_hash = hash;
  })
