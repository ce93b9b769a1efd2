-- ===== src/Runtime/Evaluation.antt =====
-- application/runtime.py: the evaluation within `_run_locked`, between the stored run and its commit.
use smc_ict_engine.Prelude.{
  ℕ, ◌+◌, ◌≡◌, true, is_some, Option, none, some, String, List, [], ◌∷◌, ◌++◌, map, lookup, assign,
  Result, ok, err, key_error, ◌>>=◌,
}
use smc_ict_engine.Domain.{ClosedCandle, Observation, Decision}
use smc_ict_engine.Graph.{ConfiguredNode, topological_order, RunContext, Observations, execute}
use smc_ict_engine.Graph.Rounds.{topological_order-is_some}
use smc_ict_engine.Policy.{decide}
use smc_ict_engine.Resampling.{DerivedCandle, resample_roles}
use smc_ict_engine.Replay.Run.{configured_nodes, configured_decision_signals}
use smc_ict_engine.Runtime.Ports.{RuntimeConfiguration, Engine}

-- The value of a computation that is known to end.
pub none-has_no_value : (A : Type 0) → is_some {A = A} none ≡ true → ⊥
none-has_no_value A h = cc

abbrev pub ended : {A : Type 0} (x : Option A) → is_some x ≡ true → A
ended {A} none h = absurd (none-has_no_value A h)
ended (some a) h = a

-- `dict[key]`
abbrev pub item : {V : Type 0} → String → List (String × V) → Result V
item key entries = elim (lookup key entries) [ none ↦ err key_error | some v ↦ ok v ]

-- `by_instrument[instrument_id] = candles`, for all of them
abbrev pub by_key : {V : Type 0} → List (String × V) → List (String × V) → List (String × V)
by_key entries [] = entries
by_key entries ((k, v) ∷ rest) = by_key (assign k v entries) rest

abbrev pub all_candles : List (String × List ClosedCandle) → List ClosedCandle
all_candles [] = []
all_candles ((i, candles) ∷ rest) = candles ++ all_candles rest

-- The variables of `_run_locked` after the run has been stored.
pub record StartedRun : Type 0 where
  pub config : RuntimeConfiguration
  pub run_id : String
  pub latest_open : ℕ
  pub started : ℕ
  pub by_instrument : List (String × List ClosedCandle)
  pub warnings : List String

abbrev pub evaluation_time : StartedRun → ℕ
evaluation_time r = r.latest_open + 59_999

-- `observations` and `decisions`
abbrev pub Evaluated : Type 0
Evaluated = List Observation × List Decision

module _ {W : Type 0} (engine : Engine W) (r : StartedRun) where
  -- The graph of a strategy, or what its construction raised.
  abbrev pub ordered_graph : List ConfiguredNode → Result (List ConfiguredNode)
  ordered_graph nodes =
      ended (topological_order engine.factories nodes)
        (topological_order-is_some engine.factories nodes)

  abbrev pub context_of : String → List (String × List DerivedCandle) → RunContext
  context_of instrument roles = record {
    instrument_id = instrument;
    evaluation_time_ms = evaluation_time r;
    candles_by_role = roles;
    timeframes_by_role = r.config.strategy.roles;
  }

  -- The body of the loop over the instruments.
  unfoldable pub evaluate_instrument :
      List ConfiguredNode → String → Result (Observations × Decision)
  unfolding resample_roles execute decide
  evaluate_instrument ordered i = do
    candles ← item i r.by_instrument
    roles ← resample_roles candles (some (evaluation_time r)) r.config.strategy.roles []
    observations ← execute engine.plugins (context_of i roles) ordered
    decision ←
        decide engine.hash_observation (context_of i roles) observations
          (configured_decision_signals r.config.strategy.signals)
    ok (observations, decision)

  unfoldable pub evaluate_instruments : List ConfiguredNode → List String → Result Evaluated
  unfolding evaluate_instrument
  evaluate_instruments ordered [] = ok ([], [])
  evaluate_instruments ordered (i ∷ is) = do
    here ← evaluate_instrument ordered i
    rest ← evaluate_instruments ordered is
    ok (map (λ o. o.1) here.0 ++ rest.0, here.1 ∷ rest.1)

  -- The `try`, up to the commit.
  unfoldable pub evaluate : Result Evaluated
  unfolding configured_nodes evaluate_instruments
  evaluate = do
    nodes ← configured_nodes r.config.strategy.roles r.config.strategy.signals
    ordered ← ordered_graph nodes
    evaluate_instruments ordered r.config.strategy.instruments
