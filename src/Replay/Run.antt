-- ===== src/Replay/Run.antt =====
-- application/backtesting.py: `PointInTimeReplay.run`. The candle source, the plugins and the hashes
-- are what the replay is given.
use smc_ict_engine.Prelude.{
  ℕ, ◌+◌, Bool, not, ◌&&◌, Option, none, some, String, List, [], ◌∷◌, ◌++◌, leb, contains, lookup,
  assign, keep, length, map, Result, ok, err, value_error, key_error, index_error, ◌>>=◌, ◌>>◌,
  raise_if,
}
use smc_ict_engine.Domain.{ClosedCandle, Timeframe, Observation, Decision, ReplayEvaluation}
use smc_ict_engine.Graph.{ConfiguredNode, topological_order, RunContext, Plugin, execute}
use smc_ict_engine.Policy.{DecisionSignal, Effect, decide}
use smc_ict_engine.Resampling.{DerivedCandle, resample_roles}
use smc_ict_engine.Replay.Ranges.{
  BacktestPeriod, RequiredRange, resolve, validate_candles, prefixes,
}
use smc_ict_engine.Replay.Trace.{trace}

-- What the replay reads of a `StrategyConfig` and its signals.
pub record StrategySignal : Type 0 where
  pub id : String
  pub role : String
  pub depends_on : List String
  pub parameter_hash : String
  pub order : ℕ
  pub required : Bool
  pub effect : Effect

pub record Strategy : Type 0 where
  pub instruments : List String
  pub roles : List (String × Timeframe)
  pub history_minutes : ℕ
  pub signals : List StrategySignal

-- `configured_nodes`
unfoldable pub configured_nodes :
    List (String × Timeframe) → List StrategySignal → Result (List ConfiguredNode)
configured_nodes roles [] = ok []
configured_nodes roles (s ∷ rest) = elim (lookup s.role roles) [
  | none ↦ err key_error
  | some t ↦ elim (configured_nodes roles rest) [
    | err e ↦ err e
    | ok nodes ↦ ok (
        record {
          instance_id = s.id;
          plugin_id = s.id;
          role = s.role;
          depends_on = s.depends_on;
          parameter_hash = s.parameter_hash;
          order = s.order;
          timeframe = some t;
        }
        ∷ nodes)
  ]
]

-- `configured_decision_signals`
abbrev pub configured_decision_signals : List StrategySignal → List DecisionSignal
configured_decision_signals =
    map
      (λ s. record { signal_id = s.id; required = s.required; effect = s.effect; order = s.order })

abbrev pub Roles : Type 0
Roles = List (String × List DerivedCandle)

pub record ReplayResult : Type 0 where
  pub evaluations : List ReplayEvaluation
  pub candle_count : ℕ

abbrev pub item : {V : Type 0} → String → List (String × V) → Result V
item key entries = elim (lookup key entries) [ none ↦ err key_error | some v ↦ ok v ]

abbrev pub first_of : List String → Result String
first_of [] = err index_error
first_of (x ∷ xs) = ok x

-- The closing times of the execution bars within the period.
unfoldable pub scheduled_times : BacktestPeriod → List DerivedCandle → List ℕ
scheduled_times period bars =
    map (λ b. b.close_time_ms)
      (keep
        (λ b. leb period.start_ms b.open_time_ms && leb b.close_time_ms (period.end_ms + 59_999))
        bars)

module _
    (load_candles : (provider market instrument : String)
      → (start end : ℕ) → Result (List ClosedCandle))
    (factories : List String) (plugins : ConfiguredNode → Plugin)
    (hash_observation : Observation → String) (hash_decision : Decision → String)
    (strategy : Strategy) (provider_id market_type : String) where
  -- The loop over the instruments, on `roles_by_instrument` and `all_candles`.
  unfoldable pub load_all :
      RequiredRange
      → List String
      → List (String × Roles)
      → List ClosedCandle
      → Result (List (String × Roles) × List ClosedCandle)
  unfolding validate_candles resample_roles
  load_all required [] loaded candles = ok (loaded, candles)
  load_all required (i ∷ is) loaded candles = do
    found ← load_candles provider_id market_type i required.start_open_ms required.end_open_ms
    validate_candles provider_id market_type i required found
    roles ← resample_roles found none strategy.roles []
    load_all required is (assign i roles loaded) (candles ++ found)

  abbrev pub context_at : ℕ → String → Roles → RunContext
  context_at time instrument roles = record {
    instrument_id = instrument;
    evaluation_time_ms = time;
    candles_by_role = prefixes roles time strategy.history_minutes;
    timeframes_by_role = [];
  }

  -- The body of the loops over the times and the instruments.
  unfoldable pub evaluate_at :
      List ConfiguredNode → List (String × Roles) → ℕ → String → Result ReplayEvaluation
  unfolding execute decide trace
  evaluate_at ordered loaded time instrument = do
    roles ← item instrument loaded
    let context = context_at time instrument roles
    observations ← execute plugins context ordered
    decision ←
        decide hash_observation context observations (configured_decision_signals strategy.signals)
    steps ←
        trace hash_observation (configured_decision_signals strategy.signals) context observations
          decision (hash_decision decision)
    ok (record {
      instrument_id = instrument;
      evaluation_time_ms = time;
      decision = decision;
      decision_hash = hash_decision decision;
      trace = steps;
    })

  -- The inner loop, over the instruments at a time
  unfoldable pub evaluate_each :
      List ConfiguredNode → List (String × Roles) → ℕ → List String → Result (List ReplayEvaluation)
  unfolding evaluate_at
  evaluate_each ordered loaded time [] = ok []
  evaluate_each ordered loaded time (i ∷ is) = do
    e ← evaluate_at ordered loaded time i
    es ← evaluate_each ordered loaded time is
    ok (e ∷ es)

  -- The outer loop, over the times
  unfoldable pub evaluate_times :
      List ConfiguredNode → List (String × Roles) → List ℕ → Result (List ReplayEvaluation)
  unfolding evaluate_each
  evaluate_times ordered loaded [] = ok []
  evaluate_times ordered loaded (t ∷ ts) = do
    es ← evaluate_each ordered loaded t strategy.instruments
    more ← evaluate_times ordered loaded ts
    ok (es ++ more)

  -- What precedes the graph: the loaded roles, the candles and the schedule.
  unfoldable pub prepare :
      BacktestPeriod → Result ((List (String × Roles) × List ClosedCandle) × List ℕ)
  unfolding resolve load_all scheduled_times
  prepare period = do
    raise_if (not (contains (map (λ r. r.0) strategy.roles) "execution")) value_error
    required ← resolve period strategy.history_minutes
    loaded ← load_all required strategy.instruments [] []
    first ← first_of strategy.instruments
    roles ← item first loaded.0
    bars ← item "execution" roles
    ok (loaded, scheduled_times period bars)

  unfoldable pub replay_over :
      List ConfiguredNode
      → (List (String × Roles) × List ClosedCandle)
      → List ℕ
      → Result ReplayResult
  unfolding evaluate_times
  replay_over ordered loaded schedule = do
    evaluations ← evaluate_times ordered loaded.0 schedule
    ok (record { evaluations = evaluations; candle_count = length loaded.1 })

  -- The graph's order has been found, or its construction has raised.
  abbrev pub replay_with :
      Option (Result (List ConfiguredNode))
      → (List (String × Roles) × List ClosedCandle)
      → List ℕ
      → Option (Result ReplayResult)
  replay_with none loaded schedule = none
  replay_with (some (err e)) loaded schedule = some (err e)
  replay_with (some (ok ordered)) loaded schedule = some (replay_over ordered loaded schedule)

  -- `PointInTimeReplay.run`
  unfoldable pub run : BacktestPeriod → Option (Result ReplayResult)
  unfolding prepare configured_nodes topological_order replay_over
  run period = elim (prepare period) [
    | err e ↦ some (err e)
    | ok prepared ↦ elim (configured_nodes strategy.roles strategy.signals) [
      | err e ↦ some (err e)
      | ok nodes ↦ replay_with (topological_order factories nodes) prepared.0 prepared.1
    ]
  ]
