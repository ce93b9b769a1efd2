-- ===== src/Indicators/Base.antt =====
-- indicators/base.py: candles, dependencies and observations of a plugin. The types of the fields are
-- not tested, since a candle here has them.
use Prim.Native.String.{◌++◌ as ◌<>◌}
use smc_ict_engine.Prelude.{
  ℕ, ◌+◌, Bool, false, not, ◌||◌, ltb, ◌==◌, Option, none, some, String, List, [], ◌∷◌, map, all,
  contains, str_eq, lookup, if◌then◌else◌, Result, ok, err, value_error, key_error, ◌>>=◌, ◌>>◌,
  raise_if,
}
use smc_ict_engine.Decimal.{Decimal}
use smc_ict_engine.Domain.{
  Timeframe, timeframe_eqb, Observation, ObservationStatus, Evidence, checked_observation,
  decimal_of_text, decimal_text,
}
use smc_ict_engine.Resampling.{DerivedCandle}
use smc_ict_engine.Graph.{RunContext, Observations, ids_eqb, known_after}

-- The one interval of the candles
abbrev pub only_interval : List DerivedCandle → Result Timeframe
only_interval [] = err value_error
only_interval (c ∷ cs) =
    if all (λ x. timeframe_eqb x.interval c.interval) cs then ok c.interval else err value_error

-- `configured_timeframe`
unfoldable pub configured_timeframe : RunContext → String → Result Timeframe
unfolding timeframe_eqb
configured_timeframe context role = elim (lookup role context.timeframes_by_role) [
  | some t ↦ ok t
  | none ↦ elim (lookup role context.candles_by_role) [
    | none ↦ err value_error
    | some candles ↦ only_interval candles
  ]
]

abbrev pub is_gap : Option ℕ → ℕ → Bool
is_gap none open_time = false
is_gap (some close) open_time = not (open_time == close + 1)

-- The loop of `closed_candles`
unfoldable pub check_candles :
    RunContext → Timeframe → (previous_close : Option ℕ) → List DerivedCandle → Result (Unit {0})
unfolding timeframe_eqb
check_candles context t previous [] = ok tt
check_candles context t previous (c ∷ cs) = do
  raise_if (not (str_eq c.instrument_id context.instrument_id) || not (timeframe_eqb c.interval t))
      value_error
  raise_if (ltb context.evaluation_time_ms c.close_time_ms) value_error
  raise_if (is_gap previous c.open_time_ms) value_error
  check_candles context t (some c.close_time_ms) cs

-- `closed_candles`
unfoldable pub closed_candles : RunContext → String → Timeframe → Result (List DerivedCandle)
unfolding check_candles
closed_candles context role t = elim (lookup role context.candles_by_role) [
  | none ↦ err value_error
  | some candles ↦ check_candles context t none candles >> ok candles
]

pub record DependencyProblem : Type 0 where
  pub status : ObservationStatus
  pub state : String
  pub reason : String
  pub event_time_ms : Option ℕ
  pub known_time_ms : Option ℕ
  pub payload : List (String × Evidence)

-- `_EXECUTION_DEPENDENCIES` and `_DEPENDENCY_TIMEFRAMES`
abbrev pub execution_dependencies : List String
execution_dependencies =
    "ict.clustered_liquidity" ∷ "ict.market_structure" ∷ "ict.fair_value_gap" ∷ []

abbrev pub expected_timeframe : RunContext → String → Result Timeframe
expected_timeframe context id =
    if contains execution_dependencies id
    then configured_timeframe context "execution"
    else if str_eq id "smc.swing_structure"
    then ok Timeframe.h4
    else if str_eq id "smc.equal_high_low"
    then ok Timeframe.h1
    else err key_error

abbrev pub future_problem : DependencyProblem
future_problem = record {
  status = ObservationStatus.fail;
  state = "INVALID_DEPENDENCY_EVIDENCE";
  reason = "dependency evidence is from the future";
  event_time_ms = none;
  known_time_ms = none;
  payload = [];
}

abbrev pub failed_problem : String → Observation → DependencyProblem
failed_problem id o = record {
  status = ObservationStatus.fail;
  state = "FAILED_DEPENDENCY";
  reason = "dependency " <> id <> " failed";
  event_time_ms = o.event_time_ms;
  known_time_ms = o.known_time_ms;
  payload =
      ("failed_dependency_id", Evidence.text id)
      ∷ ("dependency_reason", Evidence.text o.bounded_reason)
      ∷ [];
}

abbrev pub unavailable_problem : String → DependencyProblem
unavailable_problem id = record {
  status = ObservationStatus.unavailable;
  state = "UNAVAILABLE";
  reason = "dependency " <> id <> " is unavailable";
  event_time_ms = none;
  known_time_ms = none;
  payload = [];
}

-- What follows the loop: the first dependency that failed, else the first that is unavailable.
abbrev pub found_problem : Option (String × Observation) → Option String → Option DependencyProblem
found_problem (some (id, o)) unavailable = some (failed_problem id o)
found_problem none (some id) = some (unavailable_problem id)
found_problem none none = none

abbrev pub first_failed :
    String → Observation → Option (String × Observation) → Option (String × Observation)
first_failed id o (some found) = some found
first_failed id o none = elim o.status [ ObservationStatus.fail ↦ some (id, o) | _ ↦ none ]

abbrev pub first_unavailable : String → Observation → Option String → Option String
first_unavailable id o (some found) = some found
first_unavailable id o none = elim o.status [ ObservationStatus.unavailable ↦ some id | _ ↦ none ]

-- The loop over the dependencies
unfoldable pub scan_dependencies :
    RunContext
    → Option (String × Observation)
    → Option String
    → Observations
    → Result (Option DependencyProblem)
unfolding configured_timeframe timeframe_eqb
scan_dependencies context failed unavailable [] = ok (found_problem failed unavailable)
scan_dependencies context failed unavailable ((id, o) ∷ rest) =
    let later =
      scan_dependencies context (first_failed id o failed) (first_unavailable id o unavailable)
        rest in
    do
      raise_if (not (str_eq o.signal_id id)) value_error
      raise_if (not (str_eq o.instrument_id context.instrument_id)) value_error
      t ← expected_timeframe context id
      raise_if (not (timeframe_eqb o.timeframe t)) value_error
      if known_after context.evaluation_time_ms o then ok (some future_problem) else later

-- `dependency_problem`
unfoldable pub dependency_problem :
    Observations → List String → RunContext → Result (Option DependencyProblem)
unfolding scan_dependencies
dependency_problem dependencies expected context = do
  raise_if (not (ids_eqb (map (λ d. d.0) dependencies) expected)) value_error
  scan_dependencies context none none dependencies

-- What `observation` is given, but for the context.
pub record Report : Type 0 where
  pub status : ObservationStatus
  pub reason : String
  pub event_type : Option String
  pub direction : Option String
  pub event_time_ms : Option ℕ
  pub known_time_ms : Option ℕ
  pub state : String
  pub payload : List (String × Evidence)
  pub level : Option Decimal
  pub lower : Option Decimal
  pub upper : Option Decimal

-- A report with no levels and no times
abbrev pub plain_report : ObservationStatus → (reason state : String) → Report
plain_report status reason state = record {
  status = status;
  reason = reason;
  event_type = none;
  direction = none;
  event_time_ms = none;
  known_time_ms = none;
  state = state;
  payload = [];
  level = none;
  lower = none;
  upper = none;
}

abbrev pub problem_report : DependencyProblem → Report
problem_report p = record (plain_report p.status p.reason p.state) {
  event_time_ms = p.event_time_ms;
  known_time_ms = p.known_time_ms;
  payload = p.payload;
}

-- `None if level is None else decimal_text(level)`, which the observation reads as a `DecimalText`.
abbrev pub written : Option Decimal → Result (Option Decimal)
written none = ok none
written (some d) = elim (decimal_of_text (decimal_text d)) [
  | none ↦ err value_error
  | some r ↦ ok (some r)
]

-- The observation of a report, with its levels as they are read
abbrev pub observed :
    RunContext
    → (plugin_id parameter_hash : String) → Timeframe
    → (dependency_ids sources : List String) → Report
    → (level lower upper : Option Decimal) → Observation
observed context plugin_id parameter_hash t dependency_ids sources r level lower upper = record {
  signal_id = plugin_id;
  instrument_id = context.instrument_id;
  timeframe = t;
  status = r.status;
  event_type = r.event_type;
  direction = r.direction;
  event_time_ms = r.event_time_ms;
  known_time_ms = r.known_time_ms;
  state = r.state;
  dependency_ids = dependency_ids;
  parameter_hash = parameter_hash;
  source_manifest_ids = sources;
  payload_schema_version = 1;
  bounded_reason = r.reason;
  payload = r.payload;
  level = level;
  lower = lower;
  upper = upper;
}

-- `observation`
unfoldable pub observation :
    RunContext
    → (plugin_id parameter_hash : String) → Timeframe
    → (dependency_ids sources : List String) → Report
    → Result Observation
unfolding checked_observation
observation context plugin_id parameter_hash t dependency_ids sources r = do
  level ← written r.level
  lower ← written r.lower
  upper ← written r.upper
  checked_observation
      (observed context plugin_id parameter_hash t dependency_ids sources r level lower upper)
