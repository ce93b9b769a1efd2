-- ===== src/Runtime/Ports.antt =====
-- application/runtime.py, application/ports/repository.py and application/evidence.py: the values of
-- a run, and what the runner is given.
use Prim.Native.Char.{code}
use smc_ict_engine.Prelude.{
  ℕ, zero, suc, ◌==◌, ◌||◌, Bool, not, Option, String, List, [], ◌∷◌, contains, if◌then◌else◌,
  Result, ok, Error, value_error, ◌>>◌, raise_if,
}
use smc_ict_engine.Decimal.{Decimal}
use smc_ict_engine.Domain.{
  ClosedCandle, Observation, ObservationStatus, Decision, DecisionStatus, Direction,
}
use smc_ict_engine.Graph.{ConfiguredNode, Plugin}
use smc_ict_engine.Notifications.Events.{NotificationEvent}
use smc_ict_engine.Replay.Run.{Strategy}
use smc_ict_engine.Sync.Service.{KlineProvider}
use smc_ict_engine.Sync.Historical.{HistoricalCandleRepository}

-- The paths are texts, which only the loader reads.
pub record RunRequest : Type 0 where
  pub strategy_path : String
  pub market_data_path : String
  pub notifications_path : Option String
  pub trigger : String

-- `RunRequest.__post_init__`
unfoldable pub checked_run_request : RunRequest → Result RunRequest
checked_run_request r = do
  raise_if (not (contains ("manual" ∷ "scheduled" ∷ []) r.trigger)) value_error
  ok r

-- What the runner reads of a `RuntimeConfiguration`, with the digests of its parts.
pub record RuntimeConfiguration : Type 0 where
  pub strategy : Strategy
  pub strategy_name : String
  pub strategy_version : String
  pub strategy_hash : String
  pub provider : String
  pub market_type : String
  pub market_instruments : List (String × String)
  pub market_hash : String

pub record RunRecord : Type 0 where
  pub run_id : String
  pub status : String
  pub started_at_ms : ℕ
  pub completed_at_ms : Option ℕ
  pub strategy_name : String
  pub strategy_version : String
  pub strategy_config_hash : String
  pub provider_id : String
  pub market_type : String
  pub market_config_hash : String
  pub git_commit : Option String
  pub code_hash : Option String
  pub data_start_open_ms : ℕ
  pub data_end_close_ms : ℕ
  pub data_hash : String
  pub error : Option String

-- The payload of a record has the fields of what it records, and its digest.
pub record ObservationRecord : Type 0 where
  pub run_id : String
  pub instrument_id : String
  pub signal_id : String
  pub status : ObservationStatus
  pub event_time_ms : Option ℕ
  pub known_time_ms : Option ℕ
  pub reason : String
  pub observation : Observation
  pub observation_hash : String

pub record DecisionRecord : Type 0 where
  pub run_id : String
  pub instrument_id : String
  pub decision_status : DecisionStatus
  pub direction : Option Direction
  pub entry : Option Decimal
  pub stop : Option Decimal
  pub target : Option Decimal
  pub first_failed_signal : Option String
  pub decision_hash : String
  pub observation_hashes : List (String × String)

-- `observation_record` and `decision_record`
abbrev pub observation_record : (Observation → String) → String → Observation → ObservationRecord
observation_record digest run_id o = record {
  run_id = run_id;
  instrument_id = o.instrument_id;
  signal_id = o.signal_id;
  status = o.status;
  event_time_ms = o.event_time_ms;
  known_time_ms = o.known_time_ms;
  reason = o.bounded_reason;
  observation = o;
  observation_hash = digest o;
}

abbrev pub decision_record : (Decision → String) → String → Decision → DecisionRecord
decision_record digest run_id d = record {
  run_id = run_id;
  instrument_id = d.instrument_id;
  decision_status = d.status;
  direction = d.direction;
  entry = d.entry;
  stop = d.stop;
  target = d.target;
  first_failed_signal = d.first_failed_signal;
  decision_hash = digest d;
  observation_hashes = d.observation_hashes;
}

-- The outcome of a routing receipt, if what a sink returns has one.
abbrev pub SinkOutcome : Type 0
SinkOutcome = Option String

-- What an `EngineRunner` is made with, the process lock, the digests and the texts. `lock` is
-- `ProcessLock.__enter__`, which answers whether the lock was acquired, and `unlock` its `__exit__`.
pub record Engine (W : Type 0) : Type 0 where
  pub clock_ms : W → Result ℕ × W
  pub lock : W → Result Bool × W
  pub unlock : W → Result (Unit {0}) × W
  pub load_configuration : RunRequest → W → Result RuntimeConfiguration × W
  pub provider_factory : RuntimeConfiguration → W → Result KlineProvider × W
  pub candles : HistoricalCandleRepository W
  pub store_run : RunRecord → W → Result (Unit {0}) × W
  pub commit_run :
      String → List ObservationRecord → List DecisionRecord → ℕ → W → Result (Unit {0}) × W
  pub finish_run : (run_id status : String) → ℕ → String → W → Result (Unit {0}) × W
  pub event_sink : Option (NotificationEvent → W → Result SinkOutcome × W)
  pub event_batch_sink : Option (List NotificationEvent → W → Result SinkOutcome × W)
  pub factories : List String
  pub plugins : ConfiguredNode → Plugin
  pub code_hash : String
  pub hash_candles : List ClosedCandle → String
  pub hash_observation : Observation → String
  pub hash_decision : Decision → String
  -- The digest of the strategy, the market, the evaluation time, the candles and the code.
  pub hash_run : (strategy market : String) → ℕ → (candles code : String) → String
  -- `format(value.normalize(), "f")`, which is also how the texts of a decision are written.
  pub fixed_text : Decimal → String
  -- `f"{type(exc).__name__}: {exc}"`
  pub exception_text : Error → String

-- `text[:n]`
abbrev pub take_text : ℕ → String → String
take_text zero s = ""
take_text (suc n) String.[] = ""
take_text (suc n) (String.◌∷◌ c s) = String.◌∷◌ c (take_text n s)

-- `text.partition(":")[0]`
abbrev pub before_colon : String → String
before_colon String.[] = ""
before_colon (String.◌∷◌ c s) =
    let rest = before_colon s in if code c == b':' then "" else String.◌∷◌ c rest

-- `text.replace("\n", " ").replace("\r", " ")`
abbrev pub in_one_line : String → String
in_one_line String.[] = ""
in_one_line (String.◌∷◌ c s) =
    let rest = in_one_line s in
    if code c == 10 || code c == 13 then String.◌∷◌ " " rest else String.◌∷◌ c rest

-- `_bounded_error`. The text is never empty: it holds a colon.
unfoldable pub bounded_error : {W : Type 0} → Engine W → Error → String
bounded_error engine x = take_text 4000 (in_one_line (engine.exception_text x))
