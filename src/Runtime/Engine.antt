-- ===== src/Runtime/Engine.antt =====
-- application/runtime.py: `EngineRunner.run`, `_run_locked`, `_emit_events` and `_emit_terminal`.
use Prim.Native.String.{◌++◌ as ◌<>◌}
use smc_ict_engine.Prelude.{
  ℕ, ◌+◌, ◌-◌, ◌*◌, Bool, true, false, not, ltb, all, contains, is_some, Option, none, some, String,
  List, [], ◌∷◌, ◌++◌, map, length, if◌then◌else◌, Result, ok, err, Error, value_error,
}
use smc_ict_engine.Prelude.Actions.{Action, pure, lift, attempt, raise, ◌>>=◌, ◌>>◌}
use smc_ict_engine.Domain.{ClosedCandle, Decision, Evidence}
use smc_ict_engine.Scheduler.{RunReceipt}
use smc_ict_engine.Sync.Service.{KlineProvider, Run}
use smc_ict_engine.Sync.Progress.{Settles}
use smc_ict_engine.Sync.Historical.{historical_sync_range}
use smc_ict_engine.Sync.Continuity.{historical_sync_range-Settles}
use smc_ict_engine.Notifications.Events.{NotificationEvent, checked_event}
use smc_ict_engine.Runtime.Ports.{
  RunRequest, RuntimeConfiguration, RunRecord, SinkOutcome, Engine, observation_record,
  decision_record, bounded_error,
}
use smc_ict_engine.Runtime.Evaluation.{
  ended, item, by_key, all_candles, StartedRun, evaluation_time, evaluate,
}
use smc_ict_engine.Runtime.Emission.{event_with, terminal_events, has_failed, failed_of}

abbrev pub settled : {S A : Type 0} (m : Run S A) → Settles m → Action S A
settled m h s = ended (m s) (h.at s)

abbrev pub raise_if_so : {S : Type 0} → Bool → Action S (Unit {0})
raise_if_so true = raise value_error
raise_if_so false = pure tt

-- A list of warnings as the receipt has it: `", ".join(warnings)`
abbrev pub joined : String → List String → String
joined w [] = w
joined w (v ∷ vs) = w <> ", " <> joined v vs

abbrev pub warning_text : List String → Option String
warning_text [] = none
warning_text (w ∷ ws) = some ("NOTIFICATION_WARNING: " <> joined w ws)

abbrev pub success_status : Option String → String
success_status none = "SUCCEEDED"
success_status (some text) = "SUCCEEDED_WITH_WARNINGS"

module _ {W : Type 0} (engine : Engine W) where
  -- The loop of `_emit_events`, each event to the sink.
  unfoldable pub emit_each :
      (NotificationEvent → W → Result SinkOutcome × W)
      → List NotificationEvent
      → Action W (List String)
  emit_each sink [] = pure []
  emit_each sink (e ∷ es) = do
    answer ← attempt (sink e)
    rest ← emit_each sink es
    pure (failed_of (has_failed answer) (e ∷ []) ++ rest)

  unfoldable pub emit_batch :
      (List NotificationEvent → W → Result SinkOutcome × W)
      → List NotificationEvent
      → Action W (List String)
  emit_batch sink es = do answer ← attempt (sink es); pure (failed_of (has_failed answer) es)

  unfoldable pub emit_to :
      Option (NotificationEvent → W → Result SinkOutcome × W)
      → Option (List NotificationEvent → W → Result SinkOutcome × W)
      → List NotificationEvent
      → Action W (List String)
  unfolding emit_each emit_batch
  emit_to none batch es = pure []
  emit_to (some sink) none es = emit_each sink es
  emit_to (some sink) (some batch) es =
      if ltb 1 (length es) then emit_batch batch es else emit_each sink es

  -- `_emit_events`
  unfoldable pub emit_events : List NotificationEvent → Action W (List String)
  unfolding emit_to
  emit_events = emit_to engine.event_sink engine.event_batch_sink

  -- `_emit_terminal`
  unfoldable pub emit_terminal :
      StartedRun → List Decision → Bool → Option String → (event_time : ℕ) → Action W (List String)
  unfolding emit_events terminal_events
  emit_terminal r decisions succeeded error event_time =
      if is_some engine.event_sink
      then (do
        events ← lift (
            terminal_events engine r.config r.run_id decisions succeeded error (evaluation_time r)
              event_time)
        emit_events events)
      else pure []

  -- The event of the start
  abbrev pub started_event :
      RuntimeConfiguration → (run_id : String) → (latest started : ℕ) → NotificationEvent
  started_event config run_id latest started = event_with config "run_started" run_id none (
      ("status", Evidence.text "RUNNING")
      ∷ ("instrument_count", Evidence.number (length config.strategy.instruments))
      ∷ ("evaluation_time_ms", Evidence.number (latest + 59_999))
      ∷ ("event_time_ms", Evidence.number started)
      ∷ [])

  -- The loop that synchronizes the instruments.
  unfoldable pub sync_instruments :
      RuntimeConfiguration
      → KlineProvider
      → (first latest : ℕ) → List String
      → Action W (List (String × List ClosedCandle))
  unfolding historical_sync_range
  sync_instruments config provider first latest [] = pure []
  sync_instruments config provider first latest (i ∷ is) = do
    symbol ← lift (item i config.market_instruments)
    result ←
        settled
          (historical_sync_range provider engine.candles
            (record { instrument_id = i; provider_symbol = symbol }) first latest)
          (historical_sync_range-Settles provider engine.candles
            (record { instrument_id = i; provider_symbol = symbol }) first latest)
    rest ← sync_instruments config provider first latest is
    pure ((i, result.candles) ∷ rest)

  abbrev pub running :
      RuntimeConfiguration
      → (run_id : String) → (started first latest : ℕ) → (data_hash : String) → RunRecord
  running config run_id started first latest data_hash = record {
    run_id = run_id;
    status = "RUNNING";
    started_at_ms = started;
    completed_at_ms = none;
    strategy_name = config.strategy_name;
    strategy_version = config.strategy_version;
    strategy_config_hash = config.strategy_hash;
    provider_id = config.provider;
    market_type = config.market_type;
    market_config_hash = config.market_hash;
    git_commit = none;
    code_hash = some engine.code_hash;
    data_start_open_ms = first;
    data_end_close_ms = latest + 59_999;
    data_hash = data_hash;
    error = none;
  }

  abbrev pub receipt_with :
      RunRequest
      → (run_id : Option String) → (status : String) → (started completed instruments decisions : ℕ)
      → Option String
      → RunReceipt
  receipt_with request run_id status started completed instruments decisions error = record {
    run_id = run_id;
    status = status;
    trigger = request.trigger;
    started_at_ms = started;
    completed_at_ms = completed;
    instrument_count = instruments;
    decision_count = decisions;
    error = error;
  }

  -- Up to the stored run and its first event.
  unfoldable pub start_run : RunRequest → (started : ℕ) → Action W StartedRun
  unfolding sync_instruments emit_events checked_event
  start_run request started = do
    config ← engine.load_configuration request
    raise_if_so (
        not (all (contains (map (λ m. m.0) config.market_instruments)) config.strategy.instruments))
    provider ← engine.provider_factory config
    latest ← lift provider.latest_closed_open_time_ms
    let back = (config.strategy.history_minutes - 1) * 60_000
    raise_if_so (ltb latest back)
    candles ← sync_instruments config provider (latest - back) latest config.strategy.instruments
    let data_hash = engine.hash_candles (all_candles candles)
    let run_id =
        engine.hash_run config.strategy_hash config.market_hash (latest + 59_999) data_hash
          engine.code_hash
    engine.store_run (running config run_id started (latest - back) latest data_hash)
    event ← lift (checked_event (started_event config run_id latest started))
    warnings ← emit_events (event ∷ [])
    pure (record {
      config = config;
      run_id = run_id;
      latest_open = latest;
      started = started;
      by_instrument = by_key [] candles;
      warnings = warnings;
    })

  -- The `try`: the evaluation and its commit.
  unfoldable pub evaluate_and_commit : StartedRun → Action W (List Decision × ℕ)
  unfolding evaluate
  evaluate_and_commit r = do
    found ← lift (evaluate engine r)
    completed ← engine.clock_ms
    engine.commit_run r.run_id (map (observation_record engine.hash_observation r.run_id) found.0)
        (map (decision_record engine.hash_decision r.run_id) found.1) completed
    pure (found.1, completed)

  -- The handler
  unfoldable pub fail_run : RunRequest → StartedRun → Error → Action W RunReceipt
  unfolding emit_terminal bounded_error
  fail_run request r x = do
    completed ← engine.clock_ms
    engine.finish_run r.run_id "FAILED" completed (bounded_error engine x)
    emit_terminal r [] false (some (bounded_error engine x)) completed
    pure (
        receipt_with request (some r.run_id) "FAILED" r.started completed
          (length r.config.strategy.instruments) 0 (some (bounded_error engine x)))

  -- What follows the `try`.
  unfoldable pub conclude_run :
      RunRequest → StartedRun → List Decision → (completed : ℕ) → Action W RunReceipt
  unfolding emit_terminal
  conclude_run request r decisions completed = do
    more ← emit_terminal r decisions true none completed
    pure (
        receipt_with request (some r.run_id) (success_status (warning_text (r.warnings ++ more)))
          r.started completed (length r.config.strategy.instruments) (length decisions)
          (warning_text (r.warnings ++ more)))

  unfoldable pub end_run :
      RunRequest → StartedRun → Result (List Decision × ℕ) → Action W RunReceipt
  unfolding fail_run conclude_run
  end_run request r (ok (decisions, completed)) = conclude_run request r decisions completed
  end_run request r (err x) = fail_run request r x

  -- `_run_locked`
  unfoldable pub run_locked : RunRequest → (started : ℕ) → Action W RunReceipt
  unfolding start_run evaluate_and_commit end_run
  run_locked request started = do
    r ← start_run request started
    answer ← attempt (evaluate_and_commit r)
    end_run request r answer

  -- The body of the `with`
  unfoldable pub run_guarded : RunRequest → (started : ℕ) → (acquired : Bool) → Action W RunReceipt
  unfolding run_locked
  run_guarded request started true = run_locked request started
  run_guarded request started false = do
    completed ← engine.clock_ms
    pure (receipt_with request none "OVERLAP_SKIPPED" started completed 0 0 none)

  -- `run`: the lock is left by a return and by a raise.
  unfoldable pub run : RunRequest → Action W RunReceipt
  unfolding run_guarded
  run request = do
    started ← engine.clock_ms
    acquired ← engine.lock
    answer ← attempt (run_guarded request started acquired)
    engine.unlock
    lift answer
