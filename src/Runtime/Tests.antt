-- ===== src/Runtime/Tests.antt =====
-- Runs of the engine in a small world, and its theorems at them.
use smc_ict_engine.Prelude.{
  ◌≡◌, refl, ap, subst, true, none, some, Option, String, List, [], ◌∷◌, if◌then◌else◌, lookup,
  assign, lookup-assign, eq_refl, Result, ok, err, value_error, runtime_error, os_error, is_ok,
  Bool,
}
use smc_ict_engine.Prelude.Actions.{◌>>=◌, attempt}
use smc_ict_engine.Decimal.{whole}
use smc_ict_engine.Domain.{ClosedCandle, SourceValue, is_instrument_id}
use smc_ict_engine.Graph.{topological_order, rounds, execute}
use smc_ict_engine.Policy.{decide}
use smc_ict_engine.Resampling.{resample_roles}
use smc_ict_engine.Replay.Run.{configured_nodes}
use smc_ict_engine.Scheduler.{RunReceipt}
use smc_ict_engine.Sync.Service.{KlineProvider}
use smc_ict_engine.Sync.Historical.{historical_sync_range}
use smc_ict_engine.Notifications.Events.{checked_event}
use smc_ict_engine.Runtime.Ports.{Engine, RunRequest, RuntimeConfiguration, bounded_error}
use smc_ict_engine.Runtime.Evaluation.{StartedRun, evaluate}
use smc_ict_engine.Runtime.Engine.{
  emit_events, end_run, evaluate_and_commit, receipt_with, run, start_run,
}
use smc_ict_engine.Runtime.Agreement.{KeepsRuns, Agrees, run-Agrees}
use smc_ict_engine.Runtime.Warnings.{end_run_reports}

-- The world holds the runs with their statuses; the clock stands still.
abbrev Runs : Type 0
Runs = List (String × String)

abbrev sample_candle : ClosedCandle
sample_candle = record {
  provider_id = "okx_swap";
  market_type = "LINEAR_PERPETUAL";
  instrument_id = "BTC-USDT-PERP";
  provider_symbol = "BTC-USDT-SWAP";
  interval = "1m";
  open_time_ms = 60_000;
  close_time_ms = 119_999;
  opening = whole 100;
  high = whole 101;
  low = whole 99;
  closing = whole 100;
  base_volume = whole 1;
  quote_volume = none;
  source_fields = ("contract_volume", SourceValue.amount (whole 1)) ∷ [];
}

abbrev sample_provider : KlineProvider
sample_provider = record {
  provider_id = "okx_swap";
  validate_instrument = λ mapping. ok tt;
  server_time_ms = ok 130_000;
  latest_closed_open_time_ms = ok 60_000;
  fetch_page = λ served request. err os_error;
}

abbrev sample_configuration : RuntimeConfiguration
sample_configuration = record {
  strategy = record {
    instruments = "BTC-USDT-PERP" ∷ [];
    roles = [];
    history_minutes = 1;
    signals = [];
  };
  strategy_name = "trend";
  strategy_version = "1";
  strategy_hash = "s";
  provider = "okx_swap";
  market_type = "LINEAR_PERPETUAL";
  market_instruments = ("BTC-USDT-PERP", "BTC-USDT-SWAP") ∷ [];
  market_hash = "m";
}

-- The sink raises for each event. A commit may be refused.
abbrev engine_with : (acquired : Bool) → (committed : Result (Unit {0})) → Engine Runs
engine_with acquired committed = record {
  clock_ms = λ w. (ok 130_000, w);
  lock = λ w. (ok acquired, w);
  unlock = λ w. (ok tt, w);
  load_configuration = λ request w. (ok sample_configuration, w);
  provider_factory = λ config w. (ok sample_provider, w);
  candles = record {
    store_candle_page = λ candles sync_ms required w. ok w;
    load_candles = λ mapping start end w. ok (sample_candle ∷ []);
  };
  store_run = λ r w. (ok tt, assign r.run_id r.status w);
  commit_run =
      λ id os ds time w. (committed, if is_ok committed then assign id "SUCCEEDED" w else w);
  finish_run = λ id status time error w. (ok tt, assign id status w);
  event_sink = some (λ e w. (err runtime_error, w));
  event_batch_sink = none;
  factories = [];
  plugins = λ n. record { role = none; evaluate = λ context dependencies. err value_error };
  code_hash = "c";
  hash_candles = λ candles. "d";
  hash_observation = λ o. "o";
  hash_decision = λ d. "h";
  hash_run = λ strategy market time candles code. "run";
  fixed_text = λ d. "1";
  exception_text = λ x. "OSError: disk full";
}

abbrev sample_request : RunRequest
sample_request = record {
  strategy_path = "strategy.yaml";
  market_data_path = "market.yaml";
  notifications_path = none;
  trigger = "manual";
}

sample_started : Result RunReceipt × Runs
unfolding run start_run evaluate_and_commit end_run historical_sync_range emit_events evaluate
    configured_nodes topological_order rounds execute decide resample_roles checked_event
    bounded_error ◌>>=◌ attempt smc_ict_engine.Sync.Service.◌>>=◌
sample_started = run (engine_with true (ok tt)) sample_request []

abbrev statuses : Result RunReceipt → List String
statuses (ok r) = r.status ∷ []
statuses (err x) = []

-- All notifications fail, and the run has succeeded.
sample_status : statuses sample_started.0 ≡ "SUCCEEDED_WITH_WARNINGS" ∷ []
unfolding sample_started
sample_status = refl

abbrev status_of : Runs → String → Option String
status_of w id = lookup id w

assigned : (id outcome : String) (w : Runs) → lookup id (assign id outcome w) ≡ some outcome
assigned id outcome w = rw (lookup-assign id id outcome w, eq_refl id)

given_inj : {A : Type 0} {a b : A} → some a ≡ some b → a ≡ b
given_inj h = cc

none-ne-some : {A : Type 0} {a : A} → none ≡ some a → ⊥
none-ne-some h = cc

-- A sink of the engine that is given its place
by_given :
    {E : Type 0} {given sink : E → Runs → Result (Option String) × Runs}
    → some given ≡ some sink
    → ((e : E) (w : Runs) → (given e w).1 ≡ w)
    → (e : E) (w : Runs) (id : String) → lookup id (sink e w).1 ≡ lookup id w
by_given same kept e w id = ap (lookup id) (subst (λ f. (f e w).1 ≡ w) (given_inj same) (kept e w))

sample-KeepsRuns : KeepsRuns (engine_with true (ok tt)) status_of
sample-KeepsRuns = record {
  commits = λ id os ds time w h. assigned id "SUCCEEDED" w;
  finishes = λ id outcome time error w h. assigned id outcome w;
  by_clock = λ w id. refl;
  by_lock = λ w id. refl;
  by_unlock = λ w id. refl;
  by_sink = λ sink same. by_given same (λ e w. refl);
  by_batch = λ sink same es w id. absurd (none-ne-some same);
}

abbrev no_receipt : RunReceipt
no_receipt = receipt_with (engine_with true (ok tt)) sample_request none "" 0 0 0 0 none

abbrev returned : Result RunReceipt → RunReceipt
returned (ok r) = r
returned (err x) = no_receipt

sample_returned :
    run (engine_with true (ok tt)) sample_request []
    ≡ (ok (returned sample_started.0), sample_started.1)
unfolding sample_started
sample_returned = refl

run-Agrees_example : Agrees (status_of []) (status_of sample_started.1) (returned sample_started.0)
run-Agrees_example =
    run-Agrees (engine_with true (ok tt)) status_of sample-KeepsRuns sample_request []
      sample_started.1 (returned sample_started.0) sample_returned

-- A run whose commit is refused
abbrev sample_run : StartedRun
sample_run = record {
  config = sample_configuration;
  run_id = "run";
  latest_open = 60_000;
  started = 130_000;
  by_instrument = ("BTC-USDT-PERP", sample_candle ∷ []) ∷ [];
  warnings = [];
}

sample_refused :
    evaluate_and_commit (engine_with true (err os_error)) sample_run [] ≡ (err os_error, [])
unfolding is_instrument_id evaluate_and_commit evaluate configured_nodes topological_order rounds
    execute decide resample_roles ◌>>=◌
sample_refused = refl

end_run_reports_example :
    ((attempt (evaluate_and_commit (engine_with true (err os_error)) sample_run)
        >>= end_run (engine_with true (err os_error)) sample_request sample_run)
      []).0
    ≡ ok (
        receipt_with
          (engine_with true (err os_error))
          sample_request
          (some "run")
          "FAILED"
          130_000
          130_000
          1
          0
          (some (bounded_error (engine_with true (err os_error)) os_error)))
end_run_reports_example =
    end_run_reports (engine_with true (err os_error)) sample_request sample_run os_error [] []
      130_000 refl refl sample_refused refl refl
