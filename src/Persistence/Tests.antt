-- ===== src/Persistence/Tests.antt =====
-- A recovery after a run has ended.
use smc_ict_engine.Prelude.{
  ◌≡◌, refl, true, none, some, String, [], ◌∷◌, lookup, ok, err, persistence_conflict, is_ok,
}
use smc_ict_engine.Prelude.Sort.{sort, insert_sorted}
use smc_ict_engine.Prelude.{ℕ, ◌+◌, ◌*◌, ◌⊎◌, Bool, ◌&&◌, All, map, false, eq_refl, arith}
use smc_ict_engine.Decimal.{whole, dec_eqb}
use smc_ict_engine.Domain.{ClosedCandle, same_key}
use smc_ict_engine.Persistence.Candles.{
  Market, market_of, Store, find_candle, find_state, store_candle_page, load_candles,
}
use smc_ict_engine.Persistence.Complete.{Advances, reached}
use smc_ict_engine.Persistence.Stored.{Holds, store_candle_page-Advances, store_candle_page-Holds}
use smc_ict_engine.Persistence.Tables.{
  RunRow, Tables, recover_running_runs, finish_run, commit_run, commit_run_body, transaction,
}
use smc_ict_engine.Persistence.Statuses.{commit_run-finish_run}
use smc_ict_engine.Persistence.Final.{Write, Write-Has}

abbrev run_of : (run_id status : String) → RunRow
run_of run_id status = record {
  run = record {
    run_id = run_id;
    status = status;
    started_at_ms = 1_000;
    completed_at_ms = none;
    strategy_name = "trend";
    strategy_version = "1";
    strategy_config_hash = "s";
    provider_id = "okx_swap";
    market_type = "LINEAR_PERPETUAL";
    market_config_hash = "m";
    git_commit = none;
    code_hash = some "c";
    data_start_open_ms = 0;
    data_end_close_ms = 59_999;
    data_hash = "d";
    error = none;
  };
  notification_dedup = "[]";
  notification_outcomes = "[]";
  scheduler_outcome = none;
}

abbrev sample_tables : Tables
sample_tables = record {
  runs = ("a", run_of "a" "SUCCEEDED") ∷ ("b", run_of "b" "RUNNING") ∷ [];
  observations = [];
  decisions = [];
}

-- Only the run that was left is failed.
sample_recovery :
    (recover_running_runs (λ row. true) 2_000 "restart" true sample_tables).0 ≡ ok ("b" ∷ [])
unfolding recover_running_runs sort insert_sorted
sample_recovery = refl

Write-Has_example :
    lookup "a" (recover_running_runs (λ row. true) 2_000 "restart" true sample_tables).1.runs
    ≡ some (run_of "a" "SUCCEEDED")
Write-Has_example =
    Write-Has (λ row. true) "a" (run_of "a" "SUCCEEDED") refl sample_tables
      (recover_running_runs (λ row. true) 2_000 "restart" true sample_tables).1
      (Write.recovers 2_000 "restart" true sample_tables) refl

-- The running run is committed.
abbrev committed_tables : Tables
committed_tables = (commit_run (λ row. true) "b" [] [] 2_000 sample_tables).1

committed_returns : is_ok (commit_run (λ row. true) "b" [] [] 2_000 sample_tables).0 ≡ true
unfolding commit_run commit_run_body transaction
committed_returns = refl

commit_run-finish_run_example :
    finish_run (λ row. true) "b" "FAILED" 3_000 (some "late") none committed_tables
    ≡ (err persistence_conflict, committed_tables)
commit_run-finish_run_example =
    commit_run-finish_run (λ row. true) "b" [] [] 2_000 3_000 (some "late") sample_tables
      committed_returns

abbrev minute_candle : (minute closing : ℕ) → ClosedCandle
minute_candle n closing = record {
  provider_id = "okx_swap";
  market_type = "LINEAR_PERPETUAL";
  instrument_id = "BTC-USDT-PERP";
  provider_symbol = "BTC-USDT-SWAP";
  interval = "1m";
  open_time_ms = n * 60_000;
  close_time_ms = n * 60_000 + 59_999;
  opening = whole 100;
  high = whole 105;
  low = whole 95;
  closing = whole closing;
  base_volume = whole 1;
  quote_volume = none;
  source_fields = [];
}

abbrev empty_store : Store
empty_store = record { candles = []; states = [] }

abbrev same_columns : ClosedCandle → ClosedCandle → Bool
same_columns a b = same_key a b && dec_eqb a.closing b.closing

abbrev stored_pages : Store
stored_pages =
    (store_candle_page (λ c. true) same_columns
      (minute_candle 2 101 ∷ minute_candle 4 100 ∷ minute_candle 3 100 ∷ []) 900_000 60_000
      (store_candle_page (λ c. true) same_columns (minute_candle 1 100 ∷ []) 800_000 60_000
        empty_store).1).1

abbrev sample_market : Market
sample_market = market_of (minute_candle 1 100)

-- The minutes from 1 to 4 are there, in two pages.
sample_complete :
    (reached (find_state sample_market stored_pages.states) ≡ some 240_000)
    × (map
          (λ c. c.open_time_ms)
          (load_candles "okx_swap" "LINEAR_PERPETUAL" "BTC-USDT-PERP" 120_000 180_000 stored_pages)
        ≡ 120_000 ∷ 180_000 ∷ [])
unfolding store_candle_page load_candles find_state dec_eqb
sample_complete = (refl, refl)

store_candle_page-Advances_example :
    Advances 60_000 empty_store
      (store_candle_page
        (λ c. true)
        same_columns
        (minute_candle 1 100 ∷ [])
        800_000
        60_000
        empty_store).1
      sample_market
store_candle_page-Advances_example =
    store_candle_page-Advances (λ c. true) same_columns (minute_candle 1 100 ∷ []) 800_000 60_000
      empty_store sample_market

same_columns_refl : (c : ClosedCandle) → same_columns c c ≡ true
unfolding dec_eqb
same_columns_refl c = ground (
  arith,
  eq_refl c.provider_id,
  eq_refl c.market_type,
  eq_refl c.instrument_id,
  eq_refl c.interval,
)

store_candle_page-Holds_example :
    ((k r : ClosedCandle)
      → find_candle k [] ≡ some r
      → find_candle k
          (store_candle_page
            (λ c. true)
            same_columns
            (minute_candle 1 100 ∷ [])
            800_000
            60_000
            empty_store).1.candles
        ≡ some r)
    × ((is_ok
            (store_candle_page
              (λ c. true)
              same_columns
              (minute_candle 1 100 ∷ [])
              800_000
              60_000
              empty_store).0
          ≡ false)
        ⊎ All
            (Holds
              (λ c. true)
              same_columns
              (store_candle_page
                (λ c. true)
                same_columns
                (minute_candle 1 100 ∷ [])
                800_000
                60_000
                empty_store).1.candles)
            (minute_candle 1 100 ∷ []))
store_candle_page-Holds_example =
    store_candle_page-Holds (λ c. true) same_columns same_columns_refl (minute_candle 1 100 ∷ [])
      800_000 60_000 empty_store
