-- ===== src/Sync/Tests.antt =====
-- Runs of the synchronization on small inputs, and its theorems at them.
use smc_ict_engine.Prelude.{
  ℕ, ◌+◌, ◌*◌, ◌≡◌, ◌≢◌, refl, true, not, Bool, keep, eq_iff, str_eq, leb, ◌&&◌, subst, ok_inj,
  All-map, All-kept, none, some, List, [], ◌∷◌, ◌++◌, arith, All, Chain, Result, ok, map,
}
use smc_ict_engine.Prelude.Sort.{sort, insert_sorted}
use smc_ict_engine.Decimal.{whole}
use smc_ict_engine.Domain.{ClosedCandle, SourceValue, candle_eqb}
use smc_ict_engine.Sync.Ranges.{
  is_present, minute_count, minute_range, visit_minute, scan_minutes, close_range, missing_ranges,
  historical_missing_ranges,
}
use smc_ict_engine.Sync.Pages.{
  InstrumentMapping, KlineRequest, KlinePage, matches_request, find_key, add_unique, collect_unique,
  checked_unique, validate_page,
}
use smc_ict_engine.Sync.Service.{KlineProvider, CandlePageRepository, sync_range}
use smc_ict_engine.Sync.Service.{◌>>=◌}
use smc_ict_engine.Sync.Historical.{
  HistoricalCandleRepository, HistoricalSyncReceipt, mapping_le, is_bad_range, is_incomplete,
  repair_ranges, historical_sync_range, sync_each, sync_all, sync_receipt, sync_result,
}
use smc_ict_engine.Sync.Continuity.{IsOf, IsComplete, sync_all-IsComplete, sync_all_settles}
use smc_ict_engine.Sync.Gaps.{
  covers, IsApart, IsOrdered, missing_ranges_exact, missing_ranges-IsApart,
}
use smc_ict_engine.Sync.Checked.{IsNextMinute, WasAsked, validate_page_sound}
use smc_ict_engine.Sync.Progress.{sync_range_settles}

-- Five minutes, of which the second and the last are stored.
abbrev stored_minutes : List ℕ
stored_minutes = 60_000 ∷ 240_000 ∷ []

missing_minutes : missing_ranges 0 240_000 stored_minutes ≡ (0, 0) ∷ (120_000, 180_000) ∷ []
unfolding missing_ranges scan_minutes close_range minute_range minute_count visit_minute
missing_minutes = refl

missing_ranges_exact_example :
    covers (missing_ranges 0 240_000 stored_minutes) (0 + 3 * 60_000)
    ≡ not (is_present stored_minutes (0 + 3 * 60_000))
missing_ranges_exact_example =
    missing_ranges_exact 0 240_000 3 stored_minutes (omega arith) refl (omega arith)

missing_ranges-IsApart_example :
    Chain IsApart (missing_ranges 0 240_000 stored_minutes)
    × All IsOrdered (missing_ranges 0 240_000 stored_minutes)
missing_ranges-IsApart_example = missing_ranges-IsApart 0 240_000 stored_minutes (omega arith) refl

abbrev candle_at : ℕ → ClosedCandle
candle_at t = record {
  provider_id = "okx_swap";
  market_type = "LINEAR_PERPETUAL";
  instrument_id = "BTC-USDT-PERP";
  provider_symbol = "BTC-USDT-SWAP";
  interval = "1m";
  open_time_ms = t;
  close_time_ms = t + 59_999;
  opening = whole 100;
  high = whole 110;
  low = whole 90;
  closing = whole 105;
  base_volume = whole 1;
  quote_volume = none;
  source_fields = ("contract_volume", SourceValue.amount (whole 1)) ∷ [];
}

abbrev sample_mapping : InstrumentMapping
sample_mapping = record { instrument_id = "BTC-USDT-PERP"; provider_symbol = "BTC-USDT-SWAP" }

abbrev sample_request : KlineRequest
sample_request = record {
  provider_id = "okx_swap";
  market_type = "LINEAR_PERPETUAL";
  instrument_id = "BTC-USDT-PERP";
  provider_symbol = "BTC-USDT-SWAP";
  interval = "1m";
  start_open_time_ms = 0;
  end_open_time_ms = 60_000;
}

-- The provider repeats a candle of the page.
abbrev sample_page : KlinePage
sample_page = record {
  candles = candle_at 0 ∷ candle_at 0 ∷ candle_at 60_000 ∷ [];
  next_start_open_time_ms = none;
  complete = true;
}

sample_page_valid :
    validate_page sample_request sample_page ≡ ok (candle_at 0 ∷ candle_at 60_000 ∷ [])
unfolding validate_page collect_unique checked_unique matches_request add_unique find_key sort
    insert_sorted candle_eqb
sample_page_valid = refl

validate_page_sound_example :
    (candle_at 0 ∷ candle_at 60_000 ∷ [] ≢ [])
    × Chain IsNextMinute (candle_at 0 ∷ candle_at 60_000 ∷ [])
    × All (WasAsked sample_request) (candle_at 0 ∷ candle_at 60_000 ∷ [])
validate_page_sound_example =
    validate_page_sound sample_request sample_page (candle_at 0 ∷ candle_at 60_000 ∷ [])
      sample_page_valid

-- A provider that always serves the sample page, and a repository that is a list of candles.
abbrev sample_provider : KlineProvider
sample_provider = record {
  provider_id = "okx_swap";
  validate_instrument = λ mapping. ok tt;
  server_time_ms = ok 300_000;
  latest_closed_open_time_ms = ok 240_000;
  fetch_page = λ served request. ok sample_page;
}

abbrev sample_repository : CandlePageRepository (List ClosedCandle)
sample_repository = record {
  store_candle_page = λ candles sync_ms required stored. ok (stored ++ candles);
  load_candles = λ mapping start end stored. ok stored;
  load_sync_state = λ mapping stored. ok none;
}

sync_range_settles_example :
    (outcome : Result (List ClosedCandle)) × (t : List ClosedCandle) × (sync_range sample_provider
        sample_repository sample_mapping 0 60_000 []
      ≡ some (outcome, t))
sync_range_settles_example =
    sync_range_settles sample_provider sample_repository sample_mapping 0 60_000 []

abbrev is_asked : InstrumentMapping → (start end : ℕ) → ClosedCandle → Bool
is_asked m start end c =
    str_eq c.instrument_id m.instrument_id && leb start c.open_time_ms && leb c.open_time_ms end

-- The rows are stored already, so nothing is fetched.
abbrev stored_repository : HistoricalCandleRepository (List ClosedCandle)
stored_repository = record {
  store_candle_page = λ candles sync_ms required stored. ok (stored ++ candles);
  load_candles = λ mapping start end stored. ok (keep (is_asked mapping start end) stored);
}

stored_loads :
    (m : InstrumentMapping) (start end : ℕ) (s cs : List ClosedCandle)
    → stored_repository.load_candles m start end s ≡ ok cs
    → All (IsOf m.instrument_id start end) cs
stored_loads m start end s cs e = subst (All (IsOf m.instrument_id start end)) (ok_inj e) (
    All-map (λ c h. asked c h.1) (keep (is_asked m start end) s)
      (All-kept (λ c. Unit {0}) (is_asked m start end) s (every s)))
  where
    every : (xs : List ClosedCandle) → All (λ c. Unit {0}) xs
    every [] = tt
    every (x ∷ xs) = (tt, every xs)

    asked : (c : ClosedCandle) → is_asked m start end c ≡ true → IsOf m.instrument_id start end c
    asked c h = ground (arith, eq_iff c.instrument_id m.instrument_id)

abbrev stored_candles : List ClosedCandle
stored_candles = candle_at 0 ∷ candle_at 60_000 ∷ []

abbrev stored_receipt : HistoricalSyncReceipt
stored_receipt = sync_receipt sample_provider stored_repository 0 60_000 (
    ("BTC-USDT-PERP", sync_result sample_provider stored_repository stored_candles stored_candles)
    ∷ [])

stored_synced :
    sync_all sample_provider stored_repository (sample_mapping ∷ []) 0 60_000 stored_candles
    ≡ some (ok stored_receipt, stored_candles)
unfolding sync_all sync_each historical_sync_range repair_ranges is_bad_range is_incomplete ◌>>=◌
    historical_missing_ranges missing_ranges scan_minutes close_range minute_range minute_count
    visit_minute sort insert_sorted
stored_synced = refl

sync_all-IsComplete_example :
    (map (λ r. r.0) stored_receipt.instruments
      ≡ map (λ m. m.instrument_id) (sort mapping_le (sample_mapping ∷ [])))
    × All (λ r. IsComplete 0 60_000 r.0 r.1) stored_receipt.instruments
sync_all-IsComplete_example =
    sync_all-IsComplete sample_provider stored_repository stored_loads (sample_mapping ∷ []) 0
      60_000 stored_candles stored_candles stored_receipt stored_synced

sync_all_settles_example :
    (outcome : Result HistoricalSyncReceipt) × (t : List ClosedCandle) × (sync_all sample_provider
        stored_repository
        (sample_mapping ∷ [])
        0
        60_000
        []
      ≡ some (outcome, t))
sync_all_settles_example =
    sync_all_settles sample_provider stored_repository (sample_mapping ∷ []) 0 60_000 []
