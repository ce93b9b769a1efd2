-- ===== src/Sync/Continuity.antt =====
-- What a receipt of the historical synchronization proves, and that the synchronization ends.
use smc_ict_engine.Prelude.{
  ℕ, ◌+◌, ◌-◌, ◌/◌, ◌≤◌, ◌≡◌, refl, ap, Bool, true, false, some, Option, String, List, [], ◌∷◌,
  arith, length, map, All, Chain, Result, ok, subst,
}
use smc_ict_engine.Prelude.Sort.{sort}
use smc_ict_engine.Domain.{ClosedCandle, minute_ms}
use smc_ict_engine.Sync.Ranges.{TimeRange}
use smc_ict_engine.Sync.Pages.{InstrumentMapping}
use smc_ict_engine.Sync.Service.{KlineProvider, pure, raise_when}
use smc_ict_engine.Sync.Checked.{IsNextMinute, follows_each-Chain}
use smc_ict_engine.Sync.Progress.{
  Settles, bind-Settles, lift-Settles, raise_when-Settles, outcome_of, run-eq-ok,
  sync_range-Settles,
}
use smc_ict_engine.Sync.Historical.{
  HistoricalCandleRepository, adapter, InstrumentSyncResult, HistoricalSyncReceipt, is_incomplete,
  mapping_le, repair_ranges, historical_sync_range, sync_each, sync_all, sync_result, sync_receipt,
}

-- A candle of the instrument, within the range
abbrev pub IsOf : String → (start end : ℕ) → ClosedCandle → Type 0
IsOf id start end c = (c.instrument_id ≡ id) × (start ≤ c.open_time_ms) × (c.open_time_ms ≤ end)

-- The range's minutes are all there, one after the other, and nothing else is.
abbrev pub IsComplete : ℕ → ℕ → String → InstrumentSyncResult → Type 0
IsComplete start end id result =
    (length result.candles ≡ (end - start) / minute_ms + 1)
    × (result.total_rows ≡ length result.candles)
    × Chain IsNextMinute result.candles
    × All (IsOf id start end) result.candles

is_incomplete-IsComplete :
    (start end : ℕ) (existing complete : List ClosedCandle)
    → is_incomplete start end complete ≡ false
    → (length complete ≡ (end - start) / minute_ms + 1) × Chain IsNextMinute complete
unfolding is_incomplete
is_incomplete-IsComplete start end existing complete h =
    (ground arith, follows_each-Chain complete (ground arith))

raise_when-passed :
    {S : Type 0} (test : Bool) (s t : S) (u : Unit {0})
    → raise_when test s ≡ some (ok u, t)
    → test ≡ false
raise_when-passed true s t u e = cc
raise_when-passed false s t u e = refl

pure-eq-ok : {S A : Type 0} (a b : A) (s t : S) → pure a s ≡ some (ok b, t) → a ≡ b
pure-eq-ok a b s t e = cc

load-eq-ok :
    {S A : Type 0} (r : Result A) (a : A) (s t : S)
    → ◌≡◌ {A = Option (Result A × S)} (some (r, s)) (some (ok a, t))
    → r ≡ ok a
load-eq-ok r a s t e = cc

module _ {S : Type 0} (provider : KlineProvider) (repository : HistoricalCandleRepository S)
    (loads : (m : InstrumentMapping) (start end : ℕ) (s : S) (cs : List ClosedCandle)
      → repository.load_candles m start end s ≡ ok cs
      → All (IsOf m.instrument_id start end) cs) where
  historical_sync_range-IsComplete :
      (mapping : InstrumentMapping) (start end : ℕ) (s t : S) (result : InstrumentSyncResult)
      → historical_sync_range provider repository mapping start end s ≡ some (ok result, t)
      → IsComplete start end mapping.instrument_id result
  unfolding historical_sync_range
  historical_sync_range-IsComplete mapping start end s t result e =
      let (_, s₁, _, e₁) = run-eq-ok _ _ s t result e in
      let (_, s₂, _, e₂) = run-eq-ok _ _ s₁ t result e₁ in
      let (_, s₃, _, e₃) = run-eq-ok _ _ s₂ t result e₂ in
      let (_, s₄, _, e₄) = run-eq-ok _ _ s₃ t result e₃ in
      let (existing, s₅, _, e₅) = run-eq-ok _ _ s₄ t result e₄ in
      let (_, s₆, _, e₆) = run-eq-ok _ _ s₅ t result e₅ in
      let (complete, s₇, loaded, e₇) = run-eq-ok _ _ s₆ t result e₆ in
      let (u, s₈, passed, e₈) = run-eq-ok _ _ s₇ t result e₇ in
      let (count, chain) =
        is_incomplete-IsComplete start end existing complete
          (raise_when-passed (is_incomplete start end complete) s₇ s₈ u passed) in
      subst (IsComplete start end mapping.instrument_id)
        (pure-eq-ok (sync_result provider repository existing complete) result s₈ t e₈)
        (
          count,
          refl,
          chain,
          loads mapping start end s₆ complete (load-eq-ok _ complete s₆ s₇ loaded),
        )

  sync_each-IsComplete :
      (mappings : List InstrumentMapping) (start end : ℕ) (s t : S)
      (results : List (String × InstrumentSyncResult))
      → sync_each provider repository mappings start end s ≡ some (ok results, t)
      → (map (λ r. r.0) results ≡ map (λ m. m.instrument_id) mappings)
        × All (λ r. IsComplete start end r.0 r.1) results
  unfolding sync_each
  sync_each-IsComplete [] start end s t results e =
      subst (λ l. (map (λ r. r.0) l ≡ []) × All (λ r. IsComplete start end r.0 r.1) l)
        (pure-eq-ok [] results s t e) (refl, tt)
  sync_each-IsComplete (m ∷ ms) start end s t results e =
      let (result, s₁, made, e₁) = run-eq-ok _ _ s t results e in
      let (rest, s₂, later, e₂) = run-eq-ok _ _ s₁ t results e₁ in
      let (ids, complete) = sync_each-IsComplete ms start end s₁ s₂ rest later in
      subst
        (λ l.
          (map (λ r. r.0) l ≡ map (λ n. n.instrument_id) (m ∷ ms))
          × All (λ r. IsComplete start end r.0 r.1) l)
        (pure-eq-ok ((m.instrument_id, result) ∷ rest) results s₂ t e₂)
        (
          ap (λ l. m.instrument_id ∷ l) ids,
          (historical_sync_range-IsComplete m start end s s₁ result made, complete),
        )

  -- A receipt has a result for each mapping, in the order of the instruments. The candles of each are
  -- of the instrument and within the required range, as many as it has minutes, and follow one another
  -- minute by minute. The repository loads candles of the instrument and the range that it is asked for.
  pub sync_all-IsComplete :
      (mappings : List InstrumentMapping) (start end : ℕ) (s t : S)
      (receipt : HistoricalSyncReceipt)
      → sync_all provider repository mappings start end s ≡ some (ok receipt, t)
      → (map (λ r. r.0) receipt.instruments ≡ map (λ m. m.instrument_id) (sort mapping_le mappings))
        × All (λ r. IsComplete start end r.0 r.1) receipt.instruments
  unfolding sync_all
  sync_all-IsComplete mappings start end s t receipt e =
      let (_, s₁, _, e₁) = run-eq-ok _ _ s t receipt e in
      let (_, s₂, _, e₂) = run-eq-ok _ _ s₁ t receipt e₁ in
      let (results, s₃, made, e₃) = run-eq-ok _ _ s₂ t receipt e₂ in
      subst
        (λ l.
          (map (λ r. r.0) l ≡ map (λ m. m.instrument_id) (sort mapping_le mappings))
          × All (λ r. IsComplete start end r.0 r.1) l)
        (ap (λ r. r.instruments)
          (pure-eq-ok (sync_receipt provider repository start end results) receipt s₃ t e₃))
        (sync_each-IsComplete (sort mapping_le mappings) start end s₂ s₃ results made)

module _ {S : Type 0} (provider : KlineProvider) (repository : HistoricalCandleRepository S) where
  repair_ranges-Settles :
      (mapping : InstrumentMapping) (ranges : List TimeRange)
      → Settles (repair_ranges provider repository mapping ranges)
  unfolding repair_ranges
  repair_ranges-Settles mapping [] = record { at = λ s. refl }
  repair_ranges-Settles mapping ((first, final) ∷ rest) =
      bind-Settles _ _ (sync_range-Settles provider (adapter repository) mapping first final)
        (λ _. repair_ranges-Settles mapping rest)

  pub historical_sync_range-Settles :
      (mapping : InstrumentMapping) (start end : ℕ)
      → Settles (historical_sync_range provider repository mapping start end)
  unfolding historical_sync_range
  historical_sync_range-Settles mapping start end = bind-Settles _ _ (raise_when-Settles _) λ _.
      bind-Settles _ _ (lift-Settles _) λ _. bind-Settles _ _ (lift-Settles _) λ latest.
        bind-Settles _ _ (raise_when-Settles _) λ _.
          bind-Settles _ _ (record { at = λ s. refl })
            λ existing. bind-Settles _ _ (repair_ranges-Settles mapping _) λ _.
              bind-Settles _ _ (record { at = λ s. refl })
                λ complete. bind-Settles _ _ (raise_when-Settles _) λ _. record { at = λ s. refl }

  sync_each-Settles :
      (mappings : List InstrumentMapping) (start end : ℕ)
      → Settles (sync_each provider repository mappings start end)
  unfolding sync_each
  sync_each-Settles [] start end = record { at = λ s. refl }
  sync_each-Settles (m ∷ ms) start end =
      bind-Settles _ _ (historical_sync_range-Settles m start end) λ result.
        bind-Settles _ _ (sync_each-Settles ms start end) λ rest. record { at = λ s. refl }

  -- The synchronization of all mappings ends, by a receipt or by a raise, whatever the provider
  -- answers and whatever the repository holds.
  pub sync_all_settles :
      (mappings : List InstrumentMapping) (start end : ℕ) (s : S)
      → (outcome : Result HistoricalSyncReceipt) × (t : S) × (sync_all provider repository mappings
            start end s
          ≡ some (outcome, t))
  unfolding sync_all
  sync_all_settles mappings start end s = outcome_of _ (settles.at s)
    where
      settles : Settles (sync_all provider repository mappings start end)
      settles = bind-Settles _ _ (raise_when-Settles _) λ _.
          bind-Settles _ _ (raise_when-Settles _) λ _.
            bind-Settles _ _ (sync_each-Settles (sort mapping_le mappings) start end)
              λ results. record { at = λ s. refl }
