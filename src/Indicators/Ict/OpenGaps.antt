-- ===== src/Indicators/Ict/OpenGaps.antt =====
-- What the active gaps are.
use smc_ict_engine.Prelude.{
  ℕ, zero, suc, ◌+◌, ◌-◌, ◌≤◌, ◌≡◌, ◌∙◌, refl, ap, leb, List, [], ◌∷◌, All, All-map, All-kept,
  length, get_elem?, map, keep, Result, ok, ◌>>=◌, if◌then◌else◌, Bool, true, not, Bool-cases,
  false-true, length-map, inl, inr, some, none, Option, arith,
}
use smc_ict_engine.Prelude.Sort.{sort, sort-All}
use smc_ict_engine.Decimal.{Decimal, whole, ◌⊕◌, ◌⊖◌}
use smc_ict_engine.Resampling.{DerivedCandle}
use smc_ict_engine.Indicators.Averages.{simple_moving_average, moving_from, value_at}
use smc_ict_engine.Indicators.Defined.{divide-whole}
use smc_ict_engine.Indicators.Loop.{element_found, enumerate_from, enumerate_total}
use smc_ict_engine.Indicators.Smc.Extremes.{get_elem?_below, lt_of_get_elem?}
use smc_ict_engine.Indicators.Ict.Liquidity.{is_full}
use smc_ict_engine.Indicators.Ict.Gaps.{
  Gap, Gaps, no_gaps, body_of, has_large_body, is_bullish, is_bearish, with_gaps, find_gaps, fill,
  gap_step, gap_precedes, active_gaps,
}
use smc_ict_engine.Indicators.Ict.KnownGaps.{
  IsOpen, IsKnown, AreKnown, with_gaps-AreKnown, fill-IsKnown,
}

-- The moving average has a value for each of the values.
moving_from_total :
    (n : ℕ) (values : List Decimal) (running : Decimal) (index : ℕ) (vs : List Decimal)
    → 1 ≤ n
    → (means : List (Option Decimal)) × (moving_from n values running index vs ≡ ok means)
      × (length means ≡ length vs)
unfolding moving_from
moving_from_total n values running index [] h = ([], refl, refl)
moving_from_total n values running index (v ∷ vs) h =
    let grown = running ⊕ v in
    let kept = if leb n index then grown ⊖ value_at (index - n) values else grown in
    let (rest, e, len) = moving_from_total n values kept (suc index) vs h in
    let (mean, divided) = divide-whole kept n h in
    elim (Bool-cases (leb n (index + 1))) [
      | inl late ↦ (some mean ∷ rest, rw (late, divided, e) refl, ap suc len)
      | inr early ↦ (none ∷ rest, rw (early, e) refl, ap suc len)
    ]

means_total :
    (values : List Decimal) (n : ℕ)
    → 1 ≤ n
    → (means : List (Option Decimal)) × (simple_moving_average values n ≡ ok means)
      × (length means ≡ length values)
unfolding simple_moving_average
means_total values n h = moving_from_total n values (whole 0) 0 values h

module _ (candles : List DerivedCandle) where
  find_gaps_total :
      (bodies : List Decimal) (means : List (Option Decimal)) (required : Bool) (j : ℕ)
      (c : DerivedCandle) (s : Gaps)
      → length bodies ≡ length candles
      → length means ≡ length candles
      → get_elem? candles j ≡ some c
      → AreKnown candles j s.gaps
      → (t : Gaps) × (find_gaps candles bodies means required j c s ≡ ok t)
        × AreKnown candles j t.gaps
  unfolding find_gaps
  find_gaps_total bodies means required zero c s lb lm here h = (s, refl, h)
  find_gaps_total bodies means required (suc zero) c s lb lm here h = (s, refl, h)
  find_gaps_total bodies means required (suc (suc i)) c s lb lm here h =
      let within = lt_of_get_elem? candles (suc (suc i)) c here in
      let (middle, at_middle) = get_elem?_below candles (suc i) (omega (arith, within)) in
      let (old, at_old) = get_elem?_below candles i (omega (arith, within)) in
      let (body, at_body) = get_elem?_below bodies (suc i) (omega (arith, within, lb)) in
      let (mean, at_mean) = get_elem?_below means (suc i) (omega (arith, within, lm)) in
      let large = has_large_body body mean middle in
      (
        with_gaps (suc (suc i)) (is_bullish large required old middle c)
            (is_bearish large required old middle c) old c s,
        rw
            (
              element_found candles (suc i) middle at_middle,
              element_found candles i old at_old,
              element_found bodies (suc i) body at_body,
              element_found means (suc i) mean at_mean,
            )
            refl,
        with_gaps-AreKnown candles i old c at_old here large required middle s h,
      )

  gap_step_total :
      (bodies : List Decimal) (means : List (Option Decimal)) (required : Bool) (j : ℕ)
      (c : DerivedCandle) (s : Gaps)
      → length bodies ≡ length candles
      → length means ≡ length candles
      → get_elem? candles j ≡ some c
      → AreKnown candles j s.gaps
      → (t : Gaps) × (gap_step candles bodies means required j c s ≡ ok t)
        × AreKnown candles (suc j) t.gaps
  unfolding gap_step
  gap_step_total bodies means required j c s lb lm here h =
      let (t, found, known) = find_gaps_total bodies means required j c s lb lm here h in
      (
        record t { gaps = map (fill j c) t.gaps },
        ap {B = Result Gaps}
            (λ r. r >>= λ (t : Gaps). ok (record t { gaps = map (fill j c) t.gaps })) found,
        filled t.gaps known,
      )
    where
      filled :
          (gaps : List Gap)
          → AreKnown candles j gaps
          → AreKnown candles (suc j) (map (fill j c) gaps)
      filled [] k = tt
      filled (g ∷ gs) k = (fill-IsKnown candles j c g here k.0, filled gs k.1)

-- The search for fair value gaps returns, and each gap that it gives is open: it is the space between
-- two candles with one between them, which do not overlap (the low of the later one lies above the
-- high of the earlier one for a bullish gap, the high below the low for a bearish one); no candle from
-- the later one to the end of the series went through the gap, and none even entered it if its state
-- is ACTIVE. The length of the average is at least 1.
pub active_gaps-IsOpen :
    (candles : List DerivedCandle) (n : ℕ) (required : Bool)
    → 1 ≤ n
    → (gaps : List Gap) × (active_gaps candles n required ≡ ok gaps)
      × All (IsOpen candles (length candles)) gaps
unfolding active_gaps
active_gaps-IsOpen candles n required positive =
    let bodies = map body_of candles in
    let (means, averaged, len) = means_total bodies n positive in
    let lb = length-map body_of candles in
    let (t, ran, known) =
      enumerate_total candles (gap_step candles bodies means required)
        (λ j s. AreKnown candles j s.gaps)
        (λ j c s here h. gap_step_total candles bodies means required j c s lb (len ∙ lb) here h)
        no_gaps tt in
    (
      sort gap_precedes (keep (λ g. not (is_full g.state)) t.gaps),
      ap
            (λ r. r >>= λ m.
              enumerate_from (gap_step candles bodies m required) 0 candles no_gaps >>= λ s.
              ok (sort gap_precedes (keep (λ g. not (is_full g.state)) s.gaps)))
            averaged
          ∙ ap (λ r. r >>= λ s. ok (sort gap_precedes (keep (λ g. not (is_full g.state)) s.gaps)))
              ran,
      sort-All gap_precedes (IsOpen candles (length candles))
          (keep (λ g. not (is_full g.state)) t.gaps)
          (All-map (λ g h. still_open g h.0 h.1) (keep (λ g. not (is_full g.state)) t.gaps)
            (All-kept (IsKnown candles (length candles)) (λ g. not (is_full g.state)) t.gaps
              known)),
    )
  where
    still_open :
        (g : Gap)
        → IsKnown candles (length candles) g
        → not (is_full g.state) ≡ true
        → IsOpen candles (length candles) g
    still_open g (inl done) e = absurd (false-true (rw done at e))
    still_open g (inr (le, (space, held))) e = (space, held)
