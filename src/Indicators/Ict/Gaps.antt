-- ===== src/Indicators/Ict/Gaps.antt =====
-- indicators/ict.py: `_active_gaps`.
use smc_ict_engine.Prelude.{
  ℕ, zero, suc, Bool, true, false, not, ◌&&◌, ◌||◌, ltb, leb, ◌==◌, any, Option, none, some, List,
  [], ◌∷◌, map, keep, if◌then◌else◌, Result, ok, ◌>>=◌,
}
use smc_ict_engine.Prelude.Sort.{sort}
use smc_ict_engine.Decimal.{Decimal, absolute, dec_ltb, dec_max, dec_min, ◌⊖◌, ◌⊗◌}
use smc_ict_engine.Decimal.Int.{pos}
use smc_ict_engine.Resampling.{DerivedCandle}
use smc_ict_engine.Indicators.Averages.{simple_moving_average}
use smc_ict_engine.Indicators.Loop.{element, enumerate_from}
use smc_ict_engine.Indicators.Smc.Swing.{Direction, bullish, bearish}
use smc_ict_engine.Indicators.Ict.Liquidity.{ZoneState, active, partial, full, is_full, is_active}

-- `_Gap`
pub record Gap : Type 0 where
  pub direction : Direction
  pub lower : Decimal
  pub upper : Decimal
  pub event_index : ℕ
  pub known_index : ℕ
  pub state : ZoneState

-- The variables of `_active_gaps`
pub record Gaps : Type 0 where
  pub gaps : List Gap
  pub previous_bullish : Bool
  pub previous_bearish : Bool

abbrev pub no_gaps : Gaps
no_gaps = record { gaps = []; previous_bullish = false; previous_bearish = false }

unfoldable pub body_of : DerivedCandle → Decimal
unfolding absolute ◌⊖◌
body_of c = absolute (c.closing ⊖ c.opening)

-- `Decimal("0.36")`
abbrev pub wick_fraction : Decimal
wick_fraction = record { mantissa = pos 36; scale = 2 }

-- `large_body`
unfoldable pub has_large_body :
    (body : Decimal) → (mean : Option Decimal) → (middle : DerivedCandle) → Bool
unfolding dec_ltb dec_max dec_min ◌⊖◌ ◌⊗◌
has_large_body body none middle = false
has_large_body body (some mean) middle =
    dec_ltb mean body
    && dec_ltb (middle.high ⊖ dec_max middle.closing middle.opening) (body ⊗ wick_fraction)
    && dec_ltb (dec_min middle.closing middle.opening ⊖ middle.low) (body ⊗ wick_fraction)

-- `bullish` and `bearish`
unfoldable pub is_bullish : (large required : Bool) → (old middle candle : DerivedCandle) → Bool
unfolding dec_ltb
is_bullish large required old middle c =
    dec_ltb old.high c.low && (large && dec_ltb middle.opening middle.closing || not required)

unfoldable pub is_bearish : (large required : Bool) → (old middle candle : DerivedCandle) → Bool
unfolding dec_ltb
is_bearish large required old middle c =
    dec_ltb c.high old.low && (large && dec_ltb middle.closing middle.opening || not required)

abbrev pub direction_eqb : Direction → Direction → Bool
direction_eqb bullish bullish = true
direction_eqb bearish bearish = true
direction_eqb _ _ = false

-- The first gap of the direction, in its new place. Its state stays.
unfoldable pub extend_first :
    Direction → (lower upper : Decimal) → (index : ℕ) → List Gap → List Gap
extend_first d lower upper index [] = []
extend_first d lower upper index (g ∷ gs) =
    if direction_eqb g.direction d
    then record g { lower = lower; upper = upper; event_index = index; known_index = index } ∷ gs
    else g ∷ extend_first d lower upper index gs

abbrev pub gap_of : Direction → (lower upper : Decimal) → ℕ → Gap
gap_of d lower upper index = record {
  direction = d;
  lower = lower;
  upper = upper;
  event_index = index;
  known_index = index;
  state = active;
}

-- `if bullish:` and `if bearish:`
unfoldable pub add_gap :
    (found previous : Bool) → Direction → (lower upper : Decimal) → ℕ → List Gap → List Gap
unfolding extend_first
add_gap found previous d lower upper index gaps =
    if not found
    then gaps
    else if previous && any (λ g. direction_eqb g.direction d) gaps
    then extend_first d lower upper index gaps
    else gap_of d lower upper index ∷ gaps

abbrev pub with_gaps : (index : ℕ) → (bull bear : Bool) → (old candle : DerivedCandle) → Gaps → Gaps
with_gaps index bull bear old c s = record {
  gaps =
      add_gap bear s.previous_bearish bearish c.high old.low index
        (add_gap bull s.previous_bullish bullish old.high c.low index s.gaps);
  previous_bullish = bull;
  previous_bearish = bear;
}

-- `if index >= 2:` and what it guards
unfoldable pub find_gaps :
    List DerivedCandle
    → (bodies : List Decimal) → (means : List (Option Decimal)) → (required : Bool) → ℕ
    → DerivedCandle
    → Gaps
    → Result Gaps
unfolding has_large_body is_bullish is_bearish add_gap
find_gaps candles bodies means required zero c s = ok s
find_gaps candles bodies means required (suc zero) c s = ok s
find_gaps candles bodies means required (suc (suc i)) c s = do
  middle ← element candles (suc i)
  old ← element candles i
  body ← element bodies (suc i)
  mean ← element means (suc i)
  let large = has_large_body body mean middle
  ok (
      with_gaps (suc (suc i)) (is_bullish large required old middle c)
        (is_bearish large required old middle c) old c s)

-- The candle goes through the gap, or into it.
abbrev pub goes_through : Gap → DerivedCandle → Bool
goes_through g c = elim g.direction [
  | bullish ↦ dec_ltb c.low g.lower
  | bearish ↦ dec_ltb g.upper c.high
]

abbrev pub enters : Gap → DerivedCandle → Bool
enters g c = elim g.direction [ bullish ↦ dec_ltb c.low g.upper | bearish ↦ dec_ltb g.lower c.high ]

-- The body of the loop over the gaps
unfoldable pub fill : (index : ℕ) → DerivedCandle → Gap → Gap
unfolding dec_ltb
fill index c g =
    if is_full g.state
    then g
    else if goes_through g c
    then record g { state = full; known_index = index }
    else if enters g c && is_active g.state
    then record g { state = partial; known_index = index }
    else g

-- The body of the loop over the candles
unfoldable pub gap_step :
    List DerivedCandle
    → (bodies : List Decimal) → (means : List (Option Decimal)) → (required : Bool) → ℕ
    → DerivedCandle
    → Gaps
    → Result Gaps
unfolding find_gaps fill
gap_step candles bodies means required index c s = do
  t ← find_gaps candles bodies means required index c s
  ok (record t { gaps = map (fill index c) t.gaps })

-- The later known first, then the later event
abbrev pub gap_precedes : Gap → Gap → Bool
gap_precedes a b =
    ltb b.known_index a.known_index
    || (a.known_index == b.known_index && leb b.event_index a.event_index)

-- `_active_gaps`
unfoldable pub active_gaps :
    List DerivedCandle → (displacement_length : ℕ) → (required : Bool) → Result (List Gap)
unfolding body_of simple_moving_average gap_step enumerate_from sort
active_gaps candles n required = do
  means ← simple_moving_average (map body_of candles) n
  s ← enumerate_from (gap_step candles (map body_of candles) means required) 0 candles no_gaps
  ok (sort gap_precedes (keep (λ g. not (is_full g.state)) s.gaps))
