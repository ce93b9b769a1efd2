-- ===== src/Indicators/Smc/Legs.antt =====
-- indicators/smc.py: the leg of a swing, which an extreme ends that the bars after it confirm, and
-- the crossing of a pivot by a close. The three indicators share them.
use smc_ict_engine.Prelude.{
  ℕ, zero, suc, ◌+◌, ◌-◌, Bool, true, not, ◌&&◌, ltb, some, String, List, [], ◌∷◌, map, lookup,
  if◌then◌else◌, Result, ok, err, value_error, type_error, ◌>>=◌,
}
use smc_ict_engine.Decimal.{Decimal, dec_leb, dec_ltb, dec_max, dec_min}
use smc_ict_engine.Domain.{Evidence}
use smc_ict_engine.Resampling.{DerivedCandle}
use smc_ict_engine.Indicators.Loop.{element, slice}

-- `_exact_int`
unfoldable pub exact_int : List (String × Evidence) → String → (minimum : ℕ) → Result ℕ
exact_int parameters name minimum = elim (lookup name parameters) [
  | some (Evidence.number n) ↦ if ltb n minimum then err value_error else ok n
  | _ ↦ err type_error
]

-- `_exact_bool`
unfoldable pub exact_bool : List (String × Evidence) → String → Result Bool
exact_bool parameters name = elim (lookup name parameters) [
  | some (Evidence.boolean b) ↦ ok b
  | _ ↦ err type_error
]

-- `max(values)` and `min(values)`, which raise if there is no value
unfoldable pub highest_from : Decimal → List Decimal → Decimal
highest_from best [] = best
highest_from best (v ∷ vs) = highest_from (dec_max best v) vs

unfoldable pub lowest_from : Decimal → List Decimal → Decimal
lowest_from best [] = best
lowest_from best (v ∷ vs) = lowest_from (dec_min best v) vs

unfoldable pub highest : List Decimal → Result Decimal
unfolding highest_from dec_max
highest [] = err value_error
highest (v ∷ vs) = ok (highest_from v vs)

unfoldable pub lowest : List Decimal → Result Decimal
unfolding lowest_from dec_min
lowest [] = err value_error
lowest (v ∷ vs) = ok (lowest_from v vs)

-- The candle that `size` bars confirm, and the leg after it: 1 from a low on, 0 from a high on.
pub record Candidate : Type 0 where
  pub index : ℕ
  pub high : Decimal
  pub low : Decimal
  pub next_leg : ℕ

abbrev pub candidate_of :
    Result DerivedCandle → (subsequent : List DerivedCandle) → (index leg : ℕ) → Result Candidate
candidate_of candle subsequent index leg = do
  c ← candle
  top ← highest (map (λ x. x.high) subsequent)
  bottom ← lowest (map (λ x. x.low) subsequent)
  ok (record {
    index = index;
    high = c.high;
    low = c.low;
    next_leg = if dec_ltb top c.high then 0 else if dec_ltb c.low bottom then 1 else leg;
  })

-- The candidate of the bar at `index`, where `size <= index`
unfoldable pub candidate_at : List DerivedCandle → (size index leg : ℕ) → Result Candidate
unfolding highest lowest dec_ltb
candidate_at candles size index leg =
    candidate_of (element candles (index - size)) (slice (index - size + 1) (index + 1) candles)
      (index - size) leg

-- `_Pivot`
pub record Pivot : Type 0 where
  pub level : Decimal
  pub index : ℕ
  pub crossed : Bool

-- `candles[index - 1].close if index else close`
abbrev pub close_before : List DerivedCandle → ℕ → Decimal → Result Decimal
close_before candles zero close = ok close
close_before candles (suc index) close = element candles index >>= λ c. ok c.closing

-- `previous_close <= level < close`, of a pivot that has not been crossed
abbrev pub crosses_up : (previous close : Decimal) → Pivot → Bool
crosses_up previous close p = not p.crossed && dec_leb previous p.level && dec_ltb p.level close

-- `previous_close >= level > close`
abbrev pub crosses_down : (previous close : Decimal) → Pivot → Bool
crosses_down previous close p = not p.crossed && dec_leb p.level previous && dec_ltb close p.level

abbrev pub crossed : Pivot → Pivot
crossed p = record p { crossed = true }
