-- ===== src/Indicators/Ict/Zigzag.antt =====
-- indicators/ict.py: the pivots that one bar confirms, and the zigzag through them. A direction of 1
-- is a high, of -1 a low.
use smc_ict_engine.Prelude.{
  ℕ, ◌+◌, ◌-◌, Bool, ◌&&◌, ltb, ◌==◌, Option, none, some, String, List, [], ◌∷◌, ◌++◌, map, keep,
  drop, lookup, if◌then◌else◌, Result, ok, err, value_error, type_error, ◌>>=◌,
}
use smc_ict_engine.Decimal.{Decimal, dec_ltb}
use smc_ict_engine.Domain.{Evidence}
use smc_ict_engine.Resampling.{DerivedCandle}
use smc_ict_engine.Indicators.Loop.{element, slice, enumerate_from}
use smc_ict_engine.Indicators.Smc.Legs.{highest, lowest}
use smc_ict_engine.Indicators.Smc.Swing.{PivotKind, high_pivot, low_pivot}

abbrev pub above : ℕ → Option ℕ → Bool
above n none = Bool.false
above n (some maximum) = ltb maximum n

-- `_exact_int`
unfoldable pub bounded_int :
    List (String × Evidence) → String → (minimum : ℕ) → (maximum : Option ℕ) → Result ℕ
bounded_int parameters name minimum maximum = elim (lookup name parameters) [
  | some (Evidence.number n) ↦
      if ltb n minimum then err value_error else if above n maximum then err value_error else ok n
  | _ ↦ err type_error
]

-- `_ZigzagPoint`
pub record ZigzagPoint : Type 0 where
  pub direction : PivotKind
  pub index : ℕ
  pub level : Decimal

abbrev pub side_of : PivotKind → DerivedCandle → Decimal
side_of high_pivot c = c.high
side_of low_pivot c = c.low

-- The pivots that the bar at an index confirms
abbrev pub confirmed_at :
    ℕ → (top bottom : Decimal) → (candidate bar : DerivedCandle) → List (ℕ × PivotKind)
confirmed_at index top bottom candidate c =
    (if dec_ltb top candidate.high && dec_ltb c.high candidate.high
      then (index, high_pivot) ∷ []
      else [])
    ++ (if dec_ltb candidate.low bottom && dec_ltb candidate.low c.low
        then (index, low_pivot) ∷ []
        else [])

-- The body of the loop
unfoldable pub pivot_step :
    List DerivedCandle
    → (left : ℕ) → ℕ
    → DerivedCandle
    → List (ℕ × PivotKind)
    → Result (List (ℕ × PivotKind))
unfolding highest lowest dec_ltb
pivot_step candles left index c found = do
  candidate ← element candles (index - 1)
  let prior = slice (index - 1 - left) (index - 1) candles
  top ← highest (map (λ x. x.high) prior)
  bottom ← lowest (map (λ x. x.low) prior)
  ok (found ++ confirmed_at index top bottom candidate c)

-- `_pivot_candidates`
unfoldable pub pivot_candidates : List DerivedCandle → (left : ℕ) → Result (List (ℕ × PivotKind))
unfolding pivot_step enumerate_from
pivot_candidates candles left =
    enumerate_from (pivot_step candles left) (left + 1) (drop (left + 1) candles) []

-- `candidate_map.get(index, [])`
abbrev pub directions_at : ℕ → List (ℕ × PivotKind) → List PivotKind
directions_at index found = map (λ p. p.1) (keep (λ p. p.0 == index) found)

abbrev pub same_direction : PivotKind → PivotKind → Bool
same_direction high_pivot high_pivot = Bool.true
same_direction low_pivot low_pivot = Bool.true
same_direction _ _ = Bool.false

abbrev pub beyond : PivotKind → (level current : Decimal) → Bool
beyond high_pivot level current = dec_ltb current level
beyond low_pivot level current = dec_ltb level current

-- `_update_zigzag`: the new points, if the point changes them
unfoldable pub update_zigzag : List ZigzagPoint → ZigzagPoint → Option (List ZigzagPoint)
unfolding dec_ltb
update_zigzag [] p = some (p ∷ [])
update_zigzag (c ∷ cs) p =
    if same_direction c.direction p.direction
    then if beyond p.direction p.level c.level then some (p ∷ cs) else none
    else some (p ∷ c ∷ cs)

-- The point that a bar confirms: the candle before it
abbrev pub point_at : ℕ → PivotKind → DerivedCandle → ZigzagPoint
point_at index direction c = record {
  direction = direction;
  index = index - 1;
  level = side_of direction c;
}
