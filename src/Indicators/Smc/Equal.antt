-- ===== src/Indicators/Smc/Equal.antt =====
-- indicators/smc.py: `_equal_events`.
use smc_ict_engine.Prelude.{
  ℕ, Bool, ◌==◌, Option, none, some, List, [], ◌∷◌, ◌++◌, drop, if◌then◌else◌, Result, ok, ◌>>=◌,
}
use smc_ict_engine.Decimal.{Decimal, absolute, dec_ltb, ◌⊖◌, ◌⊗◌}
use smc_ict_engine.Resampling.{DerivedCandle}
use smc_ict_engine.Indicators.Averages.{wilder_atr}
use smc_ict_engine.Indicators.Loop.{element, enumerate_from}
use smc_ict_engine.Indicators.Smc.Legs.{Candidate, candidate_at}

-- `_strictly_equal`
unfoldable pub strictly_equal : (previous current atr threshold : Decimal) → Bool
unfolding dec_ltb ◌⊖◌ ◌⊗◌ absolute
strictly_equal previous current atr threshold =
    dec_ltb (absolute (previous ⊖ current)) (threshold ⊗ atr)

-- `EQL` or `EQH`, which are bullish and bearish.
pub data EqualKind : Type 0 where
  equal_lows equal_highs : EqualKind

-- `_EqualEvent`
pub record EqualEvent : Type 0 where
  pub kind : EqualKind
  pub level : Decimal
  pub previous_level : Decimal
  pub event_index : ℕ
  pub known_index : ℕ

-- The variables of `_equal_events`
pub record EqualLevels : Type 0 where
  pub leg : ℕ
  pub previous_high : Option Decimal
  pub previous_low : Option Decimal
  pub events : List EqualEvent

abbrev pub no_levels : EqualLevels
no_levels = record { leg = 0; previous_high = none; previous_low = none; events = [] }

-- The event of a level, if the one before it and the average are there.
abbrev pub equal_event :
    EqualKind
    → (threshold : Decimal) → (index candidate_index : ℕ) → (level : Decimal)
    → (previous atr : Option Decimal) → List EqualEvent
equal_event kind threshold index candidate_index level (some previous) (some atr) =
    if strictly_equal previous level atr threshold
    then record {
      kind = kind;
      level = level;
      previous_level = previous;
      event_index = candidate_index;
      known_index = index;
    }
      ∷ []
    else []
equal_event kind threshold index candidate_index level _ _ = []

abbrev pub compared :
    (threshold : Decimal) → (index : ℕ) → Candidate → Option Decimal → EqualLevels → EqualLevels
compared threshold index c atr s =
    if c.next_leg == 1
    then record s {
      leg = c.next_leg;
      previous_low = some c.low;
      events = s.events ++ equal_event equal_lows threshold index c.index c.low s.previous_low atr;
    }
    else record s {
      leg = c.next_leg;
      previous_high = some c.high;
      events =
          s.events ++ equal_event equal_highs threshold index c.index c.high s.previous_high atr;
    }

-- The body of the loop
unfoldable pub equal_step :
    List DerivedCandle
    → (averages : List (Option Decimal)) → (confirmation : ℕ) → (threshold : Decimal) → (index : ℕ)
    → DerivedCandle
    → EqualLevels
    → Result EqualLevels
unfolding candidate_at strictly_equal
equal_step candles averages confirmation threshold index bar s = do
  c ← candidate_at candles confirmation index s.leg
  if c.next_leg == s.leg
      then ok s
      else (element averages index >>= λ atr. ok (compared threshold index c atr s))

-- `_equal_events`: the indices go from the confirmation on.
unfoldable pub equal_events :
    List DerivedCandle → (confirmation : ℕ) → (threshold : Decimal) → Result (List EqualEvent)
unfolding wilder_atr equal_step enumerate_from
equal_events candles confirmation threshold = do
  averages ← wilder_atr candles 200
  s ←
      enumerate_from (equal_step candles averages confirmation threshold) confirmation
        (drop confirmation candles) no_levels
  ok s.events
