-- ===== src/Indicators/Ict/Runs.antt =====
-- A run of the events of the market structure: when a break follows, and when a shift.
use smc_ict_engine.Prelude.{
  ℕ, ◌≡◌, refl, sym, subst, List, [], ◌∷◌, ◌++◌, All, All-append, get_elem?, if◌then◌else◌, Bool,
  true, false, not, ◌&&◌, Bool-cases, false-true, and_left, and_right, inl, inr, some, none, Option,
}
use smc_ict_engine.Decimal.{Decimal, dec_ltb}
use smc_ict_engine.Resampling.{DerivedCandle}
use smc_ict_engine.Indicators.Smc.Swing.{
  Direction, bullish, bearish, Trend, no_trend, upward, downward,
}
use smc_ict_engine.Indicators.Ict.Zigzag.{ZigzagPoint}
use smc_ict_engine.Indicators.Ict.Structure.{
  BreakType, structure_shift, structure_break, MarketEvent, Market, is_upward, is_downward,
  closes_above, closes_below, is_new, break_of, break_structure,
}

abbrev pub trend_of : Direction → Trend
trend_of bullish = upward
trend_of bearish = downward

-- The direction is the one of the trend.
abbrev pub goes_on : Trend → Direction → Bool
goes_on t bullish = is_upward t
goes_on t bearish = is_downward t

-- The close lies beyond the level.
abbrev pub beyond_level : Direction → (level close : Decimal) → Bool
beyond_level bullish level close = dec_ltb level close
beyond_level bearish level close = dec_ltb close level

abbrev pub IsBreak : List DerivedCandle → MarketEvent → Type 0
IsBreak candles e =
    (c : DerivedCandle) × (get_elem? candles e.index ≡ some c)
    × (beyond_level e.direction e.level c.closing ≡ true)

-- Each event is a break (BOS) if it goes on with the trend that the events before it left, and a
-- shift (MSS) if it turns it.
abbrev pub IsRun : Trend → List MarketEvent → Type 0
IsRun t [] = Unit {0}
IsRun t (e ∷ es) =
    (e.event_type ≡ (if goes_on t e.direction then structure_break else structure_shift))
    × IsRun (trend_of e.direction) es

abbrev last_trend : Trend → List MarketEvent → Trend
last_trend t [] = t
last_trend t (e ∷ es) = last_trend (trend_of e.direction) es

IsRun-append :
    (t : Trend) (es : List MarketEvent) (e : MarketEvent)
    → IsRun t es
    → e.event_type
      ≡ (if goes_on (last_trend t es) e.direction then structure_break else structure_shift)
    → IsRun t (es ++ e ∷ []) × (last_trend t (es ++ e ∷ []) ≡ trend_of e.direction)
IsRun-append t [] e h k = ((k, tt), refl)
IsRun-append t (x ∷ es) e (h, hs) k =
    let (run, last) = IsRun-append (trend_of x.direction) es e hs k in ((h, run), last)

abbrev closes : Direction → Decimal → Option ZigzagPoint → Bool
closes bullish close p = closes_above close p
closes bearish close p = closes_below close p

module _ (candles : List DerivedCandle) where
  abbrev pub IsHeld : Trend → List MarketEvent → Type 0
  IsHeld t events =
      IsRun no_trend events × (last_trend no_trend events ≡ t) × All (IsBreak candles) events

  module _ (index : ℕ) (c : DerivedCandle) (here : get_elem? candles index ≡ some c) (t : Trend)
      (events : List MarketEvent) (h : IsHeld t events) where
    break_of-IsHeld :
        (kind : BreakType) (d : Direction) (p : Option ZigzagPoint)
        → closes d c.closing p ≡ true
        → kind ≡ (if goes_on t d then structure_break else structure_shift)
        → IsHeld (trend_of d) (events ++ break_of kind d index p)
    break_of-IsHeld kind bullish none k e = absurd (false-true k)
    break_of-IsHeld kind bearish none k e = absurd (false-true k)
    break_of-IsHeld kind d (some p) k e =
        let event : MarketEvent = record {
          event_type = kind;
          direction = d;
          level = p.level;
          index = index;
        } in
        let (run, last) = IsRun-append no_trend events event h.0 (
          subst (λ x. kind ≡ (if goes_on x d then structure_break else structure_shift)) (sym h.1)
            e) in
        (
          run,
          last,
          All-append (IsBreak candles) events (event ∷ []) h.2 ((c, here, beyond d k), tt),
        )
      where
        beyond :
            (d : Direction)
            → closes d c.closing (some p) ≡ true
            → beyond_level d p.level c.closing ≡ true
        beyond bullish x = x
        beyond bearish x = x

    -- A shift turns the trend.
    shift-IsHeld :
        (d : Direction) (p : Option ZigzagPoint)
        → (closes d c.closing p && not (goes_on t d)) ≡ true
        → IsHeld (trend_of d) (events ++ break_of structure_shift d index p)
    shift-IsHeld d p k =
        break_of-IsHeld structure_shift d p (and_left _ _ k)
          (shifts (goes_on t d) (and_right _ _ k))
      where
        shifts :
            (b : Bool)
            → not b ≡ true
            → structure_shift ≡ (if b then structure_break else structure_shift)
        shifts true e = absurd (false-true e)
        shifts false e = refl

    -- A break keeps it.
    break-IsHeld :
        (d : Direction) (p : Option ZigzagPoint)
        → (goes_on t d && closes d c.closing p) ≡ true
        → IsHeld t (events ++ break_of structure_break d index p)
    break-IsHeld d p k =
        let on = and_left (goes_on t d) (closes d c.closing p) k in
        subst (λ x. IsHeld x (events ++ break_of structure_break d index p)) (sym (trend_eq t d on))
          (break_of-IsHeld structure_break d p (and_right (goes_on t d) (closes d c.closing p) k)
            (rw on refl))
      where
        trend_eq : (t : Trend) (d : Direction) → goes_on t d ≡ true → t ≡ trend_of d
        trend_eq upward bullish e = refl
        trend_eq downward bullish e = absurd (false-true e)
        trend_eq no_trend bullish e = absurd (false-true e)
        trend_eq upward bearish e = absurd (false-true e)
        trend_eq downward bearish e = refl
        trend_eq no_trend bearish e = absurd (false-true e)

  pub break_structure-IsHeld :
      (index : ℕ) (c : DerivedCandle) (high low : Option ZigzagPoint) (s : Market)
      → get_elem? candles index ≡ some c
      → IsHeld s.trend s.events
      → IsHeld
          (break_structure index c.closing high low s).trend
          (break_structure index c.closing high low s).events
  unfolding break_structure
  break_structure-IsHeld index c high low s here h =
      elim (Bool-cases (closes_above c.closing high && not (is_upward s.trend))) [
        | inl rises ↦ rw rises (shift-IsHeld index c here s.trend s.events h bullish high rises)
        | inr a ↦ elim (Bool-cases (closes_below c.closing low && not (is_downward s.trend))) [
          | inl falls ↦
              rw (a, falls) (shift-IsHeld index c here s.trend s.events h bearish low falls)
          | inr b ↦
              elim (Bool-cases (
                is_upward s.trend
                && closes_above c.closing high
                && is_new high s.shift_up
                && is_new high s.break_up)) [
                  | inl up ↦
                      rw (a, b, up)
                        (break-IsHeld index c here s.trend s.events h bullish high
                          (and_left _ _ (and_left _ _ up)))
                  | inr e ↦
                      elim (Bool-cases (
                        is_downward s.trend
                        && closes_below c.closing low
                        && is_new low s.shift_down
                        && is_new low s.break_down)) [
                          | inl down ↦
                              rw (a, b, e, down)
                                (break-IsHeld index c here s.trend s.events h bearish low
                                  (and_left _ _ (and_left _ _ down)))
                          | inr f ↦ rw (a, b, e, f) h
                        ]
                ]
        ]
      ]
