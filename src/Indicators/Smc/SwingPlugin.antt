-- ===== src/Indicators/Smc/SwingPlugin.antt =====
-- indicators/smc.py: `SwingStructurePlugin`.
use smc_ict_engine.Prelude.{
  ℕ, Bool, not, leb, ltb, some, String, List, [], ◌∷◌, length, last, map, if◌then◌else◌, Result, ok,
  value_error, ◌>>=◌, ◌>>◌, raise_if,
}
use smc_ict_engine.Domain.{Timeframe, Observation, ObservationStatus, Evidence, same_keys}
use smc_ict_engine.Resampling.{DerivedCandle}
use smc_ict_engine.Graph.{RunContext, Observations}
use smc_ict_engine.Indicators.Base.{closed_candles, Report, plain_report, observation}
use smc_ict_engine.Indicators.Loop.{element}
use smc_ict_engine.Indicators.Smc.Legs.{exact_int, exact_bool}
use smc_ict_engine.Indicators.Smc.Swing.{
  EventType, lower_low, higher_low, higher_high, lower_high, break_of_structure,
  change_of_character, Direction, bullish, bearish, EventState, confirmed_pivot, broken, PivotKind,
  high_pivot, low_pivot, StructureEvent, swing_events,
}

abbrev pub event_type_text : EventType → String
event_type_text lower_low = "LL"
event_type_text higher_low = "HL"
event_type_text higher_high = "HH"
event_type_text lower_high = "LH"
event_type_text break_of_structure = "BOS"
event_type_text change_of_character = "CHoCH"

abbrev pub direction_text : Direction → String
direction_text bullish = "BULLISH"
direction_text bearish = "BEARISH"

abbrev pub state_text : EventState → String
state_text confirmed_pivot = "CONFIRMED_PIVOT"
state_text broken = "BROKEN"

abbrev pub pivot_text : PivotKind → String
pivot_text high_pivot = "HIGH"
pivot_text low_pivot = "LOW"

-- `SwingStructurePlugin`
pub record SwingStructure : Type 0 where
  pub size : ℕ
  pub show_labels : Bool

unfoldable pub create : List (String × Evidence) → Result SwingStructure
unfolding exact_int exact_bool same_keys
create parameters = do
  size ← exact_int parameters "swing_length" 1
  show_labels ← exact_bool parameters "show_labels"
  raise_if (not (same_keys (map (λ p. p.0) parameters) ("swing_length" ∷ "show_labels" ∷ [])))
      value_error
  ok (record { size = size; show_labels = show_labels })

abbrev pub event_report :
    SwingStructure → StructureEvent → (event_candle known_candle : DerivedCandle) → Report
event_report plugin e event_candle known_candle =
    record (plain_report ObservationStatus.pass "latest source-aligned swing event is confirmed"
      (state_text e.state)) {
        event_type = some (event_type_text e.event_type);
        direction = some (direction_text e.direction);
        event_time_ms = some event_candle.close_time_ms;
        known_time_ms = some known_candle.close_time_ms;
        level = some e.level;
        payload =
            ("confirmation_bars", Evidence.number plugin.size)
            ∷ ("labels_enabled", Evidence.boolean plugin.show_labels)
            ∷ ("pivot_kind", Evidence.text (pivot_text e.pivot_kind))
            ∷ [];
      }

-- The report on the last event
abbrev pub swing_found : SwingStructure → List DerivedCandle → List StructureEvent → Result Report
swing_found plugin candles [] =
    ok
      (record (plain_report ObservationStatus.fail
        "no confirmed swing pivot or un-crossed pivot close-crossing" "NO_EVENT") {
          payload = ("confirmation_bars", Evidence.number plugin.size) ∷ [];
        })
swing_found plugin candles (first ∷ rest) = do
  let e = last first rest
  event_candle ← element candles e.event_index
  known_candle ← element candles e.known_index
  ok (event_report plugin e event_candle known_candle)

unfoldable pub swing_report : SwingStructure → List DerivedCandle → Result Report
unfolding swing_events
swing_report plugin candles =
    if leb (length candles) plugin.size
    then ok (
        plain_report ObservationStatus.unavailable
          "insufficient bars for first size-confirmed swing pivot" "UNAVAILABLE")
    else swing_events candles plugin.size >>= swing_found plugin candles

-- `evaluate`. The digest of the parameters is given.
unfoldable pub evaluate :
    (parameter_hash : String) → SwingStructure → RunContext → Observations → Result Observation
unfolding closed_candles swing_report observation
evaluate parameter_hash plugin context dependencies = do
  raise_if (ltb 0 (length dependencies)) value_error
  candles ← closed_candles context "regime" Timeframe.h4
  r ← swing_report plugin candles
  observation context "smc.swing_structure" parameter_hash Timeframe.h4 [] ("smc_luxalgo@7" ∷ []) r
