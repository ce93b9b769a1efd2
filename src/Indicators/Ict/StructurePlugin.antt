-- ===== src/Indicators/Ict/StructurePlugin.antt =====
-- indicators/ict.py: `MarketStructurePlugin`.
use smc_ict_engine.Prelude.{
  ℕ, ◌+◌, Bool, not, ◌&&◌, ltb, Option, none, some, String, List, [], ◌∷◌, length, last, map, keep,
  if◌then◌else◌, Result, ok, value_error, ◌>>=◌, ◌>>◌, raise_if,
}
use smc_ict_engine.Domain.{Observation, ObservationStatus, Evidence, same_keys}
use smc_ict_engine.Resampling.{DerivedCandle}
use smc_ict_engine.Graph.{RunContext, Observations}
use smc_ict_engine.Indicators.Base.{
  configured_timeframe, closed_candles, DependencyProblem, dependency_problem, Report, plain_report,
  problem_report, observation,
}
use smc_ict_engine.Indicators.Loop.{element}
use smc_ict_engine.Indicators.Smc.Legs.{exact_bool}
use smc_ict_engine.Indicators.Smc.SwingPlugin.{direction_text}
use smc_ict_engine.Indicators.Ict.Zigzag.{bounded_int}
use smc_ict_engine.Indicators.Ict.Structure.{
  BreakType, structure_shift, structure_break, MarketEvent, market_events,
}

-- `MarketStructurePlugin`
pub record MarketStructure : Type 0 where
  pub left : ℕ
  pub emit_shift : Bool
  pub emit_break : Bool

unfoldable pub create : List (String × Evidence) → Result MarketStructure
unfolding bounded_int exact_bool same_keys
create parameters = do
  raise_if
      (not (same_keys (map (λ p. p.0) parameters) ("pivot_width" ∷ "emit_mss" ∷ "emit_bos" ∷ [])))
      value_error
  left ← bounded_int parameters "pivot_width" 3 (some 10)
  emit_shift ← exact_bool parameters "emit_mss"
  emit_break ← exact_bool parameters "emit_bos"
  raise_if (not emit_shift && not emit_break) value_error
  ok (record { left = left; emit_shift = emit_shift; emit_break = emit_break })

abbrev pub break_text : BreakType → String
break_text structure_shift = "MSS"
break_text structure_break = "BOS"

-- The events that the parameters enable
abbrev pub is_enabled : MarketStructure → MarketEvent → Bool
is_enabled plugin e = elim e.event_type [
  | structure_shift ↦ plugin.emit_shift
  | structure_break ↦ plugin.emit_break
]

abbrev pub market_report : MarketEvent → DerivedCandle → Report
market_report e c =
    record (plain_report ObservationStatus.pass
      "latest unique zigzag level has an enabled closed-bar structure break" "CONFIRMED_BREAK") {
        event_type = some (break_text e.event_type);
        direction = some (direction_text e.direction);
        event_time_ms = some c.close_time_ms;
        known_time_ms = some c.close_time_ms;
        level = some e.level;
        payload = ("pivot_confirmation_bars", Evidence.number 1) ∷ [];
      }

-- The report on the last event
abbrev pub market_found : List DerivedCandle → List MarketEvent → Result Report
market_found candles [] = ok (
    plain_report ObservationStatus.fail "no enabled close-confirmed zigzag structure break"
      "NO_BREAK")
market_found candles (first ∷ rest) =
    element candles (last first rest).index >>= λ c. ok (market_report (last first rest) c)

unfoldable pub structure_report :
    MarketStructure → Option DependencyProblem → List DerivedCandle → Result Report
unfolding market_events
structure_report plugin (some problem) candles = ok (problem_report problem)
structure_report plugin none candles =
    if ltb (length candles) (plugin.left + 2)
    then ok (
        plain_report ObservationStatus.unavailable
          "insufficient bars for one-right-bar zigzag confirmation" "UNAVAILABLE")
    else (market_events candles plugin.left >>= λ events.
        market_found candles (keep (is_enabled plugin) events))

-- `evaluate`. The digest of the parameters is given.
unfoldable pub evaluate :
    (parameter_hash : String) → MarketStructure → RunContext → Observations → Result Observation
unfolding configured_timeframe dependency_problem closed_candles structure_report observation
evaluate parameter_hash plugin context dependencies = do
  t ← configured_timeframe context "execution"
  problem ← dependency_problem dependencies ("ict.clustered_liquidity" ∷ []) context
  candles ← closed_candles context "execution" t
  r ← structure_report plugin problem candles
  observation context "ict.market_structure" parameter_hash t ("ict.clustered_liquidity" ∷ [])
      ("ict_luxalgo@1" ∷ []) r
