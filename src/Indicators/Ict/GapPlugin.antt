-- ===== src/Indicators/Ict/GapPlugin.antt =====
-- indicators/ict.py: `FairValueGapPlugin`.
use smc_ict_engine.Prelude.{
  ℕ, ◌+◌, max, Bool, not, ◌||◌, ltb, Option, none, some, String, List, [], ◌∷◌, length, map, lookup,
  str_eq, if◌then◌else◌, Result, ok, value_error, ◌>>=◌, ◌>>◌, raise_if,
}
use smc_ict_engine.Decimal.{Decimal, whole, divide, ◌⊕◌}
use smc_ict_engine.Domain.{
  Observation, ObservationStatus, Evidence, same_keys, decimal_text, or_null, evidence_eqb,
}
use smc_ict_engine.Resampling.{DerivedCandle}
use smc_ict_engine.Graph.{RunContext, Observations}
use smc_ict_engine.Indicators.Base.{
  configured_timeframe, closed_candles, DependencyProblem, dependency_problem, Report, plain_report,
  problem_report, observation,
}
use smc_ict_engine.Indicators.Risk.{dependency}
use smc_ict_engine.Indicators.Loop.{element}
use smc_ict_engine.Indicators.Smc.Legs.{exact_bool}
use smc_ict_engine.Indicators.Smc.SwingPlugin.{direction_text}
use smc_ict_engine.Indicators.Ict.Zigzag.{bounded_int}
use smc_ict_engine.Indicators.Ict.LiquidityPlugin.{zone_state_text}
use smc_ict_engine.Indicators.Ict.Gaps.{Gap, active_gaps}

-- `FairValueGapPlugin`
pub record FairValueGap : Type 0 where
  pub require_displacement : Bool
  pub displacement : ℕ

unfoldable pub create : List (String × Evidence) → Result FairValueGap
unfolding bounded_int exact_bool same_keys evidence_eqb
create parameters = do
  raise_if
      (not (
        same_keys (map (λ p. p.0) parameters)
          ("kind" ∷ "require_displacement" ∷ "displacement_length" ∷ "mitigation" ∷ [])))
      value_error
  raise_if
      (not (evidence_eqb (or_null (lookup "kind" parameters)) (Evidence.text "ordinary"))
        || not (
            evidence_eqb (or_null (lookup "mitigation" parameters))
              (Evidence.text "full_traversal")))
      value_error
  require_displacement ← exact_bool parameters "require_displacement"
  displacement ← bounded_int parameters "displacement_length" 1 none
  ok (record { require_displacement = require_displacement; displacement = displacement })

abbrev pub gap_report :
    Gap
    → (count : ℕ) → (midpoint : Decimal) → (event_candle known_candle : DerivedCandle)
    → (structure_known : ℕ) → Report
gap_report g count midpoint event_candle known_candle structure_known =
    record (plain_report ObservationStatus.pass
      "latest ordinary displacement FVG remains before full traversal" (zone_state_text g.state)) {
        event_type = some "FAIR_VALUE_GAP";
        direction = some (direction_text g.direction);
        event_time_ms = some event_candle.close_time_ms;
        known_time_ms = some (max known_candle.close_time_ms structure_known);
        level = some midpoint;
        lower = some g.lower;
        upper = some g.upper;
        payload =
            ("active_gap_count", Evidence.number count)
            ∷ ("midpoint_text", Evidence.text (decimal_text midpoint))
            ∷ ("market_structure_direction", Evidence.text (direction_text g.direction))
            ∷ ("market_structure_known_time_ms", Evidence.number structure_known)
            ∷ [];
      }

abbrev pub is_direction : Option String → String → Bool
is_direction none d = Bool.false
is_direction (some s) d = str_eq s d

-- The gap against the market structure, which has its direction
abbrev pub gap_with :
    List DerivedCandle → Gap → (count : ℕ) → Observation → (known : Option ℕ) → Result Report
gap_with candles g count o none = ok (
    plain_report ObservationStatus.fail "FVG direction contradicts market-structure dependency"
      "CONTRADICTORY_EVIDENCE")
gap_with candles g count o (some known) =
    if not (is_direction o.direction (direction_text g.direction))
    then ok (
        plain_report ObservationStatus.fail "FVG direction contradicts market-structure dependency"
          "CONTRADICTORY_EVIDENCE")
    else (do
      midpoint ← divide (g.lower ⊕ g.upper) (whole 2)
      known_candle ← element candles g.known_index
      event_candle ← element candles g.event_index
      ok (gap_report g count midpoint event_candle known_candle known))

-- The report on the first gap
abbrev pub gap_found : Observations → List DerivedCandle → List Gap → Result Report
gap_found dependencies candles [] =
    ok
      (record (plain_report ObservationStatus.fail
        "no ordinary displacement FVG remains before full traversal" "NO_ACTIVE_GAP") {
          payload = ("active_gap_count", Evidence.number 0) ∷ [];
        })
gap_found dependencies candles (g ∷ gs) = dependency "ict.market_structure" dependencies >>= λ o.
    gap_with candles g (length (g ∷ gs)) o o.known_time_ms

-- `warmup`
abbrev pub warmup : FairValueGap → ℕ
warmup plugin = if plugin.require_displacement then plugin.displacement + 1 else 3

unfoldable pub fair_value_report :
    FairValueGap → Option DependencyProblem → Observations → List DerivedCandle → Result Report
unfolding active_gaps decimal_text divide ◌⊕◌
fair_value_report plugin (some problem) dependencies candles = ok (problem_report problem)
fair_value_report plugin none dependencies candles =
    if ltb (length candles) (warmup plugin)
    then ok (
        plain_report ObservationStatus.unavailable
          "insufficient bars for displacement and three-candle FVG" "UNAVAILABLE")
    else (active_gaps candles plugin.displacement plugin.require_displacement
        >>= gap_found dependencies candles)

-- `evaluate`. The digest of the parameters is given.
unfoldable pub evaluate :
    (parameter_hash : String) → FairValueGap → RunContext → Observations → Result Observation
unfolding configured_timeframe dependency_problem closed_candles fair_value_report observation
evaluate parameter_hash plugin context dependencies = do
  t ← configured_timeframe context "execution"
  problem ← dependency_problem dependencies ("ict.market_structure" ∷ []) context
  candles ← closed_candles context "execution" t
  r ← fair_value_report plugin problem dependencies candles
  observation context "ict.fair_value_gap" parameter_hash t ("ict.market_structure" ∷ [])
      ("ict_luxalgo@1" ∷ []) r
