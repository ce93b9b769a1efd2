-- ===== src/Indicators/Risk.antt =====
-- indicators/risk.py: the levels of a trade, composed of a liquidity sweep and a fair value gap.
use smc_ict_engine.Prelude.{
  ℕ, max, Bool, true, false, not, ◌&&◌, ◌||◌, leb, ltb, Option, none, some, is_some, String, List,
  [], ◌∷◌, length, last, str_eq, lookup, if◌then◌else◌, Result, ok, err, value_error, key_error,
  assertion_error, index_error, ◌>>=◌,
}
use smc_ict_engine.Decimal.{
  Decimal, whole, dec_leb, dec_eqb, dec_min, dec_max, divide, ◌⊕◌, ◌⊖◌, ◌⊗◌,
}
use smc_ict_engine.Decimal.Int.{pos}
use smc_ict_engine.Domain.{
  Observation, ObservationStatus, Evidence, evidence_eqb, or_null, decimal_text,
}
use smc_ict_engine.Resampling.{DerivedCandle}
use smc_ict_engine.Graph.{RunContext, Observations, ids_eqb}
use smc_ict_engine.Indicators.Base.{
  configured_timeframe, closed_candles, DependencyProblem, dependency_problem, Report, plain_report,
  problem_report, observation,
}
use smc_ict_engine.Indicators.Averages.{wilder_atr}

abbrev pub plugin_id : String
plugin_id = "project.risk_levels"

abbrev pub dependency_ids : List String
dependency_ids = "ict.clustered_liquidity" ∷ "ict.fair_value_gap" ∷ []

abbrev pub is_pass : ObservationStatus → Bool
is_pass ObservationStatus.pass = true
is_pass _ = false

-- `a >= b`, where both are present
abbrev pub not_before : Option ℕ → Option ℕ → Bool
not_before (some a) (some b) = leb b a
not_before _ _ = true

abbrev pub same_text : Option String → Option String → Bool
same_text none none = true
same_text (some a) (some b) = str_eq a b
same_text _ _ = false

abbrev pub expected_gap_direction : Option String → Option String
expected_gap_direction none = none
expected_gap_direction (some d) =
    if str_eq d "LONG" then some "BULLISH" else if str_eq d "SHORT" then some "BEARISH" else none

abbrev pub direction_evidence : Option String → Evidence
direction_evidence none = Evidence.null
direction_evidence (some d) = Evidence.text d

-- The time is not an integer, or later than the gap's.
abbrev pub lacks_known_time : Option Evidence → Option ℕ → Bool
lacks_known_time (some (Evidence.number t)) (some known) = ltb known t
lacks_known_time _ _ = true

-- The prices of a trade
pub record Levels : Type 0 where
  pub entry : Decimal
  pub stop : Decimal
  pub target : Decimal
  pub risk : Decimal
  pub reward : Decimal

-- `Decimal("0.1")`
abbrev pub tenth : Decimal
tenth = record { mantissa = pos 1; scale = 1 }

unfoldable pub levels_of : (direction : String) → (entry swept target atr : Decimal) → Levels
unfolding ◌⊕◌ ◌⊖◌ ◌⊗◌
levels_of direction entry swept target atr =
    if str_eq direction "LONG"
    then record {
      entry = entry;
      stop = swept ⊖ atr ⊗ tenth;
      target = target;
      risk = entry ⊖ (swept ⊖ atr ⊗ tenth);
      reward = target ⊖ entry;
    }
    else record {
      entry = entry;
      stop = swept ⊕ atr ⊗ tenth;
      target = target;
      risk = (swept ⊕ atr ⊗ tenth) ⊖ entry;
      reward = entry ⊖ target;
    }

abbrev pub levels_payload :
    (direction : String) → Levels → (ratio : Decimal) → List (String × Evidence)
levels_payload direction l ratio =
    ("direction", Evidence.text direction)
    ∷ ("entry_text", Evidence.text (decimal_text l.entry))
    ∷ ("stop_text", Evidence.text (decimal_text l.stop))
    ∷ ("target_text", Evidence.text (decimal_text l.target))
    ∷ ("reward_risk_text", Evidence.text (decimal_text ratio))
    ∷ []

-- `max` of the times that are present
abbrev pub latest : Option ℕ → Option ℕ → Result ℕ
latest none none = err value_error
latest (some a) none = ok a
latest none (some b) = ok b
latest (some a) (some b) = ok (max a b)

-- `assert value is not None`
abbrev pub asserted : {A : Type 0} → Option A → Result A
asserted none = err assertion_error
asserted (some a) = ok a

-- `dependencies[id]`
abbrev pub dependency : String → Observations → Result Observation
dependency id dependencies = elim (lookup id dependencies) [ none ↦ err key_error | some o ↦ ok o ]

abbrev pub last_average : List (Option Decimal) → Result Decimal
last_average [] = err index_error
last_average (a ∷ rest) = asserted (last a rest)

-- `assert direction in {"LONG", "SHORT"}`
abbrev pub asserted_direction : Option String → Result String
asserted_direction none = err assertion_error
asserted_direction (some d) =
    if str_eq d "LONG" || str_eq d "SHORT" then ok d else err assertion_error

abbrev pub level_contradiction : (entry lower upper : Option Decimal) → Result (Option String)
level_contradiction (some entry) (some lower) (some upper) = do
  midpoint ← divide (lower ⊕ upper) (whole 2)
  ok (if dec_eqb entry midpoint then none else some "FVG entry is not its exact midpoint")
level_contradiction _ _ _ = ok (some "FVG evidence omits canonical levels")

-- What `Decimal(text)` is, if it is a finite number, and the parameters of the plugin, with their digest.
module _ (parse_decimal : String → Option Decimal) (minimum : Decimal)
    (parameter_hash : String) where
  abbrev pub non_negative : Option Decimal → Option Decimal
  non_negative none = none
  non_negative (some d) = if dec_leb (whole 0) d then some d else none

  -- `_payload_decimal`
  unfoldable pub payload_decimal : Observation → String → Option Decimal
  unfolding dec_leb
  payload_decimal o key = elim (lookup key o.payload) [
    | some (Evidence.text s) ↦ non_negative (parse_decimal s)
    | _ ↦ none
  ]

  -- The end of `_validated_inputs`
  abbrev pub price_contradiction : Option String → Observation → Option String
  price_contradiction (some reason) liquidity = some reason
  price_contradiction none liquidity =
      if is_some (payload_decimal liquidity "swept_extreme_text")
        && is_some (payload_decimal liquidity "opposing_level_text")
      then none
      else some "liquidity evidence omits swept or frozen opposing level"

  -- `_validated_inputs`
  unfoldable pub validated_inputs : (liquidity gap : Observation) → Result (Option String)
  unfolding payload_decimal evidence_eqb divide ◌⊕◌ dec_eqb
  validated_inputs l g =
      if not (is_pass l.status && is_pass g.status)
      then ok (some "execution chain dependencies are not satisfied")
      else if not (
          is_some l.event_time_ms
          && is_some l.known_time_ms
          && is_some g.event_time_ms
          && is_some g.known_time_ms)
      then ok (some "execution chain dependencies omit event or knowledge time")
      else if not_before l.known_time_ms g.known_time_ms
      then ok (some "liquidity sweep is not known strictly before the FVG")
      else if not (ids_eqb g.dependency_ids ("ict.market_structure" ∷ []))
      then ok (some "FVG evidence does not retain its market-structure dependency")
      else if not (
          is_some (expected_gap_direction l.direction)
          && same_text g.direction (expected_gap_direction l.direction))
      then ok (some "liquidity and FVG directions contradict the execution chain")
      else if not (
          evidence_eqb (or_null (lookup "market_structure_direction" g.payload))
            (direction_evidence g.direction))
      then ok (some "FVG evidence contradicts its retained market-structure direction")
      else if lacks_known_time (lookup "market_structure_known_time_ms" g.payload) g.known_time_ms
      then ok (some "FVG evidence omits compatible market-structure knowledge time")
      else if not (str_eq l.state "FULL")
      then ok (some "liquidity evidence does not contain a completed sweep")
      else (do
        found ← level_contradiction g.level g.lower g.upper
        ok (price_contradiction found l))

  -- The report of the levels, in order or not.
  unfoldable pub levels_report :
      (direction : String) → Levels → (event_time known_time : ℕ) → Result Report
  unfolding divide dec_leb decimal_text dec_min dec_max
  levels_report direction l event_time known_time =
      if dec_leb l.risk (whole 0) || dec_leb l.reward (whole 0)
      then ok (
          plain_report ObservationStatus.fail "composed stop or opposing target is not directional"
            "INVALID_LEVEL_ORDER")
      else (do
        ratio ← divide l.reward l.risk
        let enough = dec_leb minimum ratio
        ok (record {
          status = if enough then ObservationStatus.pass else ObservationStatus.fail;
          reason =
              if enough
              then "exact reward/risk satisfies the configured minimum"
              else "exact reward/risk is below the configured minimum";
          event_type = some "RISK_LEVELS";
          direction = some direction;
          event_time_ms = some event_time;
          known_time_ms = some known_time;
          state = if enough then "LEVELS_CONFIRMED" else "BELOW_MINIMUM_REWARD_RISK";
          payload = levels_payload direction l ratio;
          level = some l.entry;
          lower = some (dec_min l.stop l.target);
          upper = some (dec_max l.stop l.target);
        }))

  -- From the direction on
  unfoldable pub compose_levels : List DerivedCandle → (liquidity gap : Observation) → Result Report
  unfolding payload_decimal levels_of levels_report wilder_atr
  compose_levels candles l g = do
    direction ← asserted_direction l.direction
    entry ← asserted g.level
    averages ← wilder_atr candles 14
    atr ← last_average averages
    swept ← asserted (payload_decimal l "swept_extreme_text")
    target ← asserted (payload_decimal l "opposing_level_text")
    event_time ← latest l.event_time_ms g.event_time_ms
    known_time ← latest l.known_time_ms g.known_time_ms
    levels_report direction (levels_of direction entry swept target atr) event_time known_time

  abbrev pub contradiction_report :
      Option String → List DerivedCandle → (liquidity gap : Observation) → Result Report
  contradiction_report none candles l g = compose_levels candles l g
  contradiction_report (some reason) candles l g =
      ok (plain_report ObservationStatus.fail reason "CONTRADICTORY_EVIDENCE")

  unfoldable pub report :
      Option DependencyProblem → Observations → List DerivedCandle → Result Report
  unfolding validated_inputs compose_levels
  report (some problem) dependencies candles = ok (problem_report problem)
  report none dependencies candles =
      if ltb (length candles) 14
      then ok (
          plain_report ObservationStatus.unavailable "insufficient execution bars for ATR(14)"
            "UNAVAILABLE")
      else (do
        l ← dependency "ict.clustered_liquidity" dependencies
        g ← dependency "ict.fair_value_gap" dependencies
        contradiction ← validated_inputs l g
        contradiction_report contradiction candles l g)

  -- `evaluate`
  unfoldable pub evaluate : RunContext → Observations → Result Observation
  unfolding configured_timeframe dependency_problem closed_candles report observation
  evaluate context dependencies = do
    t ← configured_timeframe context "execution"
    problem ← dependency_problem dependencies dependency_ids context
    candles ← closed_candles context "execution" t
    r ← report problem dependencies candles
    observation context plugin_id parameter_hash t dependency_ids ("project_strategy@1" ∷ []) r
