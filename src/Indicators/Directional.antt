-- ===== src/Indicators/Directional.antt =====
-- What a risk level that passes stands for.
use smc_ict_engine.Prelude.{
  ℕ, ◌≡◌, ◌∙◌, refl, sym, ap, subst, Bool, true, false, not, ◌&&◌, ◌||◌, ltb, leb, value_error,
  Option, none, some, String, List, [], ◌∷◌, length, map, str_eq, Result, ok, err-ne-ok, ok_inj,
  bind-eq-ok, raise_if-passed, Bool-cases, inl, inr, ◌⊎◌, eq_iff, lookup, arith,
}
use smc_ict_engine.Decimal.{Decimal, whole, dec_leb, divide, ◌⊕◌, ◌⊖◌, ◌⊗◌}
use smc_ict_engine.Domain.{
  Timeframe, timeframe_eqb, Observation, Evidence, decimal_text, checked_observation,
  is_instrument_id, has_valid_times, is_sha256, codes,
}
use smc_ict_engine.Resampling.{DerivedCandle}
use smc_ict_engine.Graph.{RunContext, Observations, ids_eqb, known_after}
use smc_ict_engine.Indicators.Base.{
  observed, DependencyProblem, dependency_problem, scan_dependencies, found_problem,
  configured_timeframe, closed_candles, Report, observation, written, first_failed,
  first_unavailable, expected_timeframe,
}
use smc_ict_engine.Indicators.Averages.{wilder_atr}
use smc_ict_engine.Indicators.Risk.{
  tenth, non_negative, levels_of, levels_payload, levels_report, compose_levels,
  contradiction_report, report, evaluate, validated_inputs, asserted, payload_decimal, last_average,
  asserted_direction, is_pass, latest, dependency, plugin_id, dependency_ids,
}

-- The stop, the risk and the reward of a trade: the stop lies a tenth of the average range beyond the
-- swept extreme.
abbrev pub IsPriced : (side : String) → (entry swept target atr stop risk reward : Decimal) → Type 0
IsPriced side entry swept target atr stop risk reward =
    ((side ≡ "LONG")
      × (stop ≡ swept ⊖ atr ⊗ tenth)
      × (risk ≡ entry ⊖ stop)
      × (reward ≡ target ⊖ entry))
    ⊎ ((side ≡ "SHORT")
        × (stop ≡ swept ⊕ atr ⊗ tenth)
        × (risk ≡ stop ⊖ entry)
        × (reward ≡ entry ⊖ target))

-- A positive risk and a positive reward, whose ratio is at least the minimum, and the payload that
-- writes these levels
abbrev pub IsStated :
    (minimum : Decimal)
    → (side : String) → (entry swept target atr : Decimal) → List (String × Evidence)
    → Type 0
IsStated minimum side entry swept target atr payload =
    (stop : Decimal) × (risk : Decimal) × (reward : Decimal) × (ratio : Decimal) × IsPriced side
      entry swept target atr stop risk reward
    × (dec_leb risk (whole 0) ≡ false)
    × (dec_leb reward (whole 0) ≡ false)
    × (divide reward risk ≡ ok ratio)
    × (dec_leb minimum ratio ≡ true)
    × (payload
        ≡ ("direction", Evidence.text side)
          ∷ ("entry_text", Evidence.text (decimal_text entry))
          ∷ ("stop_text", Evidence.text (decimal_text stop))
          ∷ ("target_text", Evidence.text (decimal_text target))
          ∷ ("reward_risk_text", Evidence.text (decimal_text ratio))
          ∷ [])

-- The number that a text of a payload denotes
abbrev pub Writes :
    (parse_decimal : String → Option Decimal) → Observation → (key : String) → Decimal → Type 0
Writes parse_decimal o key d =
    (text : String) × (lookup key o.payload ≡ some (Evidence.text text))
    × (parse_decimal text ≡ some d)

-- The entry is the level of the gap, the swept extreme and the target are those of the liquidity,
-- whose direction is taken over, and the average range is the last one of the candles.
abbrev pub IsDirectional :
    (parse_decimal : String → Option Decimal)
    → (minimum : Decimal) → List DerivedCandle
    → (liquidity gap : Observation) → (direction : Option String) → List (String × Evidence)
    → Type 0
IsDirectional parse_decimal minimum candles liquidity gap direction payload =
    (side : String) × (entry : Decimal) × (swept : Decimal) × (target : Decimal) × (atr : Decimal)
    × (averages : List (Option Decimal)) × (direction ≡ some side)
    × (liquidity.direction ≡ some side)
    × (gap.level ≡ some entry)
    × Writes parse_decimal liquidity "swept_extreme_text" swept
    × Writes parse_decimal liquidity "opposing_level_text" target
    × (wilder_atr candles 14 ≡ ok averages)
    × (last_average averages ≡ ok atr)
    × IsStated minimum side entry swept target atr payload

levels_of-IsPriced :
    (side : String) (entry swept target atr : Decimal)
    → (str_eq side "LONG" || str_eq side "SHORT") ≡ true
    → IsPriced side entry swept target atr
        (levels_of side entry swept target atr).stop
        (levels_of side entry swept target atr).risk
        (levels_of side entry swept target atr).reward
unfolding levels_of
levels_of-IsPriced side entry swept target atr sided = elim (Bool-cases (str_eq side "LONG")) [
  | inl long ↦ rw long (inl ((eq_iff side "LONG").0 long, refl, refl, refl))
  | inr other ↦
      rw other (inr ((eq_iff side "SHORT").0 (ground (arith, sided, other)), refl, refl, refl))
]

levels_of-keeps :
    (side : String) (entry swept target atr : Decimal)
    → ((levels_of side entry swept target atr).entry ≡ entry)
      × ((levels_of side entry swept target atr).target ≡ target)
unfolding levels_of
levels_of-keeps side entry swept target atr = elim (Bool-cases (str_eq side "LONG")) [
  | inl long ↦ rw long (refl, refl)
  | inr other ↦ rw other (refl, refl)
]

checked_observation-eq-ok : (o o' : Observation) → checked_observation o ≡ ok o' → o ≡ o'
unfolding checked_observation
checked_observation-eq-ok o o' h =
    let (_, h₁) = raise_if-passed (not (is_instrument_id o.instrument_id)) value_error _ h in
    let (_, h₂) =
      raise_if-passed (not (has_valid_times o.event_time_ms o.known_time_ms)) value_error _ h₁ in
    let (_, h₃) = raise_if-passed (not (is_sha256 o.parameter_hash)) value_error _ h₂ in
    let (_, h₄) = raise_if-passed (ltb o.payload_schema_version 1) value_error _ h₃ in
    let reason = length (codes o.bounded_reason) in
    let (_, h₅) = raise_if-passed (not (leb 1 reason && leb reason 1000)) value_error _ h₄ in
    ok_inj h₅

-- What an observation has of its report.
observation-eq-ok :
    (context : RunContext) (id hash : String) (t : Timeframe) (dependencies sources : List String)
    (r : Report) (o : Observation)
    → observation context id hash t dependencies sources r ≡ ok o
    → (r.status ≡ o.status) × (r.direction ≡ o.direction) × (r.payload ≡ o.payload)
unfolding observation
observation-eq-ok context id hash t dependencies sources r o h =
    let (level, _, h₁) = bind-eq-ok (written r.level) _ h in
    let (lower, _, h₂) = bind-eq-ok (written r.lower) _ h₁ in
    let (upper, _, h₃) = bind-eq-ok (written r.upper) _ h₂ in
    let made =
      checked_observation-eq-ok
        (observed context id hash t dependencies sources r level lower upper) o h₃ in
    (ap (λ x. x.status) made, ap (λ x. x.direction) made, ap (λ x. x.payload) made)

some_eq : {A : Type 0} {a b : A} → ◌≡◌ {A = Result (Option A)} (ok (some a)) (ok (some b)) → a ≡ b
some_eq h = cc

not_both : {b : Bool} → b ≡ false → b ≡ true → ⊥
not_both f t = cc

first_false : (a b : Bool) → (a || b) ≡ false → a ≡ false
first_false a b h = ground arith

second_false : (a b : Bool) → (a || b) ≡ false → b ≡ false
second_false a b h = ground arith

-- A problem of the dependencies is no pass.
found_problem_lem :
    (failed : Option (String × Observation)) (unavailable : Option String) (p : DependencyProblem)
    → ok (found_problem failed unavailable) ≡ ok (some p)
    → is_pass p.status ≡ false
found_problem_lem (some (id, o)) unavailable p h = ap (λ q. is_pass q.status) (sym (some_eq h))
found_problem_lem none (some id) p h = ap (λ q. is_pass q.status) (sym (some_eq h))
found_problem_lem none none p h = cc

scan_dependencies_lem :
    (context : RunContext) (failed : Option (String × Observation)) (unavailable : Option String)
    (dependencies : Observations) (p : DependencyProblem)
    → scan_dependencies context failed unavailable dependencies ≡ ok (some p)
    → is_pass p.status ≡ false
unfolding scan_dependencies
scan_dependencies_lem context failed unavailable [] p h = found_problem_lem failed unavailable p h
scan_dependencies_lem context failed unavailable ((id, o) ∷ rest) p h =
    let (_, h₁) = raise_if-passed (not (str_eq o.signal_id id)) value_error _ h in
    let (_, h₂) =
      raise_if-passed (not (str_eq o.instrument_id context.instrument_id)) value_error _ h₁ in
    let (t, _, h₃) = bind-eq-ok (expected_timeframe context id) _ h₂ in
    let (_, h₄) = raise_if-passed (not (timeframe_eqb o.timeframe t)) value_error _ h₃ in
    elim (Bool-cases (known_after context.evaluation_time_ms o)) [
      | inl future ↦ ap (λ q. is_pass q.status) (sym (some_eq (rw future at h₄)))
      | inr known ↦
          scan_dependencies_lem context (first_failed id o failed)
            (first_unavailable id o unavailable) rest p (rw known at h₄)
    ]

dependency_problem_lem :
    (dependencies : Observations) (expected : List String) (context : RunContext)
    (p : DependencyProblem)
    → dependency_problem dependencies expected context ≡ ok (some p)
    → is_pass p.status ≡ false
unfolding dependency_problem
dependency_problem_lem dependencies expected context p h =
    let (_, h₁) =
      raise_if-passed (not (ids_eqb (map (λ d. d.0) dependencies) expected)) value_error _ h in
    scan_dependencies_lem context none none dependencies p h₁

module _ (parse_decimal : String → Option Decimal) (minimum : Decimal)
    (parameter_hash : String) where
  -- What a report that passes says, of the inputs.
  abbrev IsSound : List DerivedCandle → (l g : Observation) → Report → Type 0
  IsSound candles l g r =
      is_pass r.status ≡ true
      → IsDirectional parse_decimal minimum candles l g r.direction r.payload

  levels_report-IsStated :
      (side : String) (entry swept target atr : Decimal) (event_time known_time : ℕ) (r : Report)
      → (str_eq side "LONG" || str_eq side "SHORT") ≡ true
      → levels_report parse_decimal minimum parameter_hash side
          (levels_of side entry swept target atr)
          event_time
          known_time
        ≡ ok r
      → is_pass r.status ≡ true
      → (r.direction ≡ some side) × IsStated minimum side entry swept target atr r.payload
  unfolding levels_report
  levels_report-IsStated side entry swept target atr event_time known_time r sided h passes =
      let l = levels_of side entry swept target atr in
      let (same_entry, same_target) = levels_of-keeps side entry swept target atr in
      elim (Bool-cases (dec_leb l.risk (whole 0) || dec_leb l.reward (whole 0))) [
        | inl bad ↦
            absurd (not_both (ap (λ q. is_pass q.status) (sym (ok_inj (rw bad at h)))) passes)
        | inr good ↦
            let (ratio, divided, h₁) = bind-eq-ok (divide l.reward l.risk) _ (rw good at h) in
            let made = sym (ok_inj h₁) in
            elim (Bool-cases (dec_leb minimum ratio)) [
              | inl enough ↦ (
                ap (λ q. q.direction) made,
                (
                  l.stop,
                  l.risk,
                  l.reward,
                  ratio,
                  levels_of-IsPriced side entry swept target atr sided,
                  first_false _ _ good,
                  second_false _ _ good,
                  divided,
                  enough,
                  ap (λ q. q.payload) made
                      ∙ ap (λ e. levels_payload side (record l { entry = e }) ratio) same_entry
                      ∙ ap (λ x. levels_payload side (record l { entry = entry; target = x }) ratio)
                          same_target,
                ),
              )
              | inr short ↦
                  absurd (not_both (ap (λ q. is_pass q.status) made ∙ rw short refl) passes)
            ]
      ]

  asserted_direction_lem :
      (d : Option String) (side : String)
      → asserted_direction d ≡ ok side
      → (d ≡ some side) × ((str_eq side "LONG" || str_eq side "SHORT") ≡ true)
  asserted_direction_lem none side h = absurd (err-ne-ok h)
  asserted_direction_lem (some d) side h = elim (Bool-cases (str_eq d "LONG" || str_eq d "SHORT")) [
    | inl e ↦
        subst (λ x. (some d ≡ some x) × ((str_eq x "LONG" || str_eq x "SHORT") ≡ true))
          (ok_inj (rw e at h)) (refl, e)
    | inr e ↦ absurd (err-ne-ok (rw e at h))
  ]

  asserted_lem : {A : Type 0} (o : Option A) (a : A) → asserted o ≡ ok a → o ≡ some a
  asserted_lem none a h = absurd (err-ne-ok h)
  asserted_lem (some x) a h = ap some (ok_inj h)

  non_negative_lem :
      (o : Option Decimal) (d : Decimal)
      → non_negative parse_decimal minimum parameter_hash o ≡ some d
      → o ≡ some d
  non_negative_lem none d h = cc
  non_negative_lem (some x) d h = elim (Bool-cases (dec_leb (whole 0) x)) [
    | inl e ↦ rw e at h
    | inr e ↦ absurd (none_some (rw e at h))
  ]
    where
      none_some : none ≡ some d → ⊥
      none_some k = cc

  payload_decimal-Writes :
      (o : Observation) (key : String) (d : Decimal)
      → payload_decimal parse_decimal minimum parameter_hash o key ≡ some d
      → Writes parse_decimal o key d
  unfolding payload_decimal
  payload_decimal-Writes o key d h = by_value (lookup key o.payload) refl h
    where
      nothing : ◌≡◌ {A = Option Decimal} none (some d) → ⊥
      nothing k = cc

      by_value :
          (v : Option Evidence)
          → lookup key o.payload ≡ v
          → elim v [
            | some (Evidence.text s) ↦
                non_negative parse_decimal minimum parameter_hash (parse_decimal s)
            | _ ↦ none
          ]
            ≡ some d
          → Writes parse_decimal o key d
      by_value (some (Evidence.text s)) e k = (s, e, non_negative_lem (parse_decimal s) d k)
      by_value _ e k = absurd (nothing k)

  compose_levels-IsSound :
      (candles : List DerivedCandle) (l g : Observation) (r : Report)
      → compose_levels parse_decimal minimum parameter_hash candles l g ≡ ok r
      → IsSound candles l g r
  unfolding compose_levels
  compose_levels-IsSound candles l g r h passes =
      let (side, directed, h₁) = bind-eq-ok (asserted_direction l.direction) _ h in
      let (same, sided) = asserted_direction_lem l.direction side directed in
      let (entry, leveled, h₂) = bind-eq-ok (asserted g.level) _ h₁ in
      let (averages, averaged, h₃) = bind-eq-ok (wilder_atr candles 14) _ h₂ in
      let (atr, ranged, h₄) = bind-eq-ok (last_average averages) _ h₃ in
      let sweep = payload_decimal parse_decimal minimum parameter_hash l "swept_extreme_text" in
      let opposing = payload_decimal parse_decimal minimum parameter_hash l "opposing_level_text" in
      let (swept, swept_at, h₅) = bind-eq-ok (asserted sweep) _ h₄ in
      let (target, target_at, h₆) = bind-eq-ok (asserted opposing) _ h₅ in
      let (event_time, _, h₇) = bind-eq-ok (latest l.event_time_ms g.event_time_ms) _ h₆ in
      let (known_time, _, h₈) = bind-eq-ok (latest l.known_time_ms g.known_time_ms) _ h₇ in
      let (direction, stated) =
        levels_report-IsStated side entry swept target atr event_time known_time r sided h₈
          passes in
      (
        side,
        entry,
        swept,
        target,
        atr,
        averages,
        direction,
        same,
        asserted_lem g.level entry leveled,
        payload_decimal-Writes l "swept_extreme_text" swept (asserted_lem sweep swept swept_at),
        payload_decimal-Writes l "opposing_level_text" target
            (asserted_lem opposing target target_at),
        averaged,
        ranged,
        stated,
      )

  contradiction_report-IsSound :
      (contradiction : Option String) (candles : List DerivedCandle) (l g : Observation)
      (r : Report)
      → contradiction_report parse_decimal minimum parameter_hash contradiction candles l g ≡ ok r
      → IsSound candles l g r
  contradiction_report-IsSound none candles l g r h = compose_levels-IsSound candles l g r h
  contradiction_report-IsSound (some reason) candles l g r h =
      λ passes. absurd (not_both (ap (λ q. is_pass q.status) (sym (ok_inj h))) passes)

  report-IsSound :
      (problem : Option DependencyProblem) (dependencies : Observations)
      (candles : List DerivedCandle) (r : Report)
      → ((p : DependencyProblem) → problem ≡ some p → is_pass p.status ≡ false)
      → report parse_decimal minimum parameter_hash problem dependencies candles ≡ ok r
      → is_pass r.status ≡ true
      → (l : Observation) × (g : Observation) × (dependency "ict.clustered_liquidity" dependencies
          ≡ ok l)
        × (dependency "ict.fair_value_gap" dependencies ≡ ok g)
        × IsDirectional parse_decimal minimum candles l g r.direction r.payload
  unfolding report
  report-IsSound (some p) dependencies candles r k h passes =
      absurd (not_both (ap (λ q. is_pass q.status) (sym (ok_inj h)) ∙ k p refl) passes)
  report-IsSound none dependencies candles r k h passes =
      elim (Bool-cases (ltb (length candles) 14)) [
        | inl few ↦
            absurd (not_both (ap (λ q. is_pass q.status) (sym (ok_inj (rw few at h)))) passes)
        | inr many ↦
            let (l, found_l, h₁) =
              bind-eq-ok (dependency "ict.clustered_liquidity" dependencies) _ (rw many at h) in
            let (g, found_g, h₂) = bind-eq-ok (dependency "ict.fair_value_gap" dependencies) _ h₁ in
            let (contradiction, _, h₃) =
              bind-eq-ok (validated_inputs parse_decimal minimum parameter_hash l g) _ h₂ in
            (
              l,
              g,
              found_l,
              found_g,
              contradiction_report-IsSound contradiction candles l g r h₃ passes,
            )
      ]

  -- An observation of the plugin that passes states levels of its inputs, in order. The entry is the
  -- level of the fair value gap; the swept extreme and the target are those that the liquidity writes,
  -- and its direction is the one of the observation; the stop lies a tenth of the last ATR(14) of the
  -- closed candles beyond the swept extreme, below it for a LONG and above it for a SHORT. The risk from
  -- the entry to the stop and the reward from the entry to the target, on their sides, are positive, and
  -- their ratio is at least the minimum. The payload writes these levels and this ratio.
  pub evaluate-IsDirectional :
      (context : RunContext) (dependencies : Observations) (o : Observation)
      → evaluate parse_decimal minimum parameter_hash context dependencies ≡ ok o
      → is_pass o.status ≡ true
      → (t : Timeframe) × (candles : List DerivedCandle) × (l : Observation) × (g : Observation)
        × (configured_timeframe context "execution" ≡ ok t)
        × (closed_candles context "execution" t ≡ ok candles)
        × (dependency "ict.clustered_liquidity" dependencies ≡ ok l)
        × (dependency "ict.fair_value_gap" dependencies ≡ ok g)
        × IsDirectional parse_decimal minimum candles l g o.direction o.payload
  unfolding evaluate
  evaluate-IsDirectional context dependencies o h passes =
      let (t, timed, h₁) = bind-eq-ok (configured_timeframe context "execution") _ h in
      let (problem, found, h₂) =
        bind-eq-ok (dependency_problem dependencies dependency_ids context) _ h₁ in
      let (candles, closed, h₃) = bind-eq-ok (closed_candles context "execution" t) _ h₂ in
      let (r, reported, h₄) =
        bind-eq-ok (report parse_decimal minimum parameter_hash problem dependencies candles) _
          h₃ in
      let (status, direction, payload) =
        observation-eq-ok context plugin_id parameter_hash t dependency_ids
          ("project_strategy@1" ∷ []) r o h₄ in
      let (l, g, found_l, found_g, directional) =
        report-IsSound problem dependencies candles r
          (λ p e. dependency_problem_lem dependencies dependency_ids context p (found ∙ ap ok e))
          reported (ap is_pass status ∙ passes) in
      (
        t,
        candles,
        l,
        g,
        timed,
        closed,
        found_l,
        found_g,
        subst (λ x. IsDirectional parse_decimal minimum candles l g x o.payload) direction
            (subst (λ x. IsDirectional parse_decimal minimum candles l g r.direction x) payload
              directional),
      )
