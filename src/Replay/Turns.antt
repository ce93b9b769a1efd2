-- ===== src/Replay/Turns.antt =====
-- What the replay evaluates, and in which order.
use smc_ict_engine.Prelude.{
  ℕ, ◌≡◌, refl, ap, Option, none, some, String, List, [], ◌∷◌, ◌++◌, All, All-append, map,
  map-append, Result, ok, err, bind-eq-ok, subst, Unpacked, ◌∙◌,
}
use smc_ict_engine.Domain.{ClosedCandle, Observation, Decision, ReplayEvaluation}
use smc_ict_engine.Graph.{ConfiguredNode, topological_order, Plugin, execute}
use smc_ict_engine.Policy.{decide}
use smc_ict_engine.Replay.Ranges.{BacktestPeriod}
use smc_ict_engine.Replay.Trace.{trace, indicator_steps, hashes_of}
use smc_ict_engine.Replay.Run.{
  Strategy, Roles, ReplayResult, item, configured_nodes, configured_decision_signals, context_at,
  evaluate_at, evaluate_each, evaluate_times, prepare, replay_over, replay_with, run,
}

-- The trace is of the evaluation's instrument, time, decision and hash.
abbrev pub IsTraced : ReplayEvaluation → Type 0
IsTraced e =
    (e.trace.instrument_id ≡ e.instrument_id)
    × (e.trace.evaluation_time_ms ≡ e.evaluation_time_ms)
    × (e.trace.first_rejection ≡ e.decision.first_failed_signal)
    × (e.trace.decision_hash ≡ e.decision_hash)

-- Every instrument at a time, then the next time
abbrev pub turns : List ℕ → List String → List (ℕ × String)
turns [] instruments = []
turns (t ∷ ts) instruments = map (λ i. (t, i)) instruments ++ turns ts instruments

abbrev pub turn_of : ReplayEvaluation → ℕ × String
turn_of e = (e.evaluation_time_ms, e.instrument_id)

module _
    (load_candles : (provider market instrument : String)
      → (start end : ℕ) → Result (List ClosedCandle))
    (factories : List String) (plugins : ConfiguredNode → Plugin)
    (hash_observation : Observation → String) (hash_decision : Decision → String)
    (strategy : Strategy) (provider_id market_type : String) where
  evaluate_at_lem :
      (ordered : List ConfiguredNode) (loaded : List (String × Roles)) (time : ℕ)
      (instrument : String) (e : ReplayEvaluation)
      → evaluate_at load_candles factories plugins hash_observation hash_decision strategy
          provider_id market_type ordered loaded time instrument
        ≡ ok e
      → (turn_of e ≡ (time, instrument)) × IsTraced e
  unfolding evaluate_at trace
  evaluate_at_lem ordered loaded time instrument e h =
      let signals = configured_decision_signals strategy.signals in
      let (roles, _, h₁) = bind-eq-ok (item instrument loaded) _ h in
      let context =
        context_at load_candles factories plugins hash_observation hash_decision strategy
          provider_id market_type time instrument roles in
      let (observations, _, h₂) = bind-eq-ok (execute plugins context ordered) _ h₁ in
      let (decision, _, h₃) =
        bind-eq-ok (decide hash_observation context observations signals) _ h₂ in
      let (steps, traced, h₄) =
        bind-eq-ok
          (trace hash_observation signals context observations decision (hash_decision decision)) _
          h₃ in
      let (made, _, t₁) =
        bind-eq-ok
          (indicator_steps hash_observation (hashes_of hash_observation observations) observations)
          _ traced in
      subst (λ r. Unpacked (λ v. (turn_of v ≡ (time, instrument)) × IsTraced v) r) h₄
        (
          refl,
          subst
              (λ r.
                Unpacked
                  (λ v.
                    (v.instrument_id ≡ instrument)
                    × (v.evaluation_time_ms ≡ time)
                    × (v.first_rejection ≡ decision.first_failed_signal)
                    × (v.decision_hash ≡ hash_decision decision))
                  r)
              t₁ (refl, refl, refl, refl),
        )

  evaluate_each_lem :
      (ordered : List ConfiguredNode) (loaded : List (String × Roles)) (time : ℕ)
      (instruments : List String) (es : List ReplayEvaluation)
      → evaluate_each load_candles factories plugins hash_observation hash_decision strategy
          provider_id market_type ordered loaded time instruments
        ≡ ok es
      → (map turn_of es ≡ map (λ i. (time, i)) instruments) × All IsTraced es
  unfolding evaluate_each
  evaluate_each_lem ordered loaded time [] es h =
      subst (λ r. Unpacked (λ l. (map turn_of l ≡ []) × All IsTraced l) r) h (refl, tt)
  evaluate_each_lem ordered loaded time (i ∷ rest) es h =
      let (e, made, h₁) =
        bind-eq-ok
          (evaluate_at load_candles factories plugins hash_observation hash_decision strategy
            provider_id market_type ordered loaded time i)
          _ h in
      let (others, later, h₂) =
        bind-eq-ok
          (evaluate_each load_candles factories plugins hash_observation hash_decision strategy
            provider_id market_type ordered loaded time rest)
          _ h₁ in
      let (turn, traced) = evaluate_at_lem ordered loaded time i e made in
      let (left, all_traced) = evaluate_each_lem ordered loaded time rest others later in
      subst
        (λ r. Unpacked (λ l. (map turn_of l ≡ map (λ i. (time, i)) (i ∷ rest)) × All IsTraced l) r)
        h₂
        (ap (λ p. p ∷ map turn_of others) turn ∙ ap (λ l. (time, i) ∷ l) left, (traced, all_traced))

  evaluate_times_lem :
      (ordered : List ConfiguredNode) (loaded : List (String × Roles)) (times : List ℕ)
      (es : List ReplayEvaluation)
      → evaluate_times load_candles factories plugins hash_observation hash_decision strategy
          provider_id market_type ordered loaded times
        ≡ ok es
      → (map turn_of es ≡ turns times strategy.instruments) × All IsTraced es
  unfolding evaluate_times
  evaluate_times_lem ordered loaded [] es h =
      subst (λ r. Unpacked (λ l. (map turn_of l ≡ []) × All IsTraced l) r) h (refl, tt)
  evaluate_times_lem ordered loaded (t ∷ ts) es h =
      let (now, made, h₁) =
        bind-eq-ok
          (evaluate_each load_candles factories plugins hash_observation hash_decision strategy
            provider_id market_type ordered loaded t strategy.instruments)
          _ h in
      let (more, later, h₂) =
        bind-eq-ok
          (evaluate_times load_candles factories plugins hash_observation hash_decision strategy
            provider_id market_type ordered loaded ts)
          _ h₁ in
      let (first, traced) = evaluate_each_lem ordered loaded t strategy.instruments now made in
      let (rest, all_traced) = evaluate_times_lem ordered loaded ts more later in
      subst
        (λ r.
          Unpacked (λ l. (map turn_of l ≡ turns (t ∷ ts) strategy.instruments) × All IsTraced l) r)
        h₂
        (
          map-append turn_of now more
              ∙ ap (λ l. l ++ map turn_of more) first
              ∙ ap (λ l. map (λ i. (t, i)) strategy.instruments ++ l) rest,
          All-append IsTraced now more traced all_traced,
        )

  replay_over_lem :
      (ordered : List ConfiguredNode) (loaded : List (String × Roles) × List ClosedCandle)
      (schedule : List ℕ) (result : ReplayResult)
      → replay_over load_candles factories plugins hash_observation hash_decision strategy
          provider_id market_type ordered loaded schedule
        ≡ ok result
      → (map turn_of result.evaluations ≡ turns schedule strategy.instruments)
        × All IsTraced result.evaluations
  unfolding replay_over
  replay_over_lem ordered loaded schedule result h =
      let (es, made, h₁) =
        bind-eq-ok
          (evaluate_times load_candles factories plugins hash_observation hash_decision strategy
            provider_id market_type ordered loaded.0 schedule)
          _ h in
      subst
        (λ r.
          Unpacked
            (λ v.
              (map turn_of v.evaluations ≡ turns schedule strategy.instruments)
              × All IsTraced v.evaluations)
            r)
        h₁ (evaluate_times_lem ordered loaded.0 schedule es made)

  -- The evaluations of a replay that returns are one for each scheduled time and each instrument: in
  -- the order of the times, and at each time in the order of the instruments. Each has a trace of its
  -- own instrument, time and decision.
  pub run-turns :
      (period : BacktestPeriod) (result : ReplayResult)
      → run load_candles factories plugins hash_observation hash_decision strategy provider_id
          market_type period
        ≡ some (ok result)
      → (loaded : List (String × Roles) × List ClosedCandle) × (schedule : List ℕ) × (prepare
            load_candles factories plugins hash_observation hash_decision strategy provider_id
            market_type period
          ≡ ok (loaded, schedule))
        × (map turn_of result.evaluations ≡ turns schedule strategy.instruments)
        × All IsTraced result.evaluations
  unfolding run
  run-turns period result h =
      prepared
        (prepare load_candles factories plugins hash_observation hash_decision strategy provider_id
          market_type period)
        refl (configured_nodes strategy.roles strategy.signals) h
    where
      replayed :
          (order : Option (Result (List ConfiguredNode)))
          (loaded : List (String × Roles) × List ClosedCandle) (schedule : List ℕ)
          → replay_with load_candles factories plugins hash_observation hash_decision strategy
              provider_id market_type order loaded schedule
            ≡ some (ok result)
          → (map turn_of result.evaluations ≡ turns schedule strategy.instruments)
            × All IsTraced result.evaluations
      replayed none loaded schedule e = cc
      replayed (some (err x)) loaded schedule e = cc
      replayed (some (ok ordered)) loaded schedule e =
          replay_over_lem ordered loaded schedule result (cc)

      prepared :
          (p : Result ((List (String × Roles) × List ClosedCandle) × List ℕ))
          → prepare load_candles factories plugins hash_observation hash_decision strategy
              provider_id market_type period
            ≡ p
          → (nodes : Result (List ConfiguredNode))
          → elim p [
            | err e ↦ some (err e)
            | ok q ↦ elim nodes [
              | err e ↦ some (err e)
              | ok ns ↦
                  replay_with load_candles factories plugins hash_observation hash_decision strategy
                    provider_id market_type
                    (topological_order factories ns)
                    q.0
                    q.1
            ]
          ]
            ≡ some (ok result)
          → (loaded : List (String × Roles) × List ClosedCandle) × (schedule : List ℕ) × (prepare
                load_candles factories plugins hash_observation hash_decision strategy provider_id
                market_type period
              ≡ ok (loaded, schedule))
            × (map turn_of result.evaluations ≡ turns schedule strategy.instruments)
            × All IsTraced result.evaluations
      prepared (err x) e nodes e₁ = cc
      prepared (ok q) e (err x) e₁ = cc
      prepared (ok q) e (ok ns) e₁ =
          let (same, traced) = replayed (topological_order factories ns) q.0 q.1 e₁ in
          (q.0, q.1, e, same, traced)
