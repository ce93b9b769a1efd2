-- ===== src/Runtime/Warnings.antt =====
-- application/runtime.py: notifications that fail become warnings, and a raise of the evaluation
-- becomes a receipt.
use smc_ict_engine.Prelude.{
  ℕ, ◌≡◌, ◌∙◌, refl, ap, Bool, true, false, ltb, length, Option, none, some, String, List, [], ◌∷◌,
  ◌++◌, is_some, Bool-cases, inl, inr, Within, All-append, arith, eq_iff, Result, ok, err, Error,
  str_eq, if◌then◌else◌,
}
use smc_ict_engine.Prelude.Actions.{pure, lift, attempt, ◌>>=◌, bind_ok}
use smc_ict_engine.Notifications.Events.{NotificationEvent, checked_event}
use smc_ict_engine.Runtime.Ports.{Engine, RunRequest, SinkOutcome, bounded_error}
use smc_ict_engine.Runtime.Emission.{
  terminal_events, decision_events, event_with, lifecycle_payload, has_failed, failed_of,
  event_types_of,
}
use smc_ict_engine.Runtime.Evaluation.{StartedRun, evaluation_time}
use smc_ict_engine.Runtime.Engine.{
  emit_each, emit_batch, emit_to, emit_events, emit_terminal, evaluate_and_commit, fail_run,
  end_run, receipt_with,
}

-- Each warning is among the types.
abbrev pub IsWarned : {W : Type 0} → List String → Result (List String) × W → Type 0
IsWarned types step = (warnings : List String) × (step.0 ≡ ok warnings) × Within types warnings

widened :
    (type : String) (types warnings : List String)
    → Within types warnings
    → Within (type ∷ types) warnings
widened type types [] h = tt
widened type types (w ∷ ws) h = (ground (arith, h.0), widened type types ws h.1)

every-Within : (types : List String) → Within types types
every-Within [] = tt
every-Within (t ∷ ts) = (ground (arith, eq_iff t t), widened t ts ts (every-Within ts))

module _ {W : Type 0} (engine : Engine W) where
  failed-Within :
      (failed : Bool) (es : List NotificationEvent)
      → Within (event_types_of es) (failed_of failed es)
  failed-Within true es = every-Within (event_types_of es)
  failed-Within false es = tt

  one-Within :
      (failed : Bool) (e : NotificationEvent) (types : List String)
      → Within (e.event_type ∷ types) (failed_of failed (e ∷ []))
  one-Within true e types = (ground (arith, eq_iff e.event_type e.event_type), tt)
  one-Within false e types = tt

  emit_each-IsWarned :
      (sink : NotificationEvent → W → Result SinkOutcome × W) (es : List NotificationEvent) (w : W)
      → IsWarned (event_types_of es) (emit_each engine sink es w)
  unfolding emit_each ◌>>=◌ attempt
  emit_each-IsWarned sink [] w = ([], refl, tt)
  emit_each-IsWarned sink (e ∷ es) w =
      let (ws, returned, within) = emit_each-IsWarned sink es (sink e w).1 in
      let failed = has_failed (sink e w).0 in
      (
        failed_of failed (e ∷ []) ++ ws,
        ap (λ p. p.0)
            (bind_ok (λ rest. pure (failed_of failed (e ∷ []) ++ rest)) (emit_each engine sink es)
              (sink e w).1 ws returned),
        All-append _ (failed_of failed (e ∷ [])) ws (one-Within failed e (event_types_of es))
            (widened e.event_type (event_types_of es) ws within),
      )

  emit_batch-IsWarned :
      (sink : List NotificationEvent → W → Result SinkOutcome × W) (es : List NotificationEvent)
      (w : W)
      → IsWarned (event_types_of es) (emit_batch engine sink es w)
  unfolding emit_batch ◌>>=◌ attempt
  emit_batch-IsWarned sink es w =
      let failed = has_failed (sink es w).0 in (failed_of failed es, refl, failed-Within failed es)

  -- The emission of events always returns, whatever the sinks answer or raise, and each warning is
  -- the type of one of the events.
  pub emit_events-IsWarned :
      (es : List NotificationEvent) (w : W) → IsWarned (event_types_of es) (emit_events engine es w)
  unfolding emit_events emit_to
  emit_events-IsWarned es w = to engine.event_sink engine.event_batch_sink
    where
      chosen :
          (sink : NotificationEvent → W → Result SinkOutcome × W)
          (batch : List NotificationEvent → W → Result SinkOutcome × W) (test : Bool)
          → IsWarned
              (event_types_of es)
              ((if test then emit_batch engine batch es else emit_each engine sink es) w)
      chosen sink batch true = emit_batch-IsWarned batch es w
      chosen sink batch false = emit_each-IsWarned sink es w

      to :
          (sink : Option (NotificationEvent → W → Result SinkOutcome × W))
          (batch : Option (List NotificationEvent → W → Result SinkOutcome × W))
          → IsWarned (event_types_of es) (emit_to engine sink batch es w)
      to none batch = ([], refl, tt)
      to (some sink) none = emit_each-IsWarned sink es w
      to (some sink) (some batch) = chosen sink batch (ltb 1 (length es))

  -- The event of a failed run is in order, if the run and the strategy have names.
  terminal_failed :
      (r : StartedRun) (text : String) (time : ℕ)
      → str_eq r.run_id "" ≡ false
      → str_eq r.config.strategy_name "" ≡ false
      → (es : List NotificationEvent) × (terminal_events engine r.config r.run_id [] false
            (some text)
            (evaluation_time r)
            time
          ≡ ok es)
  unfolding terminal_events decision_events checked_event
  terminal_failed r text time run strategy = (
    event_with r.config "run_failed" r.run_id none
          (lifecycle_payload engine r.config 0 false (some text) time)
        ∷ [],
    rw (run, strategy) refl,
  )

  emit_failed :
      (r : StartedRun) (text : String) (time : ℕ) (w : W)
      → str_eq r.run_id "" ≡ false
      → str_eq r.config.strategy_name "" ≡ false
      → (ws : List String) × ((emit_terminal engine r [] false (some text) time w).0 ≡ ok ws)
  unfolding emit_terminal
  emit_failed r text time w run strategy =
      let (es, valid) = terminal_failed r text time run strategy in
      let (ws, returned, _) = emit_events-IsWarned es w in
      elim (Bool-cases (is_some engine.event_sink)) [
        | inr e ↦ ([], rw e refl)
        | inl e ↦
            (ws, rw e (ap (λ p. p.0) (bind_ok (emit_events engine) (lift _) w es valid) ∙ returned))
      ]

  -- If the evaluation or the commit raises, the run does not: once the clock answers and the
  -- repository takes the end of the run, the run returns a receipt of failure with the bounded text
  -- of the exception, whatever the sinks answer or raise. The run and the strategy have names.
  pub end_run_reports :
      (request : RunRequest) (r : StartedRun) (x : Error) (w v : W) (time : ℕ)
      → str_eq r.run_id "" ≡ false
      → str_eq r.config.strategy_name "" ≡ false
      → evaluate_and_commit engine r w ≡ (err x, v)
      → (engine.clock_ms v).0 ≡ ok time
      → (engine.finish_run r.run_id "FAILED" time (bounded_error engine x) (engine.clock_ms v).1).0
        ≡ ok tt
      → ((attempt (evaluate_and_commit engine r) >>= end_run engine request r) w).0
        ≡ ok (
            receipt_with engine request
              (some r.run_id)
              "FAILED"
              r.started
              time
              (length r.config.strategy.instruments)
              0
              (some (bounded_error engine x)))
  unfolding fail_run end_run ◌>>=◌ attempt
  end_run_reports request r x w v time run strategy raised clock finished =
      let v₁ = (engine.clock_ms v).1 in
      let v₂ = (engine.finish_run r.run_id "FAILED" time (bounded_error engine x) v₁).1 in
      let (ws, emitted) = emit_failed r (bounded_error engine x) time v₂ run strategy in
      rw raised (
        ap (λ p. p.0)
          (bind_ok _ engine.clock_ms v time clock
            ∙ bind_ok _ (engine.finish_run r.run_id "FAILED" time (bounded_error engine x)) v₁ tt
                finished
            ∙ bind_ok _ (emit_terminal engine r [] false (some (bounded_error engine x)) time) v₂ ws
                emitted))
