-- ===== src/Runtime/Emission.antt =====
-- application/runtime.py: the notifications of a run, `_decision_notification_payload`,
-- `_emit_terminal` and `_emit_events`. Logging is left out.
use smc_ict_engine.Prelude.{
  ℕ, Bool, true, false, not, Option, none, some, String, List, [], ◌∷◌, ◌++◌, contains, length, map,
  if◌then◌else◌, Result, ok, err, assertion_error, ◌>>=◌,
}
use smc_ict_engine.Decimal.{Decimal, dec_eqb, whole, absolute, divide, ◌⊖◌}
use smc_ict_engine.Domain.{Evidence, Decision, DecisionStatus, Direction}
use smc_ict_engine.Notifications.Events.{NotificationEvent, checked_event}
use smc_ict_engine.Runtime.Ports.{
  Engine, RuntimeConfiguration, SinkOutcome, before_colon, take_text,
}

abbrev pub Payload : Type 0
Payload = List (String × Evidence)

abbrev pub status_text : DecisionStatus → String
status_text DecisionStatus.ready = "READY"
status_text DecisionStatus.no_trade = "NO_TRADE"
status_text DecisionStatus.unavailable = "UNAVAILABLE"

abbrev pub direction_text : Direction → String
direction_text Direction.long = "LONG"
direction_text Direction.short = "SHORT"

-- A text or None
abbrev pub optional_text : Option String → Evidence
optional_text none = Evidence.null
optional_text (some s) = Evidence.text s

-- `assert value is not None`
abbrev pub present : {A : Type 0} → Option A → Result A
present none = err assertion_error
present (some a) = ok a

abbrev pub is_ready_status : DecisionStatus → Bool
is_ready_status DecisionStatus.ready = true
is_ready_status _ = false

abbrev pub event_with :
    RuntimeConfiguration
    → (event_type run_id : String) → Option String
    → Payload
    → NotificationEvent
event_with config event_type run_id instrument payload = record {
  event_type = event_type;
  run_id = run_id;
  instrument_id = instrument;
  strategy_id = config.strategy_name;
  payload_schema_version = 1;
  payload = payload;
}

module _ {W : Type 0} (engine : Engine W) where
  -- The ratio of the reward to the risk
  unfoldable pub reward_risk : (entry stop target : Decimal) → Result String
  unfolding dec_eqb absolute divide ◌⊖◌
  reward_risk entry stop target =
      let risk = absolute (entry ⊖ stop) in
      let reward = absolute (target ⊖ entry) in
      if dec_eqb risk (whole 0)
      then ok "UNDEFINED"
      else (do ratio ← divide reward risk; ok (engine.fixed_text ratio))

  abbrev pub common_payload : Decision → ℕ → Payload
  common_payload d time =
      ("status", Evidence.text (status_text d.status))
      ∷ ("evaluation_time_ms", Evidence.number time)
      ∷ ("closed_bar_time_ms", Evidence.number time)
      ∷ ("decision_id", Evidence.text (engine.hash_decision d))
      ∷ []

  -- `_decision_notification_payload`
  unfoldable pub decision_payload : Decision → ℕ → Result Payload
  unfolding reward_risk
  decision_payload d time =
      if not (is_ready_status d.status)
      then ok (
          common_payload d time
          ++ ("first_failed_signal", optional_text d.first_failed_signal) ∷ [])
      else (do
        entry ← present d.entry
        stop ← present d.stop
        target ← present d.target
        ratio ← reward_risk entry stop target
        ok (
            common_payload d time
            ++ (
              "direction",
              optional_text (elim d.direction [ none ↦ none | some x ↦ some (direction_text x) ]),
            )
              ∷ ("entry", Evidence.text (engine.fixed_text entry))
              ∷ ("stop", Evidence.text (engine.fixed_text stop))
              ∷ ("target", Evidence.text (engine.fixed_text target))
              ∷ ("reward_risk", Evidence.text ratio)
              ∷ []))

  -- The event of a decision
  unfoldable pub decision_event :
      RuntimeConfiguration → (run_id : String) → ℕ → Decision → Result NotificationEvent
  unfolding decision_payload checked_event
  decision_event config run_id time d = do
    payload ← decision_payload d time
    checked_event (
        event_with config (if is_ready_status d.status then "decision_found" else "no_decision")
          run_id (some d.instrument_id) payload)

  unfoldable pub decision_events :
      RuntimeConfiguration → (run_id : String) → ℕ → List Decision → Result (List NotificationEvent)
  unfolding decision_event
  decision_events config run_id time [] = ok []
  decision_events config run_id time (d ∷ ds) = do
    e ← decision_event config run_id time d
    es ← decision_events config run_id time ds
    ok (e ∷ es)

  abbrev pub error_category : Option String → Payload
  error_category none = []
  error_category (some text) =
      ("error_category", Evidence.text (take_text 64 (before_colon text))) ∷ []

  abbrev pub lifecycle_payload :
      RuntimeConfiguration → (decisions : ℕ) → Bool → Option String → ℕ → Payload
  lifecycle_payload config decisions succeeded error event_time =
      ("status", Evidence.text (if succeeded then "SUCCEEDED" else "FAILED"))
      ∷ ("instrument_count", Evidence.number (length config.strategy.instruments))
      ∷ ("decision_count", Evidence.number decisions)
      ∷ ("event_time_ms", Evidence.number event_time)
      ∷ error_category error

  -- The events of `_emit_terminal`: the decisions, then the end of the run.
  unfoldable pub terminal_events :
      RuntimeConfiguration
      → (run_id : String) → List Decision
      → Bool
      → Option String
      → (evaluation_time event_time : ℕ) → Result (List NotificationEvent)
  unfolding decision_events checked_event
  terminal_events config run_id decisions succeeded error evaluation_time event_time = do
    events ← decision_events config run_id evaluation_time decisions
    final ← checked_event (
        event_with config (if succeeded then "run_succeeded" else "run_failed") run_id none
          (lifecycle_payload config (length decisions) succeeded error event_time))
    ok (events ++ final ∷ [])

-- `getattr(receipt, "outcome", None) in {"PARTIAL_FAILURE", "ALL_FAILURE"}`, or the sink raised.
abbrev pub has_failed : Result SinkOutcome → Bool
has_failed (err x) = true
has_failed (ok none) = false
has_failed (ok (some outcome)) = contains ("PARTIAL_FAILURE" ∷ "ALL_FAILURE" ∷ []) outcome

abbrev pub event_types_of : List NotificationEvent → List String
event_types_of = map (λ e. e.event_type)

abbrev pub failed_of : Bool → List NotificationEvent → List String
failed_of true es = event_types_of es
failed_of false es = []
