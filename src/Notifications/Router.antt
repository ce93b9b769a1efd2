-- ===== src/Notifications/Router.antt =====
-- application/notifications.py: the router's state, and the delivery of one event to one destination.
-- The adapters, the clock and the store of deliveries are what the router is given: functions on a
-- world, that may answer anything or raise. Logging is left out.
use smc_ict_engine.Prelude.{
  persistence_conflict, ℕ, ◌+◌, Bool, true, false, ◌&&◌, Option, none, some, String, List, [], ◌∷◌,
  ltb, str_eq, contains, if◌then◌else◌, lookup, map, Result, ok, err, Error, value_error, os_error,
  runtime_error, unknown_plugin, missing_dependency, cyclic_dependency,
}
use smc_ict_engine.Prelude.Actions.{Action, pure, attempt, reads, writes, ◌>>=◌, ◌>>◌}
use smc_ict_engine.Domain.{Evidence}
use smc_ict_engine.Notifications.Events.{
  NotificationEvent, DeliveryReceipt, DedupRecord, DeliveryRecord, KeyField, Destination,
}

-- `NotificationDeduplicationStore`
pub record DeduplicationStore (W : Type 0) : Type 0 where
  pub notification_delivered_at : String → String → W → Result (Option ℕ) × W
  pub store_notification_outcomes : DeliveryRecord → W → Result (Unit {0}) × W
  pub store_successful_notification_delivery :
      DeliveryRecord → List DedupRecord → W → Result (Unit {0}) × W

-- What the router is made with, and the digests. The adapter of a destination may deliver batches.
pub record Environment (W : Type 0) : Type 0 where
  pub clock_seconds : W → Result ℕ × W
  pub adapter_factory : String → Destination → W → Result (Unit {0}) × W
  pub deliver : String → NotificationEvent → W → Result DeliveryReceipt × W
  pub deliver_batch : String → Option (List NotificationEvent → W → Result DeliveryReceipt × W)
  pub hash_event : (event_type run_id : String) → String
  pub hash_key : String → List (KeyField × Evidence) → String
  pub deduplication_store : Option (DeduplicationStore W)

-- The variables of a `NotificationRouter`, and the world.
pub record RouterState (W : Type 0) : Type 0 where
  pub adapters : List String
  pub deduplicated_at : List ((String × String) × ℕ)
  pub pending : List (String × List NotificationEvent)
  pub deadlines : List (String × ℕ)
  pub world : W

abbrev pub key_name : KeyField → String
key_name KeyField.by_event_type = "event_type"
key_name KeyField.by_run_id = "run_id"
key_name KeyField.by_instrument_id = "instrument_id"
key_name KeyField.by_strategy_id = "strategy_id"

abbrev pub attribute : NotificationEvent → KeyField → Evidence
attribute e KeyField.by_event_type = Evidence.text e.event_type
attribute e KeyField.by_run_id = Evidence.text e.run_id
attribute e KeyField.by_instrument_id = elim e.instrument_id [
  | none ↦ Evidence.null
  | some i ↦ Evidence.text i
]
attribute e KeyField.by_strategy_id = Evidence.text e.strategy_id

-- `event.payload[key] if key in event.payload else getattr(event, key)`
abbrev pub key_value : NotificationEvent → KeyField → Evidence
key_value e k = elim (lookup (key_name k) e.payload) [ none ↦ attribute e k | some v ↦ v ]

-- `except (OSError, RuntimeError, ValueError)`, the errors of the graph being ValueErrors
abbrev pub is_caught : Error → Bool
is_caught value_error = true
is_caught os_error = true
is_caught runtime_error = true
is_caught persistence_conflict = true
is_caught unknown_plugin = true
is_caught missing_dependency = true
is_caught cyclic_dependency = true
is_caught _ = false

-- `self._deduplicated_at.get((destination_id, deduplication_id))`
abbrev pub delivery_time : String → String → List ((String × String) × ℕ) → Option ℕ
delivery_time d k [] = none
delivery_time d k (((d', k'), t) ∷ rest) =
    if str_eq d' d && str_eq k' k then some t else delivery_time d k rest

-- `now - previous < window`, on integers
abbrev pub is_recent : ℕ → ℕ → Option ℕ → Bool
is_recent now window none = false
is_recent now window (some previous) = ltb now (previous + window)

module _ {W : Type 0} (env : Environment W) where
  abbrev pub in_world : {A : Type 0} → (W → Result A × W) → Action (RouterState W) A
  in_world f s = let r = f s.world in (r.0, record s { world = r.1 })

  -- `_event_id` and `_deduplication_id`
  abbrev pub event_id : NotificationEvent → String
  event_id e = env.hash_event e.event_type e.run_id

  abbrev pub deduplication_id : String → Destination → NotificationEvent → String
  deduplication_id id d e = env.hash_key id (map (λ k. (k, key_value e k)) d.key_fields)

  -- `_delivered_at`
  unfoldable pub delivered_at : String → String → Action (RouterState W) (Option ℕ)
  delivered_at id key = elim env.deduplication_store [
    | some store ↦ in_world (store.notification_delivered_at id key)
    | none ↦ reads (λ s. delivery_time id key s.deduplicated_at)
  ]

  abbrev pub receipt_with :
      String → Destination → NotificationEvent → (outcome reason : String) → DeliveryReceipt
  receipt_with id d e outcome reason = record {
    destination_id = id;
    adapter_id = d.adapter;
    event_id = event_id e;
    deduplication_id = deduplication_id id d e;
    batch_id = none;
    attempts = 0;
    outcome = outcome;
    reason_code = some reason;
    status_code = none;
  }

  -- `_deduplicated_receipt` and `_deduplication_state_failure`, and that of a raise
  abbrev pub deduplicated_receipt : String → Destination → NotificationEvent → DeliveryReceipt
  deduplicated_receipt id d e = receipt_with id d e "DEDUPLICATED" "DEDUPLICATION_WINDOW"

  abbrev pub state_failure : String → Destination → NotificationEvent → DeliveryReceipt
  state_failure id d e = receipt_with id d e "FAILURE" "DEDUPLICATION_STATE_UNAVAILABLE"

  abbrev pub unavailable_receipt : String → Destination → NotificationEvent → DeliveryReceipt
  unavailable_receipt id d e = receipt_with id d e "FAILURE" "ADAPTER_UNAVAILABLE"

  abbrev pub delivery_record : DeliveryReceipt → String → ℕ → DeliveryRecord
  delivery_record r run_id now = record {
    run_id = run_id;
    destination_id = r.destination_id;
    adapter_id = r.adapter_id;
    attempted_at_seconds = now;
    attempts = r.attempts;
    outcome = r.outcome;
    reason_code = r.reason_code;
    status_code = r.status_code;
  }

  abbrev pub succeeded : {A : Type 0} → Result A → Bool
  succeeded (ok a) = true
  succeeded (err e) = false

  -- `_record_outcome`: a raise of the store is dropped.
  unfoldable pub record_outcome : DeliveryReceipt → String → ℕ → Action (RouterState W) Bool
  record_outcome r run_id now = elim env.deduplication_store [
    | none ↦ pure true
    | some store ↦ do
      stored ← attempt (in_world (store.store_notification_outcomes (delivery_record r run_id now)))
      pure (succeeded stored)
  ]

  abbrev pub dedup_records : String → Destination → ℕ → List NotificationEvent → List DedupRecord
  dedup_records id d now = map (λ e. record {
    run_id = e.run_id;
    destination_id = id;
    deduplication_id = deduplication_id id d e;
    delivered_at_seconds = now;
  })

  -- The entries that a delivery adds to `_deduplicated_at`.
  abbrev pub remember :
      String
      → Destination
      → ℕ
      → List NotificationEvent
      → List ((String × String) × ℕ)
      → List ((String × String) × ℕ)
  remember id d now [] entries = entries
  remember id d now (e ∷ es) entries =
      remember id d now es (((id, deduplication_id id d e), now) ∷ entries)

  -- `_record_success`, of the events `e ∷ es`
  unfoldable pub record_success :
      DeliveryReceipt
      → String
      → Destination
      → NotificationEvent
      → List NotificationEvent
      → ℕ
      → Action (RouterState W) Bool
  record_success r id d e es now = elim env.deduplication_store [
    | none ↦ do
      writes (λ s. record s { deduplicated_at = remember id d now (e ∷ es) s.deduplicated_at })
      pure true
    | some store ↦ do
      stored ← attempt (
          in_world (
            store.store_successful_notification_delivery (delivery_record r e.run_id now)
              (dedup_records id d now (e ∷ es))))
      pure (succeeded stored)
  ]

  -- The adapter of a destination is made when it is first needed.
  unfoldable pub ensure_adapter : String → Destination → Action (RouterState W) (Unit {0})
  ensure_adapter id d = do
    adapters ← reads (λ s. s.adapters)
    if contains adapters id
        then pure tt
        else (in_world (env.adapter_factory id d)
            >> writes (λ s. record s { adapters = id ∷ s.adapters }))

  -- What follows the delivery of a receipt: it is recorded, or fails if it cannot be.
  unfoldable pub settle :
      String
      → Destination
      → NotificationEvent
      → List NotificationEvent
      → ℕ
      → DeliveryReceipt
      → Action (RouterState W) DeliveryReceipt
  unfolding record_success record_outcome
  settle id d e es now r =
      if str_eq r.outcome "SUCCESS"
      then (do
        recorded ← record_success r id d e es now
        pure (if recorded then r else state_failure id d e))
      else (record_outcome r e.run_id now >> pure r)
