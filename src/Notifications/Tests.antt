-- ===== src/Notifications/Tests.antt =====
-- Deliveries in a small world, and the theorems of the router at them.
use smc_ict_engine.Prelude.{
  ℕ, ◌+◌, ◌≡◌, ◌⊎◌, refl, true, none, some, String, List, [], ◌∷◌, arith, All, str_eq,
  if◌then◌else◌, Result, ok, err, os_error, map,
}
use smc_ict_engine.Prelude.Sort.{sort, insert_sorted}
use smc_ict_engine.Prelude.Actions.{◌>>=◌, attempt}
use smc_ict_engine.Domain.{Evidence, evidence_eqb}
use smc_ict_engine.Notifications.Events.{
  NotificationEvent, DeliveryReceipt, Destination, RoutingReceipt, KeyField,
}
use smc_ict_engine.Notifications.Router.{
  Environment, RouterState, deduplicated_receipt, delivered_at, ensure_adapter, record_outcome,
  record_success, settle,
}
use smc_ict_engine.Notifications.Delivery.{
  answered, deliver_receipt, deliver_to_destination, routing_receipt, same_boundary, settle_flushed,
  split_batch,
}
use smc_ict_engine.Notifications.Queue.{
  append_event, close, deliver_all, enqueue, flush_all, flush_batch, flush_destination, flush_each,
  flush_eligible, flush_if, flush_passed, handle, join_queue, queue_of, send, take_all, take_event,
  take_events,
}
use smc_ict_engine.Notifications.Bounded.{IsQueued, deliver_all-IsQueued}
use smc_ict_engine.Notifications.Dedup.{without_store, deliver_to_destination-window}
use smc_ict_engine.Notifications.Answered.{HasOne}
use smc_ict_engine.Notifications.Closing.{IsEmptied, close-IsEmptied}

abbrev receipt_of : String → DeliveryReceipt
receipt_of outcome = record {
  destination_id = "desk";
  adapter_id = "webhook";
  event_id = "event";
  deduplication_id = "key";
  batch_id = none;
  attempts = 1;
  outcome = outcome;
  reason_code = none;
  status_code = some 204;
}

-- A digest that tells the runs of the destination apart.
abbrev joined : List (KeyField × Evidence) → String
joined ((k, Evidence.text x) ∷ values) = x
joined values = "key"

-- The world is the clock; a delivery takes a second. The adapter refuses the event of the run `bad`.
abbrev sample_environment : Environment ℕ
sample_environment = record {
  clock_seconds = λ now. (ok now, now);
  adapter_factory = λ id d now. (ok tt, now);
  deliver = λ id e now.
      (if str_eq e.run_id "bad" then err os_error else ok (receipt_of "SUCCESS"), now + 1);
  deliver_batch = λ id. none;
  hash_event = λ kind run_id. run_id;
  hash_key = λ id values. joined values;
  deduplication_store = none;
}

abbrev start : ℕ → RouterState ℕ
start now = record {
  adapters = [];
  deduplicated_at = [];
  pending = [];
  deadlines = [];
  world = now;
}

abbrev desk : Destination
desk = record {
  adapter = "webhook";
  enabled = true;
  enabled_events = "decision_found" ∷ "run_failed" ∷ [];
  window_seconds = 60;
  key_fields = KeyField.by_run_id ∷ [];
  maximum_events = 2;
  flush_seconds = 30;
}

abbrev event_of : (event_type run_id : String) → NotificationEvent
event_of event_type run_id = record {
  event_type = event_type;
  run_id = run_id;
  instrument_id = none;
  strategy_id = "trend";
  payload_schema_version = 1;
  payload = ("closed_bar_time_ms", Evidence.number 59_999) ∷ [];
}

abbrev value_of : {A : Type 0} → A → Result A → A
value_of a (ok b) = b
value_of a (err e) = a

-- One delivery, at second 5
sample_delivery : Result DeliveryReceipt × RouterState ℕ
unfolding deliver_to_destination deliver_receipt delivered_at answered ensure_adapter settle
    record_success ◌>>=◌ attempt
sample_delivery =
    deliver_to_destination (without_store sample_environment) "desk" desk
      (event_of "decision_found" "r") (start 5)

sample_delivered : sample_delivery.0 ≡ ok (receipt_of "SUCCESS")
unfolding sample_delivery
sample_delivered = refl

deliver_to_destination-window_example :
    deliver_to_destination
      (without_store sample_environment)
      "desk"
      desk
      (event_of "decision_found" "r")
      (record sample_delivery.1 { world = 64 })
    ≡ (
      ok (deduplicated_receipt sample_environment "desk" desk (event_of "decision_found" "r")),
      record sample_delivery.1 { world = 64 },
    )
unfolding sample_delivery
deliver_to_destination-window_example =
    deliver_to_destination-window sample_environment "desk" desk (event_of "decision_found" "r")
      (event_of "decision_found" "r") (start 5) sample_delivery.1
      (record sample_delivery.1 { world = 64 }) 5 64 5 64 (receipt_of "SUCCESS") refl refl refl refl
      refl refl (omega arith)

-- The first event waits until the run changes; the second is refused when the lifecycle event of its
-- run comes; the last one waits.
abbrev sample_events : List NotificationEvent
sample_events =
    event_of "decision_found" "r"
    ∷ event_of "decision_found" "bad"
    ∷ event_of "run_failed" "bad"
    ∷ event_of "decision_found" "s"
    ∷ []

abbrev sample_destinations : List (String × Destination)
sample_destinations = ("desk", desk) ∷ []

sample_batch : Result RoutingReceipt × RouterState ℕ
unfolding deliver_all take_all take_events take_event enqueue join_queue append_event flush_if
    flush_destination flush_batch flush_passed flush_eligible send flush_each handle split_batch
    settle_flushed settle deliver_to_destination deliver_receipt delivered_at answered
    ensure_adapter record_success record_outcome routing_receipt same_boundary evidence_eqb sort
    insert_sorted ◌>>=◌ attempt
sample_batch = deliver_all sample_environment true sample_destinations sample_events (start 5)

abbrev outcomes : Result RoutingReceipt → List String
outcomes (ok r) = r.outcome ∷ map (λ x. x.outcome) r.receipts
outcomes (err e) = []

sample_batch_outcomes :
    outcomes sample_batch.0 ≡ "PARTIAL_FAILURE" ∷ "SUCCESS" ∷ "FAILURE" ∷ "FAILURE" ∷ []
unfolding sample_batch
sample_batch_outcomes = refl

sample_batch_waiting : map (λ e. e.run_id) (queue_of "desk" sample_batch.1) ≡ "s" ∷ []
unfolding sample_batch
sample_batch_waiting = refl

start-IsQueued : (now : ℕ) → IsQueued (λ id. 2) (start now)
start-IsQueued now id = tt

deliver_all-IsQueued_example :
    IsQueued
      (λ id. 2)
      (deliver_all sample_environment true sample_destinations sample_events (start 5)).1
deliver_all-IsQueued_example =
    deliver_all-IsQueued sample_environment (λ id. 2) true sample_destinations sample_events
      (start 5) (refl, tt) (start-IsQueued 5)

abbrev waiting : RouterState ℕ
waiting = record (start 7) {
  pending = ("desk", event_of "decision_found" "bad" ∷ event_of "decision_found" "bad" ∷ []) ∷ [];
  deadlines = ("desk", 35) ∷ [];
}

sample_closed : Result RoutingReceipt × RouterState ℕ
unfolding close flush_all flush_destination flush_batch flush_passed flush_eligible send flush_each
    handle split_batch settle_flushed settle deliver_to_destination deliver_receipt delivered_at
    answered ensure_adapter record_success record_outcome routing_receipt same_boundary evidence_eqb
    sort insert_sorted ◌>>=◌ attempt
sample_closed = close sample_environment sample_destinations waiting

abbrev no_receipts : RoutingReceipt
no_receipts = record { outcome = ""; receipts = [] }

sample_closed_returned :
    sample_closed ≡ (ok (value_of no_receipts sample_closed.0), sample_closed.1)
unfolding sample_closed
sample_closed_returned = refl

close-IsEmptied_example :
    All (λ entry. IsEmptied sample_closed.1 entry.0) sample_destinations
    × (All (λ entry. queue_of entry.0 waiting ≡ []) sample_destinations
        ⊎ HasOne (value_of no_receipts sample_closed.0).receipts)
unfolding sample_closed
close-IsEmptied_example =
    close-IsEmptied sample_environment sample_destinations waiting sample_closed.1
      (value_of no_receipts sample_closed.0) sample_closed_returned
