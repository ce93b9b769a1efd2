-- ===== src/Notifications/Events.antt =====
-- application/ports/notifications.py, and what the router reads of configuration/models.py.
use smc_ict_engine.Prelude.{
  ℕ, Bool, false, not, ◌&&◌, Option, none, some, String, List, [], ◌∷◌, leb, str_eq, contains,
  Result, ok, value_error, ◌>>◌, raise_if,
}
use smc_ict_engine.Domain.{Evidence, is_instrument_id}

-- The numbers of a payload are times and counts: natural numbers.
pub record NotificationEvent : Type 0 where
  pub event_type : String
  pub run_id : String
  pub instrument_id : Option String
  pub strategy_id : String
  pub payload_schema_version : ℕ
  pub payload : List (String × Evidence)

-- `_EVENT_TYPES`
abbrev pub event_types : List String
event_types = "run_started" ∷ "run_succeeded" ∷ "run_failed" ∷ "decision_found" ∷ "no_decision" ∷ []

abbrev pub is_bad_instrument : Option String → Bool
is_bad_instrument none = false
is_bad_instrument (some i) = not (is_instrument_id i)

-- `NotificationEvent.__post_init__`
unfoldable pub checked_event : NotificationEvent → Result NotificationEvent
unfolding is_instrument_id
checked_event e = do
  raise_if (not (contains event_types e.event_type)) value_error
  raise_if (str_eq e.run_id "") value_error
  raise_if (is_bad_instrument e.instrument_id) value_error
  raise_if (str_eq e.strategy_id "") value_error
  raise_if (not (leb 1 e.payload_schema_version && leb e.payload_schema_version 2_147_483_647))
      value_error
  ok e

pub record DeliveryReceipt : Type 0 where
  pub destination_id : String
  pub adapter_id : String
  pub event_id : String
  pub deduplication_id : String
  pub batch_id : Option String
  pub attempts : ℕ
  pub outcome : String
  pub reason_code : Option String
  pub status_code : Option ℕ

pub record DedupRecord : Type 0 where
  pub run_id : String
  pub destination_id : String
  pub deduplication_id : String
  pub delivered_at_seconds : ℕ

pub record DeliveryRecord : Type 0 where
  pub run_id : String
  pub destination_id : String
  pub adapter_id : String
  pub attempted_at_seconds : ℕ
  pub attempts : ℕ
  pub outcome : String
  pub reason_code : Option String
  pub status_code : Option ℕ

-- The closed set of `DeduplicationConfig.key_fields`
pub data KeyField : Type 0 where
  by_event_type by_run_id by_instrument_id by_strategy_id : KeyField

-- What the router reads of a `NotificationDestination`.
pub record Destination : Type 0 where
  pub adapter : String
  pub enabled : Bool
  pub enabled_events : List String
  pub window_seconds : ℕ
  pub key_fields : List KeyField
  pub maximum_events : ℕ
  pub flush_seconds : ℕ

pub record RoutingReceipt : Type 0 where
  pub outcome : String
  pub receipts : List DeliveryReceipt
