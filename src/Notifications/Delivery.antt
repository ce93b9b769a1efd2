-- ===== src/Notifications/Delivery.antt =====
-- application/notifications.py: `deliver`, `deliver_all`, `close`, and the flush of a destination.
use smc_ict_engine.Prelude.{
  ℕ, Bool, true, false, ◌&&◌, ◌||◌, Option, String, List, [], ◌∷◌, ltb, ◌==◌, str_eq, str_le,
  contains, if◌then◌else◌, length, keep, lookup, Result, ok, err,
}
use smc_ict_engine.Prelude.Sort.{sort}
use smc_ict_engine.Prelude.Actions.{Action, pure, attempt, raise, ◌>>=◌, ◌>>◌}
use smc_ict_engine.Domain.{Evidence, evidence_eqb, or_null}
use smc_ict_engine.Notifications.Events.{
  NotificationEvent, DeliveryReceipt, Destination, RoutingReceipt,
}
use smc_ict_engine.Notifications.Router.{
  Environment, RouterState, is_caught, is_recent, in_world, deduplication_id, delivered_at,
  deduplicated_receipt, unavailable_receipt, record_outcome, ensure_adapter, settle,
}

abbrev pub is_successful : DeliveryReceipt → Bool
is_successful r = str_eq r.outcome "SUCCESS" || str_eq r.outcome "DEDUPLICATED"

-- `_routing_receipt`, which `deliver` has written out
unfoldable pub routing_receipt : List DeliveryReceipt → RoutingReceipt
routing_receipt receipts =
    let successful = length (keep is_successful receipts) in
    if successful == length receipts
    then record { outcome = "ALL_SUCCESS"; receipts = receipts }
    else if ltb 0 successful
    then record { outcome = "PARTIAL_FAILURE"; receipts = receipts }
    else record { outcome = "ALL_FAILURE"; receipts = receipts }

abbrev pub no_match : RoutingReceipt
no_match = record { outcome = "NO_MATCH"; receipts = [] }

-- `_terminal_boundary`
abbrev pub terminal_boundary : NotificationEvent → String × Option Evidence
terminal_boundary e = (e.run_id, lookup "closed_bar_time_ms" e.payload)

unfoldable pub same_boundary : NotificationEvent → NotificationEvent → Bool
unfolding evidence_eqb
same_boundary a b =
    str_eq a.run_id b.run_id
    && evidence_eqb (or_null (terminal_boundary a).1) (or_null (terminal_boundary b).1)

abbrev pub is_lifecycle : NotificationEvent → Bool
is_lifecycle e = contains ("run_started" ∷ "run_succeeded" ∷ "run_failed" ∷ []) e.event_type

abbrev pub destination_le : String × Destination → String × Destination → Bool
destination_le a b = str_le a.0 b.0

module _ {W : Type 0} (env : Environment W) where
  -- The adapter answered, or something raised.
  unfoldable pub answered :
      String
      → Destination
      → NotificationEvent
      → ℕ
      → Result DeliveryReceipt
      → Action (RouterState W) DeliveryReceipt
  unfolding settle record_outcome
  answered id d e now (ok r) = settle env id d e [] now r
  answered id d e now (err x) =
      if is_caught x
      then (do
        record_outcome env (unavailable_receipt env id d e) e.run_id now
        pure (unavailable_receipt env id d e))
      else raise x

  -- The rest of `_deliver_to_destination`, outside the window
  unfoldable pub deliver_receipt :
      String → Destination → NotificationEvent → ℕ → Action (RouterState W) DeliveryReceipt
  unfolding ensure_adapter answered
  deliver_receipt id d e now = do
    answer ← attempt (ensure_adapter env id d >> in_world env (env.deliver id e))
    answered id d e now answer

  -- `_deliver_to_destination`
  unfoldable pub deliver_to_destination :
      String → Destination → NotificationEvent → Action (RouterState W) DeliveryReceipt
  unfolding deliver_receipt delivered_at
  deliver_to_destination id d e = do
    now ← in_world env env.clock_seconds
    previous ← delivered_at env id (deduplication_id env id d e)
    if is_recent now d.window_seconds previous
        then pure (deduplicated_receipt env id d e)
        else deliver_receipt id d e now

  unfoldable pub deliver_each :
      List (String × Destination)
      → NotificationEvent
      → Action (RouterState W) (List DeliveryReceipt)
  unfolding deliver_to_destination
  deliver_each [] e = pure []
  deliver_each ((id, d) ∷ rest) e =
      let others = deliver_each rest e in
      if d.enabled && contains d.enabled_events e.event_type
      then (do r ← deliver_to_destination id d e; rs ← others; pure (r ∷ rs))
      else others

  abbrev pub routed : List DeliveryReceipt → RoutingReceipt
  routed [] = no_match
  routed (r ∷ rs) = routing_receipt (r ∷ rs)

  -- `deliver`, of the configuration's `enabled` and `destinations`
  unfoldable pub deliver :
      Bool → List (String × Destination) → NotificationEvent → Action (RouterState W) RoutingReceipt
  unfolding deliver_each sort
  deliver false destinations e = pure no_match
  deliver true destinations e = do
    rs ← deliver_each (sort destination_le destinations) e
    pure (routed rs)

  -- The events of a batch that the window lets pass, and the receipts of the others.
  unfoldable pub split_batch :
      String
      → Destination
      → ℕ
      → List NotificationEvent
      → Action (RouterState W) (List NotificationEvent × List DeliveryReceipt)
  unfolding delivered_at
  split_batch id d now [] = pure ([], [])
  split_batch id d now (e ∷ es) = do
    previous ← delivered_at env id (deduplication_id env id d e)
    rest ← split_batch id d now es
    pure (
        if is_recent now d.window_seconds previous
        then (rest.0, deduplicated_receipt env id d e ∷ rest.1)
        else (e ∷ rest.0, rest.1))

  -- What follows a delivery of a flush: only a receipt of success or of failure is recorded.
  unfoldable pub settle_flushed :
      String
      → Destination
      → NotificationEvent
      → List NotificationEvent
      → ℕ
      → DeliveryReceipt
      → Action (RouterState W) DeliveryReceipt
  unfolding settle
  settle_flushed id d e es now r =
      if str_eq r.outcome "SUCCESS" || str_eq r.outcome "FAILURE"
      then settle env id d e es now r
      else pure r
