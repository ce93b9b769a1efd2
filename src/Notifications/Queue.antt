-- ===== src/Notifications/Queue.antt =====
-- application/notifications.py: `deliver_all`, `close` and `_flush_destination`.
use smc_ict_engine.Prelude.{
  ℕ, ◌+◌, Bool, true, false, not, Option, none, some, String, List, [], ◌∷◌, ◌++◌, leb, any,
  contains, if◌then◌else◌, length, lookup, assign, erase, Result, ok, err, Error,
}
use smc_ict_engine.Prelude.Sort.{sort}
use smc_ict_engine.Prelude.Actions.{Action, pure, attempt, reads, writes, raise, ◌>>=◌, ◌>>◌}
use smc_ict_engine.Notifications.Events.{
  NotificationEvent, DeliveryReceipt, Destination, RoutingReceipt,
}
use smc_ict_engine.Notifications.Router.{
  Environment, RouterState, is_caught, is_recent, in_world, deduplication_id, delivered_at,
  deduplicated_receipt, unavailable_receipt, record_outcome, ensure_adapter,
}
use smc_ict_engine.Notifications.Delivery.{
  routing_receipt, no_match, same_boundary, is_lifecycle, destination_le, deliver_to_destination,
  split_batch, settle_flushed,
}

-- What a flush has delivered before it was through, or before it raised.
abbrev pub Flushed : Type 0
Flushed = List DeliveryReceipt × Option Error

abbrev pub listed : Option (List NotificationEvent) → List NotificationEvent
listed none = []
listed (some es) = es

abbrev pub queue_of : {W : Type 0} → String → RouterState W → List NotificationEvent
queue_of id s = listed (lookup id s.pending)

-- A queue that was empty gets a deadline.
abbrev pub with_deadline :
    String → ℕ → List NotificationEvent → List (String × ℕ) → List (String × ℕ)
with_deadline id time [] deadlines = assign id time deadlines
with_deadline id time (p ∷ ps) deadlines = deadlines

abbrev pub is_due : ℕ → Option ℕ → Bool
is_due now none = false
is_due now (some deadline) = leb deadline now

-- A pending event is of another boundary.
abbrev pub crosses : NotificationEvent → List NotificationEvent → Bool
crosses e [] = false
crosses e (p ∷ ps) = not (same_boundary p e)

abbrev pub in_one : Result DeliveryReceipt → Flushed
in_one (ok r) = (r ∷ [], none)
in_one (err x) = ([], some x)

abbrev pub is_waiting : String × List NotificationEvent → Bool
is_waiting (id, []) = false
is_waiting (id, e ∷ es) = true

abbrev pub closed_with : List DeliveryReceipt → RoutingReceipt
closed_with [] = no_match
closed_with (r ∷ rs) = routing_receipt (r ∷ rs)

module _ {W : Type 0} where
  abbrev pub emptied : String → RouterState W → RouterState W
  emptied id s = record s { pending = erase id s.pending; deadlines = erase id s.deadlines }

  -- The event joins the queue.
  abbrev pub queued : String → Destination → ℕ → NotificationEvent → RouterState W → RouterState W
  queued id d now e s = record s {
    pending = assign id (queue_of id s ++ e ∷ []) s.pending;
    deadlines = with_deadline id (now + d.flush_seconds) (queue_of id s) s.deadlines;
  }

  abbrev pub summarized : List DeliveryReceipt → RouterState W → RoutingReceipt
  summarized [] s =
      if any is_waiting s.pending then record { outcome = "QUEUED"; receipts = [] } else no_match
  summarized (r ∷ rs) s = routing_receipt (r ∷ rs)

module _ {W : Type 0} (env : Environment W) where
  unfoldable pub flush_each :
      String → Destination → ℕ → List NotificationEvent → Action (RouterState W) Flushed
  unfolding settle_flushed
  flush_each id d now [] = pure ([], none)
  flush_each id d now (e ∷ es) = do
    answer ← attempt (in_world env (env.deliver id e) >>= settle_flushed env id d e [] now)
    elim answer [
      | err x ↦ pure ([], some x)
      | ok r ↦ do rest ← flush_each id d now es; pure (r ∷ rest.0, rest.1)
    ]

  -- One event goes alone, more go as a batch if the adapter takes one.
  unfoldable pub send :
      String
      → Destination
      → ℕ
      → NotificationEvent
      → List NotificationEvent
      → Action (RouterState W) Flushed
  unfolding flush_each settle_flushed
  send id d now e [] = flush_each id d now (e ∷ [])
  send id d now e (e' ∷ es) = elim (env.deliver_batch id) [
    | none ↦ flush_each id d now (e ∷ e' ∷ es)
    | some batch ↦ do
      answer ←
          attempt (in_world env (batch (e ∷ e' ∷ es)) >>= settle_flushed env id d e (e' ∷ es) now)
      pure (in_one answer)
  ]

  -- The `try` of `_flush_destination`, for eligible events `e ∷ es`
  unfoldable pub flush_eligible :
      String
      → Destination
      → ℕ
      → NotificationEvent
      → List NotificationEvent
      → Action (RouterState W) Flushed
  unfolding send ensure_adapter
  flush_eligible id d now e es = do
    made ← attempt (ensure_adapter env id d)
    elim made [ err x ↦ pure ([], some x) | ok u ↦ send id d now e es ]

  -- The handler of the `try`; `first` is the first event of the batch.
  unfoldable pub handle :
      String
      → Destination
      → ℕ
      → NotificationEvent
      → Flushed
      → Action (RouterState W) (List DeliveryReceipt)
  unfolding record_outcome
  handle id d now first (rs, none) = pure rs
  handle id d now first (rs, some x) =
      if is_caught x
      then (do
        record_outcome env (unavailable_receipt env id d first) first.run_id now
        pure (rs ++ unavailable_receipt env id d first ∷ []))
      else raise x

  unfoldable pub flush_passed :
      String
      → Destination
      → ℕ
      → NotificationEvent
      → List NotificationEvent
      → Action (RouterState W) (List DeliveryReceipt)
  unfolding flush_eligible handle
  flush_passed id d now first [] = pure []
  flush_passed id d now first (e ∷ es) = flush_eligible id d now e es >>= handle id d now first

  -- A batch that has been taken from the queue.
  unfoldable pub flush_batch :
      String → Destination → List NotificationEvent → Action (RouterState W) (List DeliveryReceipt)
  unfolding flush_passed split_batch
  flush_batch id d [] = pure []
  flush_batch id d (e ∷ es) = do
    now ← in_world env env.clock_seconds
    parts ← split_batch env id d now (e ∷ es)
    delivered ← flush_passed id d now e parts.0
    pure (parts.1 ++ delivered)

  -- `_flush_destination`
  unfoldable pub flush_destination :
      String → Destination → Action (RouterState W) (List DeliveryReceipt)
  unfolding flush_batch
  flush_destination id d = do
    batch ← reads (queue_of id)
    writes (emptied id)
    flush_batch id d batch

  unfoldable pub flush_if :
      Bool → String → Destination → Action (RouterState W) (List DeliveryReceipt)
  unfolding flush_destination
  flush_if true id d = flush_destination id d
  flush_if false id d = pure []

  unfoldable pub append_event :
      String → Destination → ℕ → NotificationEvent → Action (RouterState W) (List DeliveryReceipt)
  unfolding flush_if
  append_event id d now e = do
    writes (queued id d now e)
    full ← reads (λ s. leb d.maximum_events (length (queue_of id s)))
    flush_if full id d

  unfoldable pub join_queue :
      String → Destination → ℕ → NotificationEvent → Action (RouterState W) (List DeliveryReceipt)
  unfolding flush_if append_event
  join_queue id d now e = do
    other ← reads (λ s. crosses e (queue_of id s))
    crossed ← flush_if other id d
    flushed ← append_event id d now e
    pure (crossed ++ flushed)

  -- An event that is not a duplicate.
  unfoldable pub enqueue :
      String → Destination → ℕ → NotificationEvent → Action (RouterState W) (List DeliveryReceipt)
  unfolding flush_if join_queue
  enqueue id d now e = do
    due ← reads (λ s. is_due now (lookup id s.deadlines))
    late ← flush_if due id d
    rest ← join_queue id d now e
    pure (late ++ rest)

  -- The body of the loop over the events, of one that the destination wants.
  unfoldable pub take_event :
      String → Destination → NotificationEvent → Action (RouterState W) (List DeliveryReceipt)
  unfolding enqueue deliver_to_destination delivered_at
  take_event id d e =
      if is_lifecycle e
      then (do
        flushed ← flush_destination id d
        r ← deliver_to_destination env id d e
        pure (flushed ++ r ∷ []))
      else (do
        now ← in_world env env.clock_seconds
        previous ← delivered_at env id (deduplication_id env id d e)
        if is_recent now d.window_seconds previous
            then pure (deduplicated_receipt env id d e ∷ [])
            else enqueue id d now e)

  unfoldable pub take_events :
      String → Destination → List NotificationEvent → Action (RouterState W) (List DeliveryReceipt)
  unfolding take_event
  take_events id d [] = pure []
  take_events id d (e ∷ es) =
      let others = take_events id d es in
      if contains d.enabled_events e.event_type
      then (do rs ← take_event id d e; more ← others; pure (rs ++ more))
      else others

  unfoldable pub take_all :
      List (String × Destination)
      → List NotificationEvent
      → Action (RouterState W) (List DeliveryReceipt)
  unfolding take_events
  take_all [] events = pure []
  take_all ((id, d) ∷ rest) events =
      let others = take_all rest events in
      if d.enabled
      then (do rs ← take_events id d events; more ← others; pure (rs ++ more))
      else others

  -- `deliver_all`
  unfoldable pub deliver_all :
      Bool
      → List (String × Destination)
      → List NotificationEvent
      → Action (RouterState W) RoutingReceipt
  unfolding take_all sort routing_receipt
  deliver_all false destinations events = pure no_match
  deliver_all true destinations events = do
    rs ← take_all (sort destination_le destinations) events
    reads (summarized rs)

  unfoldable pub flush_all :
      List (String × Destination) → Action (RouterState W) (List DeliveryReceipt)
  unfolding flush_destination
  flush_all [] = pure []
  flush_all ((id, d) ∷ rest) = do
    rs ← flush_destination id d
    more ← flush_all rest
    pure (rs ++ more)

  -- `close`
  unfoldable pub close : List (String × Destination) → Action (RouterState W) RoutingReceipt
  unfolding flush_all sort routing_receipt
  close destinations = do rs ← flush_all (sort destination_le destinations); pure (closed_with rs)
