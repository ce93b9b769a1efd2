-- ===== src/Notifications/Untouched.antt =====
-- The deliveries of the router leave its queues and deadlines as they are.
use smc_ict_engine.Prelude.{
  ℕ, true, ◌≡◌, refl, Option, none, some, String, List, [], ◌∷◌, str_eq, contains, erase, Result,
  ok, err, ◌||◌,
}
use smc_ict_engine.Prelude.Actions.{
  pure, attempt, reads, writes, ◌>>=◌, ◌>>◌, Keeps, pure-Keeps, reads-Keeps, attempt-Keeps,
  bind-Keeps, if-Keeps,
}
use smc_ict_engine.Notifications.Events.{NotificationEvent, DeliveryReceipt, Destination}
use smc_ict_engine.Notifications.Router.{
  Environment, RouterState, is_caught, is_recent, in_world, delivery_record, succeeded, remember,
  dedup_records, delivery_time, delivered_at, record_outcome, unavailable_receipt, record_success,
  ensure_adapter, settle, DeduplicationStore,
}
use smc_ict_engine.Notifications.Delivery.{
  answered, deliver_receipt, deliver_to_destination, split_batch, settle_flushed,
}
use smc_ict_engine.Notifications.Queue.{
  Flushed, queue_of, flush_each, in_one, send, flush_eligible, handle, flush_passed, flush_batch,
  emptied, flush_destination,
}

module _ {W : Type 0} where
  -- The part of the state that the deliveries leave alone.
  abbrev pub IsUntouched :
      List (String × List NotificationEvent) → List (String × ℕ) → RouterState W → Type 0
  IsUntouched pending deadlines s = (s.pending ≡ pending) × (s.deadlines ≡ deadlines)

module _ {W : Type 0} (env : Environment W) (pending : List (String × List NotificationEvent))
    (deadlines : List (String × ℕ)) where
  abbrev pub Same : RouterState W → Type 0
  Same = IsUntouched pending deadlines

  pub in_world-Same : {A : Type 0} (f : W → Result A × W) → Keeps Same (in_world env f)
  in_world-Same f = record { at = λ s h. h }

  pub delivered_at-Same : (id key : String) → Keeps Same (delivered_at env id key)
  unfolding delivered_at
  delivered_at-Same id key = by_store env.deduplication_store
    where
      by_store :
          (store : Option (DeduplicationStore W))
          → Keeps Same (elim store [
            | some store ↦ in_world env (store.notification_delivered_at id key)
            | none ↦ reads (λ s. delivery_time id key s.deduplicated_at)
          ])
      by_store none = record { at = λ s h. h }
      by_store (some store) = record { at = λ s h. h }

  attempt_world-Same : {A : Type 0} (f : W → Result A × W) → Keeps Same (attempt (in_world env f))
  attempt_world-Same f = attempt-Keeps Same _ (in_world-Same f)

  record_outcome-Same :
      (r : DeliveryReceipt) (run_id : String) (now : ℕ)
      → Keeps Same (record_outcome env r run_id now)
  unfolding record_outcome
  record_outcome-Same r run_id now = by_store env.deduplication_store
    where
      by_store :
          (store : Option (DeduplicationStore W))
          → Keeps Same (elim store [
            | none ↦ pure true
            | some store ↦ (do
              stored ← attempt (
                  in_world env
                    (store.store_notification_outcomes (delivery_record env r run_id now)))
              pure (succeeded env stored))
          ])
      by_store none = record { at = λ s h. h }
      by_store (some store) =
          bind-Keeps Same _ _ (attempt_world-Same _) (λ stored. pure-Keeps Same _)

  record_success-Same :
      (r : DeliveryReceipt) (id : String) (d : Destination) (e : NotificationEvent)
      (es : List NotificationEvent) (now : ℕ)
      → Keeps Same (record_success env r id d e es now)
  unfolding record_success
  record_success-Same r id d e es now = by_store env.deduplication_store
    where
      by_store :
          (store : Option (DeduplicationStore W))
          → Keeps Same (elim store [
            | none ↦ (do
              writes (λ s. record s {
                deduplicated_at = remember env id d now (e ∷ es) s.deduplicated_at;
              })
              pure true)
            | some store ↦ (do
              stored ← attempt (
                  in_world env (
                    store.store_successful_notification_delivery
                      (delivery_record env r e.run_id now)
                      (dedup_records env id d now (e ∷ es))))
              pure (succeeded env stored))
          ])
      by_store none = bind-Keeps Same _ _ (record { at = λ s h. h }) (λ u. pure-Keeps Same _)
      by_store (some store) =
          bind-Keeps Same _ _ (attempt_world-Same _) (λ stored. pure-Keeps Same _)

  ensure_adapter-Same : (id : String) (d : Destination) → Keeps Same (ensure_adapter env id d)
  unfolding ensure_adapter
  ensure_adapter-Same id d = bind-Keeps Same _ _ (reads-Keeps Same _) λ adapters.
      if-Keeps Same (contains adapters id) _ _ (pure-Keeps Same _)
        (bind-Keeps Same _ _ (in_world-Same _) λ u. record { at = λ s h. h })

  settle-Same :
      (id : String) (d : Destination) (e : NotificationEvent) (es : List NotificationEvent)
      (now : ℕ) (r : DeliveryReceipt)
      → Keeps Same (settle env id d e es now r)
  unfolding settle
  settle-Same id d e es now r =
      if-Keeps Same (str_eq r.outcome "SUCCESS") _ _
        (bind-Keeps Same _ _ (record_success-Same r id d e es now) λ recorded. pure-Keeps Same _)
        (bind-Keeps Same _ _ (record_outcome-Same r e.run_id now) λ recorded. pure-Keeps Same _)

  settle_flushed-Same :
      (id : String) (d : Destination) (e : NotificationEvent) (es : List NotificationEvent)
      (now : ℕ) (r : DeliveryReceipt)
      → Keeps Same (settle_flushed env id d e es now r)
  unfolding settle_flushed
  settle_flushed-Same id d e es now r =
      if-Keeps Same (str_eq r.outcome "SUCCESS" || str_eq r.outcome "FAILURE") _ _
        (settle-Same id d e es now r) (pure-Keeps Same _)

  answered-Same :
      (id : String) (d : Destination) (e : NotificationEvent) (now : ℕ)
      (answer : Result DeliveryReceipt)
      → Keeps Same (answered env id d e now answer)
  unfolding answered
  answered-Same id d e now (ok r) = settle-Same id d e [] now r
  answered-Same id d e now (err x) =
      if-Keeps Same (is_caught x) _ _
        (bind-Keeps Same _ _ (record_outcome-Same (unavailable_receipt env id d e) e.run_id now)
          λ u. pure-Keeps Same _)
        (record { at = λ s h. h })

  pub deliver_to_destination-Same :
      (id : String) (d : Destination) (e : NotificationEvent)
      → Keeps Same (deliver_to_destination env id d e)
  unfolding deliver_to_destination deliver_receipt
  deliver_to_destination-Same id d e = bind-Keeps Same _ _ (in_world-Same _) λ now.
      bind-Keeps Same _ _ (delivered_at-Same id _) λ previous.
        if-Keeps Same (is_recent now d.window_seconds previous) _ _ (pure-Keeps Same _) (
          bind-Keeps Same _ _
            (attempt-Keeps Same _
              (bind-Keeps Same _ _ (ensure_adapter-Same id d) λ u. in_world-Same _))
            λ answer. answered-Same id d e now answer)

  pub split_batch-Same :
      (id : String) (d : Destination) (now : ℕ) (es : List NotificationEvent)
      → Keeps Same (split_batch env id d now es)
  unfolding split_batch
  split_batch-Same id d now [] = pure-Keeps Same _
  split_batch-Same id d now (e ∷ es) =
      bind-Keeps Same _ _ (delivered_at-Same id _)
        λ previous. bind-Keeps Same _ _ (split_batch-Same id d now es) λ rest. pure-Keeps Same _

  flush_each-Same :
      (id : String) (d : Destination) (now : ℕ) (es : List NotificationEvent)
      → Keeps Same (flush_each env id d now es)
  unfolding flush_each
  flush_each-Same id d now [] = pure-Keeps Same _
  flush_each-Same id d now (e ∷ es) =
      bind-Keeps Same _ _
        (attempt-Keeps Same _
          (bind-Keeps Same _ _ (in_world-Same _) (settle_flushed-Same id d e [] now)))
        (answered (flush_each-Same id d now es))
    where
      answered :
          Keeps Same (flush_each env id d now es)
          → (answer : Result DeliveryReceipt)
          → Keeps {A = Flushed} Same (elim answer [
            | err x ↦ pure ([], some x)
            | ok r ↦ (do rest ← flush_each env id d now es; pure (r ∷ rest.0, rest.1))
          ])
      answered k (err x) = pure-Keeps Same _
      answered k (ok r) = bind-Keeps Same _ _ k λ rest. pure-Keeps Same _

  send-Same :
      (id : String) (d : Destination) (now : ℕ) (e : NotificationEvent)
      (es : List NotificationEvent)
      → Keeps Same (send env id d now e es)
  unfolding send
  send-Same id d now e [] = flush_each-Same id d now (e ∷ [])
  send-Same id d now e (e' ∷ es) = by_batch (env.deliver_batch id)
    where
      by_batch :
          (batch : Option (List NotificationEvent → W → Result DeliveryReceipt × W))
          → Keeps {A = Flushed} Same (elim batch [
            | none ↦ flush_each env id d now (e ∷ e' ∷ es)
            | some batch ↦ (do
              answer ←
                  attempt
                    (in_world env (batch (e ∷ e' ∷ es)) >>= settle_flushed env id d e (e' ∷ es) now)
              pure (in_one answer))
          ])
      by_batch none = flush_each-Same id d now (e ∷ e' ∷ es)
      by_batch (some batch) =
          bind-Keeps Same _ _
            (attempt-Keeps Same _
              (bind-Keeps Same _ _ (in_world-Same _) (settle_flushed-Same id d e (e' ∷ es) now)))
            (λ answer. pure-Keeps Same _)

  flush_eligible-Same :
      (id : String) (d : Destination) (now : ℕ) (e : NotificationEvent)
      (es : List NotificationEvent)
      → Keeps Same (flush_eligible env id d now e es)
  unfolding flush_eligible
  flush_eligible-Same id d now e es =
      bind-Keeps Same _ _ (attempt-Keeps Same _ (ensure_adapter-Same id d)) made
    where
      made :
          (answer : Result (Unit {0}))
          → Keeps {A = Flushed} Same
              (elim answer [ err x ↦ pure ([], some x) | ok u ↦ send env id d now e es ])
      made (err x) = pure-Keeps Same _
      made (ok u) = send-Same id d now e es

  handle-Same :
      (id : String) (d : Destination) (now : ℕ) (first : NotificationEvent) (outcome : Flushed)
      → Keeps Same (handle env id d now first outcome)
  unfolding handle
  handle-Same id d now first (rs, none) = pure-Keeps Same _
  handle-Same id d now first (rs, some x) =
      if-Keeps Same (is_caught x) _ _
        (bind-Keeps Same _ _
          (record_outcome-Same (unavailable_receipt env id d first) first.run_id now)
          λ u. pure-Keeps Same _)
        (record { at = λ s h. h })

  flush_passed-Same :
      (id : String) (d : Destination) (now : ℕ) (first : NotificationEvent)
      (es : List NotificationEvent)
      → Keeps Same (flush_passed env id d now first es)
  unfolding flush_passed
  flush_passed-Same id d now first [] = pure-Keeps Same _
  flush_passed-Same id d now first (e ∷ es) =
      bind-Keeps Same _ _ (flush_eligible-Same id d now e es) (handle-Same id d now first)

  pub flush_batch-Same :
      (id : String) (d : Destination) (batch : List NotificationEvent)
      → Keeps Same (flush_batch env id d batch)
  unfolding flush_batch
  flush_batch-Same id d [] = pure-Keeps Same _
  flush_batch-Same id d (e ∷ es) = bind-Keeps Same _ _ (in_world-Same _) λ now.
      bind-Keeps Same _ _ (split_batch-Same id d now (e ∷ es)) λ parts.
        bind-Keeps Same _ _ (flush_passed-Same id d now e parts.0) λ delivered. pure-Keeps Same _

-- A flush empties the queue of the destination, and leaves the others as they were.
pub flush_destination-IsUntouched :
    {W : Type 0} (env : Environment W) (id : String) (d : Destination) (s : RouterState W)
    → IsUntouched (erase id s.pending) (erase id s.deadlines) (flush_destination env id d s).1
unfolding flush_destination ◌>>=◌
flush_destination-IsUntouched env id d s =
    (flush_batch-Same env (erase id s.pending) (erase id s.deadlines) id d (queue_of id s)).at
      (emptied id s) (refl, refl)
