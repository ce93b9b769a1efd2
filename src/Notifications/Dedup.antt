-- ===== src/Notifications/Dedup.antt =====
-- A router without a store does not deliver an event again within the window of its destination.
use smc_ict_engine.Prelude.{
  ℕ, ◌+◌, ◌<◌, true, false, ◌≡◌, refl, sym, ap, ◌∙◌, none, some, String, [], arith, inl, inr,
  Bool-cases, ltb, str_eq, eq_refl, if◌then◌else◌, Result, ok, err, subst, err-ne-ok,
}
use smc_ict_engine.Prelude.Actions.{pure, ◌>>=◌, run-eq-ok}
use smc_ict_engine.Notifications.Events.{NotificationEvent, DeliveryReceipt, Destination}
use smc_ict_engine.Notifications.Router.{
  Environment, RouterState, is_caught, is_recent, delivery_time, deduplication_id, delivered_at,
  deduplicated_receipt, record_outcome, record_success, settle,
}
use smc_ict_engine.Notifications.Delivery.{answered, deliver_receipt, deliver_to_destination}

abbrev pub without_store : {W : Type 0} → Environment W → Environment W
without_store env = record env { deduplication_store = none }

module _ {W : Type 0} (env : Environment W) (id : String) (d : Destination)
    (e : NotificationEvent) where
  abbrev key : String
  key = deduplication_id (without_store env) id d e

  value_of : {A S : Type 0} {a b : A} {s t : S} → ◌≡◌ {A = Result A × S} (ok a, s) (ok b, t) → a ≡ b
  value_of h = cc (ap (λ r. r.0) h)

  state_of : {A S : Type 0} {a b : A} {s t : S} → ◌≡◌ {A = Result A × S} (ok a, s) (ok b, t) → s ≡ t
  state_of h = ap (λ r. r.1) h

  not_success :
      (r : DeliveryReceipt) (outcome : String)
      → r.outcome ≡ "SUCCESS"
      → r.outcome ≡ outcome
      → str_eq outcome "SUCCESS" ≡ false
      → ⊥
  not_success r outcome h k n = cc (ap (λ o. str_eq o "SUCCESS") (sym h ∙ k), n)

  settle_lem :
      (now : ℕ) (q r : DeliveryReceipt) (s t : RouterState W)
      → settle (without_store env) id d e [] now q s ≡ (ok r, t)
      → r.outcome ≡ "SUCCESS"
      → delivery_time id key t.deduplicated_at ≡ some now
  unfolding settle record_success record_outcome ◌>>=◌
  settle_lem now q r s t h success = elim (Bool-cases (str_eq q.outcome "SUCCESS")) [
    | inl done ↦
        subst (λ u. delivery_time id key u.deduplicated_at ≡ some now) (state_of (rw done at h))
          (rw (eq_refl id, eq_refl key) refl)
    | inr failed ↦ absurd (
        not_success r q.outcome success (ap (λ x. x.outcome) (sym (value_of (rw failed at h))))
          failed)
  ]

  answered_lem :
      (now : ℕ) (answer : Result DeliveryReceipt) (r : DeliveryReceipt) (s t : RouterState W)
      → answered (without_store env) id d e now answer s ≡ (ok r, t)
      → r.outcome ≡ "SUCCESS"
      → delivery_time id key t.deduplicated_at ≡ some now
  unfolding answered record_outcome ◌>>=◌
  answered_lem now (ok q) r s t h success = settle_lem now q r s t h success
  answered_lem now (err x) r s t h success = elim (Bool-cases (is_caught x)) [
    | inl caught ↦ absurd (
        not_success r "FAILURE" success (ap (λ p. p.outcome) (sym (value_of (rw caught at h))))
          refl)
    | inr uncaught ↦ absurd (err-ne-ok (ap (λ p. p.0) (rw uncaught at h)))
  ]

  deliver_receipt_lem :
      (now : ℕ) (r : DeliveryReceipt) (s t : RouterState W)
      → deliver_receipt (without_store env) id d e now s ≡ (ok r, t)
      → r.outcome ≡ "SUCCESS"
      → delivery_time id key t.deduplicated_at ≡ some now
  unfolding deliver_receipt
  deliver_receipt_lem now r s t h success =
      let (answer, u, _, k) = run-eq-ok _ _ s r t h in answered_lem now answer r u t k success

  -- A delivery at a time that the clock answers.
  deliver_to_destination_at :
      (now : ℕ) (w : W) (s : RouterState W)
      → env.clock_seconds s.world ≡ (ok now, w)
      → deliver_to_destination (without_store env) id d e s
        ≡ (if is_recent now d.window_seconds (delivery_time id key s.deduplicated_at)
              then pure (deduplicated_receipt (without_store env) id d e)
              else deliver_receipt (without_store env) id d e now)
            (record s { world = w })
  unfolding deliver_to_destination delivered_at ◌>>=◌
  deliver_to_destination_at now w s clock = rw clock refl

  deliver_to_destination_lem :
      (now : ℕ) (w : W) (r : DeliveryReceipt) (s t : RouterState W)
      → env.clock_seconds s.world ≡ (ok now, w)
      → deliver_to_destination (without_store env) id d e s ≡ (ok r, t)
      → r.outcome ≡ "SUCCESS"
      → delivery_time id key t.deduplicated_at ≡ some now
  deliver_to_destination_lem now w r s t clock h success =
      let ran = sym (deliver_to_destination_at now w s clock) ∙ h in
      elim (Bool-cases (is_recent now d.window_seconds (delivery_time id key s.deduplicated_at))) [
        | inl recent ↦ absurd (
            not_success r "DEDUPLICATED" success
              (ap (λ p. p.outcome) (sym (value_of (rw recent at ran)))) refl)
        | inr passed ↦
            deliver_receipt_lem now r (record s { world = w }) t (rw passed at ran) success
      ]

module _ {W : Type 0} (env : Environment W) (id : String) (d : Destination) where
  -- Of a router without a store: after a delivery of an event succeeded, an event with the same
  -- deduplication key is answered as deduplicated while fewer than the destination's window of
  -- seconds have passed, and only the clock is asked: the adapter is not called, and the queues, the
  -- adapters and the remembered deliveries stay as they are.
  pub deliver_to_destination-window :
      (first again : NotificationEvent) (s t u : RouterState W) (now later : ℕ) (w w' : W)
      (r : DeliveryReceipt)
      → env.clock_seconds s.world ≡ (ok now, w)
      → deliver_to_destination (without_store env) id d first s ≡ (ok r, t)
      → r.outcome ≡ "SUCCESS"
      → u.deduplicated_at ≡ t.deduplicated_at
      → deduplication_id env id d again ≡ deduplication_id env id d first
      → env.clock_seconds u.world ≡ (ok later, w')
      → later < now + d.window_seconds
      → deliver_to_destination (without_store env) id d again u
        ≡ (ok (deduplicated_receipt env id d again), record u { world = w' })
  deliver_to_destination-window first again s t u now later w w' r clock ran success kept same after
        soon =
      deliver_to_destination_at env id d again later w' u after ∙ rw (seen, recent) refl
    where
      seen : delivery_time id (deduplication_id env id d again) u.deduplicated_at ≡ some now
      seen =
          rw (same, kept) (deliver_to_destination_lem env id d first now w r s t clock ran success)

      recent : ltb later (now + d.window_seconds) ≡ true
      recent = ground arith
