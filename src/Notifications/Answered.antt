-- ===== src/Notifications/Answered.antt =====
-- application/notifications.py: what `_flush_destination` answers to a batch.
use smc_ict_engine.Prelude.{
  ℕ, ◌≡◌, refl, ap, subst, ◌⊎◌, inl, inr, Bool, true, false, Option, none, some, String, List, [],
  ◌∷◌, ◌++◌, if◌then◌else◌, Result, ok, err, Error, err-ne-ok, ok_inj, erase,
}
use smc_ict_engine.Prelude.Actions.{Action, pure, attempt, raise, run-eq-ok, ◌>>=◌, ◌>>◌}
use smc_ict_engine.Notifications.Events.{NotificationEvent, DeliveryReceipt, Destination}
use smc_ict_engine.Notifications.Router.{
  Environment, RouterState, is_caught, is_recent, in_world, deduplicated_receipt,
  unavailable_receipt, record_outcome,
}
use smc_ict_engine.Notifications.Delivery.{split_batch, settle_flushed}
use smc_ict_engine.Notifications.Queue.{
  Flushed, in_one, queue_of, flush_each, send, flush_eligible, handle, flush_passed, flush_batch,
  flush_destination,
}

-- What a statement returns, where it returns.
record Gives {S A : Type 0} (P : A → Type 0) (m : Action S A) : Type 0 where
  at : (s t : S) (a : A) → m s ≡ (ok a, t) → P a

abbrev Any : {A : Type 0} → A → Type 0
Any a = Unit {0}

module _ {S A : Type 0} where
  Any-Gives : (m : Action S A) → Gives Any m
  Any-Gives m = record { at = λ s t a e. tt }

  pure-Gives : (P : A → Type 0) (a : A) → P a → Gives P (pure {S = S} a)
  pure-Gives P a h = record { at = λ s t b e. subst P (ok_inj (ap (λ r. r.0) e)) h }

  raise-Gives : (P : A → Type 0) (x : Error) → Gives P (raise {S = S} x)
  raise-Gives P x = record { at = λ s t b e. absurd (err-ne-ok (ap (λ r. r.0) e)) }

bind-Gives :
    {S A B : Type 0} (Q : A → Type 0) (P : B → Type 0) (m : Action S A) (f : A → Action S B)
    → Gives Q m
    → ((a : A) → Q a → Gives P (f a))
    → Gives P (m >>= f)
bind-Gives Q P m f k l = record {
  at = λ s t b e.
      let (a, u, first, after) = run-eq-ok m f s b t e in (l a (k.at s u a first)).at u t b after;
}

-- At least one
abbrev pub HasOne : {A : Type 0} → List A → Type 0
HasOne [] = ⊥
HasOne (x ∷ xs) = Unit {0}

appended-HasOne : {A : Type 0} (xs : List A) (x : A) → HasOne (xs ++ x ∷ [])
appended-HasOne [] x = tt
appended-HasOne (y ∷ ys) x = tt

-- A receipt, or the exception that `handle` answers with one.
abbrev HasAnswer : Flushed → Type 0
HasAnswer (rs, none) = HasOne rs
HasAnswer (rs, some x) = Unit {0}

joined-HasAnswer : (r : DeliveryReceipt) (f : Flushed) → HasAnswer (r ∷ f.0, f.1)
joined-HasAnswer r (rs, none) = tt
joined-HasAnswer r (rs, some x) = tt

in_one-HasAnswer : (answer : Result DeliveryReceipt) → HasAnswer (in_one answer)
in_one-HasAnswer (ok r) = tt
in_one-HasAnswer (err x) = tt

-- A batch that is split has a part.
abbrev HasPart : List NotificationEvent × List DeliveryReceipt → Type 0
HasPart parts = HasOne parts.0 ⊎ HasOne parts.1

module _ {W : Type 0} (env : Environment W) (id : String) (d : Destination) where
  flush_each-HasAnswer :
      (now : ℕ) (e : NotificationEvent) (es : List NotificationEvent)
      → Gives HasAnswer (flush_each env id d now (e ∷ es))
  unfolding flush_each
  flush_each-HasAnswer now e es =
      bind-Gives Any HasAnswer _ _ (Any-Gives _) (λ answer h. by_answer answer)
    where
      by_answer :
          (answer : Result DeliveryReceipt)
          → Gives {S = RouterState W} HasAnswer (elim answer [
            | err x ↦ pure ([], some x)
            | ok r ↦ do rest ← flush_each env id d now es; pure (r ∷ rest.0, rest.1)
          ])
      by_answer (err x) = pure-Gives _ _ tt
      by_answer (ok r) =
          bind-Gives Any HasAnswer _ _ (Any-Gives _)
            (λ rest h. pure-Gives HasAnswer _ (joined-HasAnswer r rest))

  send-HasAnswer :
      (now : ℕ) (e : NotificationEvent) (es : List NotificationEvent)
      → Gives HasAnswer (send env id d now e es)
  unfolding send
  send-HasAnswer now e [] = flush_each-HasAnswer now e []
  send-HasAnswer now e (e' ∷ es) = by_adapter (env.deliver_batch id)
    where
      by_adapter :
          (adapter : Option (List NotificationEvent → W → Result DeliveryReceipt × W))
          → Gives HasAnswer (elim adapter [
            | none ↦ flush_each env id d now (e ∷ e' ∷ es)
            | some batch ↦ do
              answer ←
                  attempt
                    (in_world env (batch (e ∷ e' ∷ es)) >>= settle_flushed env id d e (e' ∷ es) now)
              pure (in_one answer)
          ])
      by_adapter none = flush_each-HasAnswer now e (e' ∷ es)
      by_adapter (some batch) =
          bind-Gives Any HasAnswer _ _ (Any-Gives _)
            (λ answer h. pure-Gives HasAnswer _ (in_one-HasAnswer answer))

  flush_eligible-HasAnswer :
      (now : ℕ) (e : NotificationEvent) (es : List NotificationEvent)
      → Gives HasAnswer (flush_eligible env id d now e es)
  unfolding flush_eligible
  flush_eligible-HasAnswer now e es =
      bind-Gives Any HasAnswer _ _ (Any-Gives _) (λ made h. by_adapter made)
    where
      by_adapter :
          (made : Result (Unit {0}))
          → Gives {S = RouterState W} HasAnswer
              (elim made [ err x ↦ pure ([], some x) | ok u ↦ send env id d now e es ])
      by_adapter (err x) = pure-Gives _ _ tt
      by_adapter (ok u) = send-HasAnswer now e es

  handle-HasOne :
      (now : ℕ) (first : NotificationEvent) (f : Flushed)
      → HasAnswer f
      → Gives HasOne (handle env id d now first f)
  unfolding handle
  handle-HasOne now first (rs, none) h = pure-Gives _ _ h
  handle-HasOne now first (rs, some x) h = by_test (is_caught x)
    where
      by_test :
          (test : Bool)
          → Gives HasOne (
              if test
              then (do
                record_outcome env (unavailable_receipt env id d first) first.run_id now
                pure (rs ++ unavailable_receipt env id d first ∷ []))
              else raise x)
      by_test true =
          bind-Gives Any HasOne _ _ (Any-Gives _)
            (λ u h. pure-Gives HasOne _ (appended-HasOne rs _))
      by_test false = raise-Gives _ x

  split_batch-HasPart :
      (now : ℕ) (e : NotificationEvent) (es : List NotificationEvent)
      → Gives HasPart (split_batch env id d now (e ∷ es))
  unfolding split_batch
  split_batch-HasPart now e es = bind-Gives Any HasPart _ _ (Any-Gives _) λ previous h.
      bind-Gives Any HasPart _ _ (Any-Gives _)
        λ rest h. pure-Gives HasPart _ (by_test (is_recent now d.window_seconds previous) rest)
    where
      by_test :
          (test : Bool) (rest : List NotificationEvent × List DeliveryReceipt)
          → HasPart (
              if test
              then (rest.0, deduplicated_receipt env id d e ∷ rest.1)
              else (e ∷ rest.0, rest.1))
      by_test true rest = inr tt
      by_test false rest = inl tt

  -- A batch with an event is answered by a receipt.
  flush_batch-HasOne :
      (e : NotificationEvent) (es : List NotificationEvent)
      → Gives HasOne (flush_batch env id d (e ∷ es))
  unfolding flush_batch flush_passed
  flush_batch-HasOne e es = bind-Gives Any HasOne _ _ (Any-Gives _) λ now h.
      bind-Gives HasPart HasOne _ _ (split_batch-HasPart now e es)
        λ parts h. by_parts now parts.0 parts.1 h
    where
      by_parts :
          (now : ℕ) (eligible : List NotificationEvent) (rs : List DeliveryReceipt)
          → HasOne eligible ⊎ HasOne rs
          → Gives HasOne
              (flush_passed env id d now e eligible >>= λ delivered. pure (rs ++ delivered))
      by_parts now eligible (r ∷ rs) h =
          bind-Gives Any HasOne _ _ (Any-Gives _) (λ delivered h. pure-Gives HasOne _ tt)
      by_parts now (x ∷ xs) [] h =
          bind-Gives HasOne HasOne _ _
            (bind-Gives HasAnswer HasOne _ _ (flush_eligible-HasAnswer now x xs)
              (handle-HasOne now e))
            (λ delivered h. pure-Gives HasOne _ h)
      by_parts now [] [] (inl h) = absurd h
      by_parts now [] [] (inr h) = absurd h

  -- A queue that holds an event is answered by a receipt.
  pub flush_destination-HasOne :
      (s t : RouterState W) (rs : List DeliveryReceipt)
      → flush_destination env id d s ≡ (ok rs, t)
      → (queue_of id s ≡ []) ⊎ HasOne rs
  unfolding flush_destination ◌>>=◌
  flush_destination-HasOne s t rs h =
      by_queue (queue_of id s)
        (record s { pending = erase id s.pending; deadlines = erase id s.deadlines }) h
    where
      by_queue :
          (batch : List NotificationEvent) (u : RouterState W)
          → flush_batch env id d batch u ≡ (ok rs, t)
          → (batch ≡ []) ⊎ HasOne rs
      by_queue [] u h = inl refl
      by_queue (e ∷ es) u h = inr ((flush_batch-HasOne e es).at u t rs h)
