-- ===== src/Notifications/Closing.antt =====
-- `close` leaves no queue of a destination behind.
use smc_ict_engine.Prelude.{
  Bool, true, false, ◌≡◌, ◌∙◌, refl, sym, ap, subst, ◌⊎◌, inl, inr, ok_inj, eq_iff, ◌++◌, Option,
  none, String, List, [], ◌∷◌, str_eq, if◌then◌else◌, lookup, erase, lookup-erase, eq_refl, ok, All,
  All-map,
}
use smc_ict_engine.Prelude.Sort.{sort, All-sort}
use smc_ict_engine.Prelude.Actions.{run-eq-ok, Keeps, bind-Keeps, pure-Keeps}
use smc_ict_engine.Notifications.Events.{DeliveryReceipt, Destination, RoutingReceipt}
use smc_ict_engine.Notifications.Router.{Environment, RouterState}
use smc_ict_engine.Notifications.Delivery.{destination_le, routing_receipt}
use smc_ict_engine.Notifications.Queue.{
  queue_of, listed, closed_with, flush_destination, flush_all, close,
}
use smc_ict_engine.Notifications.Answered.{HasOne, flush_destination-HasOne}
use smc_ict_engine.Notifications.Untouched.{flush_destination-IsUntouched}

module _ {W : Type 0} where
  -- No event of the destination is waiting, and it has no deadline.
  abbrev pub IsEmptied : RouterState W → String → Type 0
  IsEmptied s id = (lookup id s.pending ≡ none) × (lookup id s.deadlines ≡ none)

module _ {W : Type 0} (env : Environment W) where
  -- Where a flush ended, by the state that it began in.
  flush-IsEmptied :
      (id other : String) (d : Destination) (s : RouterState W)
      → IsEmptied
          (record s { pending = erase id s.pending; deadlines = erase id s.deadlines })
          other
      → IsEmptied (flush_destination env id d s).1 other
  flush-IsEmptied id other d s h =
      let (same, times) = flush_destination-IsUntouched env id d s in
      (ap (lookup other) same ∙ h.0, ap (lookup other) times ∙ h.1)

  flushed-IsEmptied :
      (id : String) (d : Destination) (s : RouterState W)
      → IsEmptied (flush_destination env id d s).1 id
  flushed-IsEmptied id d s = flush-IsEmptied id id d s (
    rw (lookup-erase id id s.pending, eq_refl id),
    rw (lookup-erase id id s.deadlines, eq_refl id),
  )

  flush-stays-IsEmptied :
      (id other : String) (d : Destination) (s : RouterState W)
      → IsEmptied s other
      → IsEmptied (flush_destination env id d s).1 other
  flush-stays-IsEmptied id other d s h = flush-IsEmptied id other d s (
    erased (str_eq id other) (lookup-erase id other s.pending) h.0,
    erased (str_eq id other) (lookup-erase id other s.deadlines) h.1,
  )
    where
      erased :
          {A : Type 0} (test : Bool) {before after : Option A}
          → after ≡ (if test then none else before)
          → before ≡ none
          → after ≡ none
      erased true e h = e
      erased false e h = e ∙ h

  flush_all-stays-IsEmptied :
      (other : String) (destinations : List (String × Destination))
      → Keeps (λ s. IsEmptied s other) (flush_all env destinations)
  unfolding flush_all
  flush_all-stays-IsEmptied other [] = pure-Keeps _ _
  flush_all-stays-IsEmptied other ((id, d) ∷ rest) =
      bind-Keeps _ _ _ (record { at = flush-stays-IsEmptied id other d })
        λ rs. bind-Keeps _ _ _ (flush_all-stays-IsEmptied other rest) λ more. pure-Keeps _ _

  flush_all-IsEmptied :
      (destinations : List (String × Destination)) (s t : RouterState W) (rs : List DeliveryReceipt)
      → flush_all env destinations s ≡ (ok rs, t)
      → All (λ entry. IsEmptied t entry.0) destinations
  unfolding flush_all
  flush_all-IsEmptied [] s t rs h = tt
  flush_all-IsEmptied ((id, d) ∷ rest) s t rs h =
      let (flushed, u, first, after) = run-eq-ok _ _ s rs t h in
      let (more, v, others, end) = run-eq-ok _ _ u rs t after in
      let left = ap (λ p. p.1) end in
      (
        subst (λ x. IsEmptied x id) (ap (λ p. p.1) others ∙ left)
            ((flush_all-stays-IsEmptied id rest).at u
              (subst (λ x. IsEmptied x id) (ap (λ p. p.1) first) (flushed-IsEmptied id d s))),
        subst (λ x. All (λ entry. IsEmptied x entry.0) rest) left
            (flush_all-IsEmptied rest u v more others),
      )

  -- The queue that a flush of the other destination leaves is empty: then it was so before, or the
  -- destination is that other one.
  queue_of-flush :
      (id other : String) (d : Destination) (s : RouterState W)
      → queue_of id s ≡ []
      → queue_of other (flush_destination env id d s).1 ≡ []
      → queue_of other s ≡ []
  queue_of-flush id other d s empty h =
      by_test (str_eq id other) refl (lookup-erase id other s.pending)
    where
      left : listed (lookup other (erase id s.pending)) ≡ []
      left =
          ap (λ x. listed (lookup other x)) (sym (flush_destination-IsUntouched env id d s).0) ∙ h

      by_test :
          (test : Bool)
          → str_eq id other ≡ test
          → lookup other (erase id s.pending) ≡ (if test then none else lookup other s.pending)
          → queue_of other s ≡ []
      by_test true e found = subst (λ x. queue_of x s ≡ []) ((eq_iff id other).0 e) empty
      by_test false e found = ap listed (sym found) ∙ left

  -- A flush of all without a receipt has found all queues empty.
  flush_all-HasOne :
      (destinations : List (String × Destination)) (s t : RouterState W) (rs : List DeliveryReceipt)
      → flush_all env destinations s ≡ (ok rs, t)
      → All (λ entry. queue_of entry.0 s ≡ []) destinations ⊎ HasOne rs
  unfolding flush_all
  flush_all-HasOne [] s t rs h = inl tt
  flush_all-HasOne ((id, d) ∷ rest) s t rs h =
      let (flushed, u, first, after) = run-eq-ok _ _ s rs t h in
      let (more, v, others, end) = run-eq-ok _ _ u rs t after in
      subst (λ x. All (λ entry. queue_of entry.0 s ≡ []) ((id, d) ∷ rest) ⊎ HasOne x)
        (ok_inj (ap (λ p. p.0) end))
        (joined flushed more (flush_destination-HasOne env id d s u flushed first)
          (flush_all-HasOne rest u v more others) (ap (λ p. p.1) first))
    where
      joined :
          {u : RouterState W} (flushed more : List DeliveryReceipt)
          → (queue_of id s ≡ []) ⊎ HasOne flushed
          → All (λ entry. queue_of entry.0 u ≡ []) rest ⊎ HasOne more
          → (flush_destination env id d s).1 ≡ u
          → All (λ entry. queue_of entry.0 s ≡ []) ((id, d) ∷ rest) ⊎ HasOne (flushed ++ more)
      joined (r ∷ flushed) more one others same = inr tt
      joined [] (r ∷ more) one others same = inr tt
      joined [] [] (inr one) others same = absurd one
      joined [] [] (inl empty) (inr one) same = absurd one
      joined [] [] (inl empty) (inl all) same = inl (
        empty,
        All-map (λ entry h. queue_of-flush id entry.0 d s empty (ap (queue_of entry.0) same ∙ h))
            rest all,
      )

  closed_with-HasOne : (rs : List DeliveryReceipt) → HasOne rs → HasOne (closed_with rs).receipts
  unfolding routing_receipt
  closed_with-HasOne [] h = absurd h
  closed_with-HasOne (r ∷ rs) h = by_outcome _ _
    where
      outcome_of : Bool → Bool → RoutingReceipt
      outcome_of successful partial =
          if successful
          then record { outcome = "ALL_SUCCESS"; receipts = r ∷ rs }
          else if partial
          then record { outcome = "PARTIAL_FAILURE"; receipts = r ∷ rs }
          else record { outcome = "ALL_FAILURE"; receipts = r ∷ rs }

      by_outcome : (successful partial : Bool) → HasOne (outcome_of successful partial).receipts
      by_outcome true partial = tt
      by_outcome false true = tt
      by_outcome false false = tt

  -- After `close` returned, no event of any of the destinations is waiting, and none has a deadline.
  -- What it returned lists at least one receipt, unless the queues of all the destinations were empty
  -- before.
  pub close-IsEmptied :
      (destinations : List (String × Destination)) (s t : RouterState W) (r : RoutingReceipt)
      → close env destinations s ≡ (ok r, t)
      → All (λ entry. IsEmptied t entry.0) destinations
        × (All (λ entry. queue_of entry.0 s ≡ []) destinations ⊎ HasOne r.receipts)
  unfolding close
  close-IsEmptied destinations s t r h =
      let (rs, u, flushed, end) = run-eq-ok _ _ s r t h in
      let last = flushed ∙ ap (λ x. (ok rs, x)) (ap (λ p. p.1) end) in
      (
        All-sort destination_le (λ entry. IsEmptied t entry.0) destinations
            (flush_all-IsEmptied (sort destination_le destinations) s t rs last),
        elim (flush_all-HasOne (sort destination_le destinations) s t rs last) [
          | inl all ↦
              inl (All-sort destination_le (λ entry. queue_of entry.0 s ≡ []) destinations all)
          | inr one ↦ inr (
              subst (λ x. HasOne x.receipts) (ok_inj (ap (λ p. p.0) end))
                (closed_with-HasOne rs one))
        ],
      )
