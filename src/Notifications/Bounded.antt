-- ===== src/Notifications/Bounded.antt =====
-- The queues of the router: bounded, each of one boundary, and with a deadline exactly while an event
-- is waiting.
use smc_ict_engine.Prelude.{
  ℕ, ◌+◌, ◌<◌, Bool, true, false, ◌≡◌, refl, sym, ap, Option, none, some, String, List, [], ◌∷◌,
  ◌++◌, arith, inl, inr, Bool-cases, leb, str_eq, eq_iff, eq_refl, contains, length, lookup, erase,
  lookup-assign, lookup-erase, All, All-append, subst,
}
use smc_ict_engine.Prelude.Sort.{sort, sort-All}
use smc_ict_engine.Prelude.Actions.{
  Action, pure, ◌>>=◌, Keeps, pure-Keeps, reads-Keeps, bind-Keeps, if-Keeps, bind_ends,
}
use smc_ict_engine.Notifications.Events.{NotificationEvent, Destination}
use smc_ict_engine.Notifications.Router.{Environment, RouterState, is_recent}
use smc_ict_engine.Notifications.Delivery.{same_boundary, is_lifecycle, destination_le}
use smc_ict_engine.Notifications.Queue.{
  listed, queue_of, with_deadline, crosses, emptied, flush_destination, flush_if, queued,
  append_event, join_queue, enqueue, take_event, take_events, take_all, deliver_all,
}
use smc_ict_engine.Notifications.Untouched.{
  Same, flush_destination-IsUntouched, deliver_to_destination-Same, delivered_at-Same,
  in_world-Same,
}

-- A queue is absent with its deadline, or holds fewer events than the bound, all of one boundary.
abbrev pub Fits : ℕ → Option (List NotificationEvent) → Option ℕ → Type 0
Fits bound none none = Unit
Fits bound (some (e ∷ es)) (some deadline) =
    (length (e ∷ es) < bound) × All (λ x. same_boundary e x ≡ true) es
Fits bound _ _ = ⊥

module _ {W : Type 0} where
  abbrev pub IsQueued : (String → ℕ) → RouterState W → Type 0
  IsQueued bound s = (id : String) → Fits (bound id) (lookup id s.pending) (lookup id s.deadlines)

  -- All but one of the queues are in order.
  abbrev IsElsewhereQueued : (String → ℕ) → String → RouterState W → Type 0
  IsElsewhereQueued bound id s =
      (other : String)
      → str_eq id other ≡ false
      → Fits (bound other) (lookup other s.pending) (lookup other s.deadlines)

  emptied-IsQueued :
      (bound : String → ℕ) (id : String) (s : RouterState W)
      → IsElsewhereQueued bound id s
      → IsQueued bound (emptied id s)
  emptied-IsQueued bound id s h other = elim (Bool-cases (str_eq id other)) [
    | inl e ↦ rw (lookup-erase id other s.pending, lookup-erase id other s.deadlines, e) tt
    | inr e ↦ rw (lookup-erase id other s.pending, lookup-erase id other s.deadlines, e) (h other e)
  ]

module _ {W : Type 0} (env : Environment W) (bound : String → ℕ) where
  abbrev Holds : RouterState W → Type 0
  Holds = IsQueued bound

  -- What leaves the queues alone keeps them in order.
  untouched-Holds :
      {A : Type 0} (m : Action (RouterState W) A) (s : RouterState W)
      → Keeps (Same env s.pending s.deadlines) m
      → Holds s
      → Holds (m s).1
  untouched-Holds m s k h id =
      let (same, times) = k.at s (refl, refl) in
      subst (λ p. Fits (bound id) (lookup id p) (lookup id (m s).1.deadlines)) (sym same)
        (subst (λ t. Fits (bound id) (lookup id s.pending) (lookup id t)) (sym times) (h id))

  flush_elsewhere :
      (id : String) (d : Destination) (s : RouterState W)
      → IsElsewhereQueued bound id s
      → Holds (flush_destination env id d s).1
  flush_elsewhere id d s h other =
      let (same, times) = flush_destination-IsUntouched env id d s in
      subst
        (λ p.
          Fits (bound other) (lookup other p)
            (lookup other (flush_destination env id d s).1.deadlines))
        (sym same)
        (subst (λ t. Fits (bound other) (lookup other (erase id s.pending)) (lookup other t))
          (sym times) (emptied-IsQueued bound id s h other))

  flush_destination-Holds :
      (id : String) (d : Destination) → Keeps Holds (flush_destination env id d)
  flush_destination-Holds id d = record { at = λ s h. flush_elsewhere id d s (λ other _. h other) }

  flush_if-Holds :
      (test : Bool) (id : String) (d : Destination) → Keeps Holds (flush_if env test id d)
  unfolding flush_if
  flush_if-Holds true id d = flush_destination-Holds id d
  flush_if-Holds false id d = pure-Keeps Holds _

  -- The event may join the queue.
  abbrev Joins : NotificationEvent → List NotificationEvent → Type 0
  Joins e [] = Unit
  Joins e (p ∷ ps) = same_boundary p e ≡ true

  joined-Fits :
      (id : String) (limit time : ℕ) (e : NotificationEvent)
      (queue : Option (List NotificationEvent)) (deadlines : List (String × ℕ))
      → Fits limit queue (lookup id deadlines)
      → Joins e (listed queue)
      → length (listed queue ++ e ∷ []) < limit
      → Fits limit
          (some (listed queue ++ e ∷ []))
          (lookup id (with_deadline id time (listed queue) deadlines))
  joined-Fits id limit time e none deadlines h j l =
      rw (lookup-assign id id time deadlines, eq_refl id) (l, tt)
  joined-Fits id limit time e (some []) deadlines h j l = absurd (no_empty (lookup id deadlines) h)
    where
      no_empty : (t : Option ℕ) → Fits limit (some []) t → ⊥
      no_empty none h = h
      no_empty (some t) h = h
  joined-Fits id limit time e (some (p ∷ ps)) deadlines h j l = timed (lookup id deadlines) h
    where
      timed : (t : Option ℕ) → Fits limit (some (p ∷ ps)) t → Fits limit (some (p ∷ ps ++ e ∷ [])) t
      timed none h = absurd h
      timed (some t) h = (l, All-append (λ y. same_boundary p y ≡ true) ps (e ∷ []) h.1 (j, tt))

  queued_elsewhere :
      (id : String) (d : Destination) (now : ℕ) (e : NotificationEvent) (s : RouterState W)
      → Holds s
      → IsElsewhereQueued bound id (queued id d now e s)
  queued_elsewhere id d now e s h other ne =
      rw (lookup-assign id other (queue_of id s ++ e ∷ []) s.pending, ne)
        (subst (Fits (bound other) (lookup other s.pending)) (sym (unchanged (queue_of id s)))
          (h other))
    where
      unchanged :
          (queue : List NotificationEvent)
          → lookup other (with_deadline id (now + d.flush_seconds) queue s.deadlines)
            ≡ lookup other s.deadlines
      unchanged [] = rw (lookup-assign id other (now + d.flush_seconds) s.deadlines, ne)
      unchanged (p ∷ ps) = refl

  queued_here :
      (id : String) (d : Destination) (now : ℕ) (e : NotificationEvent) (s : RouterState W)
      → Holds s
      → Joins e (queue_of id s)
      → length (queue_of id s ++ e ∷ []) < bound id
      → Fits
          (bound id)
          (lookup id (queued id d now e s).pending)
          (lookup id (queued id d now e s).deadlines)
  queued_here id d now e s h j l =
      rw (lookup-assign id id (queue_of id s ++ e ∷ []) s.pending, eq_refl id)
        (joined-Fits id (bound id) (now + d.flush_seconds) e (lookup id s.pending) s.deadlines
          (h id) j l)

  queue_of-queued :
      (id : String) (d : Destination) (now : ℕ) (e : NotificationEvent) (s : RouterState W)
      → queue_of id (queued id d now e s) ≡ queue_of id s ++ e ∷ []
  queue_of-queued id d now e s =
      rw (lookup-assign id id (queue_of id s ++ e ∷ []) s.pending, eq_refl id)

  append_event-Holds :
      (id : String) (d : Destination) (now : ℕ) (e : NotificationEvent) (s : RouterState W)
      → d.maximum_events ≡ bound id
      → Holds s
      → Joins e (queue_of id s)
      → Holds (append_event env id d now e s).1
  unfolding append_event ◌>>=◌ flush_if
  append_event-Holds id d now e s limit h j =
      after (leb d.maximum_events (length (queue_of id (queued id d now e s)))) refl
    where
      below :
          {queue : List NotificationEvent}
          → queue ≡ queue_of id s ++ e ∷ []
          → leb d.maximum_events (length queue) ≡ false
          → length (queue_of id s ++ e ∷ []) < bound id
      below same full = ground (arith, ap length same, limit)

      after :
          (full : Bool)
          → leb d.maximum_events (length (queue_of id (queued id d now e s))) ≡ full
          → Holds (flush_if env full id d (queued id d now e s)).1
      after true full other =
          flush_elsewhere id d (queued id d now e s) (queued_elsewhere id d now e s h) other
      after false full other = elim (Bool-cases (str_eq id other)) [
        | inr ne ↦ queued_elsewhere id d now e s h other ne
        | inl eq ↦
            subst
              (λ k.
                Fits (bound k) (lookup k (queued id d now e s).pending)
                  (lookup k (queued id d now e s).deadlines))
              ((eq_iff id other).0 eq)
              (queued_here id d now e s h j (below (queue_of-queued id d now e s) full))
      ]

  crosses-Joins :
      (e : NotificationEvent) (queue : List NotificationEvent)
      → crosses e queue ≡ false
      → Joins e queue
  crosses-Joins e [] h = tt
  crosses-Joins e (p ∷ ps) h = ground arith

  -- After the flush at a boundary the event may join what is left.
  flush_crossed :
      (id : String) (d : Destination) (e : NotificationEvent) (s : RouterState W) (test : Bool)
      → crosses e (queue_of id s) ≡ test
      → Joins e (queue_of id (flush_if env test id d s).1)
  unfolding flush_if
  flush_crossed id d e s true c =
      let (same, _) = flush_destination-IsUntouched env id d s in
      subst (λ p. Joins e (listed (lookup id p))) (sym same)
        (rw (lookup-erase id id s.pending, eq_refl id) tt)
  flush_crossed id d e s false c = crosses-Joins e (queue_of id s) c

  join_queue-Holds :
      (id : String) (d : Destination) (now : ℕ) (e : NotificationEvent)
      → d.maximum_events ≡ bound id
      → Keeps Holds (join_queue env id d now e)
  unfolding join_queue ◌>>=◌
  join_queue-Holds id d now e limit = record { at = joins }
    where
      joins : (s : RouterState W) → Holds s → Holds (join_queue env id d now e s).1
      joins s h =
          bind_ends (λ t. Holds t × Joins e (queue_of id t)) Holds
            (flush_if env (crosses e (queue_of id s)) id d)
            (λ crossed. append_event env id d now e >>= λ flushed. pure (crossed ++ flushed)) s
            (
              (flush_if-Holds (crosses e (queue_of id s)) id d).at s h,
              flush_crossed id d e s (crosses e (queue_of id s)) refl,
            )
            (λ crossed t ready.
              bind_ends Holds Holds (append_event env id d now e)
                (λ flushed. pure (crossed ++ flushed)) t
                (append_event-Holds id d now e t limit ready.0 ready.1) (λ flushed u h'. h')
                (λ u h'. h'))
            (λ t ready. ready.0)

  enqueue-Holds :
      (id : String) (d : Destination) (now : ℕ) (e : NotificationEvent)
      → d.maximum_events ≡ bound id
      → Keeps Holds (enqueue env id d now e)
  unfolding enqueue
  enqueue-Holds id d now e limit = bind-Keeps Holds _ _ (reads-Keeps Holds _) λ due.
      bind-Keeps Holds _ _ (flush_if-Holds due id d)
        λ late. bind-Keeps Holds _ _ (join_queue-Holds id d now e limit) λ rest. pure-Keeps Holds _

  every-Holds :
      {A : Type 0} (m : Action (RouterState W) A)
      → ((pending : List (String × List NotificationEvent)) (deadlines : List (String × ℕ))
          → Keeps (Same env pending deadlines) m)
      → Keeps Holds m
  every-Holds m k = record { at = λ s. untouched-Holds m s (k s.pending s.deadlines) }

  take_event-Holds :
      (id : String) (d : Destination) (e : NotificationEvent)
      → d.maximum_events ≡ bound id
      → Keeps Holds (take_event env id d e)
  unfolding take_event
  take_event-Holds id d e limit =
      if-Keeps Holds (is_lifecycle e) _ _
        (bind-Keeps Holds _ _ (flush_destination-Holds id d) λ flushed.
          bind-Keeps Holds _ _
            (every-Holds _
              λ pending deadlines. deliver_to_destination-Same env pending deadlines id d e)
            λ r. pure-Keeps Holds _)
        (bind-Keeps Holds _ _
          (every-Holds _ λ pending deadlines. in_world-Same env pending deadlines _)
          λ now.
            bind-Keeps Holds _ _
              (every-Holds _ λ pending deadlines. delivered_at-Same env pending deadlines id _)
              λ previous.
                if-Keeps Holds (is_recent now d.window_seconds previous) _ _ (pure-Keeps Holds _)
                  (enqueue-Holds id d now e limit))

  take_events-Holds :
      (id : String) (d : Destination) (es : List NotificationEvent)
      → d.maximum_events ≡ bound id
      → Keeps Holds (take_events env id d es)
  unfolding take_events
  take_events-Holds id d [] limit = pure-Keeps Holds _
  take_events-Holds id d (e ∷ es) limit =
      if-Keeps Holds (contains d.enabled_events e.event_type) _ _
        (bind-Keeps Holds _ _ (take_event-Holds id d e limit)
          λ rs. bind-Keeps Holds _ _ (take_events-Holds id d es limit) λ more. pure-Keeps Holds _)
        (take_events-Holds id d es limit)

  abbrev IsLimited : String × Destination → Type 0
  IsLimited entry = entry.1.maximum_events ≡ bound entry.0

  take_all-Holds :
      (destinations : List (String × Destination)) (es : List NotificationEvent)
      → All IsLimited destinations
      → Keeps Holds (take_all env destinations es)
  unfolding take_all
  take_all-Holds [] es limits = pure-Keeps Holds _
  take_all-Holds ((id, d) ∷ rest) es limits =
      if-Keeps Holds d.enabled _ _
        (bind-Keeps Holds _ _ (take_events-Holds id d es limits.0)
          λ rs. bind-Keeps Holds _ _ (take_all-Holds rest es limits.1) λ more. pure-Keeps Holds _)
        (take_all-Holds rest es limits.1)

  deliver_all-Keeps :
      (enabled : Bool) (destinations : List (String × Destination)) (es : List NotificationEvent)
      → All IsLimited destinations
      → Keeps Holds (deliver_all env enabled destinations es)
  unfolding deliver_all
  deliver_all-Keeps false destinations es limits = pure-Keeps Holds _
  deliver_all-Keeps true destinations es limits =
      bind-Keeps Holds _ _
        (take_all-Holds (sort destination_le destinations) es
          (sort-All destination_le IsLimited destinations limits))
        λ rs. reads-Keeps Holds _

  -- Batched delivery keeps every queue in order, also where it raises: a queue holds fewer events
  -- than the destination's maximum, all of one run and one closing time, and it has a deadline
  -- exactly while an event is waiting. The bound of an identifier is its destination's maximum.
  pub deliver_all-IsQueued :
      (enabled : Bool) (destinations : List (String × Destination)) (es : List NotificationEvent)
      (s : RouterState W)
      → All (λ entry. entry.1.maximum_events ≡ bound entry.0) destinations
      → IsQueued bound s
      → IsQueued bound (deliver_all env enabled destinations es s).1
  deliver_all-IsQueued enabled destinations es s limits =
      (deliver_all-Keeps enabled destinations es limits).at s
