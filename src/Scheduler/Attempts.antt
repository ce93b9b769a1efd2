-- ===== src/Scheduler/Attempts.antt =====
-- The attempts that a scheduler records, and how often it retries.
use smc_ict_engine.Prelude.{
  ℕ, suc, ◌+◌, ◌≤◌, ◌<◌, true, false, not, ==→eq, any, keep, All-keep, All-map, All-kept, ◌||◌, ◌≡◌,
  refl, sym, ap, ◌∙◌, ◌⊎◌, All-append, append_assoc, length-append, Bool, Option, none, some,
  String, List, [], ◌∷◌, ◌++◌, arith, inl, inr, Bool-cases, length, All, map, contains, ◌==◌,
  str_eq, subst, if◌then◌else◌,
}
use smc_ict_engine.Scheduler.{
  RunReceipt, success_statuses, failure_outcomes, is_terminal, Outcome, receipt, raised, retry,
  run_with_retries, RetryPolicy, durable_outcome, Attempt, SchedulerState, Threads,
  next_attempt_sequence, insert_attempt, takes, inserts, loses, close_attempt, finish_attempt,
  finish_job, Step, ends, skips, Reaches, begins, follows, receipt_of,
}

-- The outcomes that may be recorded.
abbrev pub recorded_outcomes : List String
recorded_outcomes = success_statuses ++ failure_outcomes

terminal_recorded :
    (status : String)
    → (contains success_statuses status || str_eq status "OVERLAP_SKIPPED") ≡ true
    → contains recorded_outcomes status ≡ true
terminal_recorded status h = ground arith

failure_recorded :
    (e : String) → contains failure_outcomes e ≡ true → contains recorded_outcomes e ≡ true
failure_recorded e h = ground arith

durable_outcome_recorded : (r : RunReceipt) → contains recorded_outcomes (durable_outcome r) ≡ true
unfolding durable_outcome is_terminal
durable_outcome_recorded r =
    elim (Bool-cases (contains success_statuses r.status || str_eq r.status "OVERLAP_SKIPPED")) [
      | inl e ↦ rw e (terminal_recorded r.status e)
      | inr e ↦ rw e (elim (Bool-cases (str_eq r.status "FAILED")) [
        | inl f ↦ rw f (recorded r.error)
        | inr f ↦ rw f refl
      ])
    ]
  where
    recorded :
        (error : Option String)
        → contains recorded_outcomes (elim error [
          | none ↦ "FAILED"
          | some e ↦ if contains failure_outcomes e then e else "FAILED"
        ])
          ≡ true
    recorded none = refl
    recorded (some e) = elim (Bool-cases (contains failure_outcomes e)) [
      | inl f ↦ rw f (failure_recorded e f)
      | inr f ↦ rw f refl
    ]

-- No number occurs twice.
abbrev pub AreDifferent : List ℕ → Type 0
AreDifferent [] = Unit {0}
AreDifferent (x ∷ xs) = All (λ y. (x == y) ≡ false) xs × AreDifferent xs

AreDifferent-keep : (p : ℕ → Bool) (xs : List ℕ) → AreDifferent xs → AreDifferent (keep p xs)
AreDifferent-keep p [] h = tt
AreDifferent-keep p (x ∷ xs) (apart, h) = elim (Bool-cases (p x)) [
  | inl e ↦ rw e (All-keep (λ y. (x == y) ≡ false) p xs apart, AreDifferent-keep p xs h)
  | inr e ↦ rw e (AreDifferent-keep p xs h)
]

-- What holds of all numbers holds of one that is among them.
All-among {κ} :
    (P : ℕ → Type κ) (n : ℕ) (xs : List ℕ) → All P xs → any (λ m. m == n) xs ≡ true → P n
All-among P n [] h e = absurd (cc)
All-among P n (x ∷ xs) (px, h) e = elim (Bool-cases (x == n)) [
  | inl same ↦ subst P (==→eq x n same) px
  | inr other ↦ All-among P n xs h (rw other at e)
]

-- The attempt is open, or it ended no earlier than it started, with an outcome that may be recorded.
abbrev pub IsSound : ℕ → Option (String × ℕ) → Type 0
IsSound started none = Unit
IsSound started (some (outcome, completed)) =
    (contains recorded_outcomes outcome ≡ true) × (started ≤ completed)

abbrev pub sequences : SchedulerState → List ℕ
sequences s = map (λ a. a.sequence) s.attempts

-- The numbers that are taken and those that are recorded are all different, and were given out by the
-- counter; each attempt is sound.
abbrev pub IsAccounted : Threads → Type 0
IsAccounted p =
    AreDifferent (sequences p.scheduler)
    × AreDifferent p.held
    × All (λ n. All (λ k. (n == k) ≡ false) (sequences p.scheduler)) p.held
    × All (λ n. n < p.scheduler.attempt_sequence) (sequences p.scheduler)
    × All (λ n. n < p.scheduler.attempt_sequence) p.held
    × All (λ a. IsSound a.started_at_ms a.finished) p.scheduler.attempts

larger : (n : ℕ) (xs : List ℕ) → All (λ m. m < n) xs → All (λ m. (n == m) ≡ false) xs
larger n xs h = All-map (λ m k. ground arith) xs h

later : (n : ℕ) (xs : List ℕ) → All (λ m. m < n) xs → All (λ m. m < suc n) xs
later n xs h = All-map (λ m k. omega (arith, k)) xs h

released :
    (n : ℕ) (held ks : List ℕ)
    → All (λ m. All (λ k. (m == k) ≡ false) ks) held
    → All (λ m. All (λ k. (m == k) ≡ false) (n ∷ ks)) (keep (λ m. not (m == n)) held)
released n held ks h =
    All-map (λ m e. (ground (arith, e.1), e.0)) (keep (λ m. not (m == n)) held)
      (All-kept (λ m. All (λ k. (m == k) ≡ false) ks) (λ m. not (m == n)) held h)

close_attempts :
    (sequence now : ℕ) (outcome : String) (attempts : List Attempt)
    → contains recorded_outcomes outcome ≡ true
    → All (λ a. IsSound a.started_at_ms a.finished) attempts
    → (map (λ a. a.sequence) (map (close_attempt sequence outcome now) attempts)
        ≡ map (λ a. a.sequence) attempts)
      × All
          (λ a. IsSound a.started_at_ms a.finished)
          (map (close_attempt sequence outcome now) attempts)
unfolding close_attempt
close_attempts sequence now outcome [] known h = (refl, tt)
close_attempts sequence now outcome (a ∷ rest) known h =
    let (same, sound) = close_attempts sequence now outcome rest known h.1 in
    elim (Bool-cases (a.sequence == sequence)) [
      | inl e ↦ rw e (ap (λ l. a.sequence ∷ l) same, ((known, omega arith), sound))
      | inr e ↦ rw e (ap (λ l. a.sequence ∷ l) same, (h.0, sound))
    ]

finish_attempt-IsAccounted :
    (sequence now : ℕ) (outcome : String) (p : Threads)
    → contains recorded_outcomes outcome ≡ true
    → IsAccounted p
    → IsAccounted (record p { scheduler = finish_attempt sequence outcome now p.scheduler })
unfolding finish_attempt
finish_attempt-IsAccounted sequence now outcome p known
      (recorded, held, apart, below, taken, sound) =
    let (same, still) = close_attempts sequence now outcome p.scheduler.attempts known sound in
    let back = sym same in
    (
      subst AreDifferent back recorded,
      held,
      subst (λ ks. All (λ n. All (λ k. (n == k) ≡ false) ks) p.held) back apart,
      subst (All (λ n. n < p.scheduler.attempt_sequence)) back below,
      taken,
      still,
    )

Step-IsAccounted : (p q : Threads) → Step p q → IsAccounted p → IsAccounted q
unfolding finish_job next_attempt_sequence insert_attempt
Step-IsAccounted _ _ (takes p) (recorded, held, apart, below, taken, sound) =
    let n = p.scheduler.attempt_sequence in
    (
      recorded,
      (larger n p.held taken, held),
      (larger n (sequences p.scheduler) below, apart),
      later n (sequences p.scheduler) below,
      (omega arith, later n p.held taken),
      sound,
    )
Step-IsAccounted _ _ (inserts job_id started n p among)
      (recorded, held, apart, below, taken, sound) =
    (
      (
        All-among (λ m. All (λ k. (m == k) ≡ false) (sequences p.scheduler)) n p.held apart among,
        recorded,
      ),
      AreDifferent-keep (λ m. not (m == n)) p.held held,
      released n p.held (sequences p.scheduler) apart,
      (All-among (λ m. m < p.scheduler.attempt_sequence) n p.held taken among, below),
      All-keep (λ m. m < p.scheduler.attempt_sequence) (λ m. not (m == n)) p.held taken,
      (tt, sound),
    )
Step-IsAccounted _ _ (loses n p) (recorded, held, apart, below, taken, sound) = (
  recorded,
  AreDifferent-keep (λ m. not (m == n)) p.held held,
  All-keep (λ m. All (λ k. (m == k) ≡ false) (sequences p.scheduler)) (λ m. not (m == n)) p.held
      apart,
  below,
  All-keep (λ m. m < p.scheduler.attempt_sequence) (λ m. not (m == n)) p.held taken,
  sound,
)
Step-IsAccounted _ _ (ends sequence started raised_at now outcome p) h =
    finish_attempt-IsAccounted sequence now _ p
      (durable_outcome_recorded (receipt_of outcome started raised_at)) h
Step-IsAccounted _ _ (skips sequence now p) h =
    finish_attempt-IsAccounted sequence now "OVERLAP_SKIPPED" p refl h

-- In every order of the steps of the jobs, with insertions that raise or come later than those of
-- others, each recorded attempt has a sequence number of its own, which the counter has given out, and
-- no job holds a number of another or of an attempt; and each attempt that has ended did so no earlier
-- than it started, with an outcome that may be recorded.
pub Reaches-IsAccounted : (p : Threads) → Reaches p → IsAccounted p
Reaches-IsAccounted _ begins = (tt, tt, tt, tt, tt, tt)
Reaches-IsAccounted _ (follows {p} {q} earlier step) =
    Step-IsAccounted p q step (Reaches-IsAccounted p earlier)

-- The statuses after which nothing is retried
abbrev pub final_statuses : List String
final_statuses = "SUCCEEDED" ∷ "SUCCEEDED_WITH_WARNINGS" ∷ "OVERLAP_SKIPPED" ∷ []

is_terminal-final : (r : RunReceipt) → is_terminal r ≡ contains final_statuses r.status
unfolding is_terminal
is_terminal-final r = ground arith

-- An outcome that is followed by another call
abbrev pub IsRetried : Outcome → Type 0
IsRetried (raised name) = ⊥
IsRetried (receipt r) = contains final_statuses r.status ≡ false

-- An outcome that no call follows, after some retries of those that are allowed
abbrev pub IsLast : (retries allowed : ℕ) → Outcome → Type 0
IsLast retries allowed (raised name) = Unit {0}
IsLast retries allowed (receipt r) = (contains final_statuses r.status ≡ true) ⊎ (retries ≡ allowed)

-- The outcomes of all calls, the latest first: the result, those that were retried, and the past.
abbrev pub Ended : (past all : List Outcome) → (allowed : ℕ) → Outcome → Type 0
Ended past all allowed result =
    (retried : List Outcome) × (all ≡ result ∷ retried ++ past)
    × All IsRetried retried
    × (length retried ≤ allowed)
    × IsLast (length retried) allowed result

module _ {W : Type 0} (operation : W → Outcome × W) (sleep : ℕ → W → W) (calls : W → List Outcome)
    (records : (w : W) → calls (operation w).1 ≡ (operation w).0 ∷ calls w)
    (keeps : (delay : ℕ) (w : W) → calls (sleep delay w) ≡ calls w) where
  retry-Ended :
      (past : List Outcome) (outcome : Outcome) (delays : List ℕ) (w : W)
      → calls w ≡ outcome ∷ past
      → Ended past
          (calls (retry operation sleep outcome delays w).1)
          (length delays)
          (retry operation sleep outcome delays w).0
  unfolding retry
  retry-Ended past (raised name) delays w h = ([], h, tt, omega arith, tt)
  retry-Ended past (receipt r) [] w h = ([], h, tt, omega arith, inr refl)
  retry-Ended past (receipt r) (delay ∷ delays) w h = elim (Bool-cases (is_terminal r)) [
    | inl e ↦ rw e ([], h, tt, omega arith, inl (sym (is_terminal-final r) ∙ e))
    | inr e ↦ rw e (
        let next = operation (sleep delay w) in
        let (retried, all, each, few, last) =
          retry-Ended (receipt r ∷ past) next.0 delays next.1
            (records (sleep delay w) ∙ ap (λ l. next.0 ∷ l) (keeps delay w ∙ h)) in
        let result = (retry operation sleep next.0 delays next.1).0 in
        let len = length-append retried (receipt r ∷ []) in
        (
          retried ++ receipt r ∷ [],
          all ∙ ap (λ l. result ∷ l) (sym (append_assoc retried (receipt r ∷ []) past)),
          All-append IsRetried retried (receipt r ∷ []) each (sym (is_terminal-final r) ∙ e, tt),
          omega (arith, len, few),
          one_more result (length retried) (length delays) _ len last,
        ))
  ]
    where
      one_more : (o : Outcome) (n m k : ℕ) → k ≡ n + 1 → IsLast n m o → IsLast k (suc m) o
      one_more (raised name) n m k e h = tt
      one_more (receipt x) n m k e (inl h) = inl h
      one_more (receipt x) n m k e (inr h) = inr (omega (arith, e, h))

  -- An operation with retries is called once, and once more after each outcome that is retried, at
  -- most once for each backoff. Each outcome before the last is a receipt whose status is none of
  -- SUCCEEDED, SUCCEEDED_WITH_WARNINGS and OVERLAP_SKIPPED; the last, which is the result, is a raise,
  -- a receipt with one of these statuses, or comes with every backoff used. The outcomes of the calls
  -- are recorded in the world, where the sleep records none.
  pub run_with_retries-Ended :
      (policy : RetryPolicy) (w : W)
      → Ended
          (calls w)
          (calls (run_with_retries operation sleep policy w).1)
          (length policy.backoff_seconds)
          (run_with_retries operation sleep policy w).0
  unfolding run_with_retries
  run_with_retries-Ended policy w =
      retry-Ended (calls w) (operation w).0 policy.backoff_seconds (operation w).1 (records w)
