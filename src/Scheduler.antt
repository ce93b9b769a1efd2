-- ===== src/Scheduler.antt =====
-- application/scheduler.py: the retries, and the life of one attempt of a job. The backend that fires
-- the jobs (APScheduler) is not modelled.
pub mod Attempts
pub mod Tests
use smc_ict_engine.Prelude.{
  ℕ, zero, suc, ◌+◌, ◌-◌, Bool, true, false, not, ◌&&◌, ◌||◌, Option, none, some, String, List, [],
  ◌∷◌, ltb, leb, max, ◌==◌, str_eq, if◌then◌else◌, length, all, any, keep, ◌≡◌, contains, map,
  Result, ok, err, value_error, ◌>>◌, raise_if,
}

-- `RunReceipt`
pub record RunReceipt : Type 0 where
  pub run_id : Option String
  pub status : String
  pub trigger : String
  pub started_at_ms : ℕ
  pub completed_at_ms : ℕ
  pub instrument_count : ℕ
  pub decision_count : ℕ
  pub error : Option String

-- RUN_RECEIPT_SUCCESS_STATUSES and SCHEDULER_FAILURE_OUTCOMES
abbrev pub success_statuses : List String
success_statuses = "SUCCEEDED" ∷ "SUCCEEDED_WITH_WARNINGS" ∷ []

abbrev pub failure_outcomes : List String
failure_outcomes =
    "FAILED" ∷ "OVERLAP_SKIPPED" ∷ "MAXIMUM_RUNTIME" ∷ "SCHEDULER_SHUTDOWN" ∷ "PROCESS_RESTART" ∷ []

pub record RetryPolicy : Type 0 where
  pub maximum_attempts : ℕ
  pub backoff_seconds : List ℕ

-- `RetryPolicy.__post_init__`
unfoldable pub checked_policy : RetryPolicy → Result RetryPolicy
checked_policy p = do
  raise_if (not (leb 1 p.maximum_attempts && leb p.maximum_attempts 10)) value_error
  raise_if (not (length p.backoff_seconds == p.maximum_attempts - 1)) value_error
  raise_if (not (all (λ s. leb s 3600) p.backoff_seconds)) value_error
  ok p

-- A receipt that ends the retries.
unfoldable pub is_terminal : RunReceipt → Bool
is_terminal r = contains success_statuses r.status || str_eq r.status "OVERLAP_SKIPPED"

-- An operation over a world of its own. A raise carries the name of the exception's type.
pub data Outcome : Type 0 where
  receipt : RunReceipt → Outcome
  raised : String → Outcome

module _ {W : Type 0} (operation : W → Outcome × W) (sleep : ℕ → W → W) where
  -- The loop over the backoffs.
  unfoldable pub retry : Outcome → List ℕ → W → Outcome × W
  unfolding is_terminal
  retry (raised name) delays w = (raised name, w)
  retry (receipt r) [] w = (receipt r, w)
  retry (receipt r) (delay ∷ delays) w =
      let next = operation (sleep delay w) in
      let later = retry next.0 delays next.1 in if is_terminal r then (receipt r, w) else later

  -- `run_with_retries`
  unfoldable pub run_with_retries : RetryPolicy → W → Outcome × W
  unfolding retry
  run_with_retries policy w =
      let first = operation w in retry first.0 policy.backoff_seconds first.1

-- `InternalScheduler._durable_outcome`
unfoldable pub durable_outcome : RunReceipt → String
unfolding is_terminal
durable_outcome r =
    if is_terminal r
    then r.status
    else if str_eq r.status "FAILED"
    then elim r.error [
      | none ↦ "FAILED"
      | some e ↦ if contains failure_outcomes e then e else "FAILED"
    ]
    else "FAILED"

-- What an attempt leaves in the repository: when it started, its sequence number, and how and when
-- it finished, once it has.
pub record Attempt : Type 0 where
  pub job_id : String
  pub started_at_ms : ℕ
  pub sequence : ℕ
  pub finished : Option (String × ℕ)

-- The receipt that stands for a raise.
abbrev pub receipt_of : Outcome → (started completed : ℕ) → RunReceipt
receipt_of (receipt r) started completed = r
receipt_of (raised name) started completed = record {
  run_id = none;
  status = "FAILED";
  trigger = "scheduled";
  started_at_ms = started;
  completed_at_ms = completed;
  instrument_count = 0;
  decision_count = 0;
  error = some name;
}

-- The scheduler's counter and the attempts of its repository, the latest first.
pub record SchedulerState : Type 0 where
  pub attempt_sequence : ℕ
  pub attempts : List Attempt

-- `_next_attempt_sequence`, under the lock
unfoldable pub next_attempt_sequence : SchedulerState → ℕ × SchedulerState
next_attempt_sequence s =
    (s.attempt_sequence, record s { attempt_sequence = suc s.attempt_sequence })

-- `start_scheduler_attempt` of the repository, where it does not raise
unfoldable pub insert_attempt :
    String → (started_at_ms sequence : ℕ) → SchedulerState → SchedulerState
insert_attempt job_id started sequence s = record s {
  attempts =
      record { job_id = job_id; started_at_ms = started; sequence = sequence; finished = none }
      ∷ s.attempts;
}

-- `finish_scheduler_attempt`, with `max(started, clock)` as the time of completion.
unfoldable pub close_attempt : (sequence : ℕ) → String → (now_ms : ℕ) → Attempt → Attempt
close_attempt sequence outcome now a =
    if a.sequence == sequence
    then record a { finished = some (outcome, max a.started_at_ms now) }
    else a

unfoldable pub finish_attempt :
    (sequence : ℕ) → String → (now_ms : ℕ) → SchedulerState → SchedulerState
unfolding close_attempt
finish_attempt sequence outcome now s = record s {
  attempts = map (close_attempt sequence outcome now) s.attempts;
}

-- `_run_job` around the retries: their outcome, and what the clock says where a raise reads it and at
-- the end.
unfoldable pub finish_job :
    (sequence started raised_at now : ℕ) → Outcome → SchedulerState → RunReceipt × SchedulerState
unfolding durable_outcome finish_attempt
finish_job sequence started raised_at now outcome s =
    let r = receipt_of outcome started raised_at in
    (r, finish_attempt sequence (durable_outcome r) now s)

-- The scheduler, and the numbers that jobs have taken and not yet recorded
pub record Threads : Type 0 where
  pub scheduler : SchedulerState
  pub held : List ℕ

-- The jobs and the overlap handler run in threads: a number is taken under the lock, and between that,
-- the insertion of the attempt and its end there may be steps of others. An insertion that raises loses
-- the number; an end that raises changes nothing.
pub data Step : Threads → Threads → Type 0 where
  takes :
      (p : Threads)
      → Step p (record {
        scheduler = (next_attempt_sequence p.scheduler).1;
        held = (next_attempt_sequence p.scheduler).0 ∷ p.held;
      })
  inserts :
      (job_id : String) (started sequence : ℕ) (p : Threads)
      → any (λ n. n == sequence) p.held ≡ true
      → Step p (record {
        scheduler = insert_attempt job_id started sequence p.scheduler;
        held = keep (λ n. not (n == sequence)) p.held;
      })
  loses :
      (sequence : ℕ) (p : Threads)
      → Step p (record p { held = keep (λ n. not (n == sequence)) p.held })
  ends :
      (sequence started raised_at now : ℕ) (outcome : Outcome) (p : Threads)
      → Step p (record p {
        scheduler = (finish_job sequence started raised_at now outcome p.scheduler).1;
      })
  skips :
      (sequence now : ℕ) (p : Threads)
      → Step p (record p { scheduler = finish_attempt sequence "OVERLAP_SKIPPED" now p.scheduler })

abbrev pub fresh_scheduler : Threads
fresh_scheduler = record { scheduler = record { attempt_sequence = 0; attempts = [] }; held = [] }

pub data Reaches : Threads → Type 0 where
  begins : Reaches fresh_scheduler
  follows : {p q : Threads} → Reaches p → Step p q → Reaches q
