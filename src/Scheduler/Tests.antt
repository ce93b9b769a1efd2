-- ===== src/Scheduler/Tests.antt =====
-- Retries and steps on small inputs, and the theorems at them.
use smc_ict_engine.Prelude.{refl, none, some, List, [], ◌∷◌}
use smc_ict_engine.Scheduler.{
  RunReceipt, RetryPolicy, Outcome, receipt, raised, run_with_retries, Threads, insert_attempt,
  next_attempt_sequence, finish_attempt, finish_job, takes, inserts, ends, skips, Reaches, begins,
  follows, fresh_scheduler,
}
use smc_ict_engine.Scheduler.Attempts.{
  Ended, run_with_retries-Ended, IsAccounted, Reaches-IsAccounted,
}

abbrev failed_receipt : RunReceipt
failed_receipt = record {
  run_id = none;
  status = "FAILED";
  trigger = "scheduled";
  started_at_ms = 0;
  completed_at_ms = 5;
  instrument_count = 0;
  decision_count = 0;
  error = some "MAXIMUM_RUNTIME";
}

-- The world has the outcomes of the calls; the second one raises.
abbrev outcome_after : List Outcome → Outcome
outcome_after [] = receipt failed_receipt
outcome_after (o ∷ os) = raised "OSError"

abbrev sample_operation : List Outcome → Outcome × List Outcome
sample_operation w = (outcome_after w, outcome_after w ∷ w)

abbrev sample_policy : RetryPolicy
sample_policy = record { maximum_attempts = 3; backoff_seconds = 1 ∷ 5 ∷ [] }

run_with_retries-Ended_example :
    Ended []
      (run_with_retries sample_operation (λ delay w. w) sample_policy []).1
      2
      (run_with_retries sample_operation (λ delay w. w) sample_policy []).0
run_with_retries-Ended_example =
    run_with_retries-Ended sample_operation (λ delay w. w) (λ w. w) (λ w. refl) (λ delay w. refl)
      sample_policy []

-- Two jobs take their numbers, the second is recorded and ends as skipped; then the first is recorded,
-- and fails.
abbrev both_taken : Threads
both_taken = record {
  scheduler = record { attempt_sequence = 2; attempts = [] };
  held = 1 ∷ 0 ∷ [];
}

abbrev second_recorded : Threads
second_recorded = record {
  scheduler = insert_attempt "hourly" 20 1 both_taken.scheduler;
  held = 0 ∷ [];
}

abbrev second_skipped : Threads
second_skipped = record second_recorded {
  scheduler = finish_attempt 1 "OVERLAP_SKIPPED" 25 second_recorded.scheduler;
}

abbrev first_recorded : Threads
first_recorded = record {
  scheduler = insert_attempt "hourly" 10 0 second_skipped.scheduler;
  held = [];
}

abbrev first_ended : Threads
first_ended = record first_recorded {
  scheduler = (finish_job 0 10 30 31 (receipt failed_receipt) first_recorded.scheduler).1;
}

sample_reached : Reaches first_ended
unfolding next_attempt_sequence
sample_reached =
    follows
      (follows
        (follows
          (follows
            (follows (follows begins (takes fresh_scheduler)) (
              takes (record {
                scheduler = record { attempt_sequence = 1; attempts = [] };
                held = 0 ∷ [];
              })))
            (inserts "hourly" 20 1 both_taken refl))
          (skips 1 25 second_recorded))
        (inserts "hourly" 10 0 second_skipped refl))
      (ends 0 10 30 31 (receipt failed_receipt) first_recorded)

Reaches-IsAccounted_example : IsAccounted first_ended
Reaches-IsAccounted_example = Reaches-IsAccounted first_ended sample_reached
