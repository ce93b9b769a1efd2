-- ===== src/Persistence/Tables.antt =====
-- adapters/persistence/sqlite.py: the writes of `SQLiteRepository` to the runs and their evidence. A
-- table is a list of rows; a transaction that raises leaves the tables as they were. What SQLite
-- accepts as a row (the constraints of the schema) is a parameter.
use smc_ict_engine.Prelude.{
  ℕ, ◌==◌, Bool, true, false, not, ◌&&◌, ◌||◌, leb, any, all, contains, Option, none, some, is_some,
  String, List, [], ◌∷◌, ◌++◌, map, keep, length, lookup, assign, str_eq, str_le, if◌then◌else◌,
  Result, ok, err, value_error, key_error, persistence_conflict, integrity_error, ◌>>=◌,
}
use smc_ict_engine.Prelude.Sort.{sort}
use smc_ict_engine.Prelude.Actions.{Action}
use smc_ict_engine.Domain.{codes}
use smc_ict_engine.Scheduler.{success_statuses, failure_outcomes}
use smc_ict_engine.Runtime.Ports.{RunRecord, ObservationRecord, DecisionRecord}

pub record RunRow : Type 0 where
  pub run : RunRecord
  pub notification_dedup : String
  pub notification_outcomes : String
  pub scheduler_outcome : Option String

pub record Tables : Type 0 where
  pub runs : List (String × RunRow)
  pub observations : List ObservationRecord
  pub decisions : List DecisionRecord

-- The body of a transaction, on tables. A raise rolls back.
abbrev pub Body : Type 0 → Type 0 → Type 0
Body S A = S → Result (A × S)

abbrev pub settled : {S A : Type 0} → S → Result (A × S) → Result A × S
settled s (ok (a, t)) = (ok a, t)
settled s (err x) = (err x, s)

unfoldable pub transaction : {S A : Type 0} → Body S A → Action S A
transaction body s = settled s (body s)

abbrev pub same_text : Option String → Option String → Bool
same_text none none = true
same_text (some a) (some b) = str_eq a b
same_text _ _ = false

abbrev pub same_time : Option ℕ → Option ℕ → Bool
same_time none none = true
same_time (some a) (some b) = a == b
same_time _ _ = false

-- The columns of two runs are equal.
abbrev pub same_run : RunRecord → RunRecord → Bool
same_run a b =
    str_eq a.run_id b.run_id
    && str_eq a.status b.status
    && a.started_at_ms == b.started_at_ms
    && same_time a.completed_at_ms b.completed_at_ms
    && str_eq a.strategy_name b.strategy_name
    && str_eq a.strategy_version b.strategy_version
    && str_eq a.strategy_config_hash b.strategy_config_hash
    && str_eq a.provider_id b.provider_id
    && str_eq a.market_type b.market_type
    && str_eq a.market_config_hash b.market_config_hash
    && same_text a.git_commit b.git_commit
    && same_text a.code_hash b.code_hash
    && a.data_start_open_ms == b.data_start_open_ms
    && a.data_end_close_ms == b.data_end_close_ms
    && str_eq a.data_hash b.data_hash
    && same_text a.error b.error

-- The row that `INSERT INTO runs` writes, with the defaults of its notification columns.
abbrev pub new_row : RunRecord → RunRow
new_row r = record {
  run = r;
  notification_dedup = "[]";
  notification_outcomes = "[]";
  scheduler_outcome = none;
}

abbrev pub is_running : RunRow → Bool
is_running row = str_eq row.run.status "RUNNING"

-- `UPDATE runs SET status, completed_at_ms, error`
abbrev pub ended_run : (status : String) → ℕ → Option String → RunRecord → RunRecord
ended_run status time error r = record r {
  status = status;
  completed_at_ms = some time;
  error = error;
}

abbrev pub differs : RunRow → (status : String) → ℕ → (error outcome : Option String) → Bool
differs row status time error outcome =
    not (str_eq row.run.status status)
    || not (same_time row.run.completed_at_ms (some time))
    || not (same_text row.run.error error)
    || not (same_text row.scheduler_outcome outcome)

-- The keys of the evidence
abbrev pub same_observation : ObservationRecord → ObservationRecord → Bool
same_observation a b =
    str_eq a.run_id b.run_id
    && str_eq a.instrument_id b.instrument_id
    && str_eq a.signal_id b.signal_id

abbrev pub same_decision : DecisionRecord → DecisionRecord → Bool
same_decision a b = str_eq a.run_id b.run_id && str_eq a.instrument_id b.instrument_id

-- `INSERT`, of rows in order
abbrev pub insert_all : {A : Type 0} → (A → A → Bool) → List A → List A → Result (List A)
insert_all same [] table = ok table
insert_all same (r ∷ rs) table =
    let rest = insert_all same rs (table ++ r ∷ []) in
    if any (same r) table then err integrity_error else rest

-- A run that a restart fails.
abbrev pub is_stale : (time : ℕ) → (attempts : Bool) → RunRow → Bool
is_stale time attempts row =
    is_running row
    && leb row.run.started_at_ms time
    && (attempts || not (str_eq row.run.provider_id "scheduler"))

module _ (accepts : RunRow → Bool) where
  abbrev pub written : String → RunRow → Tables → Result (Unit {0} × Tables)
  written id row s =
      if accepts row then ok (tt, record s { runs = assign id row s.runs }) else err integrity_error

  unfoldable pub store_run_body : RunRecord → Body Tables (Unit {0})
  store_run_body r s = elim (lookup r.run_id s.runs) [
    | none ↦ written r.run_id (new_row r) s
    | some row ↦ if same_run row.run r then ok (tt, s) else err persistence_conflict
  ]

  -- `store_run`
  unfoldable pub store_run : RunRecord → Action Tables (Unit {0})
  unfolding store_run_body transaction
  store_run r s =
      if is_some r.git_commit && not (is_some r.code_hash)
      then (err value_error, s)
      else transaction (store_run_body r) s

  abbrev pub finish_row :
      (run_id status : String)
      → ℕ
      → (error outcome : Option String) → Option RunRow
      → Body Tables (Unit {0})
  finish_row id status time error outcome none s = err key_error
  finish_row id status time error outcome (some row) s =
      if is_running row
      then written id
          (record row { run = ended_run status time error row.run; scheduler_outcome = outcome }) s
      else if differs row status time error outcome
      then err persistence_conflict
      else ok (tt, s)

  unfoldable pub finish_run_body :
      (run_id status : String) → ℕ → (error outcome : Option String) → Body Tables (Unit {0})
  finish_run_body id status time error outcome s =
      finish_row id status time error outcome (lookup id s.runs) s

  -- `finish_run`. The row that it returns is the one that it has written.
  unfoldable pub finish_run :
      (run_id status : String) → ℕ → (error outcome : Option String) → Action Tables (Unit {0})
  unfolding finish_run_body transaction
  finish_run id status time error outcome s =
      if not (contains ("SUCCEEDED" ∷ "FAILED" ∷ []) status)
      then (err value_error, s)
      else if elim outcome [
        | none ↦ false
        | some o ↦ not (contains (success_statuses ++ failure_outcomes) o)
      ]
      then (err value_error, s)
      else transaction (finish_run_body id status time error outcome) s

  -- `finish_scheduler_attempt`
  unfoldable pub finish_scheduler_attempt :
      (attempt_id outcome : String) → ℕ → Action Tables (Unit {0})
  unfolding finish_run
  finish_scheduler_attempt id outcome time =
      if contains success_statuses outcome
      then finish_run id "SUCCEEDED" time none (some outcome)
      else finish_run id "FAILED" time
          (some (if contains failure_outcomes outcome then outcome else "FAILED")) (some outcome)

  abbrev pub commit_row :
      (run_id : String)
      → ℕ
      → List ObservationRecord
      → List DecisionRecord
      → Option RunRow
      → Body Tables (Unit {0})
  commit_row id time os ds none s = err persistence_conflict
  commit_row id time os ds (some row) s =
      if not (is_running row) then err persistence_conflict else (do
        observations ← insert_all same_observation os s.observations
        decisions ← insert_all same_decision ds s.decisions
        written id (record row { run = ended_run "SUCCEEDED" time none row.run })
            (record s { observations = observations; decisions = decisions }))

  unfoldable pub commit_run_body :
      (run_id : String) → List ObservationRecord → List DecisionRecord → ℕ → Body Tables (Unit {0})
  commit_run_body id os ds time s = commit_row id time os ds (lookup id s.runs) s

  -- `commit_run`
  unfoldable pub commit_run :
      (run_id : String)
      → List ObservationRecord
      → List DecisionRecord
      → ℕ
      → Action Tables (Unit {0})
  unfolding commit_run_body transaction
  commit_run id os ds time s =
      if any (λ o. not (str_eq o.run_id id)) os || any (λ d. not (str_eq d.run_id id)) ds
      then (err persistence_conflict, s)
      else transaction (commit_run_body id os ds time) s

  abbrev pub recovered : (time : ℕ) → (reason : String) → Bool → RunRow → RunRow
  recovered time reason attempts row =
      if is_stale time attempts row
      then record row { run = ended_run "FAILED" time (some reason) row.run }
      else row

  unfoldable pub recover_body : (time : ℕ) → (reason : String) → Bool → Body Tables (List String)
  unfolding sort
  recover_body time reason attempts s =
      let stale = keep (λ e. is_stale time attempts e.1) s.runs in
      if all (λ e. accepts (recovered time reason attempts e.1)) stale
      then ok (
        sort str_le (map (λ e. e.0) stale),
        record s { runs = map (λ e. (e.0, recovered time reason attempts e.1)) s.runs },
      )
      else err integrity_error

  -- `recover_running_runs`
  unfoldable pub recover_running_runs :
      (time : ℕ) → (reason : String) → Bool → Action Tables (List String)
  unfolding recover_body transaction
  recover_running_runs time reason attempts s =
      if not (leb 1 (length (codes reason)) && leb (length (codes reason)) 4000)
      then (err value_error, s)
      else transaction (recover_body time reason attempts) s
