-- ===== src/Persistence/Statuses.antt =====
-- The status of a run that is committed, when its end is written again.
use smc_ict_engine.Prelude.{
  ◌≡◌, refl, ap, ℕ, Bool, true, false, not, ◌||◌, any, Option, none, some, String, List, lookup,
  assign, lookup-assign, str_eq, eq_refl, if◌then◌else◌, Result, ok, err, integrity_error,
  persistence_conflict, Unpacked, is_ok, Bool-cases, inl, inr, ◌>>=◌,
}
use smc_ict_engine.Runtime.Ports.{ObservationRecord, DecisionRecord}
use smc_ict_engine.Persistence.Tables.{
  RunRow, Tables, settled, transaction, is_running, written, finish_row, finish_run_body,
  finish_run, commit_row, commit_run_body, commit_run, insert_all, same_observation, same_decision,
  ended_run,
}

-- The status of a run
abbrev status_in : Option RunRow → Option String
status_in none = none
status_in (some row) = some row.run.status

abbrev status_of : Tables → String → Option String
status_of s id = status_in (lookup id s.runs)

module _ (accepts : RunRow → Bool) (id : String) where
  abbrev Sets : {A : Type 0} → String → A × Tables → Type 0
  Sets status p = status_of p.1 id ≡ some status

  settled-Sets :
      {A : Type 0} (status : String) (s : Tables) (result : Result (A × Tables))
      → Unpacked (Sets status) result
      → is_ok (settled s result).0 ≡ true
      → status_of (settled s result).1 id ≡ some status
  settled-Sets status s (ok (a, t)) h k = h
  settled-Sets status s (err x) h k = cc

  written-Sets : (r : RunRow) (t : Tables) → Unpacked (Sets r.run.status) (written accepts id r t)
  written-Sets r t = by_test (accepts r)
    where
      by_test :
          (test : Bool)
          → Unpacked {A = Unit {0} × Tables} (Sets r.run.status) (
              if test then ok (tt, record t { runs = assign id r t.runs }) else err integrity_error)
      by_test true = ap status_in {y = some r} (rw (lookup-assign id id r t.runs, eq_refl id) refl)
      by_test false = tt

  commit_row-Sets :
      (time : ℕ) (os : List ObservationRecord) (ds : List DecisionRecord) (found : Option RunRow)
      (s : Tables)
      → Unpacked (Sets "SUCCEEDED") (commit_row accepts id time os ds found s)
  commit_row-Sets time os ds none s = tt
  commit_row-Sets time os ds (some r) s = elim (Bool-cases (is_running r)) [
    | inr stays ↦ rw stays tt
    | inl runs ↦ rw runs (
        inserted (insert_all same_observation os s.observations)
          (insert_all same_decision ds s.decisions))
  ]
    where
      inserted :
          (observations : Result (List ObservationRecord))
          (decisions : Result (List DecisionRecord))
          → Unpacked (Sets "SUCCEEDED") (
              observations >>= λ x. decisions >>= λ y.
              written accepts id
                (record r { run = ended_run "SUCCEEDED" time none r.run })
                (record s { observations = x; decisions = y }))
      inserted (err x) decisions = tt
      inserted (ok x) (err y) = tt
      inserted (ok x) (ok y) = written-Sets _ (record s { observations = x; decisions = y })

  commit_run-Sets :
      (os : List ObservationRecord) (ds : List DecisionRecord) (time : ℕ) (s : Tables)
      → is_ok (commit_run accepts id os ds time s).0 ≡ true
      → status_of (commit_run accepts id os ds time s).1 id ≡ some "SUCCEEDED"
  unfolding commit_run commit_run_body transaction
  commit_run-Sets os ds time s =
      by_test (any (λ o. not (str_eq o.run_id id)) os || any (λ d. not (str_eq d.run_id id)) ds)
    where
      by_test :
          (test : Bool)
          → is_ok
              (if test
                then (err persistence_conflict, s)
                else transaction (commit_run_body accepts id os ds time) s).0
            ≡ true
          → status_of
              (if test
                then (err persistence_conflict, s)
                else transaction (commit_run_body accepts id os ds time) s).1
              id
            ≡ some "SUCCEEDED"
      by_test true k = cc
      by_test false k =
          settled-Sets "SUCCEEDED" s (commit_row accepts id time os ds (lookup id s.runs) s)
            (commit_row-Sets time os ds (lookup id s.runs) s) k

  -- A run that has succeeded is not failed.
  finish_row-succeeded :
      (time : ℕ) (error : Option String) (found : Option RunRow) (s : Tables)
      → status_in found ≡ some "SUCCEEDED"
      → finish_row accepts id "FAILED" time error none found s ≡ err persistence_conflict
  finish_row-succeeded time error none s h = cc
  finish_row-succeeded time error (some r) s h = rw (succeeded r h) refl
    where
      succeeded : (r : RunRow) → some r.run.status ≡ some "SUCCEEDED" → r.run.status ≡ "SUCCEEDED"
      succeeded r same = cc

  -- After a commit of a run returned, a call that would mark the run as failed raises a persistence
  -- conflict, and leaves the tables as the commit has written them.
  pub commit_run-finish_run :
      (os : List ObservationRecord) (ds : List DecisionRecord) (committed_at failed_at : ℕ)
      (error : Option String) (s : Tables)
      → is_ok (commit_run accepts id os ds committed_at s).0 ≡ true
      → finish_run accepts id "FAILED" failed_at error none
          (commit_run accepts id os ds committed_at s).1
        ≡ (err persistence_conflict, (commit_run accepts id os ds committed_at s).1)
  unfolding finish_run finish_run_body transaction
  commit_run-finish_run os ds committed_at failed_at error s k =
      let t = (commit_run accepts id os ds committed_at s).1 in
      ap (settled t) (
        finish_row-succeeded failed_at error (lookup id t.runs) t
          (commit_run-Sets os ds committed_at s k))
