-- ===== src/Persistence/Final.antt =====
-- adapters/persistence/sqlite.py: a run that has ended is not stored, finished, committed or
-- recovered again.
use smc_ict_engine.Prelude.{
  ◌≡◌, ◌∙◌, refl, sym, ap, ℕ, Bool, true, false, not, ◌&&◌, Option, none, some, is_some, all, keep,
  contains, String, List, [], ◌∷◌, map, lookup, assign, lookup-assign, str_eq, eq_iff,
  if◌then◌else◌, Result, ok, err, value_error, integrity_error, persistence_conflict, Unpacked,
  Bool-cases, inl, inr, leb, length, ◌>>=◌,
}
use smc_ict_engine.Prelude.{str_le}
use smc_ict_engine.Prelude.Sort.{sort}
use smc_ict_engine.Domain.{codes}
use smc_ict_engine.Scheduler.{success_statuses, failure_outcomes}
use smc_ict_engine.Runtime.Ports.{RunRecord, ObservationRecord, DecisionRecord}
use smc_ict_engine.Persistence.Tables.{
  RunRow, Tables, settled, transaction, is_running, written, store_run_body, store_run, finish_row,
  finish_run_body, finish_run, finish_scheduler_attempt, commit_row, commit_run_body, commit_run,
  is_stale, recovered, recover_body, recover_running_runs, insert_all, same_observation,
  same_decision, same_run, differs, new_row,
}

module _ (accepts : RunRow → Bool) where
  -- A write of the life of a run, which returned or raised: the run is stored, finished (as a run or
  -- as an attempt), committed with its evidence, or failed by a restart.
  pub data Write : Tables → Tables → Type 0 where
    stores : (r : RunRecord) (s : Tables) → Write s (store_run accepts r s).1
    finishes :
        (id status : String) (time : ℕ) (error outcome : Option String) (s : Tables)
        → Write s (finish_run accepts id status time error outcome s).1
    finishes_attempt :
        (id outcome : String) (time : ℕ) (s : Tables)
        → Write s (finish_scheduler_attempt accepts id outcome time s).1
    commits :
        (id : String) (os : List ObservationRecord) (ds : List DecisionRecord) (time : ℕ)
        (s : Tables)
        → Write s (commit_run accepts id os ds time s).1
    recovers :
        (time : ℕ) (reason : String) (attempts : Bool) (s : Tables)
        → Write s (recover_running_runs accepts time reason attempts s).1

abbrev is_open : Option RunRow → Bool
is_open none = true
is_open (some row) = is_running row

module _ (accepts : RunRow → Bool) (id : String) (row : RunRow)
    (ended : is_running row ≡ false) where
  abbrev Has : Tables → Type 0
  Has s = lookup id s.runs ≡ some row

  -- Where a transaction ended
  settled-Has :
      {A : Type 0} (s : Tables) (result : Result (A × Tables))
      → Has s
      → Unpacked (λ p. Has p.1) result
      → Has (settled s result).1
  settled-Has s (ok (a, t)) h k = k
  settled-Has s (err x) h k = h

  -- A run that is open is another one.
  is_other :
      (key : String) (s : Tables)
      → Has s
      → is_open (lookup key s.runs) ≡ true
      → str_eq key id ≡ false
  is_other key s h o = elim (Bool-cases (str_eq key id)) [
    | inr e ↦ e
    | inl e ↦ absurd (
        true_false (
          sym o ∙ ap (λ k. is_open (lookup k s.runs)) ((eq_iff key id).0 e) ∙ ap is_open h ∙ ended))
  ]
    where
      true_false : true ≡ false → ⊥
      true_false c = cc

  written-Has :
      (key : String) (r : RunRow) (s t : Tables)
      → str_eq key id ≡ false
      → t.runs ≡ s.runs
      → Has s
      → Unpacked (λ p. Has p.1) (written accepts key r t)
  written-Has key r s t other same h = by_test (accepts r)
    where
      by_test :
          (test : Bool)
          → Unpacked {A = Unit {0} × Tables}
              (λ p. Has p.1)
              (if test
                then ok (tt, record t { runs = assign key r t.runs })
                else err integrity_error)
      by_test true = rw (lookup-assign key id r t.runs, other) (ap (lookup id) same ∙ h)
      by_test false = tt

  if-Has :
      {A : Type 0} (test : Bool) (a b : Result (A × Tables))
      → Unpacked (λ p. Has p.1) a
      → Unpacked (λ p. Has p.1) b
      → Unpacked (λ p. Has p.1) (if test then a else b)
  if-Has true a b h k = h
  if-Has false a b h k = k

  finish_row-Has :
      (key status : String) (time : ℕ) (error outcome : Option String) (found : Option RunRow)
      (s : Tables)
      → lookup key s.runs ≡ found
      → Has s
      → Unpacked (λ p. Has p.1) (finish_row accepts key status time error outcome found s)
  finish_row-Has key status time error outcome none s e h = tt
  finish_row-Has key status time error outcome (some r) s e h = elim (Bool-cases (is_running r)) [
    | inl runs ↦ rw runs (written-Has key _ s s (is_other key s h (ap is_open e ∙ runs)) refl h)
    | inr stays ↦ rw stays (if-Has (differs r status time error outcome) _ _ tt h)
  ]

  commit_row-Has :
      (key : String) (time : ℕ) (os : List ObservationRecord) (ds : List DecisionRecord)
      (found : Option RunRow) (s : Tables)
      → lookup key s.runs ≡ found
      → Has s
      → Unpacked (λ p. Has p.1) (commit_row accepts key time os ds found s)
  commit_row-Has key time os ds none s e h = tt
  commit_row-Has key time os ds (some r) s e h = elim (Bool-cases (is_running r)) [
    | inr stays ↦ rw stays tt
    | inl runs ↦ rw runs (
        inserted (insert_all same_observation os s.observations)
          (insert_all same_decision ds s.decisions) _ (is_other key s h (ap is_open e ∙ runs)))
  ]
    where
      inserted :
          (observations : Result (List ObservationRecord))
          (decisions : Result (List DecisionRecord)) (r : RunRow)
          → str_eq key id ≡ false
          → Unpacked
              (λ p. Has p.1)
              (observations >>= λ x. decisions >>= λ y.
                written accepts key r (record s { observations = x; decisions = y }))
      inserted (err x) decisions r other = tt
      inserted (ok x) (err y) r other = tt
      inserted (ok x) (ok y) r other =
          written-Has key r s (record s { observations = x; decisions = y }) other refl h

  -- The rows of a recovery
  lookup-recovered :
      (time : ℕ) (reason : String) (attempts : Bool) (entries : List (String × RunRow))
      → lookup id entries ≡ some row
      → lookup id (map (λ e. (e.0, recovered accepts time reason attempts e.1)) entries) ≡ some row
  lookup-recovered time reason attempts [] h = h
  lookup-recovered time reason attempts ((k, r) ∷ rest) h = elim (Bool-cases (str_eq k id)) [
    | inl e ↦ rw e (
        ap some
          (ap (recovered accepts time reason attempts) (given (rw e at h)) ∙ rw ended refl ∙ refl))
    | inr e ↦ rw e (lookup-recovered time reason attempts rest (rw e at h))
  ]
    where
      given : {A : Type 0} {a b : A} → some a ≡ some b → a ≡ b
      given h = cc

  either-Has :
      {A : Type 0} (test : Bool) (a b : Result A × Tables)
      → Has a.1
      → Has b.1
      → Has (if test then a else b).1
  either-Has true a b h k = h
  either-Has false a b h k = k

  store_run-Has : (r : RunRecord) (s : Tables) → Has s → Has (store_run accepts r s).1
  unfolding store_run transaction store_run_body
  store_run-Has r s h =
      either-Has (is_some r.git_commit && not (is_some r.code_hash)) _ _ h
        (settled-Has s _ h (found (lookup r.run_id s.runs) refl))
    where
      found :
          (existing : Option RunRow)
          → lookup r.run_id s.runs ≡ existing
          → Unpacked
              (λ p. Has p.1)
              (elim existing [
                | none ↦ written accepts r.run_id (new_row r) s
                | some old ↦ if same_run old.run r then ok (tt, s) else err persistence_conflict
              ])
      found none e = written-Has r.run_id _ s s (is_other r.run_id s h (ap is_open e)) refl h
      found (some old) e = if-Has (same_run old.run r) _ _ h tt

  finish_run-Has :
      (key status : String) (time : ℕ) (error outcome : Option String) (s : Tables)
      → Has s
      → Has (finish_run accepts key status time error outcome s).1
  unfolding finish_run transaction finish_run_body
  finish_run-Has key status time error outcome s h =
      either-Has (not (contains ("SUCCEEDED" ∷ "FAILED" ∷ []) status)) _ _ h (
        either-Has _ _ _ h (
          settled-Has s _ h
            (finish_row-Has key status time error outcome (lookup key s.runs) s refl h)))

  commit_run-Has :
      (key : String) (os : List ObservationRecord) (ds : List DecisionRecord) (time : ℕ)
      (s : Tables)
      → Has s
      → Has (commit_run accepts key os ds time s).1
  unfolding commit_run transaction commit_run_body
  commit_run-Has key os ds time s h =
      either-Has _ _ _ h
        (settled-Has s _ h (commit_row-Has key time os ds (lookup key s.runs) s refl h))

  recover_body-Has :
      (time : ℕ) (reason : String) (attempts : Bool) (s : Tables)
      → Has s
      → Unpacked (λ p. Has p.1) (recover_body accepts time reason attempts s)
  unfolding recover_body
  recover_body-Has time reason attempts s h =
      if-Has {A = List String}
        (all (λ e. accepts (recovered accepts time reason attempts e.1))
          (keep (λ e. is_stale time attempts e.1) s.runs))
        (ok (
          sort str_le (map (λ e. e.0) (keep (λ e. is_stale time attempts e.1) s.runs)),
          record s { runs = map (λ e. (e.0, recovered accepts time reason attempts e.1)) s.runs },
        ))
        (err integrity_error) (lookup-recovered time reason attempts s.runs h) tt

  recover_running_runs-Has :
      (time : ℕ) (reason : String) (attempts : Bool) (s : Tables)
      → Has s
      → Has (recover_running_runs accepts time reason attempts s).1
  unfolding recover_running_runs transaction
  recover_running_runs-Has time reason attempts s h =
      either-Has (not (leb 1 (length (codes reason)) && leb (length (codes reason)) 4000))
        (err value_error, s) (transaction (recover_body accepts time reason attempts) s) h
        (settled-Has s (recover_body accepts time reason attempts s) h
          (recover_body-Has time reason attempts s h))

  finish_attempt-Has :
      (key outcome : String) (time : ℕ) (s : Tables)
      → Has s
      → Has (finish_scheduler_attempt accepts key outcome time s).1
  unfolding finish_scheduler_attempt
  finish_attempt-Has key outcome time s h = by_outcome (contains success_statuses outcome)
    where
      by_outcome :
          (success : Bool)
          → Has
              ((if success
                  then finish_run accepts key "SUCCEEDED" time none (some outcome)
                  else finish_run accepts key "FAILED" time
                      (some (if contains failure_outcomes outcome then outcome else "FAILED"))
                      (some outcome))
                s).1
      by_outcome true = finish_run-Has key "SUCCEEDED" time none (some outcome) s h
      by_outcome false = finish_run-Has key "FAILED" time _ (some outcome) s h

  -- The row of a run that has ended is the same, in every column, after each call that stores a run,
  -- finishes a run or an attempt, commits a run with its evidence, or fails the runs that a restart
  -- left, whether the call returns or raises: an ended run is never started again, failed by a
  -- recovery or given another outcome by them.
  pub Write-Has :
      (s t : Tables) → Write accepts s t → lookup id s.runs ≡ some row → lookup id t.runs ≡ some row
  Write-Has s t (stores r s') h = store_run-Has r s h
  Write-Has s t (finishes key status time error outcome s') h =
      finish_run-Has key status time error outcome s h
  Write-Has s t (finishes_attempt key outcome time s') h = finish_attempt-Has key outcome time s h
  Write-Has s t (commits key os ds time s') h = commit_run-Has key os ds time s h
  Write-Has s t (recovers time reason attempts s') h =
      recover_running_runs-Has time reason attempts s h
