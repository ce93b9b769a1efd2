-- ===== src/Runtime/Agreement.antt =====
-- application/runtime.py: what the receipt of a run says is what the repository has.
use smc_ict_engine.Prelude.{
  ℕ, ◌≡◌, ◌∙◌, ◌⊎◌, inl, inr, refl, sym, ap, subst, Bool, true, false, ltb, length, Option, none,
  some, String, List, [], ◌∷◌, ◌++◌, contains, is_some, Result, ok, err, Error, ok_inj, is_ok,
}
use smc_ict_engine.Prelude.Actions.{
  attempt, Keeps, bind-Keeps, if-Keeps, pure-Keeps, lift-Keeps, attempt-Keeps, attempt-eq-ok,
  run-eq-ok,
}
use smc_ict_engine.Domain.{Decision}
use smc_ict_engine.Notifications.Events.{NotificationEvent}
use smc_ict_engine.Scheduler.{RunReceipt, success_statuses}
use smc_ict_engine.Runtime.Ports.{
  Engine, RunRequest, ObservationRecord, DecisionRecord, SinkOutcome, bounded_error,
}
use smc_ict_engine.Runtime.Evaluation.{StartedRun}
use smc_ict_engine.Runtime.Engine.{
  emit_each, emit_batch, emit_to, emit_events, emit_terminal, evaluate_and_commit, fail_run,
  conclude_run, end_run, run_locked, run_guarded, run, warning_text, success_status,
}

-- The statuses of the stored runs, as the repository's calls change them. The clock, the lock and
-- the sinks do not write runs.
pub record KeepsRuns {W : Type 0} (engine : Engine W) (status : W → String → Option String)
    : Type 0 where
  pub commits :
      (id : String) (os : List ObservationRecord) (ds : List DecisionRecord) (time : ℕ) (w : W)
      → is_ok (engine.commit_run id os ds time w).0 ≡ true
      → status (engine.commit_run id os ds time w).1 id ≡ some "SUCCEEDED"
  pub finishes :
      (id outcome : String) (time : ℕ) (error : String) (w : W)
      → is_ok (engine.finish_run id outcome time error w).0 ≡ true
      → status (engine.finish_run id outcome time error w).1 id ≡ some outcome
  pub by_clock : (w : W) (id : String) → status (engine.clock_ms w).1 id ≡ status w id
  pub by_lock : (w : W) (id : String) → status (engine.lock w).1 id ≡ status w id
  pub by_unlock : (w : W) (id : String) → status (engine.unlock w).1 id ≡ status w id
  pub by_sink :
      (sink : NotificationEvent → W → Result SinkOutcome × W)
      → engine.event_sink ≡ some sink
      → (e : NotificationEvent) (w : W) (id : String) → status (sink e w).1 id ≡ status w id
  pub by_batch :
      (sink : List NotificationEvent → W → Result SinkOutcome × W)
      → engine.event_batch_sink ≡ some sink
      → (es : List NotificationEvent) (w : W) (id : String) → status (sink es w).1 id ≡ status w id

-- How the run of a receipt has ended in the repository.
abbrev pub IsStored : (String → Option String) → RunReceipt → String → Type 0
IsStored after receipt id =
    ((receipt.status ≡ "FAILED") × (after id ≡ some "FAILED"))
    ⊎ ((contains success_statuses receipt.status ≡ true) × (after id ≡ some "SUCCEEDED"))

abbrev pub Agrees : (before after : String → Option String) → RunReceipt → Type 0
Agrees before after receipt =
    ((receipt.run_id ≡ none)
      × (receipt.status ≡ "OVERLAP_SKIPPED")
      × ((id : String) → after id ≡ before id))
    ⊎ ((id : String) × (receipt.run_id ≡ some id) × IsStored after receipt id)

-- The later statuses may be given otherwise.
Agrees-moved :
    {before after after' : String → Option String} (receipt : RunReceipt)
    → ((id : String) → after' id ≡ after id)
    → Agrees before after receipt
    → Agrees before after' receipt
Agrees-moved receipt same (inl (none_named, skipped, unchanged)) =
    inl (none_named, skipped, λ id. same id ∙ unchanged id)
Agrees-moved receipt same (inr (id, named, inl (outcome, stored))) =
    inr (id, named, inl (outcome, same id ∙ stored))
Agrees-moved receipt same (inr (id, named, inr (outcome, stored))) =
    inr (id, named, inr (outcome, same id ∙ stored))

module _ {W : Type 0} (engine : Engine W) (status : W → String → Option String)
    (keeps : KeepsRuns engine status) where
  -- The status of a run
  abbrev Has : String → Option String → W → Type 0
  Has id s w = status w id ≡ s

  emit_each-Has :
      (id : String) (s : Option String) (sink : NotificationEvent → W → Result SinkOutcome × W)
      (es : List NotificationEvent)
      → engine.event_sink ≡ some sink
      → Keeps (Has id s) (emit_each engine sink es)
  unfolding emit_each
  emit_each-Has id s sink [] same = pure-Keeps _ _
  emit_each-Has id s sink (e ∷ es) same =
      bind-Keeps _ _ _
        (attempt-Keeps _ _ (record { at = λ w h. keeps.by_sink sink same e w id ∙ h }))
        λ answer. bind-Keeps _ _ _ (emit_each-Has id s sink es same) λ rest. pure-Keeps _ _

  emit_batch-Has :
      (id : String) (s : Option String) (sink : List NotificationEvent → W → Result SinkOutcome × W)
      (es : List NotificationEvent)
      → engine.event_batch_sink ≡ some sink
      → Keeps (Has id s) (emit_batch engine sink es)
  unfolding emit_batch
  emit_batch-Has id s sink es same =
      bind-Keeps _ _ _
        (attempt-Keeps _ _ (record { at = λ w h. keeps.by_batch sink same es w id ∙ h }))
        λ answer. pure-Keeps _ _

  emit_events-Has :
      (id : String) (s : Option String) (es : List NotificationEvent)
      → Keeps (Has id s) (emit_events engine es)
  unfolding emit_events emit_to
  emit_events-Has id s es = to engine.event_sink refl engine.event_batch_sink refl
    where
      to :
          (sink : Option (NotificationEvent → W → Result SinkOutcome × W))
          → engine.event_sink ≡ sink
          → (batch : Option (List NotificationEvent → W → Result SinkOutcome × W))
          → engine.event_batch_sink ≡ batch
          → Keeps (Has id s) (emit_to engine sink batch es)
      to none h batch h' = pure-Keeps _ _
      to (some sink) h none h' = emit_each-Has id s sink es h
      to (some sink) h (some batch) h' =
          if-Keeps _ (ltb 1 (length es)) _ _ (emit_batch-Has id s batch es h')
            (emit_each-Has id s sink es h)

  emit_terminal-Has :
      (id : String) (s : Option String) (r : StartedRun) (ds : List Decision) (succeeded : Bool)
      (error : Option String) (time : ℕ)
      → Keeps (Has id s) (emit_terminal engine r ds succeeded error time)
  unfolding emit_terminal
  emit_terminal-Has id s r ds succeeded error time =
      if-Keeps _ (is_some engine.event_sink) _ _
        (bind-Keeps _ _ _ (lift-Keeps _ _) λ events. emit_events-Has id s events) (pure-Keeps _ _)

  -- The commit has set the status.
  evaluate_and_commit-Has :
      (r : StartedRun) (v w : W) (ds : List Decision) (completed : ℕ)
      → evaluate_and_commit engine r v ≡ (ok (ds, completed), w)
      → Has r.run_id (some "SUCCEEDED") w
  unfolding evaluate_and_commit
  evaluate_and_commit-Has r v w ds completed h =
      let (found, v₁, _, h₁) = run-eq-ok _ _ v _ w h in
      let (time, v₂, _, h₂) = run-eq-ok _ _ v₁ _ w h₁ in
      let (u, v₃, committed, h₃) = run-eq-ok _ _ v₂ _ w h₂ in
      subst (Has r.run_id (some "SUCCEEDED")) (ap (λ p. p.1) committed ∙ ap (λ p. p.1) h₃)
        (keeps.commits r.run_id _ _ time v₂ (ap (λ p. is_ok p.0) committed))

  -- What the handler returns.
  fail_run-IsStored :
      (request : RunRequest) (r : StartedRun) (x : Error) (v w : W) (receipt : RunReceipt)
      → fail_run engine request r x v ≡ (ok receipt, w)
      → (receipt.run_id ≡ some r.run_id) × IsStored (status w) receipt r.run_id
  unfolding fail_run
  fail_run-IsStored request r x v w receipt h =
      let (completed, v₁, _, h₁) = run-eq-ok _ _ v _ w h in
      let (u, v₂, finished, h₂) = run-eq-ok _ _ v₁ _ w h₁ in
      let (ws, v₃, emitted, h₃) = run-eq-ok _ _ v₂ _ w h₂ in
      let made = ok_inj (ap (λ p. p.0) h₃) in
      (
        ap (λ q. q.run_id) (sym made),
        inl (
          ap (λ q. q.status) (sym made),
          subst (Has r.run_id (some "FAILED")) (ap (λ p. p.1) emitted ∙ ap (λ p. p.1) h₃) (
              (emit_terminal-Has r.run_id (some "FAILED") r [] false (some (bounded_error engine x))
                  completed).at
                v₂
                (subst (Has r.run_id (some "FAILED")) (ap (λ p. p.1) finished) (
                  keeps.finishes r.run_id "FAILED" completed (bounded_error engine x) v₁
                    (ap (λ p. is_ok p.0) finished)))),
        ),
      )

  success_status_lem :
      (warning : Option String) → contains success_statuses (success_status warning) ≡ true
  success_status_lem none = refl
  success_status_lem (some text) = refl

  conclude_run-IsStored :
      (request : RunRequest) (r : StartedRun) (ds : List Decision) (completed : ℕ) (v w : W)
      (receipt : RunReceipt)
      → Has r.run_id (some "SUCCEEDED") v
      → conclude_run engine request r ds completed v ≡ (ok receipt, w)
      → (receipt.run_id ≡ some r.run_id) × IsStored (status w) receipt r.run_id
  unfolding conclude_run
  conclude_run-IsStored request r ds completed v w receipt has h =
      let (more, v₁, emitted, h₁) = run-eq-ok _ _ v _ w h in
      let made = ok_inj (ap (λ p. p.0) h₁) in
      (
        ap (λ q. q.run_id) (sym made),
        inr (
          subst (λ q. contains success_statuses q.status ≡ true) made
              (success_status_lem (warning_text (r.warnings ++ more))),
          subst (Has r.run_id (some "SUCCEEDED")) (ap (λ p. p.1) emitted ∙ ap (λ p. p.1) h₁)
              ((emit_terminal-Has r.run_id (some "SUCCEEDED") r ds true none completed).at v has),
        ),
      )

  run_locked-IsStored :
      (request : RunRequest) (started : ℕ) (v w : W) (receipt : RunReceipt)
      → run_locked engine request started v ≡ (ok receipt, w)
      → (id : String) × (receipt.run_id ≡ some id) × IsStored (status w) receipt id
  unfolding run_locked attempt
  run_locked-IsStored request started v w receipt h =
      let (r, v₁, _, h₁) = run-eq-ok _ _ v _ w h in
      let (answer, v₂, tried, h₂) = run-eq-ok _ _ v₁ _ w h₁ in
      let (same, stored) =
        ends r v₁ v₂ answer (attempt-eq-ok (evaluate_and_commit engine r) v₁ v₂ answer tried) h₂ in
      (r.run_id, same, stored)
    where
      ends :
          (r : StartedRun) (v₁ v₂ : W) (answer : Result (List Decision × ℕ))
          → evaluate_and_commit engine r v₁ ≡ (answer, v₂)
          → end_run engine request r answer v₂ ≡ (ok receipt, w)
          → (receipt.run_id ≡ some r.run_id) × IsStored (status w) receipt r.run_id
      ends r v₁ v₂ (ok (ds, completed)) done h =
          conclude_run-IsStored request r ds completed v₂ w receipt
            (evaluate_and_commit-Has r v₁ v₂ ds completed done) h
      ends r v₁ v₂ (err x) done h = fail_run-IsStored request r x v₂ w receipt h

  guarded-Agrees :
      (before : String → Option String) (request : RunRequest) (started : ℕ) (acquired : Bool)
      (v w : W) (receipt : RunReceipt)
      → ((id : String) → status v id ≡ before id)
      → run_guarded engine request started acquired v ≡ (ok receipt, w)
      → Agrees before (status w) receipt
  unfolding run_guarded
  guarded-Agrees before request started true v w receipt same h =
      inr (run_locked-IsStored request started v w receipt h)
  guarded-Agrees before request started false v w receipt same h =
      let (completed, v₁, clock, h₁) = run-eq-ok _ _ v _ w h in
      let made = ok_inj (ap (λ p. p.0) h₁) in
      inl (
        ap (λ q. q.run_id) (sym made),
        ap (λ q. q.status) (sym made),
        λ id.
            ap (λ u. status u id) (sym (ap (λ p. p.1) clock ∙ ap (λ p. p.1) h₁))
            ∙ keeps.by_clock v id
            ∙ same id,
      )

  arrived :
      {A : Type 0} {step : Result A × W} {r : Result A} {t u : W}
      → step ≡ (r, t)
      → ((id : String) → status step.1 id ≡ status u id)
      → (id : String) → status t id ≡ status u id
  arrived e k id = ap (λ p. status p.1 id) (sym e) ∙ k id

  -- What a run returns agrees with the stored runs: a skipped run has changed none of them; any other
  -- receipt names a run that is stored as failed if the receipt says so, and otherwise as succeeded,
  -- also if a notification failed. The repository sets the status that a commit or an end gives, and
  -- the clock, the lock and the sinks change no run.
  pub run-Agrees :
      (request : RunRequest) (w w' : W) (receipt : RunReceipt)
      → run engine request w ≡ (ok receipt, w')
      → Agrees (status w) (status w') receipt
  unfolding run
  run-Agrees request w w' receipt h =
      let (started, v₁, clock, h₁) = run-eq-ok _ _ w _ w' h in
      let (acquired, v₂, locked, h₂) = run-eq-ok _ _ v₁ _ w' h₁ in
      let (answer, v₃, tried, h₃) = run-eq-ok _ _ v₂ _ w' h₂ in
      let (u, v₄, unlocked, h₄) = run-eq-ok _ _ v₃ _ w' h₃ in
      let kept = arrived clock (keeps.by_clock w) in
      let held = λ (id : String). arrived locked (keeps.by_lock v₁) id ∙ kept id in
      let ran =
        subst (λ r. run_guarded engine request started acquired v₂ ≡ (r, v₃)) (ap (λ p. p.0) h₄)
          (attempt-eq-ok (run_guarded engine request started acquired) v₂ v₃ answer tried) in
      Agrees-moved receipt (arrived (unlocked ∙ ap (λ p. (ok u, p.1)) h₄) (keeps.by_unlock v₃))
        (guarded-Agrees (status w) request started acquired v₂ v₃ receipt held ran)
