-- ===== src/Execution/Lifecycle/Touches.antt =====
-- Every method of `ExecutionStore` that is called on one record leaves the others alone, and moves
-- that one along the life cycle or not at all.
use cauco.Base.{
  ℕ, ◌≤◌, arith, suc, ok, set, ◌&&◌, return, ◌>>◌, raise, &&-true, sym, ◌≡◌, refl, String, Bool,
  true, false, Option, none, some, ◌⊎◌, inl, inr, string_eq, if◌then◌else◌, ◌>>=◌,
}
use cauco.Base.Results.Rules.{need_rule, if_rule, ok_rule}
use cauco.Base.Dict.{get, put}
use cauco.Base.Environment.{Environment}
use cauco.Tools.Result.{ToolExecutionResult}
use cauco.Execution.Models.{
  AgentPlanExecutionRecord, AgentPlanStepExecutionRecord, ExecutionError, conflict, is_failed,
  step_is_failed,
}
use cauco.Execution.Store.{ExecutionStore, StoreMethod, EventFields, find_record, find_step, save}
use cauco.Execution.Store.Steps.{
  append_event, start_step, finish_step, finish_events, all_done, succeeded, was_truncated,
  ended_step, settled, status_after,
}
use cauco.Execution.Store.Recovering.{
  retried, skipped_steps, fail_before_start, fail_runtime, retry_step, skip_failed_step, cancel,
}
use cauco.Execution.Lifecycle.{Evolves, Logs, unlogged, more, At, locate-At}

-- What a method on one record leaves as it was.
pub record Frame (s t : ExecutionStore) : Type 0 where
  pub max_records : t.max_records ≡ s.max_records
  pub by_review : t.by_review ≡ s.by_review
  pub rejected_events : t.rejected_events ≡ s.rejected_events
  pub calls : s.calls ≤ t.calls

abbrev pub Touches : String → ExecutionStore → ExecutionStore → Type 0
Touches id s t =
    Frame s t
    × ((t.records ≡ s.records)
        ⊎ ((r r' : AgentPlanExecutionRecord) × (get s.records id ≡ some r)
            × Evolves r r'
            × (t.records ≡ put s.records id r')))

module _ (s : ExecutionStore) (id : String) where
  Touches-none : Touches id s s
  Touches-none = (
    record { max_records = refl; by_review = refl; rejected_events = refl; calls = omega arith },
    inl refl,
  )

  Touches-save :
      (n : ℕ) (r r' : AgentPlanExecutionRecord)
      → get s.records id ≡ some r
      → Evolves r r'
      → s.calls ≤ n
      → Touches id s (record s { records = put s.records id r'; calls = n })
  Touches-save n r r' found step later = (
    record { max_records = refl; by_review = refl; rejected_events = refl; calls = later },
    inr (r, r', found, step, refl),
  )

  -- A method that looks up the record, and a step of it.
  Touches-find :
      {A : Type 0} (body : AgentPlanExecutionRecord → StoreMethod A)
      → ((r : AgentPlanExecutionRecord) → get s.records id ≡ some r → Touches id s (body r s).1)
      → Touches id s ((find_record id >>= body) s).1
  unfolding find_record
  Touches-find body h = need_rule (Touches id s) s _ _ body (λ _. Touches-none) h

  Touches-find_step :
      {A : Type 0} (r : AgentPlanExecutionRecord) (i : ℕ)
      (body : ℕ × AgentPlanStepExecutionRecord → StoreMethod A)
      → ((p : ℕ × AgentPlanStepExecutionRecord) → At r i p.0 p.1 → Touches id s (body p s).1)
      → Touches id s ((find_step r i >>= body) s).1
  unfolding find_step
  Touches-find_step r i body h =
      need_rule (Touches id s) s _ _ body (λ _. Touches-none)
        (λ p at. h p (locate-At r i p.0 p.1 at))

  -- A guard that raises.
  Touches-guard :
      {A : Type 0} (b : Bool) (m : StoreMethod A) (e : ExecutionError)
      → (b ≡ true → Touches id s (m s).1)
      → Touches id s ((if b then m else raise e) s).1
  Touches-guard true m e h = h refl
  Touches-guard false m e h = Touches-none

-- `finish_events` adds events to the log, and does nothing else.
finish_events-Logs :
    (env : Environment) (r : AgentPlanExecutionRecord) (i : ℕ) (step : AgentPlanStepExecutionRecord)
    (successful truncated terminal : Bool) (s : ExecutionStore)
    → (r' : AgentPlanExecutionRecord) × (n : ℕ) × Logs r r'
      × (finish_events env r i step successful truncated terminal s
          ≡ (ok r', record s { calls = n }))
      × (s.calls ≤ n)
unfolding finish_events
finish_events-Logs env r i step true true true s =
    (_, _, more _ (more _ (more _ unlogged)), refl, omega arith)
finish_events-Logs env r i step true true false s =
    (_, _, more _ (more _ unlogged), refl, omega arith)
finish_events-Logs env r i step true false true s =
    (_, _, more _ (more _ unlogged), refl, omega arith)
finish_events-Logs env r i step true false false s = (_, _, more _ unlogged, refl, omega arith)
finish_events-Logs env r i step false true terminal s =
    (_, _, more _ (more _ unlogged), refl, omega arith)
finish_events-Logs env r i step false false terminal s = (_, _, more _ unlogged, refl, omega arith)

module _ (env : Environment) (s : ExecutionStore) (id : String) where
  pub append_event-Touches :
      (event_type outcome message : String) (fields : EventFields)
      → Touches id s (append_event env id event_type outcome message fields s).1
  unfolding append_event
  append_event-Touches event_type outcome message fields =
      Touches-find s id _ λ r found. Touches-save s id _ r _ found (Evolves.logged _) (omega arith)

  pub start_step-Touches : (i : ℕ) → Touches id s (start_step env id i s).1
  unfolding start_step
  start_step-Touches i = Touches-find s id _ λ r found. Touches-guard s id _ _ _ λ active.
      Touches-find_step s id r i _ λ p at.
        if_rule (Touches id s) s _ _ _
          (λ pending.
            Touches-save s id _ r _ found (Evolves.began i p.0 _ p.1 _ active at pending)
              (omega arith))
          (λ _. Touches-save s id _ r _ found (Evolves.logged _) (omega arith))

  pub finish_step-Touches :
      (i : ℕ) (result : Option ToolExecutionResult) (error : Option String) (performed : Bool)
      → Touches id s (finish_step env id i result error performed s).1
  unfolding finish_step
  finish_step-Touches i result error performed = Touches-find s id _ λ r found.
      Touches-find_step s id r i _ λ p at. Touches-guard s id _ _ _ λ busy.
        let now = env.clock s.calls in
        let steps = set r.step_records p.0 (ended_step p.1 result error performed now) in
        let updated =
          settled r steps (status_after (succeeded result) (all_done steps)) error performed now in
        let (r', n, events, e, later) =
          finish_events-Logs env updated i p.1 (succeeded result) (was_truncated result)
            (all_done steps) (record s { calls = suc s.calls }) in
        ok_rule (Touches id s) (record s { calls = suc s.calls })
          (finish_events env updated i p.1 (succeeded result) (was_truncated result)
            (all_done steps))
          (λ last. do save id last; return last) r' (record s { calls = n }) e
          (Touches-save s id n r r' found
            (Evolves.ended i p.0 now p.1 result error performed steps r' at busy refl events)
            (omega arith))

  pub fail_before_start-Touches :
      (reason : String) → Touches id s (fail_before_start env id reason s).1
  unfolding fail_before_start
  fail_before_start-Touches reason =
      Touches-find s id _
        λ r found. Touches-save s id _ r _ found (Evolves.barred reason _ _) (omega arith)

  pub fail_runtime-Touches : (reason : String) → Touches id s (fail_runtime env id reason s).1
  unfolding fail_runtime
  fail_runtime-Touches reason = Touches-find s id _ λ r found. Touches-guard s id _ _ _ λ active.
      if_rule (Touches id s) s _ _ _ (λ _. Touches-none s id)
        (λ idle. Touches-save s id _ r _ found (Evolves.halted reason _ active idle) (omega arith))

  pub retry_step-Touches : (i : ℕ) → Touches id s (retry_step id i s).1
  unfolding retry_step
  retry_step-Touches i = Touches-find s id _ λ r found. Touches-find_step s id r i _ λ p at.
      Touches-guard s id {A = AgentPlanExecutionRecord}
        (is_failed r.status && step_is_failed p.1.status)
        (do save id (retried r p.0 p.1); return (retried r p.0 p.1))
        (conflict "Only a failed step can be retried.")
        λ both.
          Touches-save s id _ r _ found
            (Evolves.reset i p.0 p.1 at (&&-true both).0 (&&-true both).1) (omega arith)

  pub skip_failed_step-Touches : (i : ℕ) → Touches id s (skip_failed_step env id i s).1
  unfolding skip_failed_step
  skip_failed_step-Touches i = Touches-find s id _ λ r found. Touches-find_step s id r i _ λ p at.
      if_rule {A = AgentPlanExecutionRecord} (Touches id s) s
        (is_failed r.status && step_is_failed p.1.status) _ _
        (λ both.
          if_rule {A = AgentPlanExecutionRecord} (Touches id s) s
            (all_done (skipped_steps r p.0 p.1)) _ _
            (λ last.
              Touches-save s id _ r _ found
                (Evolves.passed i p.0 p.1 (some (env.clock s.calls)) _ at (&&-true both).0
                  (&&-true both).1 (sym last) (more _ unlogged))
                (omega arith))
            (λ others.
              Touches-save s id _ r _ found
                (Evolves.passed i p.0 p.1 none _ at (&&-true both).0 (&&-true both).1 (sym others)
                  unlogged)
                (omega arith)))
        (λ _. Touches-none s id)

  pub cancel-Touches : Touches id s (cancel env id s).1
  unfolding cancel
  cancel-Touches = Touches-find s id _ λ r found. Touches-guard s id _ _ _ λ active.
      if_rule (Touches id s) s _ _ _ (λ _. Touches-none s id)
        (λ idle. Touches-save s id _ r _ found (Evolves.dropped _ _ active idle) (omega arith))
