-- ===== src/Execution/Store/Recovering.antt =====
-- core/src/cauco_core/execution/store.py: the methods that fail, retry, skip and cancel.
use cauco.Base.{
  ℕ, String, Bool, false, ◌&&◌, Option, none, some, List, map, set, any, return, raise, ◌>>=◌, ◌>>◌,
  str_append, if◌then◌else◌,
}
use cauco.Base.Environment.{Environment}
use cauco.Execution.Models.{
  ExecutionStatus, StepExecutionStatus, status_value, AgentPlanStepExecutionRecord,
  AgentPlanExecutionRecord, conflict, is_open, is_failed, step_is_pending, step_is_running,
  step_is_failed,
}
use cauco.Execution.Store.{no_fields, StoreMethod, find_record, find_step, save, clock, with_event}
use cauco.Execution.Store.Steps.{all_done}

-- `any(step.status is RUNNING for step in record.step_records)`
abbrev pub any_running : List AgentPlanStepExecutionRecord → Bool
any_running steps = any (λ step. step_is_running step.status) steps

-- The record that `fail_before_start` stores, before its event.
abbrev pub blocked : AgentPlanExecutionRecord → String → ℕ → AgentPlanExecutionRecord
blocked r reason now = record r {
  status = ExecutionStatus.failed;
  completed_at = some now;
  failure_reason = some reason;
}

-- The record that `fail_runtime` stores.
abbrev pub stopped : AgentPlanExecutionRecord → String → ℕ → AgentPlanExecutionRecord
stopped r reason now = record r {
  status = ExecutionStatus.failed;
  completed_at = some now;
  current_step_index = none;
  failure_reason = some reason;
}

-- The record that `retry_step` stores.
abbrev pub retried :
    AgentPlanExecutionRecord → ℕ → AgentPlanStepExecutionRecord → AgentPlanExecutionRecord
retried r position step = record r {
  status = ExecutionStatus.running;
  completed_at = none;
  current_step_index = none;
  step_records = set r.step_records position (record step {
    status = StepExecutionStatus.pending;
    started_at = none;
    completed_at = none;
    result = none;
    error = none;
    execution_performed = false;
  });
  failure_reason = none;
}

-- The steps after `skip_failed_step`.
abbrev pub skipped_steps :
    AgentPlanExecutionRecord → ℕ → AgentPlanStepExecutionRecord → List AgentPlanStepExecutionRecord
skipped_steps r position step =
    set r.step_records position (record step { status = StepExecutionStatus.skipped })

-- The record that `skip_failed_step` stores, before its event; `completed_at` is given.
abbrev pub skipped :
    AgentPlanExecutionRecord
    → List AgentPlanStepExecutionRecord
    → Option ℕ
    → AgentPlanExecutionRecord
skipped r steps completed_at = record r {
  status = if all_done steps then ExecutionStatus.completed else ExecutionStatus.running;
  completed_at = completed_at;
  current_step_index = none;
  step_records = steps;
  failure_reason = none;
}

abbrev pub cancelled_step : ℕ → AgentPlanStepExecutionRecord → AgentPlanStepExecutionRecord
cancelled_step now item =
    if step_is_pending item.status
    then record item { status = StepExecutionStatus.cancelled; completed_at = some now }
    else item

-- The record that `cancel` stores, before its event.
abbrev pub called_off : AgentPlanExecutionRecord → ℕ → AgentPlanExecutionRecord
called_off r now = record r {
  status = ExecutionStatus.cancelled;
  completed_at = some now;
  step_records = map (cancelled_step now) r.step_records;
}

module _ (env : Environment) where
  -- `fail_before_start`
  unfoldable pub fail_before_start : String → String → StoreMethod AgentPlanExecutionRecord
  unfolding find_record clock with_event save
  fail_before_start id reason = do
    r ← find_record id
    now ← clock env
    updated ← with_event env (blocked r reason now) "execution_rejected" "rejected" reason no_fields
    save id updated
    return updated

  -- `fail_runtime`
  unfoldable pub fail_runtime : String → String → StoreMethod AgentPlanExecutionRecord
  unfolding find_record clock save
  fail_runtime id reason = do
    r ← find_record id
    if is_open r.status
        then (if any_running r.step_records
            then raise (conflict "A running step cannot be interrupted.")
            else (do
              now ← clock env
              save id (stopped r reason now)
              return (stopped r reason now)))
        else raise
            (conflict (str_append "Execution is already " (str_append (status_value r.status) ".")))

  -- `skip_failed_step`
  unfoldable pub skip_failed_step : String → ℕ → StoreMethod AgentPlanExecutionRecord
  unfolding find_record find_step clock with_event save
  skip_failed_step id i = do
    r ← find_record id
    (position, step) ← find_step r i
    if is_failed r.status && step_is_failed step.status
        then (if all_done (skipped_steps r position step)
            then (do
              now ← clock env
              updated ←
                  with_event env (skipped r (skipped_steps r position step) (some now))
                    "execution_completed" "success" "Execution completed." no_fields
              save id updated
              return updated)
            else (do
              save id (skipped r (skipped_steps r position step) none)
              return (skipped r (skipped_steps r position step) none)))
        else raise (conflict "Only a failed step can be skipped by recovery.")

  -- `cancel`
  unfoldable pub cancel : String → StoreMethod AgentPlanExecutionRecord
  unfolding find_record clock with_event save
  cancel id = do
    r ← find_record id
    if is_open r.status
        then (if any_running r.step_records
            then raise (conflict "A running step cannot be interrupted.")
            else (do
              now ← clock env
              updated ←
                  with_event env (called_off r now) "execution_cancelled" "cancelled"
                    "Execution cancelled safely." no_fields
              save id updated
              return updated))
        else raise (conflict "Only active execution records can be cancelled.")

-- `retry_step`
unfoldable pub retry_step : String → ℕ → StoreMethod AgentPlanExecutionRecord
unfolding find_record find_step save
retry_step id i = do
  r ← find_record id
  (position, step) ← find_step r i
  if is_failed r.status && step_is_failed step.status
      then (do save id (retried r position step); return (retried r position step))
      else raise (conflict "Only a failed step can be retried.")
