-- ===== src/Execution/Store/Steps.antt =====
-- core/src/cauco_core/execution/store.py: creating a record, the audit log, and running a step.
use cauco.Base.{
  ℕ, ◌-◌, String, str_append, Bool, true, false, ◌&&◌, ◌||◌, Option, none, some, List, [], ◌∷◌,
  ◌++◌, string_eq, length, set, drop, all, return, raise, update, ◌>>=◌, ◌>>◌, if◌then◌else◌,
}
use cauco.Base.Dict.{get, put, is_some}
use cauco.Base.Environment.{Environment}
use cauco.Tools.Result.{ToolExecutionResult}
use cauco.Execution.Models.{
  ExecutionStatus, StepExecutionStatus, status_value, step_status_value,
  AgentPlanStepExecutionRecord, AgentPlanExecutionRecord, conflict, value_error, is_open,
  step_is_pending, step_is_running, step_is_done, record_rejection,
}
use cauco.Execution.Store.{
  EventFields, no_fields, fields_of, StoreMethod, find_record, find_step, save, make_room, or_else,
  clock, token, event, with_event,
}

-- The record that `create` builds.
abbrev pub created :
    String → String → String → List AgentPlanStepExecutionRecord → ℕ → AgentPlanExecutionRecord
created id review_id digest steps now = record {
  execution_id = id;
  review_id = review_id;
  snapshot_digest = digest;
  status = ExecutionStatus.pending_execution;
  created_at = now;
  started_at = none;
  completed_at = none;
  current_step_index = none;
  total_steps = length steps;
  step_records = steps;
  execution_performed = false;
  failure_reason = none;
  audit_events = [];
}

-- `__post_init__` of a record that is built, by the message of its `ValueError` if there is one.
abbrev pub accepted :
    Option String → AgentPlanExecutionRecord → StoreMethod AgentPlanExecutionRecord
accepted none r = return r
accepted (some message) r = raise (value_error message)

unfoldable pub checked : AgentPlanExecutionRecord → StoreMethod AgentPlanExecutionRecord
checked r = accepted (record_rejection r) r

-- The record that `start_step` stores, before its event.
abbrev pub begun :
    AgentPlanExecutionRecord → ℕ → AgentPlanStepExecutionRecord → ℕ → ℕ → AgentPlanExecutionRecord
begun r position step i now = record r {
  status = ExecutionStatus.running;
  started_at = some (or_else r.started_at now);
  current_step_index = some i;
  step_records =
      set r.step_records position
        (record step { status = StepExecutionStatus.running; started_at = some now });
}

-- `result is not None and result.success`
abbrev pub succeeded : Option ToolExecutionResult → Bool
succeeded none = false
succeeded (some result) = result.success

-- `result is not None and result.truncated`
abbrev pub was_truncated : Option ToolExecutionResult → Bool
was_truncated none = false
was_truncated (some result) = result.truncated

-- `all(item.status in {COMPLETED, SKIPPED} for item in steps)`
abbrev pub all_done : List AgentPlanStepExecutionRecord → Bool
all_done steps = all (λ step. step_is_done step.status) steps

abbrev pub ended_step :
    AgentPlanStepExecutionRecord
    → Option ToolExecutionResult
    → Option String
    → Bool
    → ℕ
    → AgentPlanStepExecutionRecord
ended_step step result error performed now = record step {
  status = if succeeded result then StepExecutionStatus.completed else StepExecutionStatus.failed;
  completed_at = some now;
  result = result;
  error = error;
  execution_performed = performed;
}

-- The status after a step: `successful` and `terminal` are the source's two tests.
abbrev pub status_after : Bool → Bool → ExecutionStatus
status_after false terminal = ExecutionStatus.failed
status_after true true = ExecutionStatus.completed
status_after true false = ExecutionStatus.running

-- The record that `finish_step` stores, before its events.
abbrev pub settled :
    AgentPlanExecutionRecord
    → List AgentPlanStepExecutionRecord
    → ExecutionStatus
    → Option String
    → Bool
    → ℕ
    → AgentPlanExecutionRecord
settled r steps status error performed now = record r {
  status = status;
  completed_at = elim status [
    | ExecutionStatus.completed ↦ some now
    | ExecutionStatus.failed ↦ some now
    | _ ↦ none
  ];
  current_step_index = none;
  step_records = steps;
  execution_performed = r.execution_performed || performed;
  failure_reason = elim status [ ExecutionStatus.failed ↦ error | _ ↦ none ];
}

module _ (env : Environment) where
  -- The end of `create`: the first event, and the two dictionaries.
  unfoldable pub store_new :
      String → String → AgentPlanExecutionRecord → StoreMethod AgentPlanExecutionRecord
  unfolding with_event save
  store_new review_id id built = do
    r ← with_event env built "execution_created" "accepted" "Execution record created." no_fields
    save id r
    update (λ s. record s { by_review = put s.by_review review_id id })
    return r

  -- `create`
  unfoldable pub create :
      String → String → List AgentPlanStepExecutionRecord → StoreMethod AgentPlanExecutionRecord
  unfolding token clock checked
  create review_id digest steps s =
      if is_some (get s.by_review review_id)
      then raise (conflict "An execution record already exists for this review.") s
      else (do
        make_room
        suffix ← token env
        let id = str_append "exec_" suffix
        now ← clock env
        built ← checked (created id review_id digest steps now)
        store_new review_id id built)
          s

  -- `append_event`
  unfoldable pub append_event :
      String → String → String → String → EventFields → StoreMethod AgentPlanExecutionRecord
  unfolding find_record with_event save
  append_event id event_type outcome message fields = do
    found ← find_record id
    r ← with_event env found event_type outcome message fields
    save id r
    return r

  -- `record_rejected_attempt`: the last 99 rejections and this one are kept.
  unfoldable pub record_rejected_attempt : String → String → StoreMethod (Unit {0})
  unfolding event
  record_rejected_attempt review_id message = do
    e ← event env none review_id "execution_rejected" "rejected" message no_fields
    update (λ s. record s {
      rejected_events = drop (length s.rejected_events - 99) s.rejected_events ++ e ∷ [];
    })

  -- `start_step`
  unfoldable pub start_step : String → ℕ → StoreMethod AgentPlanExecutionRecord
  unfolding find_record find_step clock with_event save
  start_step id i = do
    r ← find_record id
    if is_open r.status
        then (do
          (position, step) ← find_step r i
          if step_is_pending step.status
              then (do
                now ← clock env
                updated ←
                    with_event env (begun r position step i now) "step_started" "accepted"
                      "Allowlisted step started." (fields_of i step)
                save id updated
                return updated)
              else (do
                rejected ←
                    with_event env r "execution_rejected" "conflict" "Step execution was rejected."
                      (fields_of i step)
                save id rejected
                raise (
                    conflict (
                      str_append "Step is already "
                        (str_append (step_status_value step.status) ".")))))
        else raise
            (conflict (str_append "Execution is already " (str_append (status_value r.status) ".")))

  -- The events of `finish_step`, by its tests: the step succeeded, its output was truncated, and
  -- no step is left.
  unfoldable pub finish_events :
      AgentPlanExecutionRecord
      → ℕ
      → AgentPlanStepExecutionRecord
      → Bool
      → Bool
      → Bool
      → StoreMethod AgentPlanExecutionRecord
  unfolding with_event
  finish_events updated i step successful truncated terminal = do
    first ←
        (if successful
          then with_event env updated "step_completed" "success" "Step completed."
              (fields_of i step)
          else with_event env updated "step_failed" "failed" "Step failed safely."
              (fields_of i step))
    second ←
        (if truncated
          then with_event env first "output_truncated" "bounded" "Tool output was truncated."
              (fields_of i step)
          else return first)
    if successful && terminal
        then with_event env second "execution_completed" "success" "Execution completed." no_fields
        else return second

  -- `finish_step`
  unfoldable pub finish_step :
      String
      → ℕ
      → Option ToolExecutionResult
      → Option String
      → Bool
      → StoreMethod AgentPlanExecutionRecord
  unfolding find_record find_step clock save
  finish_step id i result error performed = do
    r ← find_record id
    (position, step) ← find_step r i
    if step_is_running step.status
        then (do
          now ← clock env
          let steps = set r.step_records position (ended_step step result error performed now)
          let status = status_after (succeeded result) (all_done steps)
          updated ←
              finish_events (settled r steps status error performed now) i step (succeeded result)
                (was_truncated result) (all_done steps)
          save id updated
          return updated)
        else raise (conflict "Step is not running.")
