-- ===== src/Execution/Calls.antt =====
-- Sequences of calls of `ExecutionStore`, in any order and with any arguments: what the HTTP
-- handlers and the services may do to it. An exception ends its own call only.
pub mod Trace
pub mod History
pub mod New
pub mod Moves
use cauco.Base.{ℕ, String, Bool, Option, List, [], ◌∷◌}
use cauco.Base.Environment.{Environment}
use cauco.Tools.Result.{ToolExecutionResult}
use cauco.Execution.Models.{AgentPlanStepExecutionRecord}
use cauco.Execution.Store.{ExecutionStore, EventFields}
use cauco.Execution.Store.Steps
use cauco.Execution.Store.Recovering
use cauco.Execution.Invariant.Create.{IsFresh}

pub data Call : Type 0 where
  create : (review_id digest : String) → List AgentPlanStepExecutionRecord → Call
  append_event : (id event_type outcome message : String) → EventFields → Call
  record_rejected_attempt : (review_id message : String) → Call
  start_step : (id : String) → ℕ → Call
  finish_step : (id : String) → ℕ → Option ToolExecutionResult → Option String → Bool → Call
  fail_before_start : (id reason : String) → Call
  fail_runtime : (id reason : String) → Call
  retry_step : (id : String) → ℕ → Call
  skip_failed_step : (id : String) → ℕ → Call
  cancel : (id : String) → Call

unfoldable pub apply : Environment → Call → ExecutionStore → ExecutionStore
apply env (create review_id digest steps) s = (Steps.create env review_id digest steps s).1
apply env (append_event id event_type outcome message fields) s =
    (Steps.append_event env id event_type outcome message fields s).1
apply env (record_rejected_attempt review_id message) s =
    (Steps.record_rejected_attempt env review_id message s).1
apply env (start_step id i) s = (Steps.start_step env id i s).1
apply env (finish_step id i result error performed) s =
    (Steps.finish_step env id i result error performed s).1
apply env (fail_before_start id reason) s = (Recovering.fail_before_start env id reason s).1
apply env (fail_runtime id reason) s = (Recovering.fail_runtime env id reason s).1
apply env (retry_step id i) s = (Recovering.retry_step id i s).1
apply env (skip_failed_step id i) s = (Recovering.skip_failed_step env id i s).1
apply env (cancel id) s = (Recovering.cancel env id s).1

unfoldable pub run : Environment → List Call → ExecutionStore → ExecutionStore
run env [] s = s
run env (call ∷ calls) s = run env calls (apply env call s)

-- New records have steps that have not run, as `ExecutionService.create` builds them.
abbrev pub IsAdmissible : Call → Type 0
IsAdmissible (create _ _ steps) = IsFresh steps
IsAdmissible _ = Unit
