-- ===== src/Services/Create.antt =====
-- core/src/cauco_core/execution/service.py: `ExecutionService.create`. An adapter is whatever `A` stands
-- for, since only its presence is asked; `now` is what the clock of the service says.
pub mod Admissible
pub mod Cleared
pub mod Recorded
use cauco.Base.{
  ℕ, zero, suc, String, Bool, true, false, not, ◌&&◌, Option, none, some, List, [], ◌∷◌, Result, ok,
  raised, Method, return, raise, ensure, leb, nat_beq, ◌>>=◌, ◌>>◌, if◌then◌else◌, string_eq,
  pair_eq,
}
use cauco.Base.Dict.{Dict, get, is_some}
use cauco.Base.Environment.{Environment}
use cauco.Tools.Value.{Value}
use cauco.Tools.Models.{ToolValidationResult}
use cauco.Tools.Registry.{ToolRegistry, validate, has_adapter}
use cauco.Agents.Models.{AgentPlanStep, AgentToolReference}
use cauco.Reviews.Models.{AgentPlanReviewRecord, is_approved}
use cauco.Reviews.Store
use cauco.Reviews.Store.Methods.{get_review, verify_integrity}
use cauco.Execution.Models
use cauco.Execution.Models.{
  StepExecutionStatus, AgentPlanStepExecutionRecord, AgentPlanExecutionRecord, ExecutionError,
}
use cauco.Execution.Store.{no_fields}
use cauco.Execution.Store.Steps
use cauco.Execution.Store.Recovering
use cauco.Services.{
  ServiceError, ServiceMethod, Stores, of_review, of_execution, on_reviews, on_executions,
}

abbrev pub refused : String → ServiceError
refused message = of_execution (Models.conflict message)

abbrev pub nothing_to_run : String
nothing_to_run = "The approved plan contains no runtime-enabled steps."

-- `_validate_review`
unfoldable pub validate_review :
    (Value → String) → ℕ → AgentPlanReviewRecord → ServiceMethod (Unit {0})
unfolding verify_integrity
validate_review digest now review =
    ensure (is_approved review.status) (refused "Plan review is not approved.") >>= λ _.
    ensure (not (leb review.expires_at now)) (refused "Plan review approval has expired.") >>= λ _.
    ensure (review.execution_authorized && not review.execution_performed)
      (refused "Plan review is not eligible for execution.")
    >>= λ _. on_reviews (verify_integrity digest review)

-- `except (PlanReviewNotFoundError, PlanReviewIntegrityError, ExecutionConflictError)`
abbrev pub is_caught : ServiceError → Bool
is_caught (of_review (Store.not_found message)) = true
is_caught (of_review (Store.integrity message)) = true
is_caught (of_execution (Models.conflict message)) = true
is_caught _ = false

module _ {A : Type 0} (tools : ToolRegistry) (adapters : Dict (String × String) A) where
  -- Whether the runtime may execute the operation of a step.
  unfoldable pub is_executable : AgentToolReference → Bool
  unfolding validate has_adapter
  is_executable reference =
      let validation = validate tools reference.tool_id reference.operation_id in
      validation.valid
      && validation.runtime_execution_allowed
      && has_adapter adapters reference.tool_id reference.operation_id

  unfoldable pub built_step : AgentPlanStep → AgentToolReference → AgentPlanStepExecutionRecord
  unfolding is_executable
  built_step step reference = record {
    step_index = step.order;
    tool_id = reference.tool_id;
    operation_id = reference.operation_id;
    target = reference.target;
    status =
        if is_executable reference
        then StepExecutionStatus.pending
        else StepExecutionStatus.skipped;
    started_at = none;
    completed_at = none;
    result = none;
    error = if is_executable reference then none else some "Operation is not runtime-enabled.";
    execution_performed = false;
  }

  abbrev pub built_for :
      AgentPlanStep
      → Option AgentToolReference
      → List AgentPlanStepExecutionRecord
      → List AgentPlanStepExecutionRecord
  built_for step none rest = rest
  built_for step (some reference) rest = built_step step reference ∷ rest

  -- The loop over the steps of the plan.
  unfoldable pub built_steps : List AgentPlanStep → List AgentPlanStepExecutionRecord
  unfolding built_step
  built_steps [] = []
  built_steps (step ∷ steps) = built_for step step.tool_reference (built_steps steps)

  abbrev pub counted : Option AgentToolReference → ℕ → ℕ
  counted none n = n
  counted (some reference) n = if is_executable reference then suc n else n

  -- `executable_count`
  unfoldable pub executable_count : List AgentPlanStep → ℕ
  unfolding is_executable
  executable_count [] = 0
  executable_count (step ∷ steps) = counted step.tool_reference (executable_count steps)

module _ (review_env env : Environment) (digest : Value → String) (now : ℕ) where
  -- The `try` block.
  unfoldable pub cleared : String → ServiceMethod AgentPlanReviewRecord
  unfolding get_review validate_review
  cleared review_id = on_reviews (get_review review_env review_id) >>= λ review.
      validate_review digest now review >>= λ _. return review

  -- What follows it: the `except` block, or the review.
  unfoldable pub or_rejected :
      String → Result ServiceError AgentPlanReviewRecord → ServiceMethod AgentPlanReviewRecord
  unfolding Steps.record_rejected_attempt
  or_rejected review_id (ok review) = return review
  or_rejected review_id (raised e) =
      if is_caught e
      then (on_executions
            (Steps.record_rejected_attempt env review_id "Execution creation was rejected.")
          >>= λ _. raise e)
      else raise e

  unfoldable pub reviewed : String → ServiceMethod AgentPlanReviewRecord
  unfolding cleared or_rejected
  reviewed review_id s = let (r, t) = cleared review_id s in or_rejected review_id r t

  module _ {A : Type 0} (tools : ToolRegistry) (adapters : Dict (String × String) A) where
    -- `create`, from the test of the count on.
    unfoldable pub unless_empty :
        AgentPlanReviewRecord → AgentPlanExecutionRecord → ServiceMethod AgentPlanExecutionRecord
    unfolding Recovering.fail_before_start executable_count
    unless_empty review updated =
        if nat_beq (executable_count tools adapters review.plan.steps) 0
        then (on_executions (Recovering.fail_before_start env updated.execution_id nothing_to_run)
            >>= λ _. raise (refused nothing_to_run))
        else return updated

    -- `create`, from the first event on.
    unfoldable pub opened :
        AgentPlanReviewRecord → AgentPlanExecutionRecord → ServiceMethod AgentPlanExecutionRecord
    unfolding Steps.append_event unless_empty
    opened review r =
        on_executions (
          Steps.append_event env r.execution_id "integrity_verified" "success"
            "Approved snapshot integrity verified." no_fields)
        >>= unless_empty review

    -- `create`, once the review is cleared.
    unfoldable pub create_for : AgentPlanReviewRecord → ServiceMethod AgentPlanExecutionRecord
    unfolding Steps.create built_steps opened
    create_for review =
        on_executions (
          Steps.create env review.review_id review.snapshot_digest
            (built_steps tools adapters review.plan.steps))
        >>= opened review

    -- `create`
    unfoldable pub create_execution : String → ServiceMethod AgentPlanExecutionRecord
    unfolding reviewed create_for
    create_execution review_id = reviewed review_id >>= create_for
