-- ===== src/Examples/Decisions.antt =====
-- A verified workflow, an approved plan, and a failed read.
use cauco.Base.{ℕ, [], ◌∷◌, all, String, ◌≡◌, true, false, not, ◌&&◌, ◌↔◌, some, none}
use cauco.Reviews.Models.{AgentPlanReviewStatus}
use cauco.Execution.Models.{ExecutionStatus, StepExecutionStatus, AgentPlanStepExecutionRecord}
use cauco.Tools.Value.{Value, field, end}
use cauco.Verification.Service.{verify_steps}
use cauco.Verification.Evidence
use cauco.Executive.Models.{IntentStatus, ExecutiveState}
use cauco.Executive.Service.{decide, is_confirmed}
use cauco.Executive.Gates.{
  decide-creates_record, decide-completes, decide-flags, creates_record, completes,
  is_approved_plan, has_completed, holds, needs_human,
}
use cauco.Recovery.{RecoveryDecision, RecoveryContext, evaluate}
use cauco.Recovery.Safety.{IsRetriable, evaluate-retry}

abbrev verified : ExecutiveState
verified = record {
  intent_status = IntentStatus.clear;
  perception_available = true;
  plan_available = true;
  review_status = some AgentPlanReviewStatus.approved;
  execution_status = some ExecutionStatus.completed;
  execution_record_available = true;
  execution_performed = true;
  outcome_verified = true;
  verification_succeeded = some true;
}

abbrev approved : ExecutiveState
approved = record verified {
  execution_status = none;
  execution_record_available = false;
  execution_performed = false;
  outcome_verified = false;
  verification_succeeded = none;
}

abbrev failed_read : RecoveryContext
failed_read = record {
  tool_id = "filesystem";
  operation_id = "read_file";
  error_code = "timeout";
  execution_performed = true;
  mutation_performed = false;
  attempt_count = 1;
}

decide-creates_record_example :
    (creates_record (decide approved).next_action
      ≡ (is_approved_plan approved && not approved.execution_record_available))
    × (creates_record (decide approved).next_action ≡ true
        → (decide approved).requires_human_approval ≡ true)
decide-creates_record_example = decide-creates_record approved

decide-completes_example : completes (decide verified).next_action ≡ (
    is_approved_plan verified
    && verified.execution_record_available
    && has_completed verified.execution_status
    && verified.execution_performed
    && verified.outcome_verified
    && is_confirmed verified.verification_succeeded)
decide-completes_example = decide-completes verified

decide-flags_example :
    ((decide approved).transition_permitted ≡ not (holds (decide approved).next_action))
    × ((decide approved).requires_human_approval ≡ needs_human (decide approved).next_action)
decide-flags_example = decide-flags approved

evaluate-retry_example : (evaluate failed_read ≡ RecoveryDecision.retry) ↔ IsRetriable failed_read
evaluate-retry_example = evaluate-retry failed_read

abbrev proven_step : AgentPlanStepExecutionRecord
proven_step = record {
  step_index = 1;
  tool_id = "filesystem";
  operation_id = "write_file";
  target = none;
  status = StepExecutionStatus.completed;
  started_at = some 1;
  completed_at = some 2;
  result = some (record {
    tool_id = "filesystem";
    operation_id = "write_file";
    success = true;
    started_at = 1;
    completed_at = 2;
    duration_ms = 1;
    output = "done";
    structured_data = field "verification_passed" (Value.flag true) end;
    error_code = none;
    error_message = none;
    truncated = false;
    execution_performed = true;
    mutation_performed = true;
  });
  error = none;
  execution_performed = true;
}

abbrev one : ℕ → String
one n = "1"

verify-completes_example : Evidence.recommended (verify_steps one (proven_step ∷ [])) ≡ (
    Evidence.is_some_record (proven_step ∷ [])
    && all Evidence.is_named (proven_step ∷ [])
    && all Evidence.is_proven (proven_step ∷ []))
verify-completes_example = Evidence.verify-completes one (proven_step ∷ [])
