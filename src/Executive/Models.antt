-- ===== src/Executive/Models.antt =====
-- core/src/cauco_core/executive/models.py.
use cauco.Base.{String, Bool, false, not, Option, none, some, List, ◌&&◌, if◌then◌else◌}
use cauco.Base.Dict.{is_some}
use cauco.Reviews.Models.{AgentPlanReviewStatus, is_approved}
use cauco.Execution.Models.{ExecutionStatus}

pub data IntentStatus : Type 0 where
  unknown ambiguous clear : IntentStatus

pub data ExecutiveAction : Type 0 where
  clarify_intent observe prepare_plan request_plan_review await_human_decision
        create_execution_record request_step_approval verify_outcome complete stop :
      ExecutiveAction

pub record ExecutiveState : Type 0 where
  pub intent_status : IntentStatus
  pub perception_available : Bool
  pub plan_available : Bool
  pub review_status : Option AgentPlanReviewStatus
  pub execution_status : Option ExecutionStatus
  pub execution_record_available : Bool
  pub execution_performed : Bool
  pub outcome_verified : Bool
  pub verification_succeeded : Option Bool

-- `status is AgentPlanReviewStatus.APPROVED`, where the status may be missing.
abbrev pub has_approval : Option AgentPlanReviewStatus → Bool
has_approval none = false
has_approval (some status) = is_approved status

-- `ExecutiveState.__post_init__`: the message of the first check that fails.
unfoldable pub state_rejection : ExecutiveState → Option String
state_rejection state =
    if is_some state.review_status && not state.plan_available
    then some "Review state requires an available plan."
    else if state.execution_record_available && not (has_approval state.review_status)
    then some "Execution records require an approved review."
    else if is_some state.execution_status && not state.execution_record_available
    then some "Execution status requires an execution record."
    else if state.execution_performed && not state.execution_record_available
    then some "Performed execution requires an execution record."
    else if state.outcome_verified && not state.execution_performed
    then some "Outcome verification requires performed execution."
    else if is_some state.verification_succeeded && not state.outcome_verified
    then some "Verification result requires completed verification."
    else none

pub record ExecutiveDecision : Type 0 where
  pub next_action : ExecutiveAction
  pub requires_human_approval : Bool
  pub transition_permitted : Bool
  pub reason : String
  pub blocking_reasons : List String
