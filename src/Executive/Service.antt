-- ===== src/Executive/Service.antt =====
-- core/src/cauco_core/executive/service.py: `ExecutiveControlService.decide`. The chain of early
-- returns is a chain of functions, one for each subject that it looks at.
use cauco.Base.{
  String, str_append, Bool, true, false, Option, none, some, List, [], ◌∷◌, if◌then◌else◌,
}
use cauco.Reviews.Models.{AgentPlanReviewStatus, review_status_value}
use cauco.Execution.Models.{ExecutionStatus}
use cauco.Executive.Models.{IntentStatus, ExecutiveAction, ExecutiveState, ExecutiveDecision}

-- A decision that lets the workflow go on.
abbrev pub onward : ExecutiveAction → Bool → String → ExecutiveDecision
onward action approval reason = record {
  next_action = action;
  requires_human_approval = approval;
  transition_permitted = true;
  reason = reason;
  blocking_reasons = [];
}

-- A decision that holds it.
abbrev pub held : ExecutiveAction → Bool → String → List String → ExecutiveDecision
held action approval reason blocking = record {
  next_action = action;
  requires_human_approval = approval;
  transition_permitted = false;
  reason = reason;
  blocking_reasons = blocking;
}

abbrev pub stopped : String → List String → ExecutiveDecision
stopped reason blocking = held ExecutiveAction.stop false reason blocking

-- `if state.verification_succeeded`, which may be `None`.
abbrev pub is_confirmed : Option Bool → Bool
is_confirmed (some true) = true
is_confirmed _ = false

-- The branches for a failed and for a completed execution.
unfoldable pub decide_failed : ExecutiveState → ExecutiveDecision
decide_failed state =
    if state.execution_performed
    then if state.outcome_verified
      then stopped "The execution failed before a verifiable outcome was produced."
          ("A new human-reviewed proposal may be required." ∷ [])
      else onward ExecutiveAction.verify_outcome false
          "The operation was attempted but failed; the resulting state must be verified."
    else stopped "The execution failed before a verifiable outcome was produced."
        ("A new human-reviewed proposal may be required." ∷ [])

unfoldable pub decide_completed : ExecutiveState → ExecutiveDecision
decide_completed state =
    if state.execution_performed
    then if state.outcome_verified
      then if is_confirmed state.verification_succeeded
        then onward ExecutiveAction.complete false "The approved outcome was verified successfully."
        else stopped "Outcome verification did not confirm success."
            ("Further action requires a new human decision." ∷ [])
      else onward ExecutiveAction.verify_outcome false
          "The performed operation still requires outcome verification."
    else stopped "Execution is marked completed without a performed operation."
        ("Execution state is inconsistent." ∷ [])

-- From `execution_status` on.
unfoldable pub decide_execution : Option ExecutionStatus → ExecutiveState → ExecutiveDecision
unfolding decide_failed decide_completed
decide_execution (some ExecutionStatus.pending_execution) state =
    onward ExecutiveAction.request_step_approval true
      "The execution record is inert and the next stored step requires separate approval."
decide_execution (some ExecutionStatus.running) state =
    stopped "An approved step is currently running."
      ("Concurrent progression is not permitted." ∷ [])
decide_execution (some ExecutionStatus.cancelled) state = stopped "The execution was cancelled." []
decide_execution (some ExecutionStatus.failed) state = decide_failed state
decide_execution (some ExecutionStatus.completed) state = decide_completed state
decide_execution none state = stopped "No safe cognitive transition is available." []

-- `f"The reviewed plan is {state.review_status.value}."`
unfoldable pub review_closed : AgentPlanReviewStatus → ExecutiveDecision
unfolding review_status_value
review_closed status =
    stopped (str_append "The reviewed plan is " (str_append (review_status_value status) "."))
      ("A new or revised plan requires a new review snapshot." ∷ [])

-- From `review_status` on. The branch for any other status is for no member of the enumeration.
unfoldable pub decide_review : Option AgentPlanReviewStatus → ExecutiveState → ExecutiveDecision
unfolding decide_execution review_closed
decide_review none state =
    onward ExecutiveAction.request_plan_review true
      "The candidate plan requires explicit human review."
decide_review (some AgentPlanReviewStatus.pending_review) state =
    held ExecutiveAction.await_human_decision true
      "The plan is waiting for an explicit human decision." ("Plan review is still pending." ∷ [])
decide_review (some AgentPlanReviewStatus.rejected) state =
    review_closed AgentPlanReviewStatus.rejected
decide_review (some AgentPlanReviewStatus.cancelled) state =
    review_closed AgentPlanReviewStatus.cancelled
decide_review (some AgentPlanReviewStatus.expired) state =
    review_closed AgentPlanReviewStatus.expired
decide_review (some AgentPlanReviewStatus.approved) state =
    if state.execution_record_available
    then decide_execution state.execution_status state
    else onward ExecutiveAction.create_execution_record true
        "The approved plan may progress to inert execution-record creation only."

abbrev pub is_clear : IntentStatus → Bool
is_clear IntentStatus.clear = true
is_clear _ = false

-- `decide`
unfoldable pub decide : ExecutiveState → ExecutiveDecision
unfolding decide_review
decide state =
    if is_clear state.intent_status
    then if state.perception_available
      then if state.plan_available
        then decide_review state.review_status state
        else onward ExecutiveAction.prepare_plan false "A candidate plan has not yet been prepared."
      else onward ExecutiveAction.observe false "Relevant current state has not yet been observed."
    else onward ExecutiveAction.clarify_intent false "The human intent is not sufficiently clear."
