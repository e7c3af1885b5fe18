-- ===== src/Executive/Gates.antt =====
-- What `decide` asks for before it lets the workflow go on.
use cauco.Base.{◌≡◌, Bool, true, false, Option, some, arith, not, ◌&&◌}
use cauco.Execution.Models.{ExecutionStatus}
use cauco.Executive.Models.{ExecutiveAction, ExecutiveState, has_approval}
use cauco.Executive.Service.{
  decide, decide_review, decide_execution, decide_failed, decide_completed, review_closed, is_clear,
  is_confirmed,
}

-- The actions that a decision may name, as tests.
abbrev pub creates_record : ExecutiveAction → Bool
creates_record ExecutiveAction.create_execution_record = true
creates_record _ = false

abbrev pub completes : ExecutiveAction → Bool
completes ExecutiveAction.complete = true
completes _ = false

-- A plan that a human approved, for a clear intent and an observed state.
abbrev pub is_approved_plan : ExecutiveState → Bool
is_approved_plan s =
    is_clear s.intent_status
    && s.perception_available
    && s.plan_available
    && has_approval s.review_status

abbrev pub has_completed : Option ExecutionStatus → Bool
has_completed (some ExecutionStatus.completed) = true
has_completed _ = false

-- Exactly for an approved plan of a clear intent and an observed state that has no execution record
-- does the service ask for one, and then only with a human's approval.
pub decide-creates_record :
    (s : ExecutiveState)
    → (creates_record (decide s).next_action
        ≡ (is_approved_plan s && not s.execution_record_available))
      × (creates_record (decide s).next_action ≡ true → (decide s).requires_human_approval ≡ true)
unfolding decide decide_review decide_execution decide_failed decide_completed review_closed
decide-creates_record s = ground arith

-- The workflow is complete exactly when the plan is approved, its execution record says completed and
-- performed, and the outcome was verified with success.
pub decide-completes :
    (s : ExecutiveState)
    → completes (decide s).next_action ≡ (
        is_approved_plan s
        && s.execution_record_available
        && has_completed s.execution_status
        && s.execution_performed
        && s.outcome_verified
        && is_confirmed s.verification_succeeded)
unfolding decide decide_review decide_execution decide_failed decide_completed review_closed
decide-completes s = ground arith

-- The actions that hold the workflow, and those that a human has to approve.
abbrev pub holds : ExecutiveAction → Bool
holds ExecutiveAction.stop = true
holds ExecutiveAction.await_human_decision = true
holds _ = false

abbrev pub needs_human : ExecutiveAction → Bool
needs_human ExecutiveAction.request_plan_review = true
needs_human ExecutiveAction.await_human_decision = true
needs_human ExecutiveAction.create_execution_record = true
needs_human ExecutiveAction.request_step_approval = true
needs_human _ = false

-- The two flags of a decision follow from its action: a transition is permitted unless the action
-- stops or awaits the human, and human approval is asked for the four actions that review or execute.
pub decide-flags :
    (s : ExecutiveState)
    → ((decide s).transition_permitted ≡ not (holds (decide s).next_action))
      × ((decide s).requires_human_approval ≡ needs_human (decide s).next_action)
unfolding decide decide_review decide_execution decide_failed decide_completed review_closed
decide-flags s = ground arith
