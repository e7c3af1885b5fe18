-- ===== src/Services/Resolve.antt =====
-- core/src/cauco_core/executive/resolver.py: `ExecutiveStateResolver`. The flag tells whether the
-- resolver was given a verification store.
pub mod Linked
use cauco.Base.{
  ℕ, String, Bool, true, false, Option, none, some, List, [], ◌∷◌, ◌==◌, string_eq, Result, ok,
  raised, Method, return, raise, ensure, ◌>>=◌, ◌>>◌, if◌then◌else◌,
}
use cauco.Base.Dict.{is_some}
use cauco.Base.Environment.{Environment}
use cauco.Reviews.Models.{AgentPlanReviewRecord}
use cauco.Reviews.Store.Methods.{get_review}
use cauco.Execution.Models.{ExecutionStatus, AgentPlanExecutionRecord}
use cauco.Execution.Store.{list_executions}
use cauco.Verification.Models.{
  VerificationOutcome, VerificationRecord, VerificationError, not_found,
}
use cauco.Verification.Service.{is_succeeded}
use cauco.Verification.Store.{VerificationStore, for_execution}
use cauco.Executive.Models.{IntentStatus, ExecutiveState, state_rejection}
use cauco.Services.{
  Stores, ServiceError, ServiceMethod, resolution_error, value_error, on_reviews, on_executions,
  on_verifications,
}

-- `except VerificationNotFoundError: verification = None`
unfoldable pub none_if_missing :
    Result VerificationError VerificationRecord
    → Result VerificationError (Option VerificationRecord)
none_if_missing (ok v) = ok (some v)
none_if_missing (raised (not_found message)) = ok none
none_if_missing (raised e) = raised e

unfoldable pub find_verification :
    String → Method VerificationError VerificationStore (Option VerificationRecord)
unfolding for_execution none_if_missing
find_verification execution_id s =
    let (r, t) = for_execution execution_id s in (none_if_missing r, t)

abbrev pub status_of : Option AgentPlanExecutionRecord → Option ExecutionStatus
status_of none = none
status_of (some e) = some e.status

abbrev pub performed_in : Option AgentPlanExecutionRecord → Bool
performed_in none = false
performed_in (some e) = e.execution_performed

abbrev pub success_of : Option VerificationRecord → Option Bool
success_of none = none
success_of (some v) = some (is_succeeded v.outcome)

-- The state that `resolve` builds.
unfoldable pub state_of :
    AgentPlanReviewRecord
    → Option AgentPlanExecutionRecord
    → Option VerificationRecord
    → ExecutiveState
state_of review execution verification = record {
  intent_status = IntentStatus.clear;
  perception_available = true;
  plan_available = true;
  review_status = some review.status;
  execution_status = status_of execution;
  execution_record_available = is_some execution;
  execution_performed = performed_in execution;
  outcome_verified = is_some verification;
  verification_succeeded = success_of verification;
}

-- `__post_init__` raises `ValueError`.
unfoldable pub accepted : Option String → ExecutiveState → ServiceMethod ExecutiveState
accepted none state = return state
accepted (some message) state = raise (value_error message)

unfoldable pub built :
    AgentPlanReviewRecord
    → Option AgentPlanExecutionRecord
    → Option VerificationRecord
    → ServiceMethod ExecutiveState
unfolding state_of accepted state_rejection
built review execution verification =
    let state = state_of review execution verification in accepted (state_rejection state) state

-- `resolve`, once the verification is looked up.
unfoldable pub with_verification :
    AgentPlanReviewRecord
    → AgentPlanExecutionRecord
    → Option VerificationRecord
    → ServiceMethod ExecutiveState
unfolding built
with_verification review execution none = built review (some execution) none
with_verification review execution (some v) = do
  ensure (v.execution_id == execution.execution_id)
      (resolution_error "Verification record does not belong to the resolved execution.")
  ensure (v.review_id == review.review_id)
      (resolution_error "Verification record does not belong to the requested review.")
  ensure (v.snapshot_digest == review.snapshot_digest)
      (resolution_error "Verification and review snapshot digests do not match.")
  built review (some execution) (some v)

-- `resolve`, once the execution is checked.
unfoldable pub with_execution :
    Bool → AgentPlanReviewRecord → AgentPlanExecutionRecord → ServiceMethod ExecutiveState
unfolding find_verification with_verification
with_execution has_store review execution =
    if has_store
    then on_verifications (find_verification execution.execution_id)
      >>= with_verification review execution
    else with_verification review execution none

-- `resolve`, once the executions of the review are listed.
unfoldable pub with_executions :
    Bool → AgentPlanReviewRecord → List AgentPlanExecutionRecord → ServiceMethod ExecutiveState
unfolding built with_execution
with_executions has_store review [] = built review none none
with_executions has_store review (execution ∷ rest) = do
  ensure (execution.review_id == review.review_id)
      (resolution_error "Execution record does not belong to the requested review.")
  ensure (execution.snapshot_digest == review.snapshot_digest)
      (resolution_error "Execution and review snapshot digests do not match.")
  with_execution has_store review execution

-- `resolve`
unfoldable pub resolve : Environment → Bool → String → ServiceMethod ExecutiveState
unfolding get_review list_executions with_executions
resolve env has_store review_id = on_reviews (get_review env review_id) >>= λ review.
    on_executions (list_executions none (some review_id) 1) >>= with_executions has_store review
