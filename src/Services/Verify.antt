-- ===== src/Services/Verify.antt =====
-- core/src/cauco_core/verification/service.py: `verify`.
use cauco.Base.{
  ℕ, String, Bool, true, false, not, ◌&&◌, Option, none, some, List, [], ◌∷◌, ◌++◌, any, string_eq,
  Result, ok, raised, raise, ensure, ◌>>=◌, if◌then◌else◌,
}
use cauco.Base.Environment.{Environment}
use cauco.Tools.Value.{Value}
use cauco.Reviews.Models.{AgentPlanReviewRecord, is_approved}
use cauco.Reviews.Store.Methods.{get_review, verify_integrity}
use cauco.Execution.Models.{AgentPlanExecutionRecord}
use cauco.Execution.Store.{list_executions}
use cauco.Verification.Models.{StepVerificationResult, VerificationRecord, conflict, validation}
use cauco.Verification.Service.{
  method_name, verify_steps, overall_outcome, recommendation, execution_refusal,
}
use cauco.Verification.Store.{VerificationFields, create}
use cauco.Services.{
  ServiceMethod, of_verification, value_error, on_reviews, on_executions, on_verifications,
}

-- The texts of all step results, in order.
unfoldable pub gathered :
    (StepVerificationResult → List String) → List StepVerificationResult → List String
gathered f [] = []
gathered f (r ∷ rs) = f r ++ gathered f rs

abbrev pub is_flag : Bool → Option Bool → Bool
is_flag true (some b) = b
is_flag false (some b) = not b
is_flag b none = false

-- The only value in the set of those that are not `None`.
unfoldable pub common_rollback : List StepVerificationResult → Option Bool
common_rollback rs =
    let yes_there = any (λ r. is_flag true r.rollback_available) rs in
    let no_there = any (λ r. is_flag false r.rollback_available) rs in
    if yes_there && not no_there
    then some true
    else if no_there && not yes_there
    then some false
    else none

-- The arguments of `verification_store.create`.
unfoldable pub verification_fields :
    AgentPlanReviewRecord
    → AgentPlanExecutionRecord
    → List StepVerificationResult
    → VerificationFields
unfolding gathered common_rollback
verification_fields review execution results = record {
  execution_id = execution.execution_id;
  review_id = review.review_id;
  snapshot_digest = review.snapshot_digest;
  outcome = overall_outcome results;
  recommendation = recommendation (overall_outcome results);
  method = method_name;
  step_results = results;
  evidence_references = gathered (λ r. r.evidence_references) results;
  deviations = gathered (λ r. r.deviations) results;
  unresolved_conditions = gathered (λ r. r.unresolved_conditions) results;
  rollback_available = common_rollback results;
}

module _ (env : Environment) (decimal : ℕ → String) (review : AgentPlanReviewRecord) where
  -- `verify`, once the results of the steps are built, or their building raised.
  unfoldable pub with_results :
      AgentPlanExecutionRecord
      → Result String (List StepVerificationResult)
      → ServiceMethod VerificationRecord
  unfolding verification_fields create
  with_results execution (raised message) = raise (value_error message)
  with_results execution (ok results) =
      on_verifications (create env (verification_fields review execution results))

  -- `verify`, once the execution is checked.
  unfoldable pub conclude_checked :
      Option String → AgentPlanExecutionRecord → ServiceMethod VerificationRecord
  unfolding with_results verify_steps
  conclude_checked (some message) execution = raise (of_verification (conflict message))
  conclude_checked none execution =
      with_results execution (verify_steps decimal execution.step_records)

  -- `verify`, once the executions of the review are listed.
  unfoldable pub conclude : List AgentPlanExecutionRecord → ServiceMethod VerificationRecord
  unfolding conclude_checked execution_refusal
  conclude [] = raise (of_verification (validation "No execution record exists for this review."))
  conclude (execution ∷ rest) =
      conclude_checked (execution_refusal review.snapshot_digest execution) execution

module _ (env : Environment) (decimal : ℕ → String) (review_id : String)
    (review : AgentPlanReviewRecord) where
  -- `verify`, from the listing of the executions on.
  unfoldable pub verify_listed : ServiceMethod VerificationRecord
  unfolding list_executions conclude
  verify_listed =
      on_executions (list_executions none (some review_id) 1) >>= conclude env decimal review

  -- `verify`, from the test of the review's status on.
  unfoldable pub verify_status : ServiceMethod VerificationRecord
  unfolding verify_listed
  verify_status =
      ensure (is_approved review.status)
        (of_verification (conflict "Only approved plan reviews can be verified."))
      >>= λ _. verify_listed

  -- `verify`, once the review is read.
  unfoldable pub verify_read : (Value → String) → ServiceMethod VerificationRecord
  unfolding verify_integrity verify_status
  verify_read digest = on_reviews (verify_integrity digest review) >>= λ _. verify_status

-- `verify`: each store has its own clock and token source.
unfoldable pub verify :
    (review_env verification_env : Environment)
    → (Value → String)
    → (ℕ → String)
    → String
    → ServiceMethod VerificationRecord
unfolding get_review verify_read
verify review_env verification_env digest decimal review_id =
    on_reviews (get_review review_env review_id) >>= λ review.
    verify_read verification_env decimal review_id review digest
