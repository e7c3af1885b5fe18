-- ===== src/Verification/Service.antt =====
-- core/src/cauco_core/verification/service.py: what `VerificationService` concludes from an execution.
-- `str(int)` of an f-string is a parameter.
use cauco.Base.{
  ℕ, String, str_append, Bool, true, false, not, ◌&&◌, Option, none, some, List, [], ◌∷◌, ◌==◌,
  string_eq, any, all, Result, ok, raised, if◌then◌else◌,
}
use cauco.Tools.Value.{Value, get}
use cauco.Tools.Result.{ToolExecutionResult}
use cauco.Execution.Models.{ExecutionStatus, AgentPlanStepExecutionRecord, AgentPlanExecutionRecord}
use cauco.Verification.Models.{
  VerificationOutcome, VerificationRecommendation, StepVerificationResult, step_result_rejection,
}

abbrev pub method_name : String
method_name = "approved_plan_execution_evidence_v1"

abbrev pub as_flag : Option Value → Option Bool
as_flag (some (Value.flag b)) = some b
as_flag _ = none

-- `_rollback_available`
unfoldable pub rollback_of : ToolExecutionResult → Option Bool
rollback_of result = as_flag (get result.structured_data "rollback_available")

-- `structured_data.get("verification_passed")`, which is compared with `True` and `False` alone.
unfoldable pub passed_of : ToolExecutionResult → Option Bool
passed_of result = as_flag (get result.structured_data "verification_passed")

-- The result for a step, with the fields that every branch fills in the same way.
abbrev pub concluded :
    AgentPlanStepExecutionRecord
    → VerificationOutcome
    → List String
    → List String
    → List String
    → List String
    → Option Bool
    → StepVerificationResult
concluded step outcome evidence observed deviations unresolved rollback = record {
  step_index = step.step_index;
  tool_id = step.tool_id;
  operation_id = step.operation_id;
  outcome = outcome;
  method = method_name;
  expected_conditions = [];
  observed_conditions = observed;
  evidence_references = evidence;
  deviations = deviations;
  unresolved_conditions = unresolved;
  rollback_available = rollback;
}

-- `value or default`, where the empty text is no value.
abbrev pub or_text : Option String → String → String
or_text none default = default
or_text (some text) default = if text == "" then default else text

-- The end of `_verify_step`: the adapter reported success.
unfoldable pub verify_passed :
    AgentPlanStepExecutionRecord
    → ToolExecutionResult
    → List String
    → Option Bool
    → StepVerificationResult
unfolding rollback_of
verify_passed step result evidence (some true) =
    concluded step VerificationOutcome.succeeded evidence
      ("The adapter reported successful post-action verification." ∷ []) [] [] (rollback_of result)
verify_passed step result evidence (some false) =
    concluded step VerificationOutcome.failed evidence []
      ("Post-action verification explicitly failed." ∷ []) [] (rollback_of result)
verify_passed step result evidence none =
    concluded step VerificationOutcome.insufficient_evidence evidence
      ("The adapter completed successfully." ∷ []) []
      ((if result.mutation_performed
          then "A persistent mutation was reported without explicit post-action verification evidence."
          else "No explicit success criterion or independent verification evidence is available.")
        ∷ [])
      (rollback_of result)

-- `_verify_step`, once there is a result.
unfoldable pub verify_result :
    AgentPlanStepExecutionRecord → ToolExecutionResult → List String → StepVerificationResult
unfolding verify_passed rollback_of passed_of
verify_result step result evidence =
    if not (result.tool_id == step.tool_id && result.operation_id == step.operation_id)
    then concluded step VerificationOutcome.failed evidence []
        ("Tool result identity does not match the approved step." ∷ []) [] none
    else if result.truncated
    then concluded step VerificationOutcome.insufficient_evidence evidence
        ("The operation produced bounded truncated output." ∷ []) []
        ("Relevant verification output may be unavailable." ∷ []) (rollback_of result)
    else if not result.success
    then concluded step VerificationOutcome.failed evidence
        ("The adapter reported operation failure." ∷ [])
        (or_text result.error_code "The operation failed without a usable error code." ∷ []) []
        (rollback_of result)
    else verify_passed step result evidence (passed_of result)

-- Text in an f-string.
abbrev pub joined : List String → String
joined [] = ""
joined (s ∷ ss) = str_append s (joined ss)

abbrev pub built_step_result :
    Option String → StepVerificationResult → Result String StepVerificationResult
built_step_result none r = ok r
built_step_result (some message) r = raised message

abbrev pub with_step_result :
    Result String StepVerificationResult
    → Result String (List StepVerificationResult)
    → Result String (List StepVerificationResult)
with_step_result (raised message) rest = raised message
with_step_result (ok r) (raised message) = raised message
with_step_result (ok r) (ok rs) = ok (r ∷ rs)

module _ (decimal : ℕ → String) where
  abbrev pub identity_of : AgentPlanStepExecutionRecord → String
  identity_of step = joined (
      "execution-step:"
      ∷ decimal step.step_index
      ∷ ":"
      ∷ step.tool_id
      ∷ ":"
      ∷ step.operation_id
      ∷ [])

  -- `_verify_step`, by its result.
  unfoldable pub verify_performed :
      AgentPlanStepExecutionRecord → Option ToolExecutionResult → StepVerificationResult
  unfolding verify_result
  verify_performed step none =
      concluded step VerificationOutcome.insufficient_evidence (identity_of step ∷ []) [] []
        ("No structured tool result is available." ∷ []) none
  verify_performed step (some result) = verify_result step result (
      identity_of step
      ∷ joined ("tool-result:" ∷ result.tool_id ∷ ":" ∷ result.operation_id ∷ [])
      ∷ [])

  -- `_verify_step`: what the result of the step is built of.
  unfoldable pub findings : AgentPlanStepExecutionRecord → StepVerificationResult
  unfolding verify_performed
  findings step =
      if not step.execution_performed
      then concluded step VerificationOutcome.insufficient_evidence (identity_of step ∷ []) [] []
          ("The approved operation was not performed." ∷ []) none
      else verify_performed step step.result

  -- `_verify_step`: `__post_init__` of the result raises `ValueError`, with this message.
  unfoldable pub verify_step : AgentPlanStepExecutionRecord → Result String StepVerificationResult
  unfolding findings step_result_rejection
  verify_step step = built_step_result (step_result_rejection (findings step)) (findings step)

  -- The results of all steps, in order; the first that cannot be built raises.
  unfoldable pub verify_steps :
      List AgentPlanStepExecutionRecord → Result String (List StepVerificationResult)
  unfolding verify_step
  verify_steps [] = ok []
  verify_steps (step ∷ steps) = with_step_result (verify_step step) (verify_steps steps)

abbrev pub is_succeeded : VerificationOutcome → Bool
is_succeeded VerificationOutcome.succeeded = true
is_succeeded _ = false

abbrev pub is_failed : VerificationOutcome → Bool
is_failed VerificationOutcome.failed = true
is_failed _ = false

abbrev pub is_some_step : List StepVerificationResult → Bool
is_some_step [] = false
is_some_step (r ∷ rs) = true

-- `_overall_outcome`: the set of the outcomes is `{SUCCEEDED}` if there is one and all of them are that.
unfoldable pub overall_outcome : List StepVerificationResult → VerificationOutcome
overall_outcome results =
    if any (λ r. is_failed r.outcome) results
    then VerificationOutcome.failed
    else if is_some_step results && all (λ r. is_succeeded r.outcome) results
    then VerificationOutcome.succeeded
    else if any (λ r. is_succeeded r.outcome) results
    then VerificationOutcome.partial_success
    else VerificationOutcome.insufficient_evidence

-- `_recommendation`
unfoldable pub recommendation : VerificationOutcome → VerificationRecommendation
recommendation VerificationOutcome.succeeded = VerificationRecommendation.complete
recommendation VerificationOutcome.insufficient_evidence = VerificationRecommendation.request_review
recommendation VerificationOutcome.failed = VerificationRecommendation.stop
recommendation VerificationOutcome.partial_success = VerificationRecommendation.stop

abbrev pub is_over : ExecutionStatus → Bool
is_over ExecutionStatus.completed = true
is_over ExecutionStatus.failed = true
is_over _ = false

-- `_validate_execution`: the message of the conflict, if there is one.
unfoldable pub execution_refusal : String → AgentPlanExecutionRecord → Option String
execution_refusal digest execution =
    if not (execution.snapshot_digest == digest)
    then some "Execution snapshot does not match the approved review."
    else if not (is_over execution.status)
    then some "Only terminal performed executions can be verified."
    else if not execution.execution_performed
    then some "Verification requires a performed execution."
    else none
