-- ===== src/Verification/Models.antt =====
-- core/src/cauco_core/verification/models.py. The `metadata` of a record, which no caller gives, is left
-- out.
use cauco.Base.{
  ℕ, String, Bool, ◌||◌, Option, none, some, List, ltb, not, length, nat_beq, ◌==◌, string_eq,
  if◌then◌else◌,
}
use cauco.Base.Ids.{is_opaque_id, is_sha256}

pub data VerificationOutcome : Type 0 where
  succeeded partial_success failed insufficient_evidence : VerificationOutcome

pub data VerificationRecommendation : Type 0 where
  complete stop request_review : VerificationRecommendation

pub record StepVerificationResult : Type 0 where
  pub step_index : ℕ
  pub tool_id : String
  pub operation_id : String
  pub outcome : VerificationOutcome
  pub method : String
  pub expected_conditions : List String
  pub observed_conditions : List String
  pub evidence_references : List String
  pub deviations : List String
  pub unresolved_conditions : List String
  pub rollback_available : Option Bool

-- `StepVerificationResult.__post_init__`: the message of the first check that fails.
unfoldable pub step_result_rejection : StepVerificationResult → Option String
step_result_rejection r =
    if ltb r.step_index 1
    then some "Verification step index must be positive."
    else if (r.tool_id == "") || (r.operation_id == "")
    then some "Verification step tool identity is required."
    else none

pub record VerificationRecord : Type 0 where
  pub verification_id : String
  pub execution_id : String
  pub review_id : String
  pub snapshot_digest : String
  pub created_at : ℕ
  pub outcome : VerificationOutcome
  pub recommendation : VerificationRecommendation
  pub method : String
  pub step_results : List StepVerificationResult
  pub evidence_references : List String
  pub deviations : List String
  pub unresolved_conditions : List String
  pub rollback_available : Option Bool

-- `VerificationRecord.__post_init__`
unfoldable pub verification_rejection : VerificationRecord → Option String
verification_rejection r =
    if not (is_opaque_id "verify_" r.verification_id)
    then some "Verification ID must be opaque and URL-safe."
    else if not (is_opaque_id "exec_" r.execution_id)
    then some "Execution ID must be opaque and URL-safe."
    else if not (is_sha256 r.snapshot_digest)
    then some "Verification snapshot digest must be a SHA-256 digest."
    else if nat_beq (length r.step_results) 0
    then some "Verification requires at least one step result."
    else none

-- The subclasses of `VerificationError`, `ValueError` and `KeyError`.
pub data VerificationError : Type 0 where
  not_found conflict validation capacity value_error : String → VerificationError
  key_error : VerificationError
