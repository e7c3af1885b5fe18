-- ===== src/Mutations/Models.antt =====
-- core/src/cauco_core/mutations/models.py. Times are microseconds; the constant `warning` is left
-- out. `freeze` copies a JSON value into immutable containers, which is the same value here.
use cauco.Base.{ℕ, String, not, Option, none, some, leb, if◌then◌else◌}
use cauco.Base.Ids.{is_opaque_id, is_sha256}
use cauco.Tools.Value.{Value}

pub data MutationPreviewStatus : Type 0 where
  pending_confirmation confirmed expired cancelled consumed : MutationPreviewStatus

unfoldable pub preview_status_value : MutationPreviewStatus → String
preview_status_value MutationPreviewStatus.pending_confirmation = "pending_confirmation"
preview_status_value MutationPreviewStatus.confirmed = "confirmed"
preview_status_value MutationPreviewStatus.expired = "expired"
preview_status_value MutationPreviewStatus.cancelled = "cancelled"
preview_status_value MutationPreviewStatus.consumed = "consumed"

pub record MutationPreview : Type 0 where
  pub preview_id : String
  pub execution_id : String
  pub review_id : String
  pub step_index : ℕ
  pub tool_id : String
  pub operation_id : String
  pub target : Option String
  pub normalized_arguments : Value
  pub before_state : Value
  pub proposed_after_state : Value
  pub diff_preview : String
  pub preview_digest : String
  pub confirmation_phrase : String
  pub created_at : ℕ
  pub expires_at : ℕ
  pub status : MutationPreviewStatus

-- `__post_init__`: the message of the first check that fails.
unfoldable pub preview_rejection : MutationPreview → Option String
preview_rejection p =
    if not (is_opaque_id "mutprev_" p.preview_id)
    then some "Mutation preview ID must be opaque and URL-safe."
    else if not (is_sha256 p.preview_digest)
    then some "Mutation preview digest must be SHA-256."
    else if leb p.expires_at p.created_at
    then some "Mutation preview expiration is invalid."
    else none

-- The subclasses of `MutationError`, and Python's own two.
pub data MutationError : Type 0 where
  not_found : String → MutationError
  conflict : String → MutationError
  validation : String → MutationError
  forbidden : String → MutationError
  capacity : String → MutationError
  value_error : String → MutationError
  key_error : MutationError
