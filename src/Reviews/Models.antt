-- ===== src/Reviews/Models.antt =====
-- agents/src/cauco_agents/review.py.
use cauco.Base.{
  ℕ, String, Bool, true, false, not, ◌&&◌, ◌||◌, Option, none, some, List, [], ltb, leb, ◌==◌,
  string_eq, if◌then◌else◌,
}
use cauco.Base.Dict.{is_some}
use cauco.Base.Ids.{is_opaque_id, is_sha256}
use cauco.Tools.Value.{Value}
use cauco.Agents.Models.{AgentRouteResult, AgentContext, AgentPlan}

pub data AgentPlanReviewStatus : Type 0 where
  pending_review approved rejected cancelled expired : AgentPlanReviewStatus

unfoldable pub review_status_value : AgentPlanReviewStatus → String
review_status_value AgentPlanReviewStatus.pending_review = "pending_review"
review_status_value AgentPlanReviewStatus.approved = "approved"
review_status_value AgentPlanReviewStatus.rejected = "rejected"
review_status_value AgentPlanReviewStatus.cancelled = "cancelled"
review_status_value AgentPlanReviewStatus.expired = "expired"

abbrev pub is_pending : AgentPlanReviewStatus → Bool
is_pending AgentPlanReviewStatus.pending_review = true
is_pending _ = false

abbrev pub is_approved : AgentPlanReviewStatus → Bool
is_approved AgentPlanReviewStatus.approved = true
is_approved _ = false

abbrev pub is_rejected : AgentPlanReviewStatus → Bool
is_rejected AgentPlanReviewStatus.rejected = true
is_rejected _ = false

abbrev pub is_cancelled : AgentPlanReviewStatus → Bool
is_cancelled AgentPlanReviewStatus.cancelled = true
is_cancelled _ = false

abbrev pub is_expired : AgentPlanReviewStatus → Bool
is_expired AgentPlanReviewStatus.expired = true
is_expired _ = false

abbrev pub approval_warning_text : String
approval_warning_text =
    "Approval authorizes the reviewed plan snapshot only. No action was executed."

pub record AgentPlanReviewRecord : Type 0 where
  pub review_id : String
  pub status : AgentPlanReviewStatus
  pub created_at : ℕ
  pub expires_at : ℕ
  pub updated_at : ℕ
  pub instruction : String
  pub selected_agent_id : String
  pub routing : AgentRouteResult
  pub context : AgentContext
  pub plan : AgentPlan
  pub snapshot_digest : String
  pub execution_authorized : Bool
  pub execution_performed : Bool
  pub approved_at : Option ℕ
  pub rejected_at : Option ℕ
  pub cancelled_at : Option ℕ
  pub expired_at : Option ℕ
  pub reviewer_note : Option String
  pub rejection_reason : Option String
  pub cancellation_reason : Option String
  pub approval_warning : Option String
  pub metadata : List (String × Value)

abbrev pub same_bool : Bool → Bool → Bool
same_bool true b = b
same_bool false b = not b

-- `value == text`, where there may be no value.
abbrev pub is_text : Option String → String → Bool
is_text none text = false
is_text (some value) text = value == text

-- The checks of `__post_init__` on the snapshot and its times.
unfoldable pub snapshot_rejection : AgentPlanReviewRecord → Option String
snapshot_rejection r =
    if not (is_opaque_id "planrev_" r.review_id)
    then some "Plan review ID must be an opaque URL-safe identifier."
    else if not (is_sha256 r.snapshot_digest)
    then some "Plan review snapshot digest must be a SHA-256 hex digest."
    else if r.execution_performed
    then some "Plan review records cannot report performed execution."
    else if not (same_bool r.execution_authorized (is_approved r.status))
    then some "Only approved plan reviews can authorize future execution."
    else if leb r.expires_at r.created_at || ltb r.updated_at r.created_at
    then some "Plan review timestamps are inconsistent."
    else if not (r.instruction == r.context.instruction)
    then some "The reviewed instruction must match the resolved context."
    else if not (r.selected_agent_id == r.plan.agent_id)
    then some "The selected agent must match the reviewed plan."
    else if not (r.context.agent_id == r.selected_agent_id)
    then some "The reviewed context must match the selected agent."
    else if not (is_text r.routing.selected_agent_id r.selected_agent_id)
    then some "The reviewed routing must match the selected agent."
    else none

-- The checks on the decision.
unfoldable pub decision_rejection : AgentPlanReviewRecord → Option String
decision_rejection r =
    if is_approved r.status
      && (not (is_some r.approved_at) || not (is_text r.approval_warning approval_warning_text))
    then some "Approved plan reviews require an approval timestamp and warning."
    else if not (is_approved r.status) && (is_some r.approved_at || is_some r.approval_warning)
    then some "Only approved plan reviews can contain approval metadata."
    else if not (same_bool (is_rejected r.status) (is_some r.rejected_at))
    then some "Rejected plan review timestamps are inconsistent."
    else if not (same_bool (is_rejected r.status) (is_some r.rejection_reason))
    then some "Rejected plan reviews require a rejection reason."
    else if not (same_bool (is_cancelled r.status) (is_some r.cancelled_at))
    then some "Cancelled plan review timestamps are inconsistent."
    else if not (is_cancelled r.status) && is_some r.cancellation_reason
    then some "Only cancelled plan reviews can contain a cancellation reason."
    else if not (same_bool (is_expired r.status) (is_some r.expired_at))
    then some "Expired plan review timestamps are inconsistent."
    else none

abbrev pub first_message : Option String → Option String → Option String
first_message none b = b
first_message (some a) b = some a

-- `__post_init__`: the message of the first check that fails.
abbrev pub review_rejection : AgentPlanReviewRecord → Option String
review_rejection r = first_message (snapshot_rejection r) (decision_rejection r)

-- `_copy_context` and `_copy_plan` leave a field out, which the copy then has by its default; the copy
-- of a routing is the same value.
unfoldable pub copy_context : AgentContext → AgentContext
copy_context context = record context { learning_guidance = [] }

unfoldable pub copy_plan : AgentPlan → AgentPlan
copy_plan plan = record plan { plan_version = 1 }

unfoldable pub copied : AgentPlanReviewRecord → AgentPlanReviewRecord
unfolding copy_context copy_plan
copied r = record r { context = copy_context r.context; plan = copy_plan r.plan }
