-- ===== src/Execution/Models.antt =====
-- core/src/cauco_core/execution/models.py. Times are microseconds; the constant `warning` text of
-- a record is left out. Events and steps carry what the store writes into them.
use cauco.Base.{
  ℕ, String, Bool, true, false, not, Option, none, some, List, length, ◌==◌, nat_eq, if◌then◌else◌,
}
use cauco.Base.Ids.{is_opaque_id, is_sha256}
use cauco.Tools.Result.{ToolExecutionResult}

pub data ExecutionStatus : Type 0 where
  pending_execution running completed failed cancelled : ExecutionStatus

pub data StepExecutionStatus : Type 0 where
  pending running completed failed skipped cancelled : StepExecutionStatus

-- The values of the `StrEnum` members.
unfoldable pub status_value : ExecutionStatus → String
status_value ExecutionStatus.pending_execution = "pending_execution"
status_value ExecutionStatus.running = "running"
status_value ExecutionStatus.completed = "completed"
status_value ExecutionStatus.failed = "failed"
status_value ExecutionStatus.cancelled = "cancelled"

unfoldable pub step_status_value : StepExecutionStatus → String
step_status_value StepExecutionStatus.pending = "pending"
step_status_value StepExecutionStatus.running = "running"
step_status_value StepExecutionStatus.completed = "completed"
step_status_value StepExecutionStatus.failed = "failed"
step_status_value StepExecutionStatus.skipped = "skipped"
step_status_value StepExecutionStatus.cancelled = "cancelled"

-- The values of an event's `metadata`; no caller passes a float.
pub data Scalar : Type 0 where
  text : String → Scalar
  integer : ℕ → Scalar
  flag : Bool → Scalar
  null : Scalar

pub record ExecutionAuditEvent : Type 0 where
  pub event_id : String
  pub event_type : String
  pub timestamp : ℕ
  pub execution_id : Option String
  pub review_id : String
  pub outcome : String
  pub safe_message : String
  pub step_index : Option ℕ
  pub tool_id : Option String
  pub operation_id : Option String
  pub metadata : List (String × Scalar)

pub record AgentPlanStepExecutionRecord : Type 0 where
  pub step_index : ℕ
  pub tool_id : String
  pub operation_id : String
  pub target : Option String
  pub status : StepExecutionStatus
  pub started_at : Option ℕ
  pub completed_at : Option ℕ
  pub result : Option ToolExecutionResult
  pub error : Option String
  pub execution_performed : Bool

pub record AgentPlanExecutionRecord : Type 0 where
  pub execution_id : String
  pub review_id : String
  pub snapshot_digest : String
  pub status : ExecutionStatus
  pub created_at : ℕ
  pub started_at : Option ℕ
  pub completed_at : Option ℕ
  pub current_step_index : Option ℕ
  pub total_steps : ℕ
  pub step_records : List AgentPlanStepExecutionRecord
  pub execution_performed : Bool
  pub failure_reason : Option String
  pub audit_events : List ExecutionAuditEvent

-- The classes of `ExecutionError`, each with its message, and Python's own two.
pub data ExecutionError : Type 0 where
  not_found : String → ExecutionError
  conflict : String → ExecutionError
  validation : String → ExecutionError
  forbidden : String → ExecutionError
  capacity : String → ExecutionError
  value_error : String → ExecutionError
  key_error : ExecutionError

-- `status in {PENDING_EXECUTION, RUNNING}`
abbrev pub is_open : ExecutionStatus → Bool
is_open ExecutionStatus.pending_execution = true
is_open ExecutionStatus.running = true
is_open _ = false

-- `status in {COMPLETED, FAILED, CANCELLED}`
abbrev pub is_terminal : ExecutionStatus → Bool
is_terminal ExecutionStatus.completed = true
is_terminal ExecutionStatus.failed = true
is_terminal ExecutionStatus.cancelled = true
is_terminal _ = false

abbrev pub is_failed : ExecutionStatus → Bool
is_failed ExecutionStatus.failed = true
is_failed _ = false

abbrev pub step_is_pending : StepExecutionStatus → Bool
step_is_pending StepExecutionStatus.pending = true
step_is_pending _ = false

abbrev pub step_is_running : StepExecutionStatus → Bool
step_is_running StepExecutionStatus.running = true
step_is_running _ = false

abbrev pub step_is_failed : StepExecutionStatus → Bool
step_is_failed StepExecutionStatus.failed = true
step_is_failed _ = false

-- `status in {COMPLETED, SKIPPED}`
abbrev pub step_is_done : StepExecutionStatus → Bool
step_is_done StepExecutionStatus.completed = true
step_is_done StepExecutionStatus.skipped = true
step_is_done _ = false

-- The message of the first `ValueError` of `__post_init__`.
unfoldable pub record_rejection : AgentPlanExecutionRecord → Option String
record_rejection r =
    if not (is_opaque_id "exec_" r.execution_id)
    then some "Execution ID must be opaque and URL-safe."
    else if not (is_sha256 r.snapshot_digest)
    then some "Execution snapshot digest must be a SHA-256 digest."
    else if not (r.total_steps == length r.step_records)
    then some "Execution step count is inconsistent."
    else none
