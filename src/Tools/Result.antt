-- ===== src/Tools/Result.antt =====
-- `ToolExecutionResult` of tools/src/cauco_tools/execution.py.
use cauco.Base.{ℕ, String, Bool, not, ◌&&◌, ◌||◌, Option, none, some, ltb, if◌then◌else◌}
use cauco.Base.Dict.{is_some}
use cauco.Tools.Value.{Fields}

pub record ToolExecutionResult : Type 0 where
  pub tool_id : String
  pub operation_id : String
  pub success : Bool
  pub started_at : ℕ
  pub completed_at : ℕ
  pub duration_ms : ℕ
  pub output : String
  pub structured_data : Fields
  pub error_code : Option String
  pub error_message : Option String
  pub truncated : Bool
  pub execution_performed : Bool
  pub mutation_performed : Bool

-- The message of the first `ValueError` that `__post_init__` raises. `duration_ms` is a natural
-- number here, so its own test cannot fail.
unfoldable pub rejection : ToolExecutionResult → Option String
rejection r =
    if not r.execution_performed
    then some "Adapter results must represent a real invocation."
    else if r.mutation_performed && not r.success
    then some "Failed results cannot report a completed mutation."
    else if ltb r.completed_at r.started_at
    then some "Execution result timestamps are inconsistent."
    else if r.success && (is_some r.error_code || is_some r.error_message)
    then some "Successful execution results cannot contain an error."
    else if not r.success && not (is_some r.error_code)
    then some "Failed execution results require a safe error code."
    else none
