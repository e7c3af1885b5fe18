-- ===== src/Examples/Creations.antt =====
-- An execution that is created for an approved review.
use cauco.Base.{ℕ, ◌≡◌, refl, String, false, some, none, [], ◌∷◌, ok}
use cauco.Base.Dict.{Dict, get, put}
use cauco.Base.Ids.{is_opaque_id, is_sha256}
use cauco.Examples.{env, tick_token, tick_token-injective, digest}
use cauco.Examples.Plans
use cauco.Examples.Operations
use cauco.Examples.Outcomes
use cauco.Examples.Executions
use cauco.Reviews.Models.{copied, snapshot_rejection, decision_rejection}
use cauco.Execution.Models.{
  ExecutionStatus, StepExecutionStatus, AgentPlanExecutionRecord, ExecutionAuditEvent,
  record_rejection,
}
use cauco.Execution.Store.{make_room}
use cauco.Execution.Store.Steps.{store_new}
use cauco.Execution.Calls.Trace.{IsGood}
use cauco.Services.{Stores}
use cauco.Services.Create.{create_execution}
use cauco.Services.Create.Admissible.{create_execution-IsGood}
use cauco.Services.Create.Cleared.{IsFounded, create_execution-IsFounded}

abbrev stores : Stores
stores = record {
  reviews = Plans.store 9 Outcomes.approved;
  executions = Executions.empty;
  verifications = record { max_records = 1; records = []; by_execution = []; calls = 0 };
}

abbrev adapters : Dict (String × String) (Unit {0})
adapters = (("filesystem", "write_file"), tt) ∷ []

abbrev logged : String → ℕ → String → String → String → ExecutionAuditEvent
logged event_id timestamp event_type outcome message = record {
  event_id = event_id;
  event_type = event_type;
  timestamp = timestamp;
  execution_id = some "exec_0123456789_abcdefghijkl";
  review_id = Plans.id;
  outcome = outcome;
  safe_message = message;
  step_index = none;
  tool_id = none;
  operation_id = none;
  metadata = [];
}

abbrev created : AgentPlanExecutionRecord
created = record {
  execution_id = "exec_0123456789_abcdefghijkl";
  review_id = Plans.id;
  snapshot_digest = digest;
  status = ExecutionStatus.pending_execution;
  created_at = 1;
  started_at = none;
  completed_at = none;
  current_step_index = none;
  total_steps = 1;
  step_records =
      record {
        step_index = 1;
        tool_id = "filesystem";
        operation_id = "write_file";
        target = none;
        status = StepExecutionStatus.pending;
        started_at = none;
        completed_at = none;
        result = none;
        error = none;
        execution_performed = false;
      }
      ∷ [];
  execution_performed = false;
  failure_reason = none;
  audit_events =
      logged "audit_xx0123456789_abcdefghijkl" 3 "execution_created" "accepted"
        "Execution record created."
      ∷ logged "audit_xxxx0123456789_abcdefghijkl" 5 "integrity_verified" "success"
          "Approved snapshot integrity verified."
      ∷ [];
}

creates : create_execution env env Plans.hash 10 Operations.tools adapters Plans.id stores ≡ (
  ok created,
  (create_execution env env Plans.hash 10 Operations.tools adapters Plans.id stores).1,
)
unfolding create_execution get put copied snapshot_rejection decision_rejection is_opaque_id
    is_sha256 tick_token make_room record_rejection store_new
creates = refl

create_execution-IsFounded_example :
    IsFounded env Plans.hash 10 Operations.tools adapters Plans.id stores
      (create_execution env env Plans.hash 10 Operations.tools adapters Plans.id stores).1
      created
create_execution-IsFounded_example =
    create_execution-IsFounded env env Plans.hash 10 Operations.tools adapters Plans.id stores
      (create_execution env env Plans.hash 10 Operations.tools adapters Plans.id stores).1 created
      creates

create_execution-IsGood_example :
    IsGood env
      (create_execution env env Plans.hash 10 Operations.tools adapters Plans.id
        stores).1.executions
create_execution-IsGood_example =
    create_execution-IsGood env env Plans.hash 10 Operations.tools adapters Plans.id stores
      tick_token-injective Executions.empty-IsGood
