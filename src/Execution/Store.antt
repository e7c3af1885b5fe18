-- ===== src/Execution/Store.antt =====
-- core/src/cauco_core/execution/store.py: `ExecutionStore`. Each method is a `Method` of the store;
-- the lock makes it one step, so it is not shown. `replace` runs `__post_init__` again, over fields
-- that none of these methods changes; the check is made where a record is built.
pub mod Steps
pub mod Recovering
use Prim.Native.String.{compare}
use text.Mathlib.Text.{is_lt}
use cauco.Base.{
  ℕ, suc, zero, ◌+◌, String, str_append, ◌≡◌, Bool, true, false, not, ◌&&◌, ◌||◌, Option, none,
  some, List, [], ◌∷◌, ◌++◌, map, ◌==◌, nat_eq, string_eq, ltb, leb, nat_beq, length, set, take,
  drop, any, all, keep, Result, ok, raised, Method, return, raise, ask, need, update, ensure, ◌>>=◌,
  ◌>>◌, if◌then◌else◌,
}
use cauco.Base.Dict.{Dict, get, put, remove, size, values, is_some}
use cauco.Base.Sort.{sorted, reversed}
use cauco.Base.Environment.{Environment}
use cauco.Tools.Result.{ToolExecutionResult}
use cauco.Execution.Models.{
  ExecutionStatus, StepExecutionStatus, status_value, step_status_value, Scalar,
  ExecutionAuditEvent, AgentPlanStepExecutionRecord, AgentPlanExecutionRecord, ExecutionError,
  not_found, conflict, capacity, value_error, key_error, is_open, is_terminal, is_failed,
  step_is_pending, step_is_running, step_is_failed, step_is_done, record_rejection,
}

pub record ExecutionStore : Type 0 where
  pub max_records : ℕ
  pub records : Dict String AgentPlanExecutionRecord
  pub by_review : Dict String String
  pub rejected_events : List ExecutionAuditEvent
  pub calls : ℕ  -- how often the environment was asked

-- `__init__`
unfoldable pub new : ℕ → Result ExecutionError ExecutionStore
new max_records =
    if leb 1 max_records && leb max_records 10000
    then ok (record {
      max_records = max_records;
      records = [];
      by_review = [];
      rejected_events = [];
      calls = 0;
    })
    else raised (value_error "Execution capacity must be between 1 and 10000.")

-- The keyword arguments of `_event`.
pub record EventFields : Type 0 where
  pub step_index : Option ℕ
  pub tool_id : Option String
  pub operation_id : Option String
  pub metadata : List (String × Scalar)

abbrev pub no_fields : EventFields
no_fields = record { step_index = none; tool_id = none; operation_id = none; metadata = [] }

abbrev pub fields_of : ℕ → AgentPlanStepExecutionRecord → EventFields
fields_of i step = record {
  step_index = some i;
  tool_id = some step.tool_id;
  operation_id = some step.operation_id;
  metadata = [];
}

abbrev pub StoreMethod : Type 0 → Type 0
StoreMethod A = Method ExecutionError ExecutionStore A

-- `_record`
unfoldable pub find_record : String → StoreMethod AgentPlanExecutionRecord
find_record id s = need (get s.records id) (not_found "Execution record not found.") s

-- The loop of `_step`, from a position on.
unfoldable pub locate :
    ℕ → List AgentPlanStepExecutionRecord → ℕ → Option (ℕ × AgentPlanStepExecutionRecord)
locate position [] i = none
locate position (step ∷ steps) i =
    let rest = locate (suc position) steps i in
    if step.step_index == i then some (position, step) else rest

-- `_step`
unfoldable pub find_step :
    AgentPlanExecutionRecord → ℕ → StoreMethod (ℕ × AgentPlanStepExecutionRecord)
unfolding locate
find_step r i = need (locate 0 r.step_records i) (not_found "Execution step not found.")

-- `self._records[execution_id] = record`
unfoldable pub save : String → AgentPlanExecutionRecord → StoreMethod (Unit {0})
save id r = update (λ s. record s { records = put s.records id r })

-- `del self._records[execution_id]`
unfoldable pub delete : String → StoreMethod (Unit {0})
delete id s =
    if is_some (get s.records id)
    then (ok tt, record s { records = remove s.records id })
    else (raised key_error, s)

-- The sort key `(item.created_at, item.execution_id)`.
abbrev pub created_before : AgentPlanExecutionRecord → AgentPlanExecutionRecord → Bool
created_before a b =
    ltb a.created_at b.created_at
    || (nat_beq a.created_at b.created_at && is_lt (compare a.execution_id b.execution_id))

abbrev pub or_else {ℓ} : {A : Type ℓ} → Option A → A → A
or_else none b = b
or_else (some a) b = a

-- The sort key `(item.completed_at or item.created_at, item.execution_id)`.
abbrev pub ended_before : AgentPlanExecutionRecord → AgentPlanExecutionRecord → Bool
ended_before a b =
    let x = or_else a.completed_at a.created_at in
    let y = or_else b.completed_at b.created_at in
    ltb x y || (nat_beq x y && is_lt (compare a.execution_id b.execution_id))

-- The loop of `_make_room` over the terminal records, oldest first.
unfoldable pub evict : List AgentPlanExecutionRecord → StoreMethod (Unit {0})
unfolding delete
evict [] = raise (capacity "Execution capacity is full of active records.")
evict (item ∷ items) =
    let rest = evict items in
    do
      delete item.execution_id
      update (λ s. record s { by_review = remove s.by_review item.review_id })
      room ← ask (λ s. ltb (size s.records) s.max_records)
      if room then return tt else rest

-- `_make_room`
unfoldable pub make_room : StoreMethod (Unit {0})
unfolding evict sorted
make_room s =
    if ltb (size s.records) s.max_records
    then (ok tt, s)
    else evict (sorted ended_before (keep (λ r. is_terminal r.status) (values s.records))) s

-- `get`
unfoldable pub get_execution : String → StoreMethod AgentPlanExecutionRecord
unfolding find_record
get_execution id = find_record id

-- `status is None or item.status is status`
abbrev pub same_status : ExecutionStatus → ExecutionStatus → Bool
same_status ExecutionStatus.pending_execution ExecutionStatus.pending_execution = true
same_status ExecutionStatus.running ExecutionStatus.running = true
same_status ExecutionStatus.completed ExecutionStatus.completed = true
same_status ExecutionStatus.failed ExecutionStatus.failed = true
same_status ExecutionStatus.cancelled ExecutionStatus.cancelled = true
same_status _ _ = false

abbrev pub unless_none {ℓ} : {A : Type ℓ} → Option A → (A → Bool) → Bool
unless_none none test = true
unless_none (some a) test = test a

-- `list`
unfoldable pub list_executions :
    Option ExecutionStatus → Option String → ℕ → StoreMethod (List AgentPlanExecutionRecord)
unfolding sorted
list_executions status review_id limit =
    if leb 1 limit && leb limit 100
    then ask (λ s. take limit (
        sorted (reversed created_before) (
          keep
            (λ r.
              unless_none status (λ x. same_status r.status x)
              && unless_none review_id (λ x. r.review_id == x))
            (values s.records))))
    else raise (value_error "Execution list limit must be between 1 and 100.")

abbrev pub log : AgentPlanExecutionRecord → ExecutionAuditEvent → AgentPlanExecutionRecord
log r e = record r { audit_events = r.audit_events ++ e ∷ [] }

module _ (env : Environment) where
  -- `self.clock()`
  unfoldable pub clock : StoreMethod ℕ
  clock s = (ok (env.clock s.calls), record s { calls = suc s.calls })

  -- `secrets.token_urlsafe(...)`
  unfoldable pub token : StoreMethod String
  token s = (ok (env.token s.calls), record s { calls = suc s.calls })

  -- `_event`
  unfoldable pub event :
      Option String
      → String
      → String
      → String
      → String
      → EventFields
      → StoreMethod ExecutionAuditEvent
  unfolding clock token
  event execution_id review_id event_type outcome message fields = do
    event_id ← token
    timestamp ← clock
    return (record {
      event_id = str_append "audit_" event_id;
      event_type = event_type;
      timestamp = timestamp;
      execution_id = execution_id;
      review_id = review_id;
      outcome = outcome;
      safe_message = message;
      step_index = fields.step_index;
      tool_id = fields.tool_id;
      operation_id = fields.operation_id;
      metadata = fields.metadata;
    })

  -- `_with_event`
  unfoldable pub with_event :
      AgentPlanExecutionRecord
      → String
      → String
      → String
      → EventFields
      → StoreMethod AgentPlanExecutionRecord
  unfolding event
  with_event r event_type outcome message fields = do
    e ← event (some r.execution_id) r.review_id event_type outcome message fields
    return (log r e)
