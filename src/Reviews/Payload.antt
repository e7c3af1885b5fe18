-- ===== src/Reviews/Payload.antt =====
-- core/src/cauco_core/agents/review_store.py: what the snapshot digest of a review is taken of, as JSON.
pub mod Covers
use cauco.Base.{ℕ, String, Bool, true, false, Option, none, some, List, [], ◌∷◌, map}
use cauco.Tools.Value.{Value, Items, Fields}
use cauco.Agents.Bindings.{encode_fields}
use cauco.Agents.Models.{
  AgentRequest, AgentMatch, AgentResult, AgentRouteResult, AgentMemoryReference, AgentContext,
  AgentToolReference, OperationInput, AgentPlanStep, AgentPlan,
}

unfoldable pub items_of : List Value → Items
items_of [] = Items.nil
items_of (v ∷ vs) = Items.cons v (items_of vs)

unfoldable pub fields_of : List (String × Value) → Fields
fields_of [] = Fields.end
fields_of ((k, v) ∷ fs) = Fields.field k v (fields_of fs)

abbrev pub json_list : List Value → Value
json_list vs = Value.items (items_of vs)

abbrev pub json_object : List (String × Value) → Value
json_object fs = Value.mapping (fields_of fs)

abbrev pub json_texts : List String → Value
json_texts xs = json_list (map (λ x. Value.text x) xs)

abbrev pub json_number : ℕ → Value
json_number n = Value.integer false n

abbrev pub json_optional : Option String → Value
json_optional none = Value.null
json_optional (some s) = Value.text s

-- `match_payload`
unfoldable pub match_payload : AgentMatch → Value
match_payload m = json_object (
    ("agent_id", Value.text m.agent_id)
    ∷ ("matched", Value.flag m.matched)
    ∷ ("score", json_number m.score)
    ∷ ("matched_signals", json_texts m.matched_signals)
    ∷ ("reasoning", json_texts m.reasoning)
    ∷ ("priority", json_number m.priority)
    ∷ [])

abbrev pub match_or_null : Option AgentMatch → Value
match_or_null none = Value.null
match_or_null (some m) = match_payload m

abbrev pub result_or_null : Option AgentResult → Value
result_or_null none = Value.null
result_or_null (some r) = json_object (
    ("agent_id", Value.text r.agent_id)
    ∷ ("agent_name", Value.text r.agent_name)
    ∷ ("status", Value.text r.status)
    ∷ ("summary", Value.text r.summary)
    ∷ ("proposed_actions", json_texts r.proposed_actions)
    ∷ ("warnings", json_texts r.warnings)
    ∷ ("requires_confirmation", Value.flag r.requires_confirmation)
    ∷ ("execution_performed", Value.flag r.execution_performed)
    ∷ ("metadata", json_object r.metadata)
    ∷ [])

abbrev pub request_payload : AgentRequest → Value
request_payload q = json_object (
    ("instruction", Value.text q.instruction)
    ∷ ("intent", json_optional q.intent)
    ∷ ("context", json_object q.context)
    ∷ ("preferred_agent_id", json_optional q.preferred_agent_id)
    ∷ ("allow_execution", Value.flag q.allow_execution)
    ∷ [])

-- `route_payload`
unfoldable pub route_payload : AgentRouteResult → Value
unfolding match_payload
route_payload r = json_object (
    ("request", request_payload r.request)
    ∷ ("selected_agent_id", json_optional r.selected_agent_id)
    ∷ ("selected_agent_name", json_optional r.selected_agent_name)
    ∷ ("match", match_or_null r.best_match)
    ∷ ("matches", json_list (map match_payload r.matches))
    ∷ ("result", result_or_null r.result)
    ∷ ("preferred_agent_rejected", Value.flag r.preferred_agent_rejected)
    ∷ [])

unfoldable pub memory_payload : AgentMemoryReference → Value
memory_payload m = json_object (
    ("memory_id", Value.text m.memory_id)
    ∷ ("name", Value.text m.name)
    ∷ ("kind", Value.text m.kind)
    ∷ ("layer", Value.text m.layer)
    ∷ ("title", Value.text m.title)
    ∷ ("relative_path", Value.text m.relative_path)
    ∷ ("reason_selected", Value.text m.reason_selected)
    ∷ ("excerpt", Value.text m.excerpt)
    ∷ ("excerpt_truncated", Value.flag m.excerpt_truncated)
    ∷ ("modified_at", json_optional m.modified_at)
    ∷ ("excerpt_strategy", Value.text m.excerpt_strategy)
    ∷ ("selected_headings", json_texts m.selected_headings)
    ∷ [])

-- `context_payload`
unfoldable pub context_payload : AgentContext → Value
unfolding memory_payload
context_payload c = json_object (
    ("agent_id", Value.text c.agent_id)
    ∷ ("instruction", Value.text c.instruction)
    ∷ ("resolved_intent", json_optional c.resolved_intent)
    ∷ ("memory_references", json_list (map memory_payload c.memory_references))
    ∷ ("context_summary", Value.text c.context_summary)
    ∷ ("limitations", json_texts c.limitations)
    ∷ ("metadata", json_object c.metadata)
    ∷ [])

abbrev pub reference_payload : Option AgentToolReference → Value
reference_payload none = Value.null
reference_payload (some r) = json_object (
    ("tool_id", Value.text r.tool_id)
    ∷ ("operation_id", Value.text r.operation_id)
    ∷ ("target", json_optional r.target)
    ∷ [])

-- `operation_input_payload`
abbrev pub operation_input_payload : Option OperationInput → Value
operation_input_payload none = Value.null
operation_input_payload (some input) = Value.mapping (encode_fields input.fields)

unfoldable pub step_payload : AgentPlanStep → Value
step_payload step = json_object (
    ("order", json_number step.order)
    ∷ ("title", Value.text step.title)
    ∷ ("description", Value.text step.description)
    ∷ ("source_memory_ids", json_texts step.source_memory_ids)
    ∷ ("proposed_action", Value.text step.proposed_action)
    ∷ ("requires_confirmation", Value.flag step.requires_confirmation)
    ∷ ("execution_available", Value.flag step.execution_available)
    ∷ ("warnings", json_texts step.warnings)
    ∷ ("tool_reference", reference_payload step.tool_reference)
    ∷ ("operation_input", operation_input_payload step.operation_input)
    ∷ [])

-- `plan_payload`
unfoldable pub plan_payload : AgentPlan → Value
unfolding step_payload
plan_payload p = json_object (
    ("agent_id", Value.text p.agent_id)
    ∷ ("agent_name", Value.text p.agent_name)
    ∷ ("status", Value.text p.status)
    ∷ ("objective", Value.text p.objective)
    ∷ ("context_used", Value.flag p.context_used)
    ∷ ("steps", json_list (map step_payload p.steps))
    ∷ ("open_questions", json_texts p.open_questions)
    ∷ ("warnings", json_texts p.warnings)
    ∷ ("requires_confirmation", Value.flag p.requires_confirmation)
    ∷ ("execution_performed", Value.flag p.execution_performed)
    ∷ ("metadata", json_object p.metadata)
    ∷ [])

-- `snapshot_payload`
unfoldable pub snapshot_payload :
    String → String → AgentRouteResult → AgentContext → AgentPlan → Value
unfolding route_payload context_payload plan_payload
snapshot_payload instruction selected_agent_id routing context plan = json_object (
    ("instruction", Value.text instruction)
    ∷ ("selected_agent_id", Value.text selected_agent_id)
    ∷ ("routing", route_payload routing)
    ∷ ("context", context_payload context)
    ∷ ("plan", plan_payload plan)
    ∷ ("execution_authorized_at_review", Value.flag false)
    ∷ ("execution_performed", Value.flag false)
    ∷ [])
