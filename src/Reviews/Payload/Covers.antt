-- ===== src/Reviews/Payload/Covers.antt =====
-- What the digest of a review is taken of tells each step that was approved.
use cauco.Base.{
  ℕ, ◌≡◌, refl, ap, ◌∙◌, String, Bool, true, false, Option, none, some, List, [], ◌∷◌, map, all,
  &&-true, Result, ok, raised,
}
use cauco.Tools.Value
use cauco.Tools.Value.{Value, Items, Fields}
use cauco.Agents.Bindings.{InputFields, BindingError, decode_fields}
use cauco.Agents.Bindings.RoundTrip.{fields_plain, fields_read_back}
use cauco.Agents.Models.{
  AgentRouteResult, AgentContext, AgentToolReference, OperationInput, AgentPlanStep, AgentPlan,
}
use cauco.Reviews.Payload.{
  items_of, fields_of, json_texts, json_optional, reference_payload, operation_input_payload,
  step_payload, plan_payload, snapshot_payload,
}

-- A step as the JSON tells it: all of it, but of its input only the fields and not the class.
pub record ApprovedStep : Type 0 where
  pub order : ℕ
  pub title : String
  pub description : String
  pub source_memory_ids : List String
  pub proposed_action : String
  pub requires_confirmation : Bool
  pub execution_available : Bool
  pub warnings : List String
  pub tool_reference : Option AgentToolReference
  pub fields : Option InputFields

abbrev pub fields_of_input : Option OperationInput → Option InputFields
fields_of_input none = none
fields_of_input (some input) = some input.fields

abbrev pub approved_step : AgentPlanStep → ApprovedStep
approved_step step = record {
  order = step.order;
  title = step.title;
  description = step.description;
  source_memory_ids = step.source_memory_ids;
  proposed_action = step.proposed_action;
  requires_confirmation = step.requires_confirmation;
  execution_available = step.execution_available;
  warnings = step.warnings;
  tool_reference = step.tool_reference;
  fields = fields_of_input step.operation_input;
}

-- A value of a JSON object, null where there is none.
abbrev pub or_null : Option Value → Value
or_null none = Value.null
or_null (some v) = v

unfoldable pub at : Value → String → Value
unfolding Value.get
at (Value.mapping fs) key = or_null (Value.get fs key)
at _ key = Value.null

unfoldable pub list_of_items : Items → List Value
list_of_items Items.nil = []
list_of_items (Items.cons v vs) = v ∷ list_of_items vs

abbrev pub read_list : Value → List Value
read_list (Value.items vs) = list_of_items vs
read_list _ = []

abbrev pub read_number : Value → ℕ
read_number (Value.integer false n) = n
read_number _ = 0

abbrev pub read_text : Value → String
read_text (Value.text s) = s
read_text _ = ""

abbrev pub read_flag : Value → Bool
read_flag (Value.flag b) = b
read_flag _ = false

abbrev pub read_texts : Value → List String
read_texts v = map read_text (read_list v)

abbrev pub read_optional : Value → Option String
read_optional (Value.text s) = some s
read_optional _ = none

unfoldable pub read_reference : Value → Option AgentToolReference
unfolding at
read_reference (Value.mapping fs) =
    let v = Value.mapping fs in
    some (record {
      tool_id = read_text (at v "tool_id");
      operation_id = read_text (at v "operation_id");
      target = read_optional (at v "target");
    })
read_reference _ = none

abbrev pub if_ok : Result BindingError InputFields → Option InputFields
if_ok (ok fs) = some fs
if_ok (raised e) = none

abbrev pub read_input : (ℕ → String) → Value → Option InputFields
read_input decimal (Value.mapping fs) = if_ok (decode_fields decimal fs)
read_input decimal _ = none

-- The approved steps, read from the JSON of a snapshot.
unfoldable pub read_step : (ℕ → String) → Value → ApprovedStep
unfolding at read_reference
read_step decimal v = record {
  order = read_number (at v "order");
  title = read_text (at v "title");
  description = read_text (at v "description");
  source_memory_ids = read_texts (at v "source_memory_ids");
  proposed_action = read_text (at v "proposed_action");
  requires_confirmation = read_flag (at v "requires_confirmation");
  execution_available = read_flag (at v "execution_available");
  warnings = read_texts (at v "warnings");
  tool_reference = read_reference (at v "tool_reference");
  fields = read_input decimal (at v "operation_input");
}

unfoldable pub read_snapshot : (ℕ → String) → Value → List ApprovedStep
unfolding at read_step
read_snapshot decimal v = map (read_step decimal) (read_list (at (at v "plan") "steps"))

-- The input of each step holds bindings that pass their checks, no mapping that passes for one, and no
-- list in place of a tuple.
abbrev pub input_is_plain : (ℕ → String) → Option OperationInput → Bool
input_is_plain decimal none = true
input_is_plain decimal (some input) = fields_plain decimal input.fields

abbrev pub plan_is_plain : (ℕ → String) → AgentPlan → Bool
plan_is_plain decimal plan = all (λ step. input_is_plain decimal step.operation_input) plan.steps

list_of_items-items_of : (vs : List Value) → list_of_items (items_of vs) ≡ vs
unfolding list_of_items items_of
list_of_items-items_of [] = refl
list_of_items-items_of (v ∷ vs) = ap (λ r. v ∷ r) (list_of_items-items_of vs)

read_texts-json_texts : (xs : List String) → read_texts (json_texts xs) ≡ xs
unfolding list_of_items items_of
read_texts-json_texts [] = refl
read_texts-json_texts (x ∷ xs) = ap (λ r. x ∷ r) (read_texts-json_texts xs)

read_optional-json_optional : (o : Option String) → read_optional (json_optional o) ≡ o
read_optional-json_optional none = refl
read_optional-json_optional (some s) = refl

read_reference-reference_payload :
    (o : Option AgentToolReference) → read_reference (reference_payload o) ≡ o
unfolding read_reference fields_of Value.get at
read_reference-reference_payload none = refl
read_reference-reference_payload (some r) =
    ap (λ t. some (record { tool_id = r.tool_id; operation_id = r.operation_id; target = t }))
      (read_optional-json_optional r.target)

read_input-payload :
    (decimal : ℕ → String) (o : Option OperationInput)
    → input_is_plain decimal o ≡ true
    → read_input decimal (operation_input_payload o) ≡ fields_of_input o
read_input-payload decimal none h = refl
read_input-payload decimal (some input) h = ap if_ok (fields_read_back decimal input.fields h)

read_step-step_payload :
    (decimal : ℕ → String) (step : AgentPlanStep)
    → input_is_plain decimal step.operation_input ≡ true
    → read_step decimal (step_payload step) ≡ approved_step step
unfolding read_step step_payload fields_of Value.get at
read_step-step_payload decimal step h = λ i. record {
  order = step.order;
  title = step.title;
  description = step.description;
  source_memory_ids = read_texts-json_texts step.source_memory_ids i;
  proposed_action = step.proposed_action;
  requires_confirmation = step.requires_confirmation;
  execution_available = step.execution_available;
  warnings = read_texts-json_texts step.warnings i;
  tool_reference = read_reference-reference_payload step.tool_reference i;
  fields = read_input-payload decimal step.operation_input h i;
}

read_steps :
    (decimal : ℕ → String) (steps : List AgentPlanStep)
    → all (λ step. input_is_plain decimal step.operation_input) steps ≡ true
    → map (read_step decimal) (map step_payload steps) ≡ map approved_step steps
read_steps decimal [] h = refl
read_steps decimal (step ∷ steps) h =
    let (first, rest) = &&-true {a = input_is_plain decimal step.operation_input} h in
    rw (read_step-step_payload decimal step first, read_steps decimal steps rest) refl

-- From the JSON that the digest of a review is taken of, each step of the plan can be read back: its
-- order, title, description, sources, proposed action, flags and warnings, its operation with the target,
-- and the fields of its input, of which the class is not in the JSON. The bindings of the inputs pass
-- their checks, the sequences in them are tuples, and no mapping in them has the marker of a binding as
-- its only key.
pub read_snapshot-snapshot_payload :
    (decimal : ℕ → String) (instruction selected_agent_id : String) (routing : AgentRouteResult)
    (context : AgentContext) (plan : AgentPlan)
    → plan_is_plain decimal plan ≡ true
    → read_snapshot decimal (snapshot_payload instruction selected_agent_id routing context plan)
      ≡ map approved_step plan.steps
unfolding read_snapshot snapshot_payload plan_payload fields_of Value.get at
read_snapshot-snapshot_payload decimal instruction selected_agent_id routing context plan h =
    ap (map (read_step decimal)) (list_of_items-items_of (map step_payload plan.steps))
    ∙ read_steps decimal plan.steps h
