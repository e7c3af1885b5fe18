-- ===== src/Examples/Inputs.antt =====
-- An input that takes a text from the output of the step before.
use cauco.Base.{
  ℕ, ◌≡◌, refl, String, true, false, some, none, Option, ◌==◌, if◌then◌else◌, List, [], ◌∷◌, map,
  ok, All, nat_eq, string_eq,
}
use cauco.Tools.Value.{Value, field, end, cons, nil}
use cauco.Tools.Result.{ToolExecutionResult}
use cauco.Agents.Bindings.{Segment, StepOutputBinding, Input, InputFields}
use cauco.Agents.Models.{OperationInput}
use cauco.Execution.Models.{StepExecutionStatus, AgentPlanStepExecutionRecord}
use cauco.Execution.Bindings.{resolve_binding, resolve_step_output_bindings}
use cauco.Execution.Bindings.Supplied.{HasSupply, bindings_in_fields, resolve-IsSupplied}
use cauco.Execution.Bindings.Substituted.{part_of, substituted, resolve-substitutes}
use cauco.Execution.Bindings.Supply.{value_of, resolved-Supplies}

abbrev decimal : ℕ → String
decimal n = "0"

-- `EmailListMessagesInput` keeps its fields as they are; the other classes are not built here.
abbrev construct : String → InputFields → Option InputFields
construct name (InputFields.field k (Input.text s) fs) =
    if name == "EmailListMessagesInput" then some (InputFields.field k (Input.text s) fs) else none
construct name fs = none

-- A mailbox, as the adapter lists it.
abbrev field_of : String → Value
field_of reference = Value.mapping (field "mailbox_reference" (Value.text reference) end)

abbrev mailboxes : ToolExecutionResult
mailboxes = record {
  tool_id = "email";
  operation_id = "list_mailboxes";
  success = true;
  started_at = 0;
  completed_at = 1;
  duration_ms = 0;
  output = "";
  structured_data =
      field "mailboxes"
        (Value.items (cons (field_of "mailbox_drafts0") (cons (field_of "mailbox_inbox01") nil)))
        (field "verification_passed" (Value.flag true) end);
  error_code = none;
  error_message = none;
  truncated = false;
  execution_performed = true;
  mutation_performed = false;
}

abbrev pub read_step : AgentPlanStepExecutionRecord
read_step = record {
  step_index = 1;
  tool_id = "email";
  operation_id = "list_mailboxes";
  target = none;
  status = StepExecutionStatus.completed;
  started_at = some 0;
  completed_at = some 1;
  result = some mailboxes;
  error = none;
  execution_performed = true;
}

abbrev inbox : StepOutputBinding
inbox = record {
  source_step_index = 1;
  path = Segment.key "mailboxes" ∷ Segment.index 1 ∷ Segment.key "mailbox_reference" ∷ [];
  value_type = "string";
}

abbrev mail : OperationInput
mail = record {
  class_name = "EmailListMessagesInput";
  fields =
      InputFields.field "mailbox_reference" (Input.binding inbox)
        (InputFields.field "limit" (Input.integer false 20) InputFields.end);
}

abbrev resolved_mail : OperationInput
resolved_mail = record mail {
  fields =
      InputFields.field "mailbox_reference" (Input.text "mailbox_inbox01")
        (InputFields.field "limit" (Input.integer false 20) InputFields.end);
}

abbrev report : List (String × StepOutputBinding)
report = ("mailbox_reference", inbox) ∷ []

mail_resolves :
    resolve_step_output_bindings decimal (read_step ∷ []) 2 construct (some mail)
    ≡ ok (some resolved_mail, report)
unfolding resolve_step_output_bindings
mail_resolves = refl

resolve-IsSupplied_example :
    (map (λ p. p.1) report ≡ bindings_in_fields mail.fields)
    × All (λ p. HasSupply (read_step ∷ []) 2 p.1) report
resolve-IsSupplied_example =
    resolve-IsSupplied decimal construct (read_step ∷ []) 2 mail (some resolved_mail) report
      mail_resolves

abbrev supply : StepOutputBinding → Option Input
supply b = value_of (resolve_binding (read_step ∷ []) 2 b)

resolve-substitutes_example :
    part_of (resolve_step_output_bindings decimal (read_step ∷ []) 2 construct (some mail))
    ≡ substituted construct supply mail
resolve-substitutes_example =
    resolve-substitutes decimal construct (read_step ∷ []) 2 supply mail
      (resolved-Supplies (read_step ∷ []) 2)
