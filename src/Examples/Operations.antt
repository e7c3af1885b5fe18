-- ===== src/Examples/Operations.antt =====
-- A tool that is registered, and an input with a binding.
use cauco.Base.{ℕ, ◌≡◌, refl, String, true, false, none, [], ◌∷◌, ok, All, string_eq}
use cauco.Base.Ids.{codes}
use cauco.Base.Dict.Laws.{Each-one}
use cauco.Tools.Models.{
  ToolCategory, ToolOperation, ToolDefinition, is_identifier, operation_rejection,
}
use cauco.Tools.Registry.{ToolRegistry, validate}
use cauco.Tools.Registry.Guarded.{IsAccepted, IsGuarded, validate-IsGuarded}
use cauco.Agents.Bindings.{Segment, Input, Inputs, InputFields, binding_rejection, encode, decode}
use cauco.Agents.Bindings.RoundTrip.{is_plain, decode-encode}

abbrev strip : String → String
strip s = s

abbrev write_file : ToolOperation
write_file = record {
  id = "write_file";
  description = "Write a file";
  safe = true;
  confirmation_required = true;
  enabled = true;
  execution_enabled = false;
  runtime_execution_allowed = true;
  mutation = true;
  preview_required = true;
}

abbrev filesystem : ToolDefinition
filesystem = record {
  id = "filesystem";
  display_name = "Files";
  description = "Files of the workspace";
  category = ToolCategory.filesystem;
  version = "1.0";
  enabled = true;
  operations = write_file ∷ [];
  permissions = [];
  requires_confirmation = true;
  execution_enabled = false;
  metadata = [];
}

abbrev pub tools : ToolRegistry
tools = ("filesystem", filesystem) ∷ []

write_file_accepted : operation_rejection strip write_file ≡ none
unfolding operation_rejection is_identifier
write_file_accepted = refl

tools-IsAccepted : IsAccepted strip tools
tools-IsAccepted =
    Each-one (λ id tool. All (λ o. operation_rejection strip o ≡ none) tool.operations) "filesystem"
      filesystem (write_file_accepted, tt)

validate-IsGuarded_example : IsGuarded (validate tools "filesystem" "write_file")
validate-IsGuarded_example =
    validate-IsGuarded strip tools "filesystem" "write_file" tools-IsAccepted

-- The decimal digits do not matter here: no index stands in a message.
abbrev decimal : ℕ → String
decimal n = "0"

abbrev input : Input
input = Input.mapping (
    InputFields.field "path" (Input.text "notes.md") (
      InputFields.field "content"
        (Input.sequence (
          Inputs.cons
            (Input.binding (record {
              source_step_index = 1;
              path = Segment.key "lines" ∷ Segment.index 0 ∷ [];
              value_type = "string";
            }))
            Inputs.nil))
        InputFields.end))

input_plain : is_plain decimal input ≡ true
unfolding is_plain binding_rejection codes
input_plain = refl

decode-encode_example : decode decimal (encode input) ≡ ok input
decode-encode_example = decode-encode decimal input input_plain
