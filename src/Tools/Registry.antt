-- ===== src/Tools/Registry.antt =====
-- tools/src/cauco_tools/registry.py and adapter_registry.py. The dictionaries keep the order in which the
-- entries came; an adapter is whatever `A` stands for.
pub mod Guarded
use Prim.Native.String.{compare}
use text.Mathlib.Text.{is_lt}
use cauco.Base.{
  ℕ, String, str_append, Bool, true, false, not, ◌&&◌, Option, none, some, List, [], ◌∷◌, ◌==◌,
  string_eq, pair_eq, first, Result, ok, raised, if◌then◌else◌,
}
use cauco.Base.Dict.{Dict, get, put, values, size, is_some}
use cauco.Base.Sort.{sorted}
use cauco.Tools.Models.{ToolOperation, ToolDefinition, ToolValidationResult}

abbrev pub ToolRegistry : Type 0
ToolRegistry = Dict String ToolDefinition

pub data RegistryError : Type 0 where
  value_error : String → RegistryError
  key_error : String → RegistryError

-- `register`
unfoldable pub register : ToolDefinition → ToolRegistry → Result RegistryError ToolRegistry
register tool tools =
    if is_some (get tools tool.id)
    then raised (value_error (str_append "Tool '" (str_append tool.id "' is already registered.")))
    else ok (put tools tool.id tool)

abbrev pub tool_or_error : String → Option ToolDefinition → Result RegistryError ToolDefinition
tool_or_error id none = raised (key_error (str_append "Unknown tool '" (str_append id "'.")))
tool_or_error id (some tool) = ok tool

-- `get`
unfoldable pub get_tool : String → ToolRegistry → Result RegistryError ToolDefinition
get_tool id tools = tool_or_error id (get tools id)

-- The order of the identifiers.
abbrev pub id_before : ToolDefinition → ToolDefinition → Bool
id_before a b = is_lt (compare a.id b.id)

abbrev pub operation_before : ToolOperation → ToolOperation → Bool
operation_before a b = is_lt (compare a.id b.id)

-- `list`: each tool is registered under its own identifier.
unfoldable pub list_tools : ToolRegistry → List ToolDefinition
unfolding sorted
list_tools tools = sorted id_before (values tools)

abbrev pub operations_of :
    Result RegistryError ToolDefinition → Result RegistryError (List ToolOperation)
operations_of (ok tool) = ok (sorted operation_before tool.operations)
operations_of (raised e) = raised e

-- `operations`
unfoldable pub operations : String → ToolRegistry → Result RegistryError (List ToolOperation)
unfolding get_tool sorted
operations id tools = operations_of (get_tool id tools)

-- `next((item for item in tool.operations if item.id == operation_id), None)`
unfoldable pub find_operation : String → List ToolOperation → Option ToolOperation
find_operation id [] = none
find_operation id (o ∷ os) = let rest = find_operation id os in if o.id == id then some o else rest

unfoldable pub without_tool : String → String → ToolValidationResult
without_tool tool_id operation_id = record {
  tool_id = tool_id;
  operation_id = operation_id;
  valid = false;
  tool_exists = false;
  operation_exists = false;
  tool_enabled = false;
  operation_enabled = false;
  safe = none;
  confirmation_required = none;
  execution_enabled = false;
  runtime_execution_allowed = false;
  mutation = false;
  preview_required = false;
  reason = some "Tool is not registered.";
}

-- The end of `validate`: the tool is there.
unfoldable pub validated :
    String → String → ToolDefinition → Option ToolOperation → ToolValidationResult
unfolding without_tool
validated tool_id operation_id tool none = record (without_tool tool_id operation_id) {
  tool_exists = true;
  tool_enabled = tool.enabled;
  reason = some "Operation is not registered for this tool.";
}
validated tool_id operation_id tool (some operation) = record {
  tool_id = tool_id;
  operation_id = operation_id;
  valid = tool.enabled && operation.enabled;
  tool_exists = true;
  operation_exists = true;
  tool_enabled = tool.enabled;
  operation_enabled = operation.enabled;
  safe = some operation.safe;
  confirmation_required = some operation.confirmation_required;
  execution_enabled = false;
  runtime_execution_allowed = operation.runtime_execution_allowed;
  mutation = operation.mutation;
  preview_required = operation.preview_required;
  reason =
      if tool.enabled && operation.enabled then none else some "Tool or operation is disabled.";
}

unfoldable pub validated_in : String → String → Option ToolDefinition → ToolValidationResult
unfolding without_tool validated find_operation
validated_in tool_id operation_id none = without_tool tool_id operation_id
validated_in tool_id operation_id (some tool) =
    validated tool_id operation_id tool (find_operation operation_id tool.operations)

-- `validate`
unfoldable pub validate : ToolRegistry → String → String → ToolValidationResult
unfolding validated_in
validate tools tool_id operation_id = validated_in tool_id operation_id (get tools tool_id)

-- `ToolAdapterRegistry`: the adapters by tool and operation.
module _ {A : Type 0} where
  -- The loop of `register` over the operations of one adapter; what was written before a raise stays.
  unfoldable pub register_operations :
      A
      → String
      → List String
      → Dict (String × String) A
      → Result RegistryError (Unit {0}) × Dict (String × String) A
  register_operations adapter tool_id [] adapters = (ok tt, adapters)
  register_operations adapter tool_id (operation ∷ rest) adapters =
      let further =
        register_operations adapter tool_id rest (put adapters (tool_id, operation) adapter) in
      if is_some (get adapters (tool_id, operation))
      then (
        raised (
            value_error (
              str_append "Runtime adapter for '"
                (str_append tool_id (str_append "." (str_append operation "' already exists."))))),
        adapters,
      )
      else further

  -- `exists`
  unfoldable pub has_adapter : Dict (String × String) A → String → String → Bool
  has_adapter adapters tool_id operation_id = is_some (get adapters (tool_id, operation_id))

  abbrev pub adapter_or_error : String → String → Option A → Result RegistryError A
  adapter_or_error tool_id operation_id none = raised (
      key_error (
        str_append "No runtime adapter for '"
          (str_append tool_id (str_append "." (str_append operation_id "'.")))))
  adapter_or_error tool_id operation_id (some adapter) = ok adapter

  -- `get`
  unfoldable pub get_adapter : Dict (String × String) A → String → String → Result RegistryError A
  get_adapter adapters tool_id operation_id =
      adapter_or_error tool_id operation_id (get adapters (tool_id, operation_id))
