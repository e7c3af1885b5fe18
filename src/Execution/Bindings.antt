-- ===== src/Execution/Bindings.antt =====
-- core/src/cauco_core/execution/bindings.py: the outputs of earlier steps are put into the input of a
-- step. `decimal` is Python's `str` of an integer; `construct` is the typed input of a class, by its
-- name: the fields that `__post_init__` leaves, or nothing where it raises `TypeError` or `ValueError`.
pub mod Supply
pub mod Supplied
pub mod Substituted
use cauco.Base.{
  ℕ, zero, suc, String, str_append, Bool, true, false, not, ◌&&◌, Option, none, some, List, [], ◌∷◌,
  ◌++◌, ◌==◌, nat_eq, string_eq, ltb, first, Result, ok, raised, if◌then◌else◌,
}
use cauco.Tools.Value
use cauco.Tools.Value.{Value, Items, Fields}
use cauco.Tools.Result.{ToolExecutionResult}
use cauco.Agents.Bindings.{Segment, StepOutputBinding, Input, Inputs, InputFields, key, index}
use cauco.Agents.Models.{OperationInput}
use cauco.Execution.Models.{StepExecutionStatus, AgentPlanStepExecutionRecord}

pub record StepOutputBindingError : Type 0 where
  pub message : String
  pub binding : StepOutputBinding
  pub destination_field : String

-- A resolved part, and which binding went to which field.
abbrev pub Resolved : Type 0 → Type 0
Resolved A = Result StepOutputBindingError (A × List (String × StepOutputBinding))

abbrev pub is_completed : StepExecutionStatus → Bool
is_completed StepExecutionStatus.completed = true
is_completed _ = false

unfoldable pub nth : Items → ℕ → Option Value
nth Items.nil i = none
nth (Items.cons v vs) zero = some v
nth (Items.cons v vs) (suc i) = nth vs i

abbrev pub key_or_error : Option Value → Result String Value
key_or_error none = raised "Output binding mapping key does not exist."
key_or_error (some v) = ok v

abbrev pub index_or_error : Option Value → Result String Value
index_or_error none = raised "Output binding list index is invalid."
index_or_error (some v) = ok v

-- One segment of the loop over the path.
unfoldable pub enter : Segment → Value → Result String Value
unfolding Value.get nth
enter (key k) (Value.mapping fs) = key_or_error (Value.get fs k)
enter (key k) _ = raised "Output binding mapping key does not exist."
enter (index i) (Value.items vs) = index_or_error (nth vs i)
enter (index i) _ = raised "Output binding list index is invalid."

abbrev pub go_on : Result String Value → (Value → Result String Value) → Result String Value
go_on (ok v) f = f v
go_on (raised message) f = raised message

-- The loop over the path.
unfoldable pub follow : List Segment → Value → Result String Value
unfolding enter
follow [] v = ok v
follow (s ∷ path) v = let rest = follow path in go_on (enter s v) rest

-- `_matches_type`, where what matches is a scalar that goes into an input.
unfoldable pub matching : Value → String → Option Input
matching (Value.text s) t = if t == "string" then some (Input.text s) else none
matching (Value.integer sign n) t =
    if t == "integer"
    then some (Input.integer sign n)
    else if t == "number"
    then some (Input.integer sign n)
    else none
matching (Value.real bits) t = if t == "number" then some (Input.real bits) else none
matching (Value.flag b) t = if t == "boolean" then some (Input.flag b) else none
matching _ t = none

abbrev pub typed : Option Input → Result String Input
typed none = raised "Output binding resolved to the wrong scalar type."
typed (some x) = ok x

abbrev pub typed_at : Result String Value → String → Result String Input
typed_at (raised message) t = raised message
typed_at (ok v) t = typed (matching v t)

-- `_resolve_binding`, once the result is there.
unfoldable pub from_result : StepOutputBinding → ToolExecutionResult → Result String Input
unfolding follow matching
from_result b result =
    if result.success
    then typed_at (follow b.path (Value.mapping result.structured_data)) b.value_type
    else raised "Output binding source step did not complete successfully."

abbrev pub from_some_result : StepOutputBinding → Option ToolExecutionResult → Result String Input
from_some_result b none = raised "Output binding source step did not complete successfully."
from_some_result b (some result) = from_result b result

-- `_resolve_binding`, once the source step is looked up.
unfoldable pub from_step :
    StepOutputBinding → Option AgentPlanStepExecutionRecord → Result String Input
unfolding from_result
from_step b none = raised "Output binding source step does not exist."
from_step b (some step) =
    if is_completed step.status
    then from_some_result b step.result
    else raised "Output binding source step did not complete successfully."

module _ (steps : List AgentPlanStepExecutionRecord) (consuming_step_index : ℕ) where
  -- `_resolve_binding`: the value, or the message of the error.
  unfoldable pub resolve_binding : StepOutputBinding → Result String Input
  unfolding from_step
  resolve_binding b =
      if ltb b.source_step_index consuming_step_index
      then from_step b (first (λ step. step.step_index == b.source_step_index) steps)
      else raised "Output bindings must reference an earlier step."

abbrev pub at_field : String → StepOutputBinding → Result String Input → Resolved Input
at_field destination b (ok x) = ok (x, (destination, b) ∷ [])
at_field destination b (raised message) =
    raised (record { message = message; binding = b; destination_field = destination })

-- A part and the parts after it; the first error counts.
abbrev pub joined : {A B C : Type 0} → (A → B → C) → Resolved A → Resolved B → Resolved C
joined f (raised e) y = raised e
joined f (ok (a, rs)) (raised e) = raised e
joined f (ok (a, rs)) (ok (b, qs)) = ok (f a b, rs ++ qs)

abbrev pub wrapped : {A B : Type 0} → (A → B) → Resolved A → Resolved B
wrapped f (raised e) = raised e
wrapped f (ok (a, rs)) = ok (f a, rs)

-- `replace(value, **updates)`, or its error.
abbrev pub replaced :
    OperationInput
    → List (String × StepOutputBinding)
    → StepOutputBindingError
    → Option InputFields
    → Resolved OperationInput
replaced input rs e none = raised e
replaced input rs e (some fs) = ok (record { class_name = input.class_name; fields = fs }, rs)

module _ (construct : String → InputFields → Option InputFields) where
  -- The input built anew, where there were bindings; the input as it was, where there were none.
  unfoldable pub rebuilt : OperationInput → Resolved InputFields → Resolved OperationInput
  rebuilt input (raised e) = raised e
  rebuilt input (ok (fs, [])) = ok (input, [])
  rebuilt input (ok (fs, (destination, b) ∷ rs)) =
      replaced input ((destination, b) ∷ rs)
        (record {
          message = "Resolved output does not satisfy the approved typed operation input.";
          binding = b;
          destination_field = destination;
        })
        (construct input.class_name fs)

abbrev pub some_resolved : Resolved OperationInput → Resolved (Option OperationInput)
some_resolved (raised e) = raised e
some_resolved (ok (input, rs)) = ok (some input, rs)

module _ (decimal : ℕ → String) (steps : List AgentPlanStepExecutionRecord)
    (consuming_step_index : ℕ) where
  -- `_resolve_value`, which looks into tuples and mappings, not into lists; a prefix of the fields is
  -- their destination with a dot.
  unfoldable mutual
    unfolding resolve_binding

    pub resolve_value : String → Input → Resolved Input
    resolve_value destination (Input.binding b) =
        at_field destination b (resolve_binding steps consuming_step_index b)
    resolve_value destination (Input.sequence xs) =
        wrapped Input.sequence (resolve_items destination 0 xs)
    resolve_value destination (Input.mapping fs) =
        wrapped Input.mapping (resolve_fields (str_append destination ".") fs)
    resolve_value destination x = ok (x, [])

    pub resolve_items : String → ℕ → Inputs → Resolved Inputs
    resolve_items destination i Inputs.nil = ok (Inputs.nil, [])
    resolve_items destination i (Inputs.cons x xs) =
        joined Inputs.cons
          (resolve_value (str_append destination (str_append "[" (str_append (decimal i) "]"))) x)
          (resolve_items destination (suc i) xs)

    pub resolve_fields : String → InputFields → Resolved InputFields
    resolve_fields prefix InputFields.end = ok (InputFields.end, [])
    resolve_fields prefix (InputFields.field k x fs) =
        joined (InputFields.field k) (resolve_value (str_append prefix k) x)
          (resolve_fields prefix fs)

  module _ (construct : String → InputFields → Option InputFields) where
    -- `resolve_step_output_bindings`
    unfoldable pub resolve_step_output_bindings :
        Option OperationInput → Resolved (Option OperationInput)
    unfolding resolve_fields rebuilt
    resolve_step_output_bindings none = ok (none, [])
    resolve_step_output_bindings (some input) =
        some_resolved (rebuilt construct input (resolve_fields "" input.fields))
