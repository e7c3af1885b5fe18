-- ===== src/Agents/Bindings.antt =====
-- agents/src/cauco_agents/models.py: `StepOutputBinding`, and how the inputs of an operation are written
-- to JSON and read back. A `sequence` is a tuple and an `array` is a list; both are written as a JSON
-- array, which is read as a tuple. `decimal` is Python's `str` of an integer.
pub mod RoundTrip
use cauco.Base.{
  ℕ, suc, String, str_append, Bool, true, false, not, ◌&&◌, ◌||◌, Option, none, some, List, [], ◌∷◌,
  ltb, leb, nat_beq, ◌==◌, string_eq, length, any, Result, ok, raised, if◌then◌else◌,
}
use cauco.Base.Ids.{codes}
use cauco.Base.Dict.{is_some}
use cauco.Tools.Value
use cauco.Tools.Value.{Value, Items, Fields}

-- A key of a mapping or a position in a list.
pub data Segment : Type 0 where
  key : String → Segment
  index : ℕ → Segment

pub record StepOutputBinding : Type 0 where
  pub source_step_index : ℕ
  pub path : List Segment
  pub value_type : String

mutual
  -- What an operation's input may hold.
  pub data Input : Type 0 where
    null : Input
    flag : Bool → Input
    integer : Bool → ℕ → Input
    real : ℕ → Input
    text : String → Input
    binding : StepOutputBinding → Input
    sequence : Inputs → Input
    array : Inputs → Input
    mapping : InputFields → Input

  pub data Inputs : Type 0 where
    nil : Inputs
    cons : Input → Inputs → Inputs

  pub data InputFields : Type 0 where
    end : InputFields
    field : String → Input → InputFields → InputFields

pub data BindingError : Type 0 where
  value_error : String → BindingError
  type_error : BindingError

abbrev pub marker : String
marker = "$step_output"

-- `value_type in {"string", "integer", "number", "boolean"}`
abbrev pub is_value_type : String → Bool
is_value_type t = (t == "string") || (t == "integer") || (t == "number") || (t == "boolean")

abbrev pub text_length : String → ℕ
text_length s = length (codes s)

-- The check of one segment: a bounded key, or an index up to 999.
abbrev pub is_segment : Segment → Bool
is_segment (key k) = leb 1 (text_length k) && leb (text_length k) 100
is_segment (index i) = leb i 999

abbrev pub is_key : Segment → Bool
is_key (key k) = true
is_key (index i) = false

-- The message for a segment that is refused.
abbrev pub segment_message : Segment → String
segment_message s =
    if is_key s
    then "Binding mapping keys must be bounded and non-empty."
    else "Binding list indexes must be between 0 and 999."

-- The first segment that is refused.
unfoldable pub bad_segment : List Segment → Option String
bad_segment [] = none
bad_segment (s ∷ path) =
    let rest = bad_segment path in if is_segment s then rest else some (segment_message s)

module _ (decimal : ℕ → String) where
  abbrev pub segment_text : Segment → String
  segment_text (key k) = k
  segment_text (index i) = decimal i

  -- `"/".join(str(segment) for segment in path)`
  unfoldable pub path_description : List Segment → String
  path_description [] = ""
  path_description (s ∷ []) = segment_text s
  path_description (s ∷ r ∷ path) =
      str_append (segment_text s) (str_append "/" (path_description (r ∷ path)))

  -- `__post_init__`, from the path on.
  unfoldable pub path_rejection : StepOutputBinding → Option String
  unfolding path_description
  path_rejection b =
      if ltb (text_length (path_description b.path)) 501
      then if is_value_type b.value_type then none else some "Binding value type is unsupported."
      else some "Binding path description cannot exceed 500 characters."

  abbrev pub or_path : StepOutputBinding → Option String → Option String
  or_path b none = path_rejection b
  or_path b (some message) = some message

  -- `__post_init__`: the message of the first check that fails.
  unfoldable pub binding_rejection : StepOutputBinding → Option String
  unfolding path_rejection bad_segment
  binding_rejection b =
      if ltb b.source_step_index 1
      then some "Binding source step index must be positive."
      else if nat_beq (length b.path) 0 || ltb 16 (length b.path)
      then some "Binding paths must contain between 1 and 16 segments."
      else or_path b (bad_segment b.path)

  abbrev pub built_if : Option String → StepOutputBinding → Result BindingError Input
  built_if none b = ok (Input.binding b)
  built_if (some message) b = raised (value_error message)

  -- `StepOutputBinding(…)`
  abbrev pub built : StepOutputBinding → Result BindingError Input
  built b = built_if (binding_rejection b) b

-- The path and the number as JSON.
abbrev pub segment_value : Segment → Value
segment_value (key k) = Value.text k
segment_value (index i) = Value.integer false i

unfoldable pub path_items : List Segment → Items
path_items [] = Items.nil
path_items (s ∷ path) = Items.cons (segment_value s) (path_items path)

abbrev pub payload_of : StepOutputBinding → Fields
payload_of b = Fields.field "source_step_index" (Value.integer false b.source_step_index) (
    Fields.field "path" (Value.items (path_items b.path))
      (Fields.field "value_type" (Value.text b.value_type) Fields.end))

-- `encode_step_output_bindings`
unfoldable mutual
  unfolding path_items

  pub encode : Input → Value
  encode Input.null = Value.null
  encode (Input.flag b) = Value.flag b
  encode (Input.integer negative n) = Value.integer negative n
  encode (Input.real bits) = Value.real bits
  encode (Input.text s) = Value.text s
  encode (Input.binding b) =
      Value.mapping (Fields.field marker (Value.mapping (payload_of b)) Fields.end)
  encode (Input.sequence xs) = Value.items (encode_items xs)
  encode (Input.array xs) = Value.items (encode_items xs)
  encode (Input.mapping fs) = Value.mapping (encode_fields fs)

  pub encode_items : Inputs → Items
  encode_items Inputs.nil = Items.nil
  encode_items (Inputs.cons x xs) = Items.cons (encode x) (encode_items xs)

  pub encode_fields : InputFields → Fields
  encode_fields InputFields.end = Fields.end
  encode_fields (InputFields.field k x fs) = Fields.field k (encode x) (encode_fields fs)

-- What `json.loads` may put where a number, a segment or a type is expected.
abbrev pub read_source : Value → ℕ
read_source (Value.integer false n) = n
read_source _ = 0

abbrev pub read_segment : Value → Option Segment
read_segment (Value.text k) = some (key k)
read_segment (Value.integer false i) = some (index i)
read_segment _ = none

unfoldable pub count_items : Items → ℕ
count_items Items.nil = 0
count_items (Items.cons v vs) = suc (count_items vs)

-- A segment that is read, in front of the path that follows.
abbrev pub add_segment :
    Option Segment → Result BindingError (List Segment) → Result BindingError (List Segment)
add_segment none rest = raised (value_error "Binding list indexes must be between 0 and 999.")
add_segment (some s) (ok path) =
    if is_segment s then ok (s ∷ path) else raised (value_error (segment_message s))
add_segment (some s) (raised e) =
    if is_segment s then raised e else raised (value_error (segment_message s))

-- The loop over the segments.
unfoldable pub read_path : Items → Result BindingError (List Segment)
read_path Items.nil = ok []
read_path (Items.cons v vs) = add_segment (read_segment v) (read_path vs)

-- A value that no set can hold: testing for it raises `TypeError`.
abbrev pub is_unhashable : Value → Bool
is_unhashable (Value.items vs) = true
is_unhashable (Value.mapping fs) = true
is_unhashable _ = false

module _ (decimal : ℕ → String) where
  -- `__post_init__` of a binding that is read, from its description on.
  unfoldable pub read_type : ℕ → List Segment → Value → Result BindingError Input
  unfolding path_rejection path_description
  read_type source path (Value.text t) =
      let b : StepOutputBinding = record {
        source_step_index = source;
        path = path;
        value_type = t;
      } in
      built_if decimal (path_rejection decimal b) b
  read_type source path v =
      if ltb (text_length (path_description decimal path)) 501
      then if is_unhashable v
        then raised type_error
        else raised (value_error "Binding value type is unsupported.")
      else raised (value_error "Binding path description cannot exceed 500 characters.")

  unfoldable pub read_rest :
      ℕ → Result BindingError (List Segment) → Value → Result BindingError Input
  unfolding read_type
  read_rest source (ok path) v = read_type source path v
  read_rest source (raised e) v = raised e

  -- `StepOutputBinding(source_step_index=…, path=tuple(path), value_type=…)`
  unfoldable pub read_binding : Value → Items → Value → Result BindingError Input
  unfolding count_items read_path read_rest
  read_binding source path v =
      if ltb (read_source source) 1
      then raised (value_error "Binding source step index must be positive.")
      else if nat_beq (count_items path) 0 || ltb 16 (count_items path)
      then raised (value_error "Binding paths must contain between 1 and 16 segments.")
      else read_rest (read_source source) (read_path path) v

  -- `isinstance(path, list)`
  unfoldable pub read_listed : Value → Value → Value → Result BindingError Input
  unfolding read_binding
  read_listed source (Value.items path) v = read_binding source path v
  read_listed source _ v = raised (value_error "Stored step output binding path is invalid.")

  unfoldable pub read_three : Option Value → Option Value → Option Value → Result BindingError Input
  unfolding read_listed
  read_three (some source) (some path) (some v) = read_listed source path v
  read_three _ _ _ = raised (value_error "Stored step output binding is invalid.")

  -- `set(payload) == {…}`: three keys, each of them there; the keys of a mapping are distinct.
  unfoldable pub read_payload : Value → Result BindingError Input
  unfolding read_three Value.get
  read_payload (Value.mapping (Fields.field a u (Fields.field b v (Fields.field c w Fields.end)))) =
      let fs = Fields.field a u (Fields.field b v (Fields.field c w Fields.end)) in
      read_three (Value.get fs "source_step_index") (Value.get fs "path")
        (Value.get fs "value_type")
  read_payload _ = raised (value_error "Stored step output binding is invalid.")

-- `set(value) == {STEP_OUTPUT_BINDING_MARKER}`: the payload, if so.
unfoldable pub marked : Fields → Option Value
marked (Fields.field k v Fields.end) = if k == marker then some v else none
marked _ = none

-- The parts of a sequence and of a mapping, where one that raises ends it all.
abbrev pub sequence_of : Result BindingError Inputs → Result BindingError Input
sequence_of (ok xs) = ok (Input.sequence xs)
sequence_of (raised e) = raised e

abbrev pub mapping_of : Result BindingError InputFields → Result BindingError Input
mapping_of (ok fs) = ok (Input.mapping fs)
mapping_of (raised e) = raised e

abbrev pub add_input :
    Result BindingError Input → Result BindingError Inputs → Result BindingError Inputs
add_input (ok x) (ok xs) = ok (Inputs.cons x xs)
add_input (ok x) (raised e) = raised e
add_input (raised e) xs = raised e

abbrev pub add_field :
    String
    → Result BindingError Input
    → Result BindingError InputFields
    → Result BindingError InputFields
add_field k (ok x) (ok fs) = ok (InputFields.field k x fs)
add_field k (ok x) (raised e) = raised e
add_field k (raised e) fs = raised e

module _ (decimal : ℕ → String) where
  abbrev pub or_mapping : Option Value → Result BindingError Input → Result BindingError Input
  or_mapping (some payload) rest = read_payload decimal payload
  or_mapping none rest = rest

-- `decode_step_output_bindings`
unfoldable mutual
  unfolding marked read_payload

  pub decode : (ℕ → String) → Value → Result BindingError Input
  decode decimal Value.null = ok Input.null
  decode decimal (Value.flag b) = ok (Input.flag b)
  decode decimal (Value.integer negative n) = ok (Input.integer negative n)
  decode decimal (Value.real bits) = ok (Input.real bits)
  decode decimal (Value.text s) = ok (Input.text s)
  decode decimal (Value.items vs) = sequence_of (decode_items decimal vs)
  decode decimal (Value.mapping fs) =
      or_mapping decimal (marked fs) (mapping_of (decode_fields decimal fs))

  pub decode_items : (ℕ → String) → Items → Result BindingError Inputs
  decode_items decimal Items.nil = ok Inputs.nil
  decode_items decimal (Items.cons v vs) = add_input (decode decimal v) (decode_items decimal vs)

  pub decode_fields : (ℕ → String) → Fields → Result BindingError InputFields
  decode_fields decimal Fields.end = ok InputFields.end
  decode_fields decimal (Fields.field k v fs) =
      add_field k (decode decimal v) (decode_fields decimal fs)
