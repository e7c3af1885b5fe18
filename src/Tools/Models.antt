-- ===== src/Tools/Models.antt =====
-- tools/src/cauco_tools/models.py: tools, their operations, and what the registry says of one. `strip` is
-- Python's `str.strip`.
use cauco.Base.{
  ℕ, String, Bool, true, false, not, ◌&&◌, ◌||◌, Option, none, some, List, [], ◌∷◌, map, ◌==◌,
  string_eq, leb, nat_beq, any, length, if◌then◌else◌,
}
use cauco.Base.Ids.{codes}
use cauco.Tools.Value.{Value}

pub data ToolCategory : Type 0 where
  calendar email filesystem git memory model obsidian : ToolCategory

-- `[a-z]` and `[a-z0-9]`
abbrev pub is_lower : ℕ → Bool
is_lower c = leb b'a' c && leb c b'z'

abbrev pub is_word : ℕ → Bool
is_word c = is_lower c || (leb b'0' c && leb c b'9')

-- `[a-z0-9]*(?:_[a-z0-9]+)*`, where the flag tells whether the text may end or break here.
unfoldable pub words : Bool → List ℕ → Bool
words ready [] = ready
words ready (c ∷ cs) =
    let rest = words (is_word c) cs in
    if is_word c || (nat_beq c b'_' && ready) then rest else false

unfoldable pub snake : List ℕ → Bool
unfolding words
snake [] = false
snake (c ∷ cs) = is_lower c && words true cs

-- `validate_identifier`
unfoldable pub is_identifier : String → Bool
unfolding snake codes
is_identifier value = snake (codes value)

pub record ToolPermission : Type 0 where
  pub name : String
  pub description : String

pub record ToolOperation : Type 0 where
  pub id : String
  pub description : String
  pub safe : Bool
  pub confirmation_required : Bool
  pub enabled : Bool
  pub execution_enabled : Bool
  pub runtime_execution_allowed : Bool
  pub mutation : Bool
  pub preview_required : Bool

pub record ToolDefinition : Type 0 where
  pub id : String
  pub display_name : String
  pub description : String
  pub category : ToolCategory
  pub version : String
  pub enabled : Bool
  pub operations : List ToolOperation
  pub permissions : List ToolPermission
  pub requires_confirmation : Bool
  pub execution_enabled : Bool
  pub metadata : List (String × Value)

pub record ToolValidationResult : Type 0 where
  pub tool_id : String
  pub operation_id : String
  pub valid : Bool
  pub tool_exists : Bool
  pub operation_exists : Bool
  pub tool_enabled : Bool
  pub operation_enabled : Bool
  pub safe : Option Bool
  pub confirmation_required : Option Bool
  pub execution_enabled : Bool
  pub runtime_execution_allowed : Bool
  pub mutation : Bool
  pub preview_required : Bool
  pub reason : Option String

-- `len(xs) == len(set(xs))`
unfoldable pub all_distinct : List String → Bool
all_distinct [] = true
all_distinct (x ∷ xs) = let rest = all_distinct xs in not (any (λ y. x == y) xs) && rest

-- The two Booleans are the same.
abbrev pub same_bool : Bool → Bool → Bool
same_bool true b = b
same_bool false b = not b

module _ (strip : String → String) where
  abbrev pub is_blank : String → Bool
  is_blank s = strip s == ""

  -- `ToolPermission.__post_init__`: the message of the first check that fails.
  unfoldable pub permission_rejection : ToolPermission → Option String
  permission_rejection p =
      if not (is_identifier p.name)
      then some "Permission name must use lowercase snake_case."
      else if is_blank p.description
      then some "Permission description cannot be empty."
      else none

  -- `ToolOperation.__post_init__`
  unfoldable pub operation_rejection : ToolOperation → Option String
  operation_rejection o =
      if not (is_identifier o.id)
      then some "Operation ID must use lowercase snake_case."
      else if is_blank o.description
      then some "Operation description cannot be empty."
      else if o.execution_enabled
      then some "Phase 6A tool operation execution must remain disabled."
      else if o.runtime_execution_allowed && (not o.enabled || not o.safe)
      then some "Runtime-enabled operations must be enabled and safe."
      else if not (same_bool o.mutation o.preview_required)
      then some "Mutation operations must require a preview."
      else if o.mutation && not (o.runtime_execution_allowed && o.confirmation_required)
      then some "Mutations require runtime policy and confirmation."
      else none

  -- `ToolDefinition.__post_init__`
  unfoldable pub definition_rejection : ToolDefinition → Option String
  definition_rejection t =
      if not (is_identifier t.id)
      then some "Tool ID must use lowercase snake_case."
      else if is_blank t.display_name || is_blank t.description || is_blank t.version
      then some "Tool name, description, and version cannot be empty."
      else if nat_beq (length t.operations) 0 || not (all_distinct (map (λ o. o.id) t.operations))
      then some "Tool operations must be non-empty and unique."
      else if not (all_distinct (map (λ p. p.name) t.permissions))
      then some "Tool permissions must be unique."
      else if t.execution_enabled || any (λ o. o.execution_enabled) t.operations
      then some "Phase 6A tool execution must remain disabled."
      else if not
          (same_bool t.requires_confirmation (any (λ o. o.confirmation_required) t.operations))
      then some "Tool confirmation metadata must match its operations."
      else none
