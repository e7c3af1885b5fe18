-- ===== src/Tools/Registry/Guarded.antt =====
-- What `validate` promises of the operations that `ToolOperation` accepts.
use mathlib.Core.Path.{subst}
use text.Mathlib.TextEquality.{eq_iff}
use cauco.Base.{
  sym, ap, ◌∙◌, ◌≡◌, refl, String, Bool, true, not, ◌&&◌, ◌||◌, none, some, List, [], ◌∷◌,
  Bool-cases, Option-cases, inl, inr, arith, All, ◌==◌, string_eq,
}
use cauco.Base.Dict.{get}
use cauco.Base.Dict.Laws.{Each}
use cauco.Tools.Models.{
  ToolOperation, ToolDefinition, ToolValidationResult, operation_rejection, same_bool,
}
use cauco.Tools.Registry.{
  ToolRegistry, find_operation, without_tool, validated, validated_in, validate,
}

abbrev pub IsAccepted : (String → String) → ToolRegistry → Type 0
IsAccepted strip tools =
    Each (λ id tool. All (λ o. operation_rejection strip o ≡ none) tool.operations) tools

-- What the checks of `ToolOperation` leave: a mutation is previewed, confirmed and run by the runtime alone.
abbrev pub operation_guarded : ToolOperation → Bool
operation_guarded o =
    (not o.runtime_execution_allowed || (o.enabled && o.safe))
    && same_bool o.mutation o.preview_required
    && (not o.mutation || (o.runtime_execution_allowed && o.confirmation_required))

operation_rejection-guarded :
    (strip : String → String) (o : ToolOperation)
    → operation_rejection strip o ≡ none
    → operation_guarded o ≡ true
unfolding operation_rejection
operation_rejection-guarded strip o h = ground arith

find_operation-All :
    (P : ToolOperation → Type 0) (id : String) (os : List ToolOperation) (o : ToolOperation)
    → All P os
    → find_operation id os ≡ some o
    → P o × (o.id ≡ id)
unfolding find_operation
find_operation-All P id [] o h e = absurd (cc)
find_operation-All P id (x ∷ os) o h e = elim (Bool-cases (x.id == id)) [
  | inl same ↦
      let one : x ≡ o = cc (rw same at e) in
      (subst P one h.0, ap (λ y. y.id) (sym one) ∙ (eq_iff x.id id).0 same)
  | inr other ↦ find_operation-All P id os o h.1 (rw other at e)
]

-- What the answer of `validate` promises: a mutation is what needs a preview, it is run by the runtime
-- alone and confirmed, and what the runtime may run is safe and enabled as an operation.
pub record IsGuarded (v : ToolValidationResult) : Type 0 where
  pub preview : v.preview_required ≡ v.mutation
  pub confirmed : v.mutation ≡ true → v.confirmation_required ≡ some true
  pub allowed : v.mutation ≡ true → v.runtime_execution_allowed ≡ true
  pub safe :
      v.runtime_execution_allowed ≡ true → (v.safe ≡ some true) × (v.operation_enabled ≡ true)
  pub known :
      v.valid ≡ true → (v.tool_exists ≡ true) × (v.operation_exists ≡ true) × (v.reason ≡ none)

validated-IsGuarded :
    (tool_id operation_id : String) (tool : ToolDefinition) (o : ToolOperation)
    → operation_guarded o ≡ true
    → IsGuarded (validated tool_id operation_id tool (some o))
unfolding validated
validated-IsGuarded tool_id operation_id tool o h = record {
  preview = ground arith;
  confirmed = λ e. ground arith;
  allowed = λ e. ground arith;
  safe = λ e. ground arith;
  known = λ e. ground arith;
}

-- Every answer of `validate` over tools whose operations all passed the checks of `ToolOperation` keeps
-- those promises, for tools and operations that are not registered too.
pub validate-IsGuarded :
    (strip : String → String) (tools : ToolRegistry) (tool_id operation_id : String)
    → IsAccepted strip tools
    → IsGuarded (validate tools tool_id operation_id)
unfolding validate validated_in without_tool validated
validate-IsGuarded strip tools tool_id operation_id h = elim (Option-cases (get tools tool_id)) [
  | inl absent ↦ rw absent (record {
    preview = refl;
    confirmed = λ e. absurd (cc);
    allowed = λ e. absurd (cc);
    safe = λ e. absurd (cc);
    known = λ e. absurd (cc);
  })
  | inr (tool, found) ↦
      rw found (elim (Option-cases (find_operation operation_id tool.operations)) [
        | inl absent ↦ rw absent (record {
          preview = refl;
          confirmed = λ e. absurd (cc);
          allowed = λ e. absurd (cc);
          safe = λ e. absurd (cc);
          known = λ e. absurd (cc);
        })
        | inr (o, there) ↦
            let accepted =
              find_operation-All (λ x. operation_rejection strip x ≡ none) operation_id
                tool.operations o (h tool_id tool found) there in
            rw there (
              validated-IsGuarded tool_id operation_id tool o
                (operation_rejection-guarded strip o accepted.0))
      ])
]
