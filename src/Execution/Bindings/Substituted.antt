-- ===== src/Execution/Bindings/Substituted.antt =====
-- `resolve_step_output_bindings` is a substitution: how it names the fields, and in which order it
-- gathers what it did, has no part in the input that comes out.
use cauco.Base.{
  ℕ, suc, ◌≡◌, refl, ap, ◌∙◌, String, str_append, Option, none, some, List, [], ◌∷◌, Result, ok,
  raised, Option-cases, inl, inr,
}
use cauco.Agents.Bindings.{StepOutputBinding, Input, Inputs, InputFields}
use cauco.Agents.Models.{OperationInput}
use cauco.Execution.Models.{AgentPlanStepExecutionRecord}
use cauco.Execution.Bindings.{
  Resolved, resolve_binding, at_field, joined, wrapped, resolve_value, resolve_items,
  resolve_fields, rebuilt, some_resolved, resolve_step_output_bindings,
}
use cauco.Execution.Bindings.Supply.{Supplies, value_of, value_of-resolve_binding}
use cauco.Execution.Bindings.Supplied.{bindings_in_fields, Reports, given_by_fields}

-- The part that is resolved, without the report and without the reason of a refusal.
abbrev pub part_of : {A : Type 0} → Resolved A → Option A
part_of (ok (a, rs)) = some a
part_of (raised e) = none

abbrev pub both : {A B C : Type 0} → (A → B → C) → Option A → Option B → Option C
both f none y = none
both f (some a) none = none
both f (some a) (some b) = some (f a b)

abbrev pub changed : {A B : Type 0} → (A → B) → Option A → Option B
changed f none = none
changed f (some a) = some (f a)

-- Each binding is replaced by what `supply` has for it; there is no input if it has nothing.
module _ (supply : StepOutputBinding → Option Input) where
  unfoldable mutual
    pub substitute : Input → Option Input
    substitute (Input.binding b) = supply b
    substitute (Input.sequence xs) = changed Input.sequence (substitute_items xs)
    substitute (Input.mapping fs) = changed Input.mapping (substitute_fields fs)
    substitute x = some x

    pub substitute_items : Inputs → Option Inputs
    substitute_items Inputs.nil = some Inputs.nil
    substitute_items (Inputs.cons x xs) = both Inputs.cons (substitute x) (substitute_items xs)

    pub substitute_fields : InputFields → Option InputFields
    substitute_fields InputFields.end = some InputFields.end
    substitute_fields (InputFields.field k x fs) =
        both (InputFields.field k) (substitute x) (substitute_fields fs)

abbrev pub as_input : OperationInput → Option InputFields → Option (Option OperationInput)
as_input input none = none
as_input input (some fs) = some (some (record { class_name = input.class_name; fields = fs }))

-- The input that is left as it was if it has no binding, and else is built anew by its class.
abbrev pub finished :
    (String → InputFields → Option InputFields)
    → OperationInput
    → List StepOutputBinding
    → Option InputFields
    → Option (Option OperationInput)
finished construct input bs none = none
finished construct input [] (some fs) = some (some input)
finished construct input (b ∷ bs) (some fs) = as_input input (construct input.class_name fs)

-- The specification of `resolve_step_output_bindings`.
unfoldable pub substituted :
    (String → InputFields → Option InputFields)
    → (StepOutputBinding → Option Input)
    → OperationInput
    → Option (Option OperationInput)
unfolding substitute_fields bindings_in_fields
substituted construct supply input =
    finished construct input (bindings_in_fields input.fields)
      (substitute_fields supply input.fields)

part_of-joined :
    {A B C : Type 0} (f : A → B → C) (x : Resolved A) (y : Resolved B)
    → part_of (joined f x y) ≡ both f (part_of x) (part_of y)
part_of-joined f (raised e) y = refl
part_of-joined f (ok (a, rs)) (raised e) = refl
part_of-joined f (ok (a, rs)) (ok (b, qs)) = refl

part_of-wrapped :
    {A B : Type 0} (f : A → B) (x : Resolved A) → part_of (wrapped f x) ≡ changed f (part_of x)
part_of-wrapped f (raised e) = refl
part_of-wrapped f (ok (a, rs)) = refl

part_of-at_field :
    (destination : String) (b : StepOutputBinding) (r : Result String Input)
    → part_of (at_field destination b r) ≡ value_of r
part_of-at_field destination b (ok x) = refl
part_of-at_field destination b (raised message) = refl

module _ (decimal : ℕ → String) (steps : List AgentPlanStepExecutionRecord)
    (consuming_step_index : ℕ) (supply : StepOutputBinding → Option Input)
    (supplies : Supplies steps consuming_step_index supply) where
  mutual
    unfolding resolve_value substitute

    value_substitutes :
        (destination : String) (x : Input)
        → part_of (resolve_value decimal steps consuming_step_index destination x)
          ≡ substitute supply x
    value_substitutes destination (Input.binding b) =
        part_of-at_field destination b (resolve_binding steps consuming_step_index b)
        ∙ value_of-resolve_binding steps consuming_step_index supply b supplies
    value_substitutes destination (Input.sequence xs) =
        part_of-wrapped Input.sequence
          (resolve_items decimal steps consuming_step_index destination 0 xs)
        ∙ ap (changed Input.sequence) (items_substitute destination 0 xs)
    value_substitutes destination (Input.mapping fs) =
        part_of-wrapped Input.mapping
          (resolve_fields decimal steps consuming_step_index (str_append destination ".") fs)
        ∙ ap (changed Input.mapping) (fields_substitute (str_append destination ".") fs)
    value_substitutes destination (Input.array xs) = refl
    value_substitutes destination Input.null = refl
    value_substitutes destination (Input.flag b) = refl
    value_substitutes destination (Input.integer sign n) = refl
    value_substitutes destination (Input.real bits) = refl
    value_substitutes destination (Input.text s) = refl

    items_substitute :
        (destination : String) (i : ℕ) (xs : Inputs)
        → part_of (resolve_items decimal steps consuming_step_index destination i xs)
          ≡ substitute_items supply xs
    items_substitute destination i Inputs.nil = refl
    items_substitute destination i (Inputs.cons x xs) =
        let name = str_append destination (str_append "[" (str_append (decimal i) "]")) in
        part_of-joined Inputs.cons (resolve_value decimal steps consuming_step_index name x)
          (resolve_items decimal steps consuming_step_index destination (suc i) xs)
        ∙ (λ k.
            both Inputs.cons (value_substitutes name x k)
              (items_substitute destination (suc i) xs k))

    fields_substitute :
        (prefix : String) (fs : InputFields)
        → part_of (resolve_fields decimal steps consuming_step_index prefix fs)
          ≡ substitute_fields supply fs
    fields_substitute prefix InputFields.end = refl
    fields_substitute prefix (InputFields.field k x fs) =
        part_of-joined (InputFields.field k)
          (resolve_value decimal steps consuming_step_index (str_append prefix k) x)
          (resolve_fields decimal steps consuming_step_index prefix fs)
        ∙ (λ i.
            both (InputFields.field k) (value_substitutes (str_append prefix k) x i)
              (fields_substitute prefix fs i))

  rebuilt-finished :
      (construct : String → InputFields → Option InputFields) (input : OperationInput)
      (x : Resolved InputFields) (bs : List StepOutputBinding)
      → Reports steps consuming_step_index x bs
      → part_of (some_resolved (rebuilt construct input x))
        ≡ finished construct input bs (part_of x)
  unfolding rebuilt
  rebuilt-finished construct input (raised e) bs h = refl
  rebuilt-finished construct input (ok (fs, [])) [] h = refl
  rebuilt-finished construct input (ok (fs, [])) (b ∷ bs) h = absurd (cc (h.0))
  rebuilt-finished construct input (ok (fs, r ∷ rs)) [] h = absurd (cc (h.0))
  rebuilt-finished construct input (ok (fs, r ∷ rs)) (b ∷ bs) h =
      elim (Option-cases (construct input.class_name fs)) [
        | inr (built, fine) ↦ rw fine refl
        | inl odd ↦ rw odd refl
      ]

-- The resolution of an input's bindings implements the substitution of what the earlier steps supply,
-- for any function that has, for each binding, just the scalar that it is supplied with: it gives the
-- input that the class builds of the substituted fields, and is refused exactly where a binding is
-- not supplied or the class does not accept the outcome. An input without bindings is left as it is.
pub resolve-substitutes :
    (decimal : ℕ → String) (construct : String → InputFields → Option InputFields)
    (steps : List AgentPlanStepExecutionRecord) (consuming_step_index : ℕ)
    (supply : StepOutputBinding → Option Input) (input : OperationInput)
    → Supplies steps consuming_step_index supply
    → part_of
        (resolve_step_output_bindings decimal steps consuming_step_index construct (some input))
      ≡ substituted construct supply input
unfolding resolve_step_output_bindings substituted
resolve-substitutes decimal construct steps consuming_step_index supply input supplies =
    rebuilt-finished decimal steps consuming_step_index supply supplies construct input
      (resolve_fields decimal steps consuming_step_index "" input.fields)
      (bindings_in_fields input.fields)
      (given_by_fields steps consuming_step_index decimal "" input.fields)
    ∙ ap (finished construct input (bindings_in_fields input.fields))
        (fields_substitute decimal steps consuming_step_index supply supplies "" input.fields)
