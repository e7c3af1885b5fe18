-- ===== src/Execution/Bindings/Supplied.antt =====
-- Where the values come from that `resolve_step_output_bindings` puts into an input.
use mathlib.Core.Path.{subst}
use cauco.Execution.Bindings.Supply.{IsSupplied, resolve_binding-cases}
use cauco.Base.{
  ℕ, suc, ◌≡◌, refl, ap, ◌∙◌, String, Option, some, List, [], ◌∷◌, ◌++◌, map, nat_eq, string_eq, ok,
  raised, All, All-append, Option-cases, inl, inr, str_append,
}
use cauco.Agents.Bindings.{StepOutputBinding, Input, Inputs, InputFields}
use cauco.Agents.Models.{OperationInput}
use cauco.Execution.Models.{AgentPlanStepExecutionRecord}
use cauco.Execution.Bindings.{
  Resolved, joined, wrapped, resolve_value, resolve_items, resolve_fields, rebuilt, some_resolved,
  resolve_step_output_bindings,
}

-- The bindings of an input, in the order in which they stand.
unfoldable mutual
  pub bindings_of : Input → List StepOutputBinding
  bindings_of (Input.binding b) = b ∷ []
  bindings_of (Input.sequence xs) = bindings_in_items xs
  bindings_of (Input.mapping fs) = bindings_in_fields fs
  bindings_of _ = []

  pub bindings_in_items : Inputs → List StepOutputBinding
  bindings_in_items Inputs.nil = []
  bindings_in_items (Inputs.cons x xs) = bindings_of x ++ bindings_in_items xs

  pub bindings_in_fields : InputFields → List StepOutputBinding
  bindings_in_fields InputFields.end = []
  bindings_in_fields (InputFields.field k x fs) = bindings_of x ++ bindings_in_fields fs

module _ (steps : List AgentPlanStepExecutionRecord) (consuming_step_index : ℕ) where
  abbrev pub HasSupply : StepOutputBinding → Type 0
  HasSupply b = (x : Input) × IsSupplied steps consuming_step_index b x

  -- What is resolved reports the bindings given, and each of them was supplied.
  abbrev pub Reports : {A : Type 0} → Resolved A → List StepOutputBinding → Type 0
  Reports (raised e) bs = Unit
  Reports (ok (a, rs)) bs = (map (λ p. p.1) rs ≡ bs) × All (λ p. HasSupply p.1) rs

  map-append :
      (rs qs : List (String × StepOutputBinding))
      → map (λ p. p.1) (rs ++ qs) ≡ map (λ p. p.1) rs ++ map (λ p. p.1) qs
  map-append [] qs = refl
  map-append (r ∷ rs) qs = ap (λ bs. r.1 ∷ bs) (map-append rs qs)

  joined-Reports :
      {A B C : Type 0} (f : A → B → C) (x : Resolved A) (y : Resolved B)
      (bs cs : List StepOutputBinding)
      → Reports x bs
      → Reports y cs
      → Reports (joined f x y) (bs ++ cs)
  joined-Reports f (raised e) y bs cs h k = tt
  joined-Reports f (ok (a, rs)) (raised e) bs cs h k = tt
  joined-Reports f (ok (a, rs)) (ok (b, qs)) bs cs h k =
      (map-append rs qs ∙ cc (h.0, k.0), All-append (λ p. HasSupply p.1) rs qs h.1 k.1)

  wrapped-Reports :
      {A B : Type 0} (f : A → B) (x : Resolved A) (bs : List StepOutputBinding)
      → Reports x bs
      → Reports (wrapped f x) bs
  wrapped-Reports f (raised e) bs h = tt
  wrapped-Reports f (ok (a, rs)) bs h = h

  module _ (decimal : ℕ → String) where
    mutual
      unfolding resolve_value bindings_of

      given_by_value :
          (destination : String) (x : Input)
          → Reports (resolve_value decimal steps consuming_step_index destination x) (bindings_of x)
      given_by_value destination (Input.binding b) =
          elim (resolve_binding-cases steps consuming_step_index b) [
            | inl (message, fails) ↦ rw fails tt
            | inr (scalar, gives, supplied) ↦ rw gives (refl, ((scalar, supplied), tt))
          ]
      given_by_value destination (Input.sequence xs) =
          wrapped-Reports Input.sequence
            (resolve_items decimal steps consuming_step_index destination 0 xs)
            (bindings_in_items xs) (given_by_items destination 0 xs)
      given_by_value destination (Input.mapping fs) =
          wrapped-Reports Input.mapping
            (resolve_fields decimal steps consuming_step_index (str_append destination ".") fs)
            (bindings_in_fields fs) (given_by_fields (str_append destination ".") fs)
      given_by_value destination (Input.array xs) = (refl, tt)
      given_by_value destination Input.null = (refl, tt)
      given_by_value destination (Input.flag b) = (refl, tt)
      given_by_value destination (Input.integer sign n) = (refl, tt)
      given_by_value destination (Input.real bits) = (refl, tt)
      given_by_value destination (Input.text s) = (refl, tt)

      given_by_items :
          (destination : String) (i : ℕ) (xs : Inputs)
          → Reports
              (resolve_items decimal steps consuming_step_index destination i xs)
              (bindings_in_items xs)
      given_by_items destination i Inputs.nil = (refl, tt)
      given_by_items destination i (Inputs.cons x xs) =
          joined-Reports Inputs.cons
            (resolve_value decimal steps consuming_step_index
              (str_append destination (str_append "[" (str_append (decimal i) "]"))) x)
            (resolve_items decimal steps consuming_step_index destination (suc i) xs)
            (bindings_of x) (bindings_in_items xs)
            (given_by_value (str_append destination (str_append "[" (str_append (decimal i) "]")))
              x)
            (given_by_items destination (suc i) xs)

      pub given_by_fields :
          (prefix : String) (fs : InputFields)
          → Reports
              (resolve_fields decimal steps consuming_step_index prefix fs)
              (bindings_in_fields fs)
      given_by_fields prefix InputFields.end = (refl, tt)
      given_by_fields prefix (InputFields.field k x fs) =
          joined-Reports (InputFields.field k)
            (resolve_value decimal steps consuming_step_index (str_append prefix k) x)
            (resolve_fields decimal steps consuming_step_index prefix fs) (bindings_of x)
            (bindings_in_fields fs) (given_by_value (str_append prefix k) x)
            (given_by_fields prefix fs)

    rebuilt-Reports :
        (construct : String → InputFields → Option InputFields) (input : OperationInput)
        (x : Resolved InputFields) (bs : List StepOutputBinding)
        → Reports x bs
        → Reports (some_resolved (rebuilt construct input x)) bs
    unfolding rebuilt
    rebuilt-Reports construct input (raised e) bs h = tt
    rebuilt-Reports construct input (ok (fs, [])) bs h = h
    rebuilt-Reports construct input (ok (fs, r ∷ rs)) bs h =
        elim (Option-cases (construct input.class_name fs)) [
          | inr (built, fine) ↦ rw fine h
          | inl odd ↦ rw odd tt
        ]

-- If the inputs of a step resolve, the report names the bindings of its fields in their order, and each
-- of them names an earlier step that completed with success and whose data hold a scalar of the
-- declared type at the path.
pub resolve-IsSupplied :
    (decimal : ℕ → String) (construct : String → InputFields → Option InputFields)
    (steps : List AgentPlanStepExecutionRecord) (consuming_step_index : ℕ) (input : OperationInput)
    (resolved : Option OperationInput) (rs : List (String × StepOutputBinding))
    → resolve_step_output_bindings decimal steps consuming_step_index construct (some input)
      ≡ ok (resolved, rs)
    → (map (λ p. p.1) rs ≡ bindings_in_fields input.fields)
      × All (λ p. HasSupply steps consuming_step_index p.1) rs
unfolding resolve_step_output_bindings
resolve-IsSupplied decimal construct steps consuming_step_index input resolved rs h =
    subst (λ x. Reports steps consuming_step_index x (bindings_in_fields input.fields)) h
      (rebuilt-Reports steps consuming_step_index decimal construct input
        (resolve_fields decimal steps consuming_step_index "" input.fields)
        (bindings_in_fields input.fields)
        (given_by_fields steps consuming_step_index decimal "" input.fields))
