-- ===== src/Execution/Bindings/Supply.antt =====
-- What a binding of an input stands for, and that `_resolve_binding` of
-- core/src/cauco_core/execution/bindings.py finds just that.
use mathlib.Core.Path.{subst}
use text.Mathlib.TextEquality.{eq_iff}
use cauco.Base.{
  ℕ, zero, suc, ◌<◌, ◌≡◌, refl, sym, ap, ◌∙◌, String, Bool, true, Option, some, none, List, [], ◌∷◌,
  ◌==◌, nat_eq, string_eq, ltb, first, length, Result, ok, raised, Bool-cases, Option-cases, inl,
  inr, ◌⊎◌, ◌↔◌, arith,
}
use cauco.Tools.Value
use cauco.Tools.Value.{Value, Items, Fields}
use cauco.Tools.Result.{ToolExecutionResult}
use cauco.Agents.Bindings.{Segment, StepOutputBinding, Input}
use cauco.Execution.Models.{StepExecutionStatus, AgentPlanStepExecutionRecord}
use cauco.Execution.Bindings.{
  is_completed, nth, enter, follow, matching, from_result, from_step, resolve_binding,
}

-- Values in front of a list.
abbrev pub onto : List Value → Items → Items
onto [] vs = vs
onto (v ∷ before) vs = Items.cons v (onto before vs)

-- The item of a list that has so many before it.
abbrev pub ItemIs : Items → ℕ → Value → Type 0
ItemIs vs i v =
    (before : List Value) × (after : Items) × (vs ≡ onto before (Items.cons v after))
    × (length before ≡ i)

-- What stands at a path in JSON data: a key leads into a mapping, an index into a list.
abbrev pub At : List Segment → Value → Value → Type 0
At [] v w = v ≡ w
At (Segment.key k ∷ path) v w =
    (fs : Fields) × (x : Value) × (v ≡ Value.mapping fs) × (Value.get fs k ≡ some x) × At path x w
At (Segment.index i ∷ path) v w =
    (vs : Items) × (x : Value) × (v ≡ Value.items vs) × ItemIs vs i x × At path x w

-- A scalar of a type: a boolean is no number, and an integer is one.
pub data HasType (v : Value) (t : String) (x : Input) : Type 0 where
  a_string : (s : String) → t ≡ "string" → v ≡ Value.text s → x ≡ Input.text s → HasType v t x
  an_integer :
      (sign : Bool) (n : ℕ)
      → (t ≡ "integer") ⊎ (t ≡ "number")
      → v ≡ Value.integer sign n
      → x ≡ Input.integer sign n
      → HasType v t x
  a_real : (bits : ℕ) → t ≡ "number" → v ≡ Value.real bits → x ≡ Input.real bits → HasType v t x
  a_boolean : (b : Bool) → t ≡ "boolean" → v ≡ Value.flag b → x ≡ Input.flag b → HasType v t x

module _ (steps : List AgentPlanStepExecutionRecord) (consuming_step_index : ℕ) where
  -- What a binding is supplied with: an earlier step completed with success, and its data hold, at the
  -- path, that scalar of the declared type.
  pub record IsSupplied (b : StepOutputBinding) (x : Input) : Type 0 where
    pub earlier : b.source_step_index < consuming_step_index
    pub source : AgentPlanStepExecutionRecord
    pub found : first (λ step. step.step_index == b.source_step_index) steps ≡ some source
    pub completed : source.status ≡ StepExecutionStatus.completed
    pub result : ToolExecutionResult
    pub has_result : source.result ≡ some result
    pub succeeded : result.success ≡ true
    pub value : Value
    pub there : At b.path (Value.mapping result.structured_data) value
    pub fits : HasType value b.value_type x

not_ok : {A : Type 0} (m : String) (a : A) → ¬ (◌≡◌ {A = Result String A} (raised m) (ok a))
not_ok m a h = absurd (cc)

nothing : (x : Input) → ¬ (◌≡◌ {A = Option Input} none (some x))
nothing x h = absurd (cc)

inside : (y x : Input) → ◌≡◌ {A = Option Input} (some y) (some x) → y ≡ x
inside y x h = cc

nth-ItemIs : (vs : Items) (i : ℕ) (v : Value) → nth vs i ≡ some v → ItemIs vs i v
unfolding nth
nth-ItemIs Items.nil i v h = absurd (cc)
nth-ItemIs (Items.cons w vs) zero v h =
    let same : w ≡ v = cc in ([], vs, ap (λ x. Items.cons x vs) same, refl)
nth-ItemIs (Items.cons w vs) (suc i) v h =
    let (before, after, parts, count) = nth-ItemIs vs i v h in
    (w ∷ before, after, ap (Items.cons w) parts, ap suc count)

nth-onto :
    (before : List Value) (v : Value) (after : Items)
    → nth (onto before (Items.cons v after)) (length before) ≡ some v
unfolding nth
nth-onto [] v after = refl
nth-onto (w ∷ before) v after = nth-onto before v after

follow-At : (path : List Segment) (v w : Value) → follow path v ≡ ok w → At path v w
unfolding follow enter
follow-At [] v w h = cc
follow-At (Segment.key k ∷ path) (Value.mapping fs) w h = elim (Option-cases (Value.get fs k)) [
  | inl absent ↦ absurd (not_ok _ w (rw absent at h))
  | inr (x, there) ↦ (fs, x, refl, there, follow-At path x w (rw there at h))
]
follow-At (Segment.key k ∷ path) Value.null w h = absurd (not_ok _ w h)
follow-At (Segment.key k ∷ path) (Value.flag b) w h = absurd (not_ok _ w h)
follow-At (Segment.key k ∷ path) (Value.integer sign n) w h = absurd (not_ok _ w h)
follow-At (Segment.key k ∷ path) (Value.real bits) w h = absurd (not_ok _ w h)
follow-At (Segment.key k ∷ path) (Value.text s) w h = absurd (not_ok _ w h)
follow-At (Segment.key k ∷ path) (Value.items vs) w h = absurd (not_ok _ w h)
follow-At (Segment.index i ∷ path) (Value.items vs) w h = elim (Option-cases (nth vs i)) [
  | inl absent ↦ absurd (not_ok _ w (rw absent at h))
  | inr (x, there) ↦ (vs, x, refl, nth-ItemIs vs i x there, follow-At path x w (rw there at h))
]
follow-At (Segment.index i ∷ path) Value.null w h = absurd (not_ok _ w h)
follow-At (Segment.index i ∷ path) (Value.flag b) w h = absurd (not_ok _ w h)
follow-At (Segment.index i ∷ path) (Value.integer sign n) w h = absurd (not_ok _ w h)
follow-At (Segment.index i ∷ path) (Value.real bits) w h = absurd (not_ok _ w h)
follow-At (Segment.index i ∷ path) (Value.text s) w h = absurd (not_ok _ w h)
follow-At (Segment.index i ∷ path) (Value.mapping fs) w h = absurd (not_ok _ w h)

At-follow : (path : List Segment) (v w : Value) → At path v w → follow path v ≡ ok w
unfolding follow enter
At-follow [] v w h = ap ok h
At-follow (Segment.key k ∷ path) v w (fs, x, is_mapping, there, rest) =
    rw (is_mapping, there) (At-follow path x w rest)
At-follow (Segment.index i ∷ path) v w (vs, x, is_list, (before, after, parts, count), rest) =
    let there : nth vs i ≡ some x = (λ k. nth (parts k) (sym count k)) ∙ nth-onto before x after in
    rw (is_list, there) (At-follow path x w rest)

matching-HasType : (v : Value) (t : String) (x : Input) → matching v t ≡ some x → HasType v t x
unfolding matching
matching-HasType (Value.text s) t x h = elim (Bool-cases (t == "string")) [
  | inl is_text ↦
      let same : ◌≡◌ {A = Option Input} (some (Input.text s)) (some x) = rw is_text at h in
      HasType.a_string s ((eq_iff t "string").0 is_text) refl (sym (inside _ _ same))
  | inr other ↦ absurd (nothing x (rw other at h))
]
matching-HasType (Value.integer sign n) t x h = elim (Bool-cases (t == "integer")) [
  | inl is_integer ↦
      let same : ◌≡◌ {A = Option Input} (some (Input.integer sign n)) (some x) =
        rw is_integer at h in
      HasType.an_integer sign n (inl ((eq_iff t "integer").0 is_integer)) refl
        (sym (inside _ _ same))
  | inr other ↦ elim (Bool-cases (t == "number")) [
    | inl is_number ↦
        let same : ◌≡◌ {A = Option Input} (some (Input.integer sign n)) (some x) =
          rw (other, is_number) at h in
        HasType.an_integer sign n (inr ((eq_iff t "number").0 is_number)) refl
          (sym (inside _ _ same))
    | inr neither ↦ absurd (nothing x (rw (other, neither) at h))
  ]
]
matching-HasType (Value.real bits) t x h = elim (Bool-cases (t == "number")) [
  | inl is_number ↦
      let same : ◌≡◌ {A = Option Input} (some (Input.real bits)) (some x) = rw is_number at h in
      HasType.a_real bits ((eq_iff t "number").0 is_number) refl (sym (inside _ _ same))
  | inr other ↦ absurd (nothing x (rw other at h))
]
matching-HasType (Value.flag b) t x h = elim (Bool-cases (t == "boolean")) [
  | inl is_flag ↦
      let same : ◌≡◌ {A = Option Input} (some (Input.flag b)) (some x) = rw is_flag at h in
      HasType.a_boolean b ((eq_iff t "boolean").0 is_flag) refl (sym (inside _ _ same))
  | inr other ↦ absurd (nothing x (rw other at h))
]
matching-HasType Value.null t x h = absurd (nothing x h)
matching-HasType (Value.items vs) t x h = absurd (nothing x h)
matching-HasType (Value.mapping fs) t x h = absurd (nothing x h)

HasType-matching : (v : Value) (t : String) (x : Input) → HasType v t x → matching v t ≡ some x
unfolding matching
HasType-matching v t x (HasType.a_string s type is_text gives) = rw (type, is_text, gives) refl
HasType-matching v t x (HasType.an_integer sign n (inl type) is_integer gives) =
    rw (type, is_integer, gives) refl
HasType-matching v t x (HasType.an_integer sign n (inr type) is_integer gives) =
    rw (type, is_integer, gives) refl
HasType-matching v t x (HasType.a_real bits type is_real gives) = rw (type, is_real, gives) refl
HasType-matching v t x (HasType.a_boolean b type is_flag gives) = rw (type, is_flag, gives) refl

completed_lem :
    (s : StepExecutionStatus) → is_completed s ≡ true → s ≡ StepExecutionStatus.completed
completed_lem s h = ground arith

from_result-cases :
    (b : StepOutputBinding) (result : ToolExecutionResult)
    → ((message : String) × (from_result b result ≡ raised message))
      ⊎ ((x : Input) × (value : Value) × (from_result b result ≡ ok x)
          × (result.success ≡ true)
          × At b.path (Value.mapping result.structured_data) value
          × HasType value b.value_type x)
unfolding from_result
from_result-cases b result = elim (Bool-cases result.success) [
  | inr failed ↦ inl ("Output binding source step did not complete successfully.", rw failed refl)
  | inl succeeded ↦ elim (follow-cases (follow b.path (Value.mapping result.structured_data))) [
    | inl (message, lost) ↦ inl (message, rw (succeeded, lost) refl)
    | inr (value, there) ↦ elim (Option-cases (matching value b.value_type)) [
      | inl other ↦
          inl
            ("Output binding resolved to the wrong scalar type.", rw (succeeded, there, other) refl)
      | inr (x, fits) ↦ inr (
        x,
        value,
        rw (succeeded, there, fits) refl,
        succeeded,
        follow-At b.path (Value.mapping result.structured_data) value there,
        matching-HasType value b.value_type x fits,
      )
    ]
  ]
]
  where
    follow-cases :
        (r : Result String Value)
        → ((message : String) × (r ≡ raised message)) ⊎ ((v : Value) × (r ≡ ok v))
    follow-cases (raised message) = inl (message, refl)
    follow-cases (ok v) = inr (v, refl)

module _ (steps : List AgentPlanStepExecutionRecord) (consuming_step_index : ℕ)
    (b : StepOutputBinding) where
  -- A binding is refused, or it is supplied with what it resolves to.
  pub resolve_binding-cases :
      ((message : String) × (resolve_binding steps consuming_step_index b ≡ raised message))
      ⊎ ((x : Input) × (resolve_binding steps consuming_step_index b ≡ ok x)
          × IsSupplied steps consuming_step_index b x)
  unfolding resolve_binding from_step
  resolve_binding-cases = elim (Bool-cases (ltb b.source_step_index consuming_step_index)) [
    | inr late ↦ inl ("Output bindings must reference an earlier step.", rw late refl)
    | inl earlier ↦
        elim (Option-cases (first (λ step. step.step_index == b.source_step_index) steps)) [
          | inl absent ↦
              inl ("Output binding source step does not exist.", rw (earlier, absent) refl)
          | inr (source, found) ↦ elim (Bool-cases (is_completed source.status)) [
            | inr unfinished ↦ inl (
              "Output binding source step did not complete successfully.",
              rw (earlier, found, unfinished) refl,
            )
            | inl completed ↦ elim (Option-cases source.result) [
              | inl bare ↦ inl (
                "Output binding source step did not complete successfully.",
                rw (earlier, found, completed, bare) refl,
              )
              | inr (result, has_result) ↦ elim (from_result-cases b result) [
                | inl (message, fails) ↦
                    inl (message, rw (earlier, found, completed, has_result) fails)
                | inr (x, value, gives, succeeded, there, fits) ↦ inr (
                  x,
                  rw (earlier, found, completed, has_result) gives,
                  record {
                    earlier = ground arith;
                    source = source;
                    found = found;
                    completed = completed_lem source.status completed;
                    result = result;
                    has_result = has_result;
                    succeeded = succeeded;
                    value = value;
                    there = there;
                    fits = fits;
                  },
                )
              ]
            ]
          ]
        ]
  ]

  -- A binding that is supplied resolves to what it is supplied with.
  IsSupplied-resolve_binding :
      (x : Input)
      → IsSupplied steps consuming_step_index b x
      → resolve_binding steps consuming_step_index b ≡ ok x
  unfolding resolve_binding from_step from_result
  IsSupplied-resolve_binding x h =
      let before : ltb b.source_step_index consuming_step_index ≡ true =
        ground (arith, h.earlier) in
      let done : is_completed h.source.status ≡ true = ap is_completed h.completed in
      let there = At-follow b.path (Value.mapping h.result.structured_data) h.value h.there in
      let fits = HasType-matching h.value b.value_type x h.fits in
      rw (before, h.found, done, h.has_result, h.succeeded, there, fits) refl

abbrev pub value_of : Result String Input → Option Input
value_of (ok x) = some x
value_of (raised message) = none

-- What `supply` has for each binding is what the binding is supplied with.
abbrev pub Supplies :
    List AgentPlanStepExecutionRecord → ℕ → (StepOutputBinding → Option Input) → Type 0
Supplies steps consuming_step_index supply =
    (b : StepOutputBinding) (x : Input)
    → (supply b ≡ some x) ↔ IsSupplied steps consuming_step_index b x

-- `_resolve_binding` gives what any such `supply` has.
pub value_of-resolve_binding :
    (steps : List AgentPlanStepExecutionRecord) (consuming_step_index : ℕ)
    (supply : StepOutputBinding → Option Input) (b : StepOutputBinding)
    → Supplies steps consuming_step_index supply
    → value_of (resolve_binding steps consuming_step_index b) ≡ supply b
value_of-resolve_binding steps consuming_step_index supply b h =
    elim (resolve_binding-cases steps consuming_step_index b) [
      | inr (x, gives, supplied) ↦ rw gives (sym ((h b x).1 supplied))
      | inl (message, fails) ↦ elim (Option-cases (supply b)) [
        | inl bare ↦ rw (fails, bare) refl
        | inr (x, there) ↦ absurd (
            not_ok message x (
              sym fails
              ∙ IsSupplied-resolve_binding steps consuming_step_index b x ((h b x).0 there)))
      ]
    ]

pub resolved-Supplies :
    (steps : List AgentPlanStepExecutionRecord) (consuming_step_index : ℕ)
    → Supplies steps consuming_step_index
        λ b. value_of (resolve_binding steps consuming_step_index b)
resolved-Supplies steps consuming_step_index b x = (
  λ h. elim (resolve_binding-cases steps consuming_step_index b) [
    | inl (message, fails) ↦ absurd (nothing x (rw fails at h))
    | inr (y, gives, supplied) ↦
        let same : ◌≡◌ {A = Option Input} (some y) (some x) = rw gives at h in
        subst (IsSupplied steps consuming_step_index b) (inside y x same) supplied
  ],
  λ h. ap value_of (IsSupplied-resolve_binding steps consuming_step_index b x h),
)
