-- ===== src/Verification/Evidence.antt =====
-- What a verified success rests on.
use cauco.Base.{
  leb, ◌↔◌, ◌⊎◌, inl, inr, Result, ok, raised, Bool-cases, Option-cases, sym, ap, ℕ, ◌≡◌, refl, ◌∙◌,
  String, Bool, true, false, not, ◌&&◌, Option, none, some, List, [], ◌∷◌, arith, ◌==◌, string_eq,
  any, all,
}
use cauco.Tools.Result.{ToolExecutionResult}
use cauco.Execution.Models.{AgentPlanStepExecutionRecord}
use cauco.Verification.Models.{
  VerificationRecommendation, StepVerificationResult, step_result_rejection,
}
use cauco.Verification.Service.{
  passed_of, verify_passed, verify_result, verify_performed, findings, verify_step, verify_steps,
  overall_outcome, recommendation, is_succeeded, is_failed, is_some_step,
}

abbrev pub is_true : Option Bool → Bool
is_true (some true) = true
is_true _ = false

-- The evidence that a step did what was approved: a performed operation, whose result is that tool's and
-- operation's, whole, successful, and says that the verification after the action passed.
abbrev pub result_proves : AgentPlanStepExecutionRecord → Option ToolExecutionResult → Bool
result_proves step none = false
result_proves step (some result) =
    (result.tool_id == step.tool_id)
    && (result.operation_id == step.operation_id)
    && not result.truncated
    && result.success
    && is_true (passed_of result)

abbrev pub is_proven : AgentPlanStepExecutionRecord → Bool
is_proven step = step.execution_performed && result_proves step step.result

-- A step with a number from 1 on and the names of its tool and operation.
abbrev pub is_named : AgentPlanStepExecutionRecord → Bool
is_named step = leb 1 step.step_index && not (step.tool_id == "") && not (step.operation_id == "")

findings-succeeded :
    (decimal : ℕ → String) (step : AgentPlanStepExecutionRecord)
    → is_succeeded (findings decimal step).outcome ≡ is_proven step
unfolding findings verify_performed verify_result verify_passed
findings-succeeded decimal step = ground arith

-- The results of a step carry its own number and names.
abbrev OfStep : AgentPlanStepExecutionRecord → StepVerificationResult → Type 0
OfStep step r =
    (r.step_index ≡ step.step_index)
    × (r.tool_id ≡ step.tool_id)
    × (r.operation_id ≡ step.operation_id)

findings-OfStep :
    (decimal : ℕ → String) (step : AgentPlanStepExecutionRecord)
    → OfStep step (findings decimal step)
unfolding findings verify_performed verify_result verify_passed
findings-OfStep decimal step = (ground arith, ground arith, ground arith)

accepts_named :
    (step : AgentPlanStepExecutionRecord) (r : StepVerificationResult)
    → OfStep step r
    → (step_result_rejection r ≡ none) ↔ (is_named step ≡ true)
unfolding step_result_rejection
accepts_named step r (index, tool, operation) = rw (index, tool, operation) (ground arith)

-- A step is verified exactly when it is named, and counts as succeeded exactly when it is proven.
verify_step-cases :
    (decimal : ℕ → String) (step : AgentPlanStepExecutionRecord)
    → ((message : String) × (verify_step decimal step ≡ raised message) × (is_named step ≡ false))
      ⊎ ((r : StepVerificationResult) × (verify_step decimal step ≡ ok r)
          × (is_named step ≡ true)
          × (is_succeeded r.outcome ≡ is_proven step))
unfolding verify_step
verify_step-cases decimal step =
    let named = accepts_named step (findings decimal step) (findings-OfStep decimal step) in
    elim (Option-cases (step_result_rejection (findings decimal step))) [
      | inl accepted ↦ inr (
        findings decimal step,
        rw accepted refl,
        named.0 accepted,
        findings-succeeded decimal step,
      )
      | inr (message, refused) ↦ inl (
        message,
        rw refused refl,
        elim (Bool-cases (is_named step)) [
          | inl fine ↦ absurd (cc (named.1 fine, refused))
          | inr nameless ↦ nameless
        ],
      )
    ]

-- No outcome is both a success and a failure.
all_succeeded-none_failed :
    (rs : List StepVerificationResult)
    → all (λ r. is_succeeded r.outcome) rs ≡ true
    → any (λ r. is_failed r.outcome) rs ≡ false
all_succeeded-none_failed [] h = refl
all_succeeded-none_failed (r ∷ rs) h = ground (arith, all_succeeded-none_failed rs)

abbrev pub completes : VerificationRecommendation → Bool
completes VerificationRecommendation.complete = true
completes _ = false

abbrev pub is_some_record : List AgentPlanStepExecutionRecord → Bool
is_some_record [] = false
is_some_record (step ∷ steps) = true

recommendation-completes :
    (rs : List StepVerificationResult)
    → completes (recommendation (overall_outcome rs))
      ≡ (is_some_step rs && all (λ r. is_succeeded r.outcome) rs)
unfolding overall_outcome recommendation
recommendation-completes rs = ground (arith, all_succeeded-none_failed rs)

-- What the results of the steps say of the steps.
record Reflects (steps : List AgentPlanStepExecutionRecord) (rs : List StepVerificationResult)
    : Type 0 where
  pub some_there : is_some_step rs ≡ is_some_record steps
  pub proven : all (λ r. is_succeeded r.outcome) rs ≡ all is_proven steps
  pub named : all is_named steps ≡ true

verify_steps-cases :
    (decimal : ℕ → String) (steps : List AgentPlanStepExecutionRecord)
    → ((message : String) × (verify_steps decimal steps ≡ raised message)
        × (all is_named steps ≡ false))
      ⊎ ((rs : List StepVerificationResult) × (verify_steps decimal steps ≡ ok rs)
          × Reflects steps rs)
unfolding verify_steps
verify_steps-cases decimal [] =
    inr ([], refl, record { some_there = refl; proven = refl; named = refl })
verify_steps-cases decimal (step ∷ steps) = elim (verify_step-cases decimal step) [
  | inl (message, fails, nameless) ↦ inl (message, rw fails refl, rw nameless refl)
  | inr (r, verified, named, proven) ↦ elim (verify_steps-cases decimal steps) [
    | inl (message, fails, nameless) ↦
        inl (message, rw (verified, fails) refl, rw (named, nameless) refl)
    | inr (rs, done, reflects) ↦ inr (
      r ∷ rs,
      rw (verified, done) refl,
      record {
        some_there = refl;
        proven = rw (proven, reflects.proven) refl;
        named = rw (named, reflects.named) refl;
      },
    )
  ]
]

-- Whether completion is recommended: not where the results cannot be built.
abbrev pub recommended : Result String (List StepVerificationResult) → Bool
recommended (ok rs) = completes (recommendation (overall_outcome rs))
recommended (raised message) = false

-- Results that were built recommend completion exactly when there is a step and each step is proven.
pub built-completes :
    (decimal : ℕ → String) (steps : List AgentPlanStepExecutionRecord)
    (rs : List StepVerificationResult)
    → verify_steps decimal steps ≡ ok rs
    → completes (recommendation (overall_outcome rs))
      ≡ (is_some_record steps && all is_proven steps)
built-completes decimal steps rs h = elim (verify_steps-cases decimal steps) [
  | inl (message, fails, nameless) ↦ absurd (differs message (sym fails ∙ h))
  | inr (qs, done, reflects) ↦
      let same : qs ≡ rs = one_list qs (sym done ∙ h) in
      ap (λ x. completes (recommendation (overall_outcome x))) (sym same)
      ∙ recommendation-completes qs
      ∙ (λ i. reflects.some_there i && reflects.proven i)
]
  where
    differs :
        (message : String)
        → ¬ (◌≡◌ {A = Result String (List StepVerificationResult)} (raised message) (ok rs))
    differs message k = absurd (cc)

    one_list :
        (qs : List StepVerificationResult)
        → ◌≡◌ {A = Result String (List StepVerificationResult)} (ok qs) (ok rs)
        → qs ≡ rs
    one_list qs k = cc

-- The verification recommends completion exactly when the execution has a step and each of its steps
-- has a positive number and the names of its tool and its operation, and was performed, with a result
-- of that step's tool and operation that is whole, successful and says that the verification after the
-- action passed.
pub verify-completes :
    (decimal : ℕ → String) (steps : List AgentPlanStepExecutionRecord)
    → recommended (verify_steps decimal steps)
      ≡ (is_some_record steps && all is_named steps && all is_proven steps)
verify-completes decimal steps = elim (verify_steps-cases decimal steps) [
  | inl (message, fails, nameless) ↦
      rw (fails, nameless) (sym (and_false (is_some_record steps) (all is_proven steps)))
  | inr (rs, done, reflects) ↦
      rw (done, reflects.named)
        (built-completes decimal steps rs done
          ∙ sym (and_true (is_some_record steps) (all is_proven steps)))
]
  where
    and_false : (a b : Bool) → (a && false && b) ≡ false
    and_false a b = ground arith

    and_true : (a b : Bool) → (a && true && b) ≡ (a && b)
    and_true a b = ground arith
