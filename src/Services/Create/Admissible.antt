-- ===== src/Services/Create/Admissible.antt =====
-- `ExecutionService.create` is an admissible client of the execution store.
use cauco.Base.{
  ℕ, refl, String, Bool, true, false, not, ◌&&◌, Option, none, some, List, [], ◌∷◌, Result, ok,
  raised, return, raise, ensure, ◌>>=◌, Bool-cases, inl, inr, leb, nat_beq,
}
use cauco.Base.Results.Rules.{bind_rule}
use cauco.Base.Dict.{Dict}
use cauco.Base.Environment.{Environment}
use cauco.Tools.Value.{Value}
use cauco.Tools.Registry.{ToolRegistry}
use cauco.Agents.Models.{AgentPlanStep, AgentToolReference}
use cauco.Reviews.Models.{AgentPlanReviewRecord, is_approved}
use cauco.Reviews.Store.Methods.{get_review}
use cauco.Execution.Models.{AgentPlanStepExecutionRecord, AgentPlanExecutionRecord}
use cauco.Execution.Store.{no_fields}
use cauco.Execution.Store.Steps
use cauco.Execution.Store.Recovering
use cauco.Execution.Lifecycle.Sound.{StepIsSound, IsUnperformed}
use cauco.Execution.Invariant.Create.{IsFresh}
use cauco.Execution.Calls
use cauco.Execution.Calls.{Call}
use cauco.Execution.Calls.Trace.{IsGood, IsDistinct, apply-IsGood}
use cauco.Services.{Stores, ServiceError, on_reviews, on_executions}
use cauco.Services.Create.{
  refused, validate_review, is_caught, is_executable, built_step, built_for, built_steps,
  executable_count, cleared, or_rejected, reviewed, unless_empty, opened, create_for,
  create_execution,
}

module _ {A : Type 0} (tools : ToolRegistry) (adapters : Dict (String × String) A) where
  built_step-IsFresh :
      (step : AgentPlanStep) (reference : AgentToolReference)
      → StepIsSound (built_step tools adapters step reference)
        × IsUnperformed (built_step tools adapters step reference)
  unfolding built_step
  built_step-IsFresh step reference = elim (Bool-cases (is_executable tools adapters reference)) [
    | inl yes_run ↦ (
      record {
        completed = λ e. absurd (cc (e, yes_run));
        failed = λ e. absurd (cc);
        running = λ e. absurd (cc);
        pending = λ e. (refl, refl);
      },
      refl,
    )
    | inr skip ↦ (
      record {
        completed = λ e. absurd (cc (e, skip));
        failed = λ e. absurd (cc (e, skip));
        running = λ e. absurd (cc (e, skip));
        pending = λ e. (refl, refl);
      },
      refl,
    )
  ]

  built_for-IsFresh :
      (step : AgentPlanStep) (o : Option AgentToolReference)
      (rest : List AgentPlanStepExecutionRecord)
      → IsFresh rest
      → IsFresh (built_for tools adapters step o rest)
  built_for-IsFresh step none rest h = h
  built_for-IsFresh step (some reference) rest h = (built_step-IsFresh step reference, h)

  -- No step that `create` hands over has run.
  pub built_steps-IsFresh :
      (steps : List AgentPlanStep) → IsFresh (built_steps tools adapters steps)
  unfolding built_steps
  built_steps-IsFresh [] = tt
  built_steps-IsFresh (step ∷ steps) =
      built_for-IsFresh step step.tool_reference (built_steps tools adapters steps)
        (built_steps-IsFresh steps)

module _ (review_env env : Environment) (distinct : IsDistinct env) (digest : Value → String)
    (now : ℕ) where
  abbrev pub Keeps : Stores → Type 0
  Keeps s = IsGood env s.executions

  call-Keeps :
      (call : Call) (s : Stores)
      → Calls.IsAdmissible call
      → Keeps s
      → IsGood env (Calls.apply env call s.executions)
  call-Keeps call s fine h = apply-IsGood env distinct call s.executions fine h

  ensure-Keeps : (b : Bool) (e : ServiceError) (s : Stores) → Keeps s → Keeps (ensure b e s).1
  ensure-Keeps true e s h = h
  ensure-Keeps false e s h = h

  validate_review-Keeps :
      (review : AgentPlanReviewRecord) (s : Stores)
      → Keeps s
      → Keeps (validate_review digest now review s).1
  unfolding validate_review
  validate_review-Keeps review s h = elim (Bool-cases (is_approved review.status)) [
    | inr other ↦ rw other h
    | inl approved ↦ elim (Bool-cases (leb review.expires_at now)) [
      | inl late ↦ rw (approved, late) h
      | inr early ↦
          elim (Bool-cases (review.execution_authorized && not review.execution_performed)) [
            | inr odd ↦ rw (approved, early, odd) h
            | inl fine ↦ rw (approved, early, fine) h
          ]
    ]
  ]

  cleared-Keeps :
      (id : String) (s : Stores) → Keeps s → Keeps (cleared review_env env digest now id s).1
  unfolding cleared
  cleared-Keeps id s h =
      bind_rule Keeps (on_reviews (get_review review_env id))
        (λ review. validate_review digest now review >>= λ _. return review) s h
        λ review t _ k.
          bind_rule Keeps (validate_review digest now review) (λ _. return review) t
            (validate_review-Keeps review t k) λ _ u _ l. l

  or_rejected-Keeps :
      (id : String) (r : Result ServiceError AgentPlanReviewRecord) (s : Stores)
      → Keeps s
      → Keeps (or_rejected review_env env digest now id r s).1
  unfolding or_rejected Calls.apply
  or_rejected-Keeps id (ok review) s h = h
  or_rejected-Keeps id (raised e) s h = elim (Bool-cases (is_caught e)) [
    | inr other ↦ rw other h
    | inl caught ↦ rw caught (
        bind_rule {B = AgentPlanReviewRecord} Keeps
          (on_executions (Steps.record_rejected_attempt env id "Execution creation was rejected."))
          (λ _. raise e) s
          (call-Keeps (Call.record_rejected_attempt id "Execution creation was rejected.") s tt h)
          λ _ u _ l. l)
  ]

  reviewed-Keeps :
      (id : String) (s : Stores) → Keeps s → Keeps (reviewed review_env env digest now id s).1
  unfolding reviewed
  reviewed-Keeps id s h =
      let p = cleared review_env env digest now id s in
      or_rejected-Keeps id p.0 p.1 (cleared-Keeps id s h)

  module _ {A : Type 0} (tools : ToolRegistry) (adapters : Dict (String × String) A) where
    unless_empty-Keeps :
        (review : AgentPlanReviewRecord) (updated : AgentPlanExecutionRecord) (s : Stores)
        → Keeps s
        → Keeps (unless_empty review_env env digest now tools adapters review updated s).1
    unfolding unless_empty Calls.apply
    unless_empty-Keeps review updated s h =
        elim (Bool-cases (nat_beq (executable_count tools adapters review.plan.steps) 0)) [
          | inr some_run ↦ rw some_run h
          | inl none_run ↦
              let message : String = "The approved plan contains no runtime-enabled steps." in
              rw none_run (
                bind_rule {B = AgentPlanExecutionRecord} Keeps
                  (on_executions (Recovering.fail_before_start env updated.execution_id message))
                  (λ _. raise (refused message)) s
                  (call-Keeps (Call.fail_before_start updated.execution_id message) s tt h)
                  λ _ u _ l. l)
        ]

    opened-Keeps :
        (review : AgentPlanReviewRecord) (r : AgentPlanExecutionRecord) (s : Stores)
        → Keeps s
        → Keeps (opened review_env env digest now tools adapters review r s).1
    unfolding opened Calls.apply
    opened-Keeps review r s h =
        bind_rule Keeps
          (on_executions (
            Steps.append_event env r.execution_id "integrity_verified" "success"
              "Approved snapshot integrity verified." no_fields))
          (unless_empty review_env env digest now tools adapters review) s
          (call-Keeps
            (Call.append_event r.execution_id "integrity_verified" "success"
              "Approved snapshot integrity verified." no_fields)
            s tt h)
          λ updated t _ k. unless_empty-Keeps review updated t k

    create_for-Keeps :
        (review : AgentPlanReviewRecord) (s : Stores)
        → Keeps s
        → Keeps (create_for review_env env digest now tools adapters review s).1
    unfolding create_for Calls.apply
    create_for-Keeps review s h =
        let steps = built_steps tools adapters review.plan.steps in
        bind_rule Keeps
          (on_executions (Steps.create env review.review_id review.snapshot_digest steps))
          (opened review_env env digest now tools adapters review) s
          (call-Keeps (Call.create review.review_id review.snapshot_digest steps) s
            (built_steps-IsFresh tools adapters review.plan.steps) h)
          λ r t _ k. opened-Keeps review r t k

-- Whatever the review, `ExecutionService.create` leaves a good execution store good, whether it returns
-- or raises: the steps that it hands over have not run. Tokens never repeat.
pub create_execution-IsGood :
    {A : Type 0} (review_env env : Environment) (digest : Value → String) (now : ℕ)
    (tools : ToolRegistry) (adapters : Dict (String × String) A) (review_id : String) (s : Stores)
    → IsDistinct env
    → IsGood env s.executions
    → IsGood env
        (create_execution review_env env digest now tools adapters review_id s).1.executions
unfolding create_execution
create_execution-IsGood review_env env digest now tools adapters review_id s distinct h =
    bind_rule (λ t. IsGood env t.executions) (reviewed review_env env digest now review_id)
      (create_for review_env env digest now tools adapters) s
      (reviewed-Keeps review_env env distinct digest now review_id s h)
      λ review t _ k. create_for-Keeps review_env env distinct digest now tools adapters review t k
