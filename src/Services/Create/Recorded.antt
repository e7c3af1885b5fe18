-- ===== src/Services/Create/Recorded.antt =====
-- What core/src/cauco_core/execution/store.py records for the steps that `ExecutionService.create` hands
-- over, and what those are of the plan.
use cauco.Base.{
  ℕ, ◌≡◌, refl, String, Bool, true, false, not, Option, none, some, List, [], ◌∷◌, ◌⊎◌, inl, inr,
  ◌↔◌, Bool-cases, Result, ok, raised, carry_on, ◌>>=◌, any, nat_beq, str_append, arith, string_eq,
}
use cauco.Base.Dict.{Dict, get, is_some}
use cauco.Base.Dict.Laws.{get-put_self}
use cauco.Base.Environment.{Environment}
use cauco.Tools.Registry.{ToolRegistry, validate, has_adapter}
use cauco.Agents.Models.{AgentPlanStep, AgentToolReference}
use cauco.Execution.Models.{
  ExecutionStatus, StepExecutionStatus, AgentPlanStepExecutionRecord, AgentPlanExecutionRecord,
  ExecutionError, step_is_pending,
}
use cauco.Execution.Store.{
  ExecutionStore, StoreMethod, find_record, make_room, save, token, clock, with_event, event,
  no_fields,
}
use cauco.Execution.Store.Steps.{created, accepted, checked, store_new, create, append_event}
use cauco.Services.Create.{is_executable, built_step, built_for, built_steps, executable_count}

-- A new record of a review, and that the store holds it.
pub record IsRecorded (review_id digest : String) (steps : List AgentPlanStepExecutionRecord)
    (r : AgentPlanExecutionRecord) (s : ExecutionStore) : Type 0 where
  pub review : r.review_id ≡ review_id
  pub sealed : r.snapshot_digest ≡ digest
  pub handed : r.step_records ≡ steps
  pub waiting : r.status ≡ ExecutionStatus.pending_execution
  pub unperformed : r.execution_performed ≡ false
  pub stored : get s.records r.execution_id ≡ some r

module _ (env : Environment) (review_id digest : String)
    (steps : List AgentPlanStepExecutionRecord) where
  -- Nothing is said of a method that raises.
  abbrev pub Records : Result ExecutionError AgentPlanExecutionRecord × ExecutionStore → Type 0
  Records (ok r, s) = IsRecorded review_id digest steps r s
  Records (raised e, s) = Unit

  abbrev after_room : StoreMethod AgentPlanExecutionRecord
  after_room = do
    suffix ← token env
    let id = str_append "exec_" suffix
    now ← clock env
    built ← checked (created id review_id digest steps now)
    store_new env review_id id built

  accepted-Records :
      (o : Option String) (id : String) (now : ℕ) (s : ExecutionStore)
      → Records
          ((accepted o (created id review_id digest steps now) >>= store_new env review_id id) s)
  unfolding store_new
  accepted-Records (some message) id now s = tt
  accepted-Records none id now s = record {
    review = refl;
    sealed = refl;
    handed = refl;
    waiting = refl;
    unperformed = refl;
    stored = get-put_self s.records id _;
  }

  made-Records :
      (r : Result ExecutionError (Unit {0})) (s : ExecutionStore)
      → Records (carry_on r s λ _. after_room)
  unfolding token clock checked
  made-Records (raised e) s = tt
  made-Records (ok x) s = accepted-Records _ _ _ _

  pub create-Records : (s : ExecutionStore) → Records (create env review_id digest steps s)
  unfolding create
  create-Records s = elim (Bool-cases (is_some (get s.by_review review_id))) [
    | inl taken ↦ rw taken tt
    | inr free ↦ rw free (made-Records (make_room s).0 (make_room s).1)
  ]

  -- One more event changes nothing of this.
  pub append_event-Records :
      (r : AgentPlanExecutionRecord) (event_type outcome message : String) (s : ExecutionStore)
      → IsRecorded review_id digest steps r s
      → Records (append_event env r.execution_id event_type outcome message no_fields s)
  unfolding append_event find_record with_event event save
  append_event-Records r event_type outcome message s h = rw h.stored (record {
    review = h.review;
    sealed = h.sealed;
    handed = h.handed;
    waiting = h.waiting;
    unperformed = h.unperformed;
    stored = get-put_self s.records r.execution_id _;
  })

module _ {A : Type 0} (tools : ToolRegistry) (adapters : Dict (String × String) A) where
  -- The registry allows the runtime to execute the operation, and there is an adapter for it.
  pub record MayRun (reference : AgentToolReference) : Type 0 where
    pub valid : (validate tools reference.tool_id reference.operation_id).valid ≡ true
    pub allowed :
        (validate tools reference.tool_id reference.operation_id).runtime_execution_allowed ≡ true
    pub adapted : has_adapter adapters reference.tool_id reference.operation_id ≡ true

  -- The record of a step of the plan: it waits if it may be executed, and is skipped if not.
  pub record IsRecordOf (step : AgentPlanStep) (reference : AgentToolReference)
      (r : AgentPlanStepExecutionRecord) : Type 0 where
    pub index : r.step_index ≡ step.order
    pub tool : (r.tool_id ≡ reference.tool_id) × (r.operation_id ≡ reference.operation_id)
    pub target : r.target ≡ reference.target
    pub status :
        (MayRun reference × (r.status ≡ StepExecutionStatus.pending))
        ⊎ (¬ (MayRun reference) × (r.status ≡ StepExecutionStatus.skipped))
    pub fresh : (r.result ≡ none) × (r.execution_performed ≡ false)

  abbrev pub CarriesFor :
      AgentPlanStep
      → Option AgentToolReference
      → (List AgentPlanStepExecutionRecord → Type 0)
      → List AgentPlanStepExecutionRecord
      → Type 0
  CarriesFor step none Rest rs = Rest rs
  CarriesFor step (some reference) Rest rs =
      (r : AgentPlanStepExecutionRecord) × (others : List AgentPlanStepExecutionRecord) × (rs
        ≡ r ∷ others)
      × IsRecordOf step reference r
      × Rest others

  -- A record for each step of the plan that uses a tool, in the order of the plan, and no other.
  abbrev pub Carries : List AgentPlanStep → List AgentPlanStepExecutionRecord → Type 0
  Carries [] rs = rs ≡ []
  Carries (step ∷ steps) rs = CarriesFor step step.tool_reference (Carries steps) rs

  is_executable_lem :
      (reference : AgentToolReference)
      → (is_executable tools adapters reference ≡ true) ↔ MayRun reference
  unfolding is_executable
  is_executable_lem reference = (
    λ h. record { valid = ground arith; allowed = ground arith; adapted = ground arith },
    λ h. ground (arith, h.valid, h.allowed, h.adapted),
  )

  built_step-IsRecordOf :
      (step : AgentPlanStep) (reference : AgentToolReference)
      → IsRecordOf step reference (built_step tools adapters step reference)
  unfolding built_step
  built_step-IsRecordOf step reference =
      elim (Bool-cases (is_executable tools adapters reference)) [
        | inl runs ↦ record {
          index = refl;
          tool = (refl, refl);
          target = refl;
          status = inl ((is_executable_lem reference).0 runs, rw runs refl);
          fresh = (refl, refl);
        }
        | inr stays ↦ record {
          index = refl;
          tool = (refl, refl);
          target = refl;
          status =
              inr (λ may. absurd (cc ((is_executable_lem reference).1 may, stays)), rw stays refl);
          fresh = (refl, refl);
        }
      ]

  built_for-CarriesFor :
      (step : AgentPlanStep) (o : Option AgentToolReference)
      (Rest : List AgentPlanStepExecutionRecord → Type 0) (rs : List AgentPlanStepExecutionRecord)
      → Rest rs
      → CarriesFor step o Rest (built_for tools adapters step o rs)
  built_for-CarriesFor step none Rest rs h = h
  built_for-CarriesFor step (some reference) Rest rs h =
      (built_step tools adapters step reference, rs, refl, built_step-IsRecordOf step reference, h)

  pub built_steps-Carries :
      (steps : List AgentPlanStep) → Carries steps (built_steps tools adapters steps)
  unfolding built_steps
  built_steps-Carries [] = refl
  built_steps-Carries (step ∷ steps) =
      built_for-CarriesFor step step.tool_reference (Carries steps)
        (built_steps tools adapters steps) (built_steps-Carries steps)

  -- Some step waits.
  abbrev pub some_waits : List AgentPlanStepExecutionRecord → Bool
  some_waits rs = any (λ r. step_is_pending r.status) rs

  built_for-waits :
      (step : AgentPlanStep) (o : Option AgentToolReference) (steps : List AgentPlanStep)
      → some_waits (built_steps tools adapters steps)
        ≡ not (nat_beq (executable_count tools adapters steps) 0)
      → step.tool_reference ≡ o
      → some_waits (built_for tools adapters step o (built_steps tools adapters steps))
        ≡ not (nat_beq (executable_count tools adapters (step ∷ steps)) 0)
  unfolding executable_count built_step
  built_for-waits step none steps h e = rw e h
  built_for-waits step (some reference) steps h e =
      elim (Bool-cases (is_executable tools adapters reference)) [
        | inl runs ↦ rw (e, runs) (ground arith)
        | inr stays ↦ rw (e, stays) h
      ]

  pub built_steps-waits :
      (steps : List AgentPlanStep)
      → some_waits (built_steps tools adapters steps)
        ≡ not (nat_beq (executable_count tools adapters steps) 0)
  unfolding built_steps executable_count
  built_steps-waits [] = refl
  built_steps-waits (step ∷ steps) =
      built_for-waits step step.tool_reference steps (built_steps-waits steps) refl
