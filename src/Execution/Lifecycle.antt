-- ===== src/Execution/Lifecycle.antt =====
-- The life of one execution record, as a step relation: what each method of `ExecutionStore` may do
-- to the record that it is called on (core/src/cauco_core/execution/store.py).
pub mod Touches
pub mod Progress
pub mod Sound
use cauco.Base.{
  ℕ, suc, ◌+◌, ◌-◌, ◌≡◌, refl, String, Bool, true, false, Option, none, some, List, [], ◌∷◌, ◌++◌,
  arith, nat_eq, ◌==◌, get_elem?, nat_beq_iff, Bool-cases, inl, inr, set, if◌then◌else◌,
}
use cauco.Base.Dict.{is_some}
use cauco.Tools.Result.{ToolExecutionResult}
use cauco.Execution.Models.{
  ExecutionAuditEvent, AgentPlanStepExecutionRecord, AgentPlanExecutionRecord, is_open, is_failed,
  step_is_pending, step_is_running, step_is_failed, StepExecutionStatus, ExecutionStatus,
}
use cauco.Execution.Store.{log, locate}
use cauco.Execution.Store.Steps.{begun, ended_step, settled, status_after, succeeded, all_done}
use cauco.Execution.Store.Recovering.{
  any_running, blocked, stopped, retried, skipped, skipped_steps, called_off,
}

-- The same record with more events at the end of its audit log.
pub data Logs (r : AgentPlanExecutionRecord) : AgentPlanExecutionRecord → Type 0 where
  unlogged : Logs r r
  more : {r' : AgentPlanExecutionRecord} (e : ExecutionAuditEvent) → Logs r r' → Logs r (log r' e)

-- The step at a position, found by its index.
pub record At (r : AgentPlanExecutionRecord) (i position : ℕ) (step : AgentPlanStepExecutionRecord)
    : Type 0 where
  pub here : get_elem? r.step_records position ≡ some step
  pub index : step.step_index ≡ i

pub data Evolves (r : AgentPlanExecutionRecord) : AgentPlanExecutionRecord → Type 0 where
  logged : (e : ExecutionAuditEvent) → Evolves r (log r e)
  began :
      (i position now : ℕ) (step : AgentPlanStepExecutionRecord) (e : ExecutionAuditEvent)
      → is_open r.status ≡ true
      → At r i position step
      → step_is_pending step.status ≡ true
      → Evolves r (log (begun r position step i now) e)
  ended :
      (i position now : ℕ) (step : AgentPlanStepExecutionRecord)
      (result : Option ToolExecutionResult) (error : Option String) (performed : Bool)
      (steps : List AgentPlanStepExecutionRecord) (r' : AgentPlanExecutionRecord)
      → At r i position step
      → step_is_running step.status ≡ true
      → steps ≡ set r.step_records position (ended_step step result error performed now)
      → Logs
          (settled r steps (status_after (succeeded result) (all_done steps)) error performed now)
          r'
      → Evolves r r'
  barred :
      (reason : String) (now : ℕ) (e : ExecutionAuditEvent)
      → Evolves r (log (blocked r reason now) e)
  halted :
      (reason : String) (now : ℕ)
      → is_open r.status ≡ true
      → any_running r.step_records ≡ false
      → Evolves r (stopped r reason now)
  reset :
      (i position : ℕ) (step : AgentPlanStepExecutionRecord)
      → At r i position step
      → is_failed r.status ≡ true
      → step_is_failed step.status ≡ true
      → Evolves r (retried r position step)
  passed :
      (i position : ℕ) (step : AgentPlanStepExecutionRecord) (completed_at : Option ℕ)
      (r' : AgentPlanExecutionRecord)
      → At r i position step
      → is_failed r.status ≡ true
      → step_is_failed step.status ≡ true
      → is_some completed_at ≡ all_done (skipped_steps r position step)
      → Logs (skipped r (skipped_steps r position step) completed_at) r'
      → Evolves r r'
  dropped :
      (now : ℕ) (e : ExecutionAuditEvent)
      → is_open r.status ≡ true
      → any_running r.step_records ≡ false
      → Evolves r (log (called_off r now) e)

located_here :
    {p q i : ℕ} {x step : AgentPlanStepExecutionRecord} (steps : List AgentPlanStepExecutionRecord)
    → (x.step_index == i) ≡ true
    → ◌≡◌ {A = Option (ℕ × AgentPlanStepExecutionRecord)} (some (p, x)) (some (q, step))
    → (k : ℕ) × (q ≡ p + k) × (get_elem? (x ∷ steps) k ≡ some step) × (step.step_index ≡ i)
located_here steps same h = (0, ground arith, cc, ground arith)

-- What the loop of `_step` finds, from any position on.
locate-get_elem? :
    (p : ℕ) (steps : List AgentPlanStepExecutionRecord) (i q : ℕ)
    (step : AgentPlanStepExecutionRecord)
    → locate p steps i ≡ some (q, step)
    → (k : ℕ) × (q ≡ p + k) × (get_elem? steps k ≡ some step) × (step.step_index ≡ i)
unfolding locate
locate-get_elem? p [] i q step h = cc
locate-get_elem? p (x ∷ steps) i q step h = elim (Bool-cases (x.step_index == i)) [
  | inl same ↦ located_here steps same (rw same at h)
  | inr other ↦
      let later : locate (suc p) steps i ≡ some (q, step) = rw other at h in
      let (k, offset, here, index) = locate-get_elem? (suc p) steps i q step later in
      (suc k, omega arith, here, index)
]

-- What `_step` finds stands at its position and has its index.
pub locate-At :
    (r : AgentPlanExecutionRecord) (i q : ℕ) (step : AgentPlanStepExecutionRecord)
    → locate 0 r.step_records i ≡ some (q, step)
    → At r i q step
locate-At r i q step h =
    let (k, offset, here, index) = locate-get_elem? 0 r.step_records i q step h in
    record { here = let same : q ≡ k = omega arith in rw same here; index = index }
