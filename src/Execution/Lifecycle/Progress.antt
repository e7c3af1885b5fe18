-- ===== src/Execution/Lifecycle/Progress.antt =====
-- What a move of the life cycle may change in a record, and what it never changes.
use mathlib.Core.List.{append-nil, append_assoc}
use cauco.Base.{
  ℕ, ◌≡◌, refl, sym, ◌∙◌, ap, Bool, true, false, List, [], ◌∷◌, ◌++◌, ◌⊎◌, inl, inr, set,
  if◌then◌else◌, Bool-cases,
}
use cauco.Base.Pairs.{Pairs, Pairs-refl, Pairs-set, Pairs-map}
use cauco.Execution.Models.{
  StepExecutionStatus, ExecutionAuditEvent, AgentPlanStepExecutionRecord, AgentPlanExecutionRecord,
  step_is_pending, step_is_running, step_is_failed,
}
use cauco.Execution.Store.Steps.{ended_step, succeeded}
use cauco.Execution.Store.Recovering.{cancelled_step}
use cauco.Execution.Lifecycle.{Evolves, Logs, unlogged, more, At}

-- The state machine of a step.
infix 40 ◌⟶◌
pub data ◌⟶◌ : StepExecutionStatus → StepExecutionStatus → Type 0 where
  start : StepExecutionStatus.pending ⟶ StepExecutionStatus.running
  succeed : StepExecutionStatus.running ⟶ StepExecutionStatus.completed
  fail : StepExecutionStatus.running ⟶ StepExecutionStatus.failed
  retry : StepExecutionStatus.failed ⟶ StepExecutionStatus.pending
  skip : StepExecutionStatus.failed ⟶ StepExecutionStatus.skipped
  drop : StepExecutionStatus.pending ⟶ StepExecutionStatus.cancelled

-- A step keeps what was approved: its index, its operation and its target.
pub record SameApproval (a b : AgentPlanStepExecutionRecord) : Type 0 where
  pub step_index : b.step_index ≡ a.step_index
  pub tool_id : b.tool_id ≡ a.tool_id
  pub operation_id : b.operation_id ≡ a.operation_id
  pub target : b.target ≡ a.target

-- A step is left as it was, or takes an edge of the machine.
abbrev pub StepMoves : AgentPlanStepExecutionRecord → AgentPlanStepExecutionRecord → Type 0
StepMoves a b = (b ≡ a) ⊎ (SameApproval a b × (a.status ⟶ b.status))

pub record Progress (r r' : AgentPlanExecutionRecord) : Type 0 where
  pub execution_id : r'.execution_id ≡ r.execution_id
  pub review_id : r'.review_id ≡ r.review_id
  pub snapshot_digest : r'.snapshot_digest ≡ r.snapshot_digest
  pub created_at : r'.created_at ≡ r.created_at
  pub total_steps : r'.total_steps ≡ r.total_steps
  pub steps : Pairs StepMoves r.step_records r'.step_records
  pub audit : (events : List ExecutionAuditEvent) × (r'.audit_events ≡ r.audit_events ++ events)

StepMoves-refl : (a : AgentPlanStepExecutionRecord) → StepMoves a a
StepMoves-refl a = inl refl

abbrev Step : Type 0
Step = AgentPlanStepExecutionRecord

edge_of_pending :
    (a : StepExecutionStatus) → step_is_pending a ≡ true → a ⟶ StepExecutionStatus.running
edge_of_pending StepExecutionStatus.pending h = start
edge_of_pending _ h = cc

edge_of_running :
    (a : StepExecutionStatus) (b : Bool)
    → step_is_running a ≡ true
    → a ⟶ (if b then StepExecutionStatus.completed else StepExecutionStatus.failed)
edge_of_running StepExecutionStatus.running true h = succeed
edge_of_running StepExecutionStatus.running false h = fail
edge_of_running _ b h = cc

edge_of_retry :
    (a : StepExecutionStatus) → step_is_failed a ≡ true → a ⟶ StepExecutionStatus.pending
edge_of_retry StepExecutionStatus.failed h = retry
edge_of_retry _ h = cc

edge_of_skip : (a : StepExecutionStatus) → step_is_failed a ≡ true → a ⟶ StepExecutionStatus.skipped
edge_of_skip StepExecutionStatus.failed h = skip
edge_of_skip _ h = cc

edge_of_drop :
    (a : StepExecutionStatus) → step_is_pending a ≡ true → a ⟶ StepExecutionStatus.cancelled
edge_of_drop StepExecutionStatus.pending h = drop
edge_of_drop _ h = cc

cancelled_step-moves : (now : ℕ) (a : Step) → StepMoves a (cancelled_step now a)
cancelled_step-moves now a = elim (Bool-cases (step_is_pending a.status)) [
  | inl pending ↦ rw pending (
      inr (
        record { step_index = refl; tool_id = refl; operation_id = refl; target = refl },
        edge_of_drop a.status pending,
      ))
  | inr other ↦ rw other (inl refl)
]

-- The rest of the log after more events.
Logs-Progress : {r s t : AgentPlanExecutionRecord} → Progress r s → Logs s t → Progress r t
Logs-Progress p unlogged = p
Logs-Progress {r} p (more {r' = u} e l) =
    let q = Logs-Progress p l in
    record {
      execution_id = q.execution_id;
      review_id = q.review_id;
      snapshot_digest = q.snapshot_digest;
      created_at = q.created_at;
      total_steps = q.total_steps;
      steps = q.steps;
      audit = (
        q.audit.0 ++ e ∷ [],
        ap (λ x. x ++ e ∷ []) q.audit.1 ∙ append_assoc r.audit_events q.audit.0 (e ∷ []),
      );
    }

module _ (r : AgentPlanExecutionRecord) where
  -- A record with the same approval, its steps moved, and its log kept.
  Progress-steps :
      (r' : AgentPlanExecutionRecord)
      → r'.execution_id ≡ r.execution_id
      → r'.review_id ≡ r.review_id
      → r'.snapshot_digest ≡ r.snapshot_digest
      → r'.created_at ≡ r.created_at
      → r'.total_steps ≡ r.total_steps
      → r'.audit_events ≡ r.audit_events
      → Pairs StepMoves r.step_records r'.step_records
      → Progress r r'
  Progress-steps r' a b c d e f p = record {
    execution_id = a;
    review_id = b;
    snapshot_digest = c;
    created_at = d;
    total_steps = e;
    steps = p;
    audit = ([], f ∙ sym (append-nil r.audit_events));
  }

  -- So does any record that differs from `r` in its steps and its bookkeeping alone.
  kept : Pairs StepMoves r.step_records r.step_records
  kept = Pairs-refl StepMoves StepMoves-refl r.step_records

  -- One step takes an edge.
  moved :
      (i position : ℕ) (step step' : Step)
      → At r i position step
      → SameApproval step step'
      → (step.status ⟶ step'.status)
      → Pairs StepMoves r.step_records (set r.step_records position step')
  moved i position step step' at same edge =
      Pairs-set StepMoves StepMoves-refl r.step_records position step step' at.here
        (inr (same, edge))

abbrev unchanged :
    {a : Step} (b : Step)
    → b.step_index ≡ a.step_index
    → b.tool_id ≡ a.tool_id
    → b.operation_id ≡ a.operation_id
    → b.target ≡ a.target
    → SameApproval a b
unchanged b i t o g = record { step_index = i; tool_id = t; operation_id = o; target = g }

-- Every move keeps the approval and the log, and moves each step by its machine.
pub Evolves-Progress : {r r' : AgentPlanExecutionRecord} → Evolves r r' → Progress r r'
Evolves-Progress {r} (Evolves.logged e) =
    Logs-Progress (Progress-steps r r refl refl refl refl refl refl (kept r)) (more e unlogged)
Evolves-Progress {r} (Evolves.began i position now step e active at pending) =
    Logs-Progress
      (Progress-steps r _ refl refl refl refl refl refl (
        moved r i position step _ at (unchanged _ refl refl refl refl)
          (edge_of_pending step.status pending)))
      (more e unlogged)
Evolves-Progress {r}
      (Evolves.ended i position now step result error performed steps r' at busy e logs) =
    Logs-Progress
      (Progress-steps r _ refl refl refl refl refl refl (
        rw e (
          moved r i position step (ended_step step result error performed now) at
            (unchanged _ refl refl refl refl)
            (edge_of_running step.status (succeeded result) busy))))
      logs
Evolves-Progress {r} (Evolves.barred reason now e) =
    Logs-Progress (Progress-steps r _ refl refl refl refl refl refl (kept r)) (more e unlogged)
Evolves-Progress {r} (Evolves.halted reason now active idle) =
    Progress-steps r _ refl refl refl refl refl refl (kept r)
Evolves-Progress {r} (Evolves.reset i position step at failing failed) =
    Progress-steps r _ refl refl refl refl refl refl (
      moved r i position step _ at (unchanged _ refl refl refl refl)
        (edge_of_retry step.status failed))
Evolves-Progress {r} (Evolves.passed i position step completed_at r' at failing failed e logs) =
    Logs-Progress
      (Progress-steps r _ refl refl refl refl refl refl (
        moved r i position step _ at (unchanged _ refl refl refl refl)
          (edge_of_skip step.status failed)))
      logs
Evolves-Progress {r} (Evolves.dropped now e active idle) =
    Logs-Progress
      (Progress-steps r _ refl refl refl refl refl refl
        (Pairs-map StepMoves (cancelled_step now) (cancelled_step-moves now) r.step_records))
      (more e unlogged)
