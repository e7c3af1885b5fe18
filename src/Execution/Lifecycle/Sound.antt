-- ===== src/Execution/Lifecycle/Sound.antt =====
-- What holds of an execution record between two methods, and that the life cycle keeps it.
use cauco.Base.{
  ℕ, String, ◌≡◌, ◌≢◌, refl, Bool, true, false, ◌||◌, Option, none, List, [], ◌∷◌, arith, length,
  set, map, All, All-set, All-get_elem?, length-set, length-map,
}
use cauco.Base.Dict.{is_some}
use cauco.Tools.Result.{ToolExecutionResult}
use cauco.Execution.Models.{
  ExecutionStatus, StepExecutionStatus, AgentPlanStepExecutionRecord, AgentPlanExecutionRecord,
  ExecutionAuditEvent, is_terminal, is_failed, step_is_running, step_is_pending,
}
use cauco.Execution.Store.{log}
use cauco.Execution.Store.Steps.{ended_step, settled, status_after, succeeded, all_done}
use cauco.Execution.Store.Recovering.{any_running, cancelled_step}
use cauco.Execution.Lifecycle.{Evolves, Logs, unlogged, more, At}

pub record StepIsSound (s : AgentPlanStepExecutionRecord) : Type 0 where
  pub completed : s.status ≡ StepExecutionStatus.completed → succeeded s.result ≡ true
  pub failed : s.status ≡ StepExecutionStatus.failed → succeeded s.result ≡ false
  pub running : s.status ≡ StepExecutionStatus.running → is_some s.started_at ≡ true
  pub pending :
      s.status ≡ StepExecutionStatus.pending → (s.result ≡ none) × (s.execution_performed ≡ false)

abbrev pub IsIdle : AgentPlanStepExecutionRecord → Type 0
IsIdle s = (step_is_pending s.status ≡ false) × (step_is_running s.status ≡ false)

abbrev pub IsUnperformed : AgentPlanStepExecutionRecord → Type 0
IsUnperformed s = s.execution_performed ≡ false

pub record IsSound (r : AgentPlanExecutionRecord) : Type 0 where
  pub counted : r.total_steps ≡ length r.step_records
  pub steps : All StepIsSound r.step_records
  pub finished : r.status ≡ ExecutionStatus.completed → all_done r.step_records ≡ true
  pub called_off : r.status ≡ ExecutionStatus.cancelled → All IsIdle r.step_records
  pub closed : is_some r.completed_at ≡ is_terminal r.status
  pub blamed : is_failed r.status ≡ false → r.failure_reason ≡ none
  pub unperformed : r.execution_performed ≡ false → All IsUnperformed r.step_records

log-IsSound :
    (r : AgentPlanExecutionRecord) (e : ExecutionAuditEvent) → IsSound r → IsSound (log r e)
log-IsSound r e h = record {
  counted = h.counted;
  steps = h.steps;
  finished = h.finished;
  called_off = h.called_off;
  closed = h.closed;
  blamed = h.blamed;
  unperformed = h.unperformed;
}

Logs-IsSound : {r r' : AgentPlanExecutionRecord} → IsSound r → Logs r r' → IsSound r'
Logs-IsSound h unlogged = h
Logs-IsSound h (more {r' = t} e l) = log-IsSound t e (Logs-IsSound h l)

module _ (r : AgentPlanExecutionRecord) (h : IsSound r) (i position : ℕ)
    (step : AgentPlanStepExecutionRecord) (at : At r i position step) where
  step_sound : StepIsSound step
  step_sound = All-get_elem? StepIsSound r.step_records position step h.steps at.here

  set_counted :
      (s : AgentPlanStepExecutionRecord) → r.total_steps ≡ length (set r.step_records position s)
  set_counted s = omega (arith, h.counted, length-set r.step_records position s)

  set-IsUnperformed :
      (s : AgentPlanStepExecutionRecord)
      → r.execution_performed ≡ false
      → IsUnperformed s
      → All IsUnperformed (set r.step_records position s)
  set-IsUnperformed s e u = All-set IsUnperformed r.step_records position s (h.unperformed e) u

  step-IsUnperformed : r.execution_performed ≡ false → IsUnperformed step
  step-IsUnperformed e =
      All-get_elem? IsUnperformed r.step_records position step (h.unperformed e) at.here

-- Cancelling leaves no step pending, if none runs.
cancelled_steps-IsIdle :
    (now : ℕ) (steps : List AgentPlanStepExecutionRecord)
    → any_running steps ≡ false
    → All IsIdle (map (cancelled_step now) steps)
cancelled_steps-IsIdle now [] e = tt
cancelled_steps-IsIdle now (s ∷ steps) e =
    (ground arith, cancelled_steps-IsIdle now steps (ground arith))

cancelled_steps_sound :
    (now : ℕ) (steps : List AgentPlanStepExecutionRecord)
    → All StepIsSound steps
    → All StepIsSound (map (cancelled_step now) steps)
cancelled_steps_sound now [] h = tt
cancelled_steps_sound now (s ∷ steps) h = (ground (arith, h.0), cancelled_steps_sound now steps h.1)

cancelled_steps-IsUnperformed :
    (now : ℕ) (steps : List AgentPlanStepExecutionRecord)
    → All IsUnperformed steps
    → All IsUnperformed (map (cancelled_step now) steps)
cancelled_steps-IsUnperformed now [] h = tt
cancelled_steps-IsUnperformed now (s ∷ steps) h =
    (ground (arith, h.0), cancelled_steps-IsUnperformed now steps h.1)

ended_step-IsSound :
    (step : AgentPlanStepExecutionRecord) (result : Option ToolExecutionResult)
    (error : Option String) (performed : Bool) (now : ℕ)
    → StepIsSound (ended_step step result error performed now)
ended_step-IsSound step result error performed now = ground arith

status_after-completed :
    (successful terminal : Bool)
    → status_after successful terminal ≡ ExecutionStatus.completed
    → terminal ≡ true
status_after-completed successful terminal h = ground arith

status_after-ne-cancelled :
    (successful terminal : Bool) → status_after successful terminal ≢ ExecutionStatus.cancelled
status_after-ne-cancelled successful terminal h = ground arith

||-false : (a b : Bool) → (a || b) ≡ false → (a ≡ false) × (b ≡ false)
||-false a b h = ground arith

module _ (r : AgentPlanExecutionRecord) (steps : List AgentPlanStepExecutionRecord)
    (error : Option String) (performed : Bool) (now : ℕ) where
  settled-closed :
      (a b : Bool)
      → let t = settled r steps (status_after a b) error performed now in
        is_some t.completed_at ≡ is_terminal t.status
  settled-closed a b = ground arith

  settled-blamed :
      (a b : Bool)
      → let t = settled r steps (status_after a b) error performed now in
        is_failed t.status ≡ false → t.failure_reason ≡ none
  settled-blamed a b h = ground arith

-- Every move of the life cycle keeps a record sound.
pub Evolves-IsSound : {r r' : AgentPlanExecutionRecord} → IsSound r → Evolves r r' → IsSound r'
Evolves-IsSound {r} h (Evolves.logged e) = log-IsSound r e h
Evolves-IsSound {r} h (Evolves.began i position now step e active at pending) = record {
  counted = set_counted r h i position step at _;
  steps = All-set StepIsSound r.step_records position _ h.steps (ground arith);
  finished = λ e. cc;
  called_off = λ e. cc;
  closed = ground (arith, h.closed);
  blamed = λ _. ground (arith, h.blamed);
  unperformed = λ e.
      set-IsUnperformed r h i position step at _ e (step-IsUnperformed r h i position step at e);
}
Evolves-IsSound {r} h
      (Evolves.ended i position now step result error performed steps r' at busy e logs) =
    Logs-IsSound
      (record {
        counted = rw e (set_counted r h i position step at _);
        steps = rw e (
            All-set StepIsSound r.step_records position _ h.steps
              (ended_step-IsSound step result error performed now));
        finished = status_after-completed (succeeded result) (all_done steps);
        called_off = λ q. absurd (status_after-ne-cancelled (succeeded result) (all_done steps) q);
        closed = settled-closed r steps error performed now (succeeded result) (all_done steps);
        blamed = settled-blamed r steps error performed now (succeeded result) (all_done steps);
        unperformed = λ q.
            rw e (set-IsUnperformed r h i position step at _ (||-false _ _ q).0 (||-false _ _ q).1);
      })
      logs
Evolves-IsSound {r} h (Evolves.barred reason now e) = record {
  counted = h.counted;
  steps = h.steps;
  finished = λ e. cc;
  called_off = λ e. cc;
  closed = refl;
  blamed = λ e. cc;
  unperformed = h.unperformed;
}
Evolves-IsSound {r} h (Evolves.halted reason now active idle) = record {
  counted = h.counted;
  steps = h.steps;
  finished = λ e. cc;
  called_off = λ e. cc;
  closed = refl;
  blamed = λ e. cc;
  unperformed = h.unperformed;
}
Evolves-IsSound {r} h (Evolves.reset i position step at failing failed) = record {
  counted = set_counted r h i position step at _;
  steps = All-set StepIsSound r.step_records position _ h.steps (ground arith);
  finished = λ e. cc;
  called_off = λ e. cc;
  closed = refl;
  blamed = λ e. refl;
  unperformed = λ e. set-IsUnperformed r h i position step at _ e refl;
}
Evolves-IsSound {r} h (Evolves.passed i position step completed_at r' at failing failed e logs) =
    Logs-IsSound
      (record {
        counted = set_counted r h i position step at _;
        steps = All-set StepIsSound r.step_records position _ h.steps (ground arith);
        finished = λ q. ground arith;
        called_off = λ q. ground arith;
        closed = ground arith;
        blamed = λ e. refl;
        unperformed = λ e.
            set-IsUnperformed r h i position step at _ e
              (step-IsUnperformed r h i position step at e);
      })
      logs
Evolves-IsSound {r} h (Evolves.dropped now e active idle) = record {
  counted = omega (arith, h.counted, length-map (cancelled_step now) r.step_records);
  steps = cancelled_steps_sound now r.step_records h.steps;
  finished = λ e. cc;
  called_off = λ e. cancelled_steps-IsIdle now r.step_records idle;
  closed = refl;
  blamed = λ e. ground (arith, h.blamed);
  unperformed = λ e. cancelled_steps-IsUnperformed now r.step_records (h.unperformed e);
}
