-- ===== src/Execution/Calls/Moves.antt =====
-- What one call may do to a record and to its steps.
use mathlib.Core.Path.{subst}
use mathlib.Core.List.{append-nil}
use text.Mathlib.TextEquality.{eq_iff}
use cauco.Base.{
  ◌≡◌, refl, sym, ap, ◌∙◌, String, str_append, false, none, some, List, [], arith, ◌⊎◌, inl, inr,
  ◌==◌, string_eq, Bool-cases, Option-cases,
}
use cauco.Base.Dict.{get, put}
use cauco.Base.Dict.Laws.{get-put}
use cauco.Base.Pairs.{Pairs-refl}
use cauco.Base.Environment.{Environment}
use cauco.Execution.Models.{AgentPlanStepExecutionRecord, AgentPlanExecutionRecord}
use cauco.Execution.Store.{ExecutionStore}
use cauco.Execution.Store.Steps
use cauco.Execution.Lifecycle.Touches.{
  Touches, append_event-Touches, start_step-Touches, finish_step-Touches, fail_before_start-Touches,
  fail_runtime-Touches, retry_step-Touches, skip_failed_step-Touches, cancel-Touches,
}
use cauco.Execution.Lifecycle.Progress.{Progress, StepMoves, Evolves-Progress}
use cauco.Execution.Invariant.Create.{RoomFor, create_rule}
use cauco.Execution.Calls.{
  Call, create, append_event, record_rejected_attempt, start_step, finish_step, fail_before_start,
  fail_runtime, retry_step, skip_failed_step, cancel, apply,
}
use cauco.Execution.Calls.Trace.{IsDistinct, IsGood, new_id-ne}

Progress-refl : (r : AgentPlanExecutionRecord) → Progress r r
Progress-refl r = record {
  execution_id = refl;
  review_id = refl;
  snapshot_digest = refl;
  created_at = refl;
  total_steps = refl;
  steps = Pairs-refl StepMoves (λ a. inl refl) r.step_records;
  audit = ([], sym (append-nil r.audit_events));
}

-- The record `r` that was stored under `j` is gone, or has taken a step of the machine.
abbrev pub HasMoved : String → AgentPlanExecutionRecord → ExecutionStore → Type 0
HasMoved j r t =
    (get t.records j ≡ none)
    ⊎ ((x : AgentPlanExecutionRecord) × (get t.records j ≡ some x) × Progress r x)

module _ (s : ExecutionStore) (j : String) (r : AgentPlanExecutionRecord)
    (found : get s.records j ≡ some r) where
  HasMoved-Touches : (id : String) {t : ExecutionStore} → Touches id s t → HasMoved j r t
  HasMoved-Touches id (frame, inl same) = inr (r, rw same found, Progress-refl r)
  HasMoved-Touches id {t} (frame, inr (a, b, here, step, e)) = elim (Bool-cases (id == j)) [
    | inl equal ↦
        let ids : id ≡ j = (eq_iff id j).0 equal in
        let one : r ≡ a = cc in
        let there : get t.records j ≡ some b = rw e (cc (get-put s.records id b j, equal)) in
        inr (b, there, subst (λ y. Progress y b) (sym one) (Evolves-Progress step))
    | inr other ↦
        let there : get t.records j ≡ some r = rw e (cc (get-put s.records id b j, other)) in
        inr (r, there, Progress-refl r)
  ]

  HasMoved-RoomFor : (t : ExecutionStore) → RoomFor s t → HasMoved j r t
  HasMoved-RoomFor t roomy = elim (Option-cases (get t.records j)) [
    | inl gone ↦ inl gone
    | inr (y, there) ↦
        let one : r ≡ y = cc (roomy.was_there j y there) in
        inr (r, there ∙ ap some (sym one), Progress-refl r)
  ]

  module _ (env : Environment) (distinct : IsDistinct env) (g : IsGood env s) where
    HasMoved-create :
        (review_id digest : String) (steps : List AgentPlanStepExecutionRecord)
        → HasMoved j r (Steps.create env review_id digest steps s).1
    HasMoved-create review_id digest steps =
        create_rule env s g.sound review_id digest steps (HasMoved j r)
          (inr (r, found, Progress-refl r)) (λ t n roomy later. HasMoved-RoomFor t roomy)
          (λ t n e roomy later free.
            let new_id = str_append "exec_" (env.token t.calls) in
            let differ : (new_id == j) ≡ false =
              new_id-ne env distinct s.calls t.calls j (g.issued j r found)
                (omega (arith, roomy.calls)) in
            let same : get (put t.records new_id _) j ≡ get t.records j =
              cc (get-put t.records new_id _ j, differ) in
            elim (HasMoved-RoomFor t roomy) [
              | inl gone ↦ inl (same ∙ gone)
              | inr (x, there, progress) ↦ inr (x, same ∙ there, progress)
            ])

-- One call, whatever it is and whether it returns or raises, leaves a stored record evicted or moved:
-- its identity, origin and number of steps are kept, its log grows at the end, and each step is as it
-- was or keeps its approval and takes one edge of the machine, from pending to running or cancelled,
-- from running to completed or failed, from failed to pending or skipped. The store is sound, and
-- tokens never repeat.
pub apply-HasMoved :
    (env : Environment) (call : Call) (s : ExecutionStore) (j : String)
    (r : AgentPlanExecutionRecord)
    → IsDistinct env
    → IsGood env s
    → get s.records j ≡ some r
    → HasMoved j r (apply env call s)
unfolding apply Steps.record_rejected_attempt
apply-HasMoved env (create review_id digest steps) s j r distinct g found =
    HasMoved-create s j r found env distinct g review_id digest steps
apply-HasMoved env (append_event id event_type outcome message fields) s j r distinct g found =
    HasMoved-Touches s j r found id
      (append_event-Touches env s id event_type outcome message fields)
apply-HasMoved env (record_rejected_attempt review_id message) s j r distinct g found =
    inr (r, found, Progress-refl r)
apply-HasMoved env (start_step id i) s j r distinct g found =
    HasMoved-Touches s j r found id (start_step-Touches env s id i)
apply-HasMoved env (finish_step id i result error performed) s j r distinct g found =
    HasMoved-Touches s j r found id (finish_step-Touches env s id i result error performed)
apply-HasMoved env (fail_before_start id reason) s j r distinct g found =
    HasMoved-Touches s j r found id (fail_before_start-Touches env s id reason)
apply-HasMoved env (fail_runtime id reason) s j r distinct g found =
    HasMoved-Touches s j r found id (fail_runtime-Touches env s id reason)
apply-HasMoved env (retry_step id i) s j r distinct g found =
    HasMoved-Touches s j r found id (retry_step-Touches env s id i)
apply-HasMoved env (skip_failed_step id i) s j r distinct g found =
    HasMoved-Touches s j r found id (skip_failed_step-Touches env s id i)
apply-HasMoved env (cancel id) s j r distinct g found =
    HasMoved-Touches s j r found id (cancel-Touches env s id)
