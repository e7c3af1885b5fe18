-- ===== src/Execution/Calls/History.antt =====
-- What any sequence of calls may do to a record that the store holds.
use Prim.Native.String.{String}
use text.Mathlib.TextEquality.{eq_iff}
use cauco.Base.{
  ℕ, suc, ◌≡◌, refl, sym, ◌∙◌, ap, str_append, Bool, true, false, none, some, List, [], ◌∷◌, ◌++◌,
  arith, ◌⊎◌, inl, inr, ◌==◌, string_eq, Bool-cases, Option-cases, get_elem?, All,
}
use mathlib.Core.Path.{subst}
use mathlib.Core.List.{append-nil, append_assoc}
use cauco.Base.Dict.{get, put}
use cauco.Base.Dict.Laws.{get-put}
use cauco.Base.Pairs.{Pairs-get_elem?}
use cauco.Base.Environment.{Environment}
use cauco.Execution.Models.{
  StepExecutionStatus, ExecutionAuditEvent, AgentPlanStepExecutionRecord, AgentPlanExecutionRecord,
}
use cauco.Execution.Store.{ExecutionStore}
use cauco.Execution.Store.Steps
use cauco.Execution.Lifecycle.Touches.{
  Touches, append_event-Touches, start_step-Touches, finish_step-Touches, fail_before_start-Touches,
  fail_runtime-Touches, retry_step-Touches, skip_failed_step-Touches, cancel-Touches,
}
use cauco.Execution.Lifecycle.Progress.{
  Progress, StepMoves, ◌⟶◌, start, succeed, fail, retry, skip, drop, Evolves-Progress,
}
use cauco.Execution.Invariant.Create.{RoomFor, create_rule}
use cauco.Execution.Calls.{
  Call, create, append_event, record_rejected_attempt, start_step, finish_step, fail_before_start,
  fail_runtime, retry_step, skip_failed_step, cancel, apply, run, IsAdmissible,
}
use cauco.Execution.Calls.Trace.{
  WasIssued, IsDistinct, IsGood, WasIssued-later, new_id-ne, apply-IsGood,
}

-- A step that has come to its end.
abbrev pub is_settled : StepExecutionStatus → Bool
is_settled StepExecutionStatus.completed = true
is_settled StepExecutionStatus.skipped = true
is_settled StepExecutionStatus.cancelled = true
is_settled _ = false

-- What time may do to a record: its origin stays, its log grows, its settled steps are final.
pub record Extends (r r' : AgentPlanExecutionRecord) : Type 0 where
  pub review_id : r'.review_id ≡ r.review_id
  pub snapshot_digest : r'.snapshot_digest ≡ r.snapshot_digest
  pub audit : (events : List ExecutionAuditEvent) × (r'.audit_events ≡ r.audit_events ++ events)
  pub settled :
      (p : ℕ) (step : AgentPlanStepExecutionRecord)
      → get_elem? r.step_records p ≡ some step
      → is_settled step.status ≡ true
      → get_elem? r'.step_records p ≡ some step

Extends-refl : (r : AgentPlanExecutionRecord) → Extends r r
Extends-refl r = record {
  review_id = refl;
  snapshot_digest = refl;
  audit = ([], sym (append-nil r.audit_events));
  settled = λ p step e q. e;
}

Extends-trans : {a b c : AgentPlanExecutionRecord} → Extends a b → Extends b c → Extends a c
Extends-trans {a} f g = record {
  review_id = g.review_id ∙ f.review_id;
  snapshot_digest = g.snapshot_digest ∙ f.snapshot_digest;
  audit = (
    f.audit.0 ++ g.audit.0,
    g.audit.1
        ∙ ap (λ x. x ++ g.audit.0) f.audit.1
        ∙ append_assoc a.audit_events f.audit.0 g.audit.0,
  );
  settled = λ p step e q. g.settled p step (f.settled p step e q) q;
}

-- No edge leaves a settled status.
settled-final : {a b : StepExecutionStatus} → a ⟶ b → is_settled a ≡ false
settled-final start = refl
settled-final succeed = refl
settled-final fail = refl
settled-final retry = refl
settled-final skip = refl
settled-final drop = refl

settled_step :
    (a b : AgentPlanStepExecutionRecord) → is_settled a.status ≡ true → StepMoves a b → b ≡ a
settled_step a b h (inl same) = same
settled_step a b h (inr (approval, edge)) = absurd (cc (settled-final edge))

Progress-Extends : {r r' : AgentPlanExecutionRecord} → Progress r r' → Extends r r'
Progress-Extends {r} {r'} p = record {
  review_id = p.review_id;
  snapshot_digest = p.snapshot_digest;
  audit = p.audit;
  settled = λ q step e h.
      let (after, there, moves) =
        Pairs-get_elem? StepMoves r.step_records r'.step_records q step p.steps e in
      there ∙ ap some (settled_step step after h moves);
}

-- What one touched record leaves of any record.
Touches-Extends :
    (id j : String) {s t : ExecutionStore} (r : AgentPlanExecutionRecord)
    → Touches id s t
    → get s.records j ≡ some r
    → (x : AgentPlanExecutionRecord) × (get t.records j ≡ some x) × Extends r x
Touches-Extends id j r (frame, inl same) found = (r, rw same found, Extends-refl r)
Touches-Extends id j {s} {t} r (frame, inr (a, b, here, step, e)) found =
    elim (Bool-cases (id == j)) [
      | inl equal ↦
          let ids : id ≡ j = (eq_iff id j).0 equal in
          let one : r ≡ a = cc in
          let there : get t.records j ≡ some b = rw e (cc (get-put s.records id b j, equal)) in
          (b, there, subst (λ y. Extends y b) (sym one) (Progress-Extends (Evolves-Progress step)))
      | inr other ↦
          let there : get t.records j ≡ some r = rw e (cc (get-put s.records id b j, other)) in
          (r, there, Extends-refl r)
    ]

-- What has become of the record `r` that was stored under `j`: it is gone, or one that extends it.
abbrev pub HasBecome : Environment → String → AgentPlanExecutionRecord → ExecutionStore → Type 0
HasBecome env j r t =
    WasIssued env t.calls j
    × ((get t.records j ≡ none)
        ⊎ ((x : AgentPlanExecutionRecord) × (get t.records j ≡ some x) × Extends r x))

module _ (env : Environment) (distinct : IsDistinct env) (j : String)
    (r : AgentPlanExecutionRecord) where
  HasBecome-Touches :
      (id : String) {s t : ExecutionStore}
      → HasBecome env j r s
      → Touches id s t
      → HasBecome env j r t
  HasBecome-Touches id {s} {t} (issued, inr (x, found, ext)) touches =
      let (y, now, more) = Touches-Extends id j x touches found in
      (
        WasIssued-later env distinct s.calls t.calls j issued touches.0.calls,
        inr (y, now, Extends-trans ext more),
      )
  HasBecome-Touches id {s} {t} (issued, inl gone) (frame, inl same) =
      (WasIssued-later env distinct s.calls t.calls j issued frame.calls, inl (rw same gone))
  HasBecome-Touches id {s} {t} (issued, inl gone) (frame, inr (a, b, here, step, e)) =
      let differ : (id == j) ≡ false = ground (arith, eq_iff id j) in
      (
        WasIssued-later env distinct s.calls t.calls j issued frame.calls,
        inl (rw e (cc (get-put s.records id b j, differ, gone))),
      )

  HasBecome-RoomFor :
      {s t : ExecutionStore} → HasBecome env j r s → RoomFor s t → HasBecome env j r t
  HasBecome-RoomFor {s} {t} (issued, inl gone) roomy = (
    WasIssued-later env distinct s.calls t.calls j issued (omega (arith, roomy.calls)),
    inl (roomy.still_absent j gone),
  )
  HasBecome-RoomFor {s} {t} (issued, inr (x, found, ext)) roomy = (
    WasIssued-later env distinct s.calls t.calls j issued (omega (arith, roomy.calls)),
    elim (Option-cases (get t.records j)) [
      | inl gone ↦ inl gone
      | inr (y, there) ↦
          let one : x ≡ y = cc (roomy.was_there j y there) in
          inr (x, there ∙ ap some (sym one), ext)
    ],
  )

  HasBecome-create :
      (s : ExecutionStore) (review_id digest : String) (steps : List AgentPlanStepExecutionRecord)
      → IsGood env s
      → HasBecome env j r s
      → HasBecome env j r (Steps.create env review_id digest steps s).1
  HasBecome-create s review_id digest steps g now =
      create_rule env s g.sound review_id digest steps (HasBecome env j r) now
        (λ t n roomy later.
          let (issued, what) = HasBecome-RoomFor now roomy in
          (WasIssued-later env distinct t.calls n j issued (omega arith), what))
        (λ t n e roomy later free.
          let (issued, what) = HasBecome-RoomFor now roomy in
          let new_id = str_append "exec_" (env.token t.calls) in
          let differ : (new_id == j) ≡ false =
            new_id-ne env distinct t.calls t.calls j issued (omega arith) in
          let same : get (put t.records new_id _) j ≡ get t.records j =
            cc (get-put t.records new_id _ j, differ) in
          (
            WasIssued-later env distinct t.calls n j issued (omega arith),
            elim what [
              | inl gone ↦ inl (same ∙ gone)
              | inr (x, there, ext) ↦ inr (x, same ∙ there, ext)
            ],
          ))

  HasBecome-apply :
      (call : Call) (s : ExecutionStore)
      → IsGood env s
      → HasBecome env j r s
      → HasBecome env j r (apply env call s)
  unfolding apply Steps.record_rejected_attempt
  HasBecome-apply (create review_id digest steps) s g now =
      HasBecome-create s review_id digest steps g now
  HasBecome-apply (append_event id event_type outcome message fields) s g now =
      HasBecome-Touches id now (append_event-Touches env s id event_type outcome message fields)
  HasBecome-apply (record_rejected_attempt review_id message) s g (issued, what) =
      (WasIssued-later env distinct s.calls (suc (suc s.calls)) j issued (omega arith), what)
  HasBecome-apply (start_step id i) s g now =
      HasBecome-Touches id now (start_step-Touches env s id i)
  HasBecome-apply (finish_step id i result error performed) s g now =
      HasBecome-Touches id now (finish_step-Touches env s id i result error performed)
  HasBecome-apply (fail_before_start id reason) s g now =
      HasBecome-Touches id now (fail_before_start-Touches env s id reason)
  HasBecome-apply (fail_runtime id reason) s g now =
      HasBecome-Touches id now (fail_runtime-Touches env s id reason)
  HasBecome-apply (retry_step id i) s g now =
      HasBecome-Touches id now (retry_step-Touches env s id i)
  HasBecome-apply (skip_failed_step id i) s g now =
      HasBecome-Touches id now (skip_failed_step-Touches env s id i)
  HasBecome-apply (cancel id) s g now = HasBecome-Touches id now (cancel-Touches env s id)

  HasBecome-run :
      (calls : List Call) (s : ExecutionStore)
      → All IsAdmissible calls
      → IsGood env s
      → HasBecome env j r s
      → HasBecome env j r (run env calls s)
  unfolding run
  HasBecome-run [] s a g now = now
  HasBecome-run (call ∷ calls) s (a, rest) g now =
      HasBecome-run calls (apply env call s) rest (apply-IsGood env distinct call s a g)
        (HasBecome-apply call s g now)

-- Whatever admissible calls follow, the record stored under an identifier is either evicted or extends
-- what it was: same review and snapshot, an audit log that only grew, and each completed, skipped or
-- cancelled step unchanged at its place. Tokens never repeat.
pub run-Extends :
    (env : Environment) (calls : List Call) (s : ExecutionStore) (j : String)
    (r : AgentPlanExecutionRecord)
    → IsDistinct env
    → All IsAdmissible calls
    → IsGood env s
    → get s.records j ≡ some r
    → (get (run env calls s).records j ≡ none)
      ⊎ ((x : AgentPlanExecutionRecord) × (get (run env calls s).records j ≡ some x) × Extends r x)
run-Extends env calls s j r distinct a g found =
    (HasBecome-run env distinct j r calls s a g
      (g.issued j r found, inr (r, found, Extends-refl r))).1
