-- ===== src/Execution/Calls/Trace.antt =====
-- What holds along every sequence of calls.
use Prim.Native.String.{String}
use text.Mathlib.TextLemmas.{append_cancel_left}
use text.Mathlib.TextEquality.{eq_iff}
use cauco.Base.{
  ℕ, suc, ◌≤◌, ◌<◌, ◌≡◌, refl, sym, ◌∙◌, str_append, false, List, [], ◌∷◌, arith, inl, inr, ◌==◌,
  string_eq, Bool-cases, Option-cases, All,
}
use mathlib.Core.Path.{subst}
use cauco.Base.Dict.{get}
use cauco.Base.Dict.Laws.{Each, Each-put}
use cauco.Base.Environment.{Environment}
use cauco.Execution.Models.{AgentPlanStepExecutionRecord, AgentPlanExecutionRecord}
use cauco.Execution.Store.{ExecutionStore}
use cauco.Execution.Store.Steps
use cauco.Execution.Lifecycle.Touches.{
  Touches, append_event-Touches, start_step-Touches, finish_step-Touches, fail_before_start-Touches,
  fail_runtime-Touches, retry_step-Touches, skip_failed_step-Touches, cancel-Touches,
}
use cauco.Execution.Invariant.{IsSoundStore, Touches-IsSoundStore}
use cauco.Execution.Invariant.Create.{
  IsFresh, IssuesNew, create_rule, create-IsSoundStore, ticked-IsSoundStore,
}
use cauco.Execution.Calls.{
  Call, create, append_event, record_rejected_attempt, start_step, finish_step, fail_before_start,
  fail_runtime, retry_step, skip_failed_step, cancel, apply, run, IsAdmissible,
}

-- Every identifier in the store was issued by the environment.
abbrev pub WasIssued : Environment → ℕ → String → Type 0
WasIssued env n id = (m : ℕ) × (m < n) × (id ≡ str_append "exec_" (env.token m))

-- The token source never repeats itself.
abbrev pub IsDistinct : Environment → Type 0
IsDistinct env = (m n : ℕ) → env.token m ≡ env.token n → m ≡ n

pub record IsGood (env : Environment) (s : ExecutionStore) : Type 0 where
  pub sound : IsSoundStore s
  pub issued : Each (λ id r. WasIssued env s.calls id) s.records

module _ (env : Environment) (distinct : IsDistinct env) where
  pub IsGood-IssuesNew : (s : ExecutionStore) → IsGood env s → IssuesNew env s
  IsGood-IssuesNew s g n later =
      elim (Option-cases (get s.records (str_append "exec_" (env.token n)))) [
        | inl absent ↦ absent
        | inr (r, found) ↦
            let (m, before, same) = g.issued _ r found in
            let clash : n ≡ m =
              distinct n m (append_cancel_left "exec_" (env.token n) (env.token m) same) in
            absurd (omega arith)
      ]

  -- A new identifier is none that was issued before.
  pub new_id-ne :
      (n k : ℕ) (id : String)
      → WasIssued env n id
      → n ≤ k
      → (str_append "exec_" (env.token k) == id) ≡ false
  new_id-ne n k id (m, before, same) later =
      elim (Bool-cases (str_append "exec_" (env.token k) == id)) [
        | inl equal ↦
            let ids : str_append "exec_" (env.token k) ≡ id = (eq_iff _ id).0 equal in
            let clash : k ≡ m =
              distinct k m (append_cancel_left "exec_" (env.token k) (env.token m) (ids ∙ same)) in
            absurd (omega arith)
        | inr differ ↦ differ
      ]

  pub WasIssued-later : (m n : ℕ) (id : String) → WasIssued env m id → m ≤ n → WasIssued env n id
  WasIssued-later m n id (k, before, same) later = (k, omega arith, same)

  pub Touches-IsGood :
      (id : String) {s t : ExecutionStore} → IsGood env s → Touches id s t → IsGood env t
  Touches-IsGood id {s} {t} g (frame, inl same) = record {
    sound = Touches-IsSoundStore id g.sound (frame, inl same);
    issued = λ j r e. WasIssued-later s.calls t.calls j (g.issued j r (rw same at e)) frame.calls;
  }
  Touches-IsGood id {s} {t} g (frame, inr (r, r', found, step, e)) = record {
    sound = Touches-IsSoundStore id g.sound (frame, inr (r, r', found, step, e));
    issued =
        let issued = λ (j : String) (x : AgentPlanExecutionRecord). WasIssued env t.calls j in
        subst (λ d. Each issued d) (sym e)
          (Each-put issued s.records id r'
            (λ j x q. WasIssued-later s.calls t.calls j (g.issued j x q) frame.calls)
            (WasIssued-later s.calls t.calls id (g.issued id r found) frame.calls));
  }

  module _ (s : ExecutionStore) (g : IsGood env s) where
    record_rejected_attempt-IsGood :
        (review_id message : String)
        → IsGood env (Steps.record_rejected_attempt env review_id message s).1
    unfolding Steps.record_rejected_attempt
    record_rejected_attempt-IsGood review_id message = record {
      sound = ticked-IsSoundStore s _ _ g.sound;
      issued =
          λ j r e. WasIssued-later s.calls (suc (suc s.calls)) j (g.issued j r e) (omega arith);
    }

    create-IsGood :
        (review_id digest : String) (steps : List AgentPlanStepExecutionRecord)
        → IsFresh steps
        → IsGood env (Steps.create env review_id digest steps s).1
    create-IsGood review_id digest steps fresh = record {
      sound = create-IsSoundStore env s g.sound review_id digest steps (IsGood-IssuesNew s g) fresh;
      issued =
          create_rule env s g.sound review_id digest steps
            (λ t. Each (λ j r. WasIssued env t.calls j) t.records) g.issued
            (λ t n roomy later j x e.
              WasIssued-later s.calls n j (g.issued j x (roomy.was_there j x e))
                (omega (arith, roomy.calls)))
            (λ t n e roomy later free.
              Each-put (λ j x. WasIssued env n j) t.records _ _
                (λ j x q.
                  WasIssued-later s.calls n j (g.issued j x (roomy.was_there j x q))
                    (omega (arith, roomy.calls)))
                (t.calls, later, refl));
    }

  pub apply-IsGood :
      (call : Call) (s : ExecutionStore)
      → IsAdmissible call
      → IsGood env s
      → IsGood env (apply env call s)
  unfolding apply
  apply-IsGood (create review_id digest steps) s fresh g =
      create-IsGood s g review_id digest steps fresh
  apply-IsGood (append_event id event_type outcome message fields) s a g =
      Touches-IsGood id g (append_event-Touches env s id event_type outcome message fields)
  apply-IsGood (record_rejected_attempt review_id message) s a g =
      record_rejected_attempt-IsGood s g review_id message
  apply-IsGood (start_step id i) s a g = Touches-IsGood id g (start_step-Touches env s id i)
  apply-IsGood (finish_step id i result error performed) s a g =
      Touches-IsGood id g (finish_step-Touches env s id i result error performed)
  apply-IsGood (fail_before_start id reason) s a g =
      Touches-IsGood id g (fail_before_start-Touches env s id reason)
  apply-IsGood (fail_runtime id reason) s a g =
      Touches-IsGood id g (fail_runtime-Touches env s id reason)
  apply-IsGood (retry_step id i) s a g = Touches-IsGood id g (retry_step-Touches env s id i)
  apply-IsGood (skip_failed_step id i) s a g =
      Touches-IsGood id g (skip_failed_step-Touches env s id i)
  apply-IsGood (cancel id) s a g = Touches-IsGood id g (cancel-Touches env s id)

  -- From a sound store whose identifiers were issued, no sequence of admissible calls leads to a store
  -- that is not sound or holds an identifier that was not issued, provided tokens never repeat.
  pub run-IsGood :
      (calls : List Call) (s : ExecutionStore)
      → All IsAdmissible calls
      → IsGood env s
      → IsGood env (run env calls s)
  unfolding run
  run-IsGood [] s a g = g
  run-IsGood (call ∷ calls) s (a, rest) g =
      run-IsGood calls (apply env call s) rest (apply-IsGood call s a g)
