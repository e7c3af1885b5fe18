-- ===== src/Services/Create/Cleared.antt =====
-- When `ExecutionService.create` creates a record.
use mathlib.Core.Path.{subst}
use text.Mathlib.TextEquality.{eq_iff}
use cauco.Base.{
  ℕ, ◌<◌, ◌≡◌, sym, ap, ◌∙◌, some, Method, String, true, false, not, ◌&&◌, Result, ok, raised,
  return, raise, ◌>>=◌, Bool-cases, inl, inr, leb, nat_beq, arith, ◌==◌, string_eq,
}
use cauco.Base.Results.Rules.{raised_ne, ok-injective, bind-ok}
use cauco.Base.Dict.{Dict, get}
use cauco.Base.Environment.{Environment}
use cauco.Tools.Value.{Value}
use cauco.Tools.Registry.{ToolRegistry}
use cauco.Reviews.Models.{AgentPlanReviewRecord, is_approved}
use cauco.Reviews.Store.Methods.{get_review, verify_integrity, digest_of}
use cauco.Execution.Models.{ExecutionStatus, AgentPlanExecutionRecord, ExecutionError}
use cauco.Execution.Store.{ExecutionStore, no_fields}
use cauco.Execution.Store.Steps
use cauco.Execution.Store.Recovering
use cauco.Services.{Stores, ServiceError, of_execution, on_reviews, on_executions}
use cauco.Services.Evidence.{on_reviews-ok, mapped-ok}
use cauco.Services.Create.Recorded.{
  IsRecorded, Records, create-Records, append_event-Records, Carries, some_waits,
  built_steps-Carries, built_steps-waits,
}
use cauco.Services.Create.{
  refused, validate_review, is_caught, built_steps, executable_count, cleared, or_rejected,
  reviewed, nothing_to_run, unless_empty, opened, create_for, create_execution,
}

-- What an execution may be created for: an approved review that has not expired, that authorises its
-- execution, and whose digest is the digest of its snapshot.
pub record IsCleared (digest : Value → String) (now : ℕ) (r : AgentPlanReviewRecord) : Type 0 where
  pub approved : is_approved r.status ≡ true
  pub lasting : now < r.expires_at
  pub authorized : r.execution_authorized ≡ true
  pub unperformed : r.execution_performed ≡ false
  pub sealed : r.snapshot_digest ≡ digest_of digest r

module _ (digest : Value → String) (now : ℕ) (review : AgentPlanReviewRecord) where
  verify_integrity-sealed :
      (s t : Stores) (x : Unit {0})
      → on_reviews (verify_integrity digest review) s ≡ (ok x, t)
      → review.snapshot_digest ≡ digest_of digest review
  unfolding verify_integrity
  verify_integrity-sealed s t x h =
      elim (Bool-cases (review.snapshot_digest == digest_of digest review)) [
        | inl same ↦ (eq_iff review.snapshot_digest (digest_of digest review)).0 same
        | inr torn ↦ absurd (raised_ne _ x _ t (rw torn at h))
      ]

  validate_review-IsCleared :
      (s t : Stores) (x : Unit {0})
      → validate_review digest now review s ≡ (ok x, t)
      → IsCleared digest now review × (s.executions ≡ t.executions)
  unfolding validate_review
  validate_review-IsCleared s t x h = elim (Bool-cases (is_approved review.status)) [
    | inr other ↦ absurd (raised_ne _ x s t (rw other at h))
    | inl approved ↦ elim (Bool-cases (leb review.expires_at now)) [
      | inl late ↦ absurd (raised_ne _ x s t (rw (approved, late) at h))
      | inr early ↦
          elim (Bool-cases (review.execution_authorized && not review.execution_performed)) [
            | inr odd ↦ absurd (raised_ne _ x s t (rw (approved, early, odd) at h))
            | inl fine ↦
                let checks : on_reviews (verify_integrity digest review) s ≡ (ok x, t) =
                  rw (approved, early, fine) at h in
                (
                  record {
                    approved = approved;
                    lasting = ground arith;
                    authorized = ground arith;
                    unperformed = ground arith;
                    sealed = verify_integrity-sealed s t x checks;
                  },
                  (on_reviews-ok (verify_integrity digest review) s t x checks).1,
                )
          ]
    ]
  ]

module _ (review_env env : Environment) (digest : Value → String) (now : ℕ) where
  reviewed-cleared :
      (id : String) (s t : Stores) (review : AgentPlanReviewRecord)
      → reviewed review_env env digest now id s ≡ (ok review, t)
      → cleared review_env env digest now id s ≡ (ok review, t)
  unfolding reviewed or_rejected
  reviewed-cleared id s t review h = go (cleared review_env env digest now id s) h
    where
      go :
          (p : Result ServiceError AgentPlanReviewRecord × Stores)
          → or_rejected review_env env digest now id p.0 p.1 ≡ (ok review, t)
          → p ≡ (ok review, t)
      go (ok x, u) e = e
      go (raised e', u) e = elim (Bool-cases (is_caught e')) [
        | inr other ↦ absurd (raised_ne e' review u t (rw other at e))
        | inl caught ↦
            let (_, w, _, ends) =
              bind-ok
                (on_executions
                  (Steps.record_rejected_attempt env id "Execution creation was rejected."))
                (λ _. raise e') u review t (rw caught at e) in
            absurd (raised_ne e' review w t ends)
      ]

  cleared-IsCleared :
      (id : String) (s t : Stores) (review : AgentPlanReviewRecord)
      → cleared review_env env digest now id s ≡ (ok review, t)
      → ((get_review review_env id s.reviews).0 ≡ ok review)
        × IsCleared digest now review
        × (s.executions ≡ t.executions)
  unfolding cleared
  cleared-IsCleared id s t review h =
      let (x, u, read, rest) =
        bind-ok (on_reviews (get_review review_env id))
          (λ x. validate_review digest now x >>= λ _. return x) s review t h in
      let (y, w, checks, ends) =
        bind-ok (validate_review digest now x) (λ _. return x) u review t rest in
      let (one, at) = ok-injective x review w t ends in
      let (found, same) = on_reviews-ok (get_review review_env id) s u x read in
      let (fine, same_too) = validate_review-IsCleared digest now x u w y checks in
      (
        found ∙ ap ok one,
        subst (λ r. IsCleared digest now r) one fine,
        same ∙ same_too ∙ ap (λ q. q.executions) at,
      )

-- What stands behind an execution that is created: a review that clears it, and a record of that review
-- with its digest and the steps of its plan, not yet run and some of them waiting, which the store
-- holds.
pub record IsFounded {A : Type 0} (review_env : Environment) (digest : Value → String) (now : ℕ)
    (tools : ToolRegistry) (adapters : Dict (String × String) A) (id : String) (s t : Stores)
    (e : AgentPlanExecutionRecord) : Type 0 where
  pub review : AgentPlanReviewRecord
  pub read : (get_review review_env id s.reviews).0 ≡ ok review
  pub clear : IsCleared digest now review
  pub names : (e.review_id ≡ review.review_id) × (e.snapshot_digest ≡ review.snapshot_digest)
  pub carries : Carries tools adapters review.plan.steps e.step_records
  pub waits : some_waits tools adapters e.step_records ≡ true
  pub unperformed : (e.status ≡ ExecutionStatus.pending_execution) × (e.execution_performed ≡ false)
  pub stored : get t.executions.records e.execution_id ≡ some e

on_executions-ok :
    {A : Type 0} (m : Method ExecutionError ExecutionStore A) (s t : Stores) (a : A)
    → on_executions m s ≡ (ok a, t)
    → m s.executions ≡ (ok a, t.executions)
on_executions-ok m s t a h =
    let first : (m s.executions).0 ≡ ok a =
      mapped-ok of_execution (m s.executions).0 a (ap (λ p. p.0) h) in
    let last : (m s.executions).1 ≡ t.executions = ap (λ p. p.1.executions) h in
    λ i. (first i, last i)

module _ {A : Type 0} (review_env env : Environment) (digest : Value → String) (now : ℕ)
    (tools : ToolRegistry) (adapters : Dict (String × String) A) (review : AgentPlanReviewRecord)
    (e : AgentPlanExecutionRecord) (t : Stores) where
  unless_empty-same :
      (updated : AgentPlanExecutionRecord) (v : Stores)
      → unless_empty review_env env digest now tools adapters review updated v ≡ (ok e, t)
      → (nat_beq (executable_count tools adapters review.plan.steps) 0 ≡ false)
        × (updated ≡ e)
        × (v ≡ t)
  unfolding unless_empty
  unless_empty-same updated v h =
      elim (Bool-cases (nat_beq (executable_count tools adapters review.plan.steps) 0)) [
        | inr some_run ↦
            let (same, at) = ok-injective updated e v t (rw some_run at h) in (some_run, same, at)
        | inl none_run ↦
            let (_, w, _, ends) =
              bind-ok
                (on_executions
                  (Recovering.fail_before_start env updated.execution_id nothing_to_run))
                (λ _. raise (refused nothing_to_run)) v e t (rw none_run at h) in
            absurd (raised_ne (refused nothing_to_run) e w t ends)
      ]

  -- What `create` returns is recorded with the steps that it handed over.
  create_for-IsRecorded :
      (u : Stores)
      → create_for review_env env digest now tools adapters review u ≡ (ok e, t)
      → IsRecorded review.review_id review.snapshot_digest
          (built_steps tools adapters review.plan.steps)
          e
          t.executions
        × (nat_beq (executable_count tools adapters review.plan.steps) 0 ≡ false)
  unfolding create_for opened
  create_for-IsRecorded u h =
      let steps = built_steps tools adapters review.plan.steps in
      let Holds = Records env review.review_id review.snapshot_digest steps in
      let (made, w, stores, rest) =
        bind-ok (on_executions (Steps.create env review.review_id review.snapshot_digest steps))
          (opened review_env env digest now tools adapters review) u e t h in
      let recorded =
        subst Holds
          (on_executions-ok (Steps.create env review.review_id review.snapshot_digest steps) u w
            made stores)
          (create-Records env review.review_id review.snapshot_digest steps u.executions) in
      let note =
        Steps.append_event env made.execution_id "integrity_verified" "success"
          "Approved snapshot integrity verified." no_fields in
      let (updated, v, logs, ends) =
        bind-ok (on_executions note) (unless_empty review_env env digest now tools adapters review)
          w e t rest in
      let still = subst Holds (on_executions-ok note w v updated logs) (
        append_event-Records env review.review_id review.snapshot_digest steps made
          "integrity_verified" "success" "Approved snapshot integrity verified." w.executions
          recorded) in
      let (some_run, same, at) = unless_empty-same updated v ends in
      let one : ◌≡◌ {A = Result ExecutionError AgentPlanExecutionRecord × ExecutionStore}
          (ok updated, v.executions) (ok e, t.executions) =
        λ i. (ok (same i), (at i).executions) in
      (subst Holds one still, some_run)

-- `ExecutionService.create` returns a record only for a review that is approved, not expired, authorised
-- for its execution and intact. The record names that review and its digest, was not performed, and
-- carries, in the order of the plan, one step for each step of the plan that uses a tool and no other:
-- with its number, tool, operation and target, waiting if the registry lets the runtime execute it and
-- an adapter is there, and skipped if not. Some step waits, and the store holds the record.
pub create_execution-IsFounded :
    {A : Type 0} (review_env env : Environment) (digest : Value → String) (now : ℕ)
    (tools : ToolRegistry) (adapters : Dict (String × String) A) (review_id : String) (s t : Stores)
    (e : AgentPlanExecutionRecord)
    → create_execution review_env env digest now tools adapters review_id s ≡ (ok e, t)
    → IsFounded review_env digest now tools adapters review_id s t e
unfolding create_execution
create_execution-IsFounded review_env env digest now tools adapters review_id s t e h =
    let (review, u, first, rest) =
      bind-ok (reviewed review_env env digest now review_id)
        (create_for review_env env digest now tools adapters) s e t h in
    let (read, clear, same) =
      cleared-IsCleared review_env env digest now review_id s u review
        (reviewed-cleared review_env env digest now review_id s u review first) in
    let (recorded, some_run) =
      create_for-IsRecorded review_env env digest now tools adapters review e t u rest in
    record {
      review = review;
      read = read;
      clear = clear;
      names = (recorded.review, recorded.sealed);
      carries =
          subst (Carries tools adapters review.plan.steps) (sym recorded.handed)
            (built_steps-Carries tools adapters review.plan.steps);
      waits =
          ap (some_waits tools adapters) recorded.handed
          ∙ built_steps-waits tools adapters review.plan.steps
          ∙ ap not some_run;
      unperformed = (recorded.waiting, recorded.unperformed);
      stored = recorded.stored;
    }
