-- ===== src/Services/Evidence.antt =====
-- What it takes for `verify` to return a verification.
use text.Mathlib.TextEquality.{eq_iff}
use cauco.Base.{
  ℕ, suc, str_append, ◌≡◌, refl, sym, ap, ◌∙◌, String, true, ◌&&◌, Option, none, some, List, [],
  ◌∷◌, all, ◌==◌, string_eq, Result, ok, raised, Method, ensure, ◌>>=◌, Option-cases, Bool-cases,
  inl, inr, arith,
}
use cauco.Base.Results.Rules.{raised_ne, ok-injective, ensure-true, bind-ok}
use cauco.Base.Dict.{get, is_some}
use cauco.Base.Environment.{Environment}
use cauco.Tools.Value.{Value}
use cauco.Reviews.Models.{AgentPlanReviewRecord, is_approved}
use cauco.Reviews.Store.{AgentPlanReviewStore, ReviewError}
use cauco.Reviews.Store.Methods.{get_review, verify_integrity}
use cauco.Execution.Models.{AgentPlanExecutionRecord}
use cauco.Execution.Store.{list_executions}
use cauco.Verification.Models.{
  StepVerificationResult, VerificationRecord, VerificationError, conflict, verification_rejection,
}
use cauco.Verification.Service.{execution_refusal, is_over, verify_steps}
use cauco.Verification.Evidence.{completes, is_some_record, is_proven, built-completes}
use cauco.Verification.Store.{
  VerificationStore, VerificationFields, create, store_new, new_record, stored, created, make_room,
}
use cauco.Services.{
  Stores, ServiceError, mapped, of_review, of_execution, of_verification, on_reviews, on_executions,
  on_verifications,
}
use cauco.Services.Verify.{
  verification_fields, with_results, conclude_checked, conclude, verify_listed, verify_status,
  verify_read, verify,
}

-- A method of one store that returns as a step of all three has returned itself.
pub mapped-ok :
    {A E : Type 0} (f : E → ServiceError) (r : Result E A) (a : A)
    → ◌≡◌ {A = Result ServiceError A} (mapped f r) (ok a)
    → r ≡ ok a
mapped-ok f (ok b) a h = cc
mapped-ok f (raised e) a h = absurd (cc)

stored-same :
    (o : Option String) (r : VerificationRecord) (s : VerificationStore) (v : VerificationRecord)
    (t : VerificationStore)
    → stored o r s ≡ (ok v, t)
    → r ≡ v
unfolding stored
stored-same none r s v t h = (ok-injective r v _ t h).0
stored-same (some message) r s v t h = absurd (raised_ne _ v s t h)

-- What `create` returns has the fields that it was given.
create-created :
    (env : Environment) (f : VerificationFields) (s t : VerificationStore) (v : VerificationRecord)
    → create env f s ≡ (ok v, t)
    → (id : String) × (now : ℕ) × (v ≡ created id f now)
unfolding create store_new new_record
create-created env f s t v h = elim (Bool-cases (is_some (get s.by_execution f.execution_id))) [
  | inl twice ↦ absurd (raised_ne _ v s t (rw twice at h))
  | inr once ↦
      let (_, u, _, made) =
        bind-ok make_room (λ _. new_record env f >>= λ r. stored (verification_rejection r) r) s v t
          (rw once at h) in
      (
        str_append "verify_" (env.token u.calls),
        env.clock (suc u.calls),
        sym (stored-same _ _ _ v t made),
      )
]

pub on_reviews-ok :
    {A : Type 0} (m : Method ReviewError AgentPlanReviewStore A) (s t : Stores) (a : A)
    → on_reviews m s ≡ (ok a, t)
    → ((m s.reviews).0 ≡ ok a) × (s.executions ≡ t.executions)
on_reviews-ok m s t a h =
    (mapped-ok of_review (m s.reviews).0 a (ap (λ p. p.0) h), ap (λ p. p.1.executions) h)

on_verifications-ok :
    {A : Type 0} (m : Method VerificationError VerificationStore A) (s t : Stores) (a : A)
    → on_verifications m s ≡ (ok a, t)
    → m s.verifications ≡ (ok a, t.verifications)
on_verifications-ok m s t a h =
    let first : (m s.verifications).0 ≡ ok a =
      mapped-ok of_verification (m s.verifications).0 a (ap (λ p. p.0) h) in
    let last : (m s.verifications).1 ≡ t.verifications = ap (λ p. p.1.verifications) h in
    λ i. (first i, last i)

refusal_none :
    (digest : String) (execution : AgentPlanExecutionRecord)
    → execution_refusal digest execution ≡ none
    → ((execution.snapshot_digest == digest) ≡ true)
      × (is_over execution.status ≡ true)
      × (execution.execution_performed ≡ true)
unfolding execution_refusal
refusal_none digest execution h = (ground arith, ground arith, ground arith)

-- What stands behind a verification: an approved review, and its execution, which is over, was
-- performed and has the digest of the review; completion is recommended exactly when each step of the
-- execution is proven.
pub record IsBacked (review_env : Environment) (review_id : String) (s : Stores)
    (v : VerificationRecord) : Type 0 where
  pub review : AgentPlanReviewRecord
  pub read : (get_review review_env review_id s.reviews).0 ≡ ok review
  pub approved : is_approved review.status ≡ true
  pub execution : AgentPlanExecutionRecord
  pub rest : List AgentPlanExecutionRecord
  pub listed : (list_executions none (some review_id) 1 s.executions).0 ≡ ok (execution ∷ rest)
  pub digest : execution.snapshot_digest ≡ review.snapshot_digest
  pub over : is_over execution.status ≡ true
  pub performed : execution.execution_performed ≡ true
  pub names :
      (v.execution_id ≡ execution.execution_id)
      × (v.review_id ≡ review.review_id)
      × (v.snapshot_digest ≡ review.snapshot_digest)
  pub recommends :
      completes v.recommendation
      ≡ (is_some_record execution.step_records && all is_proven execution.step_records)

module _ (env : Environment) (decimal : ℕ → String) (review : AgentPlanReviewRecord) where
  with_results-ok :
      (execution : AgentPlanExecutionRecord) (r : Result String (List StepVerificationResult))
      (s t : Stores) (v : VerificationRecord)
      → with_results env decimal review execution r s ≡ (ok v, t)
      → (results : List StepVerificationResult) × (r ≡ ok results)
        × (id : String) × (now : ℕ) × (v
            ≡ created id (verification_fields review execution results) now)
  unfolding with_results
  with_results-ok execution (raised message) s t v h = absurd (raised_ne _ v s t h)
  with_results-ok execution (ok results) s t v h =
      let made =
        on_verifications-ok (create env (verification_fields review execution results)) s t v h in
      let (id, now, same) =
        create-created env (verification_fields review execution results) s.verifications
          t.verifications v made in
      (results, refl, id, now, same)

  -- What `conclude` returns is of the first execution listed, which is not refused.
  conclude-ok :
      (executions : List AgentPlanExecutionRecord) (s t : Stores) (v : VerificationRecord)
      → conclude env decimal review executions s ≡ (ok v, t)
      → (execution : AgentPlanExecutionRecord) × (rest : List AgentPlanExecutionRecord)
        × (executions ≡ execution ∷ rest)
        × (execution_refusal review.snapshot_digest execution ≡ none)
        × (results : List StepVerificationResult) × (verify_steps decimal execution.step_records
            ≡ ok results)
        × (id : String) × (now : ℕ) × (v
            ≡ created id (verification_fields review execution results) now)
  unfolding conclude conclude_checked
  conclude-ok [] s t v h = absurd (raised_ne _ v s t h)
  conclude-ok (execution ∷ rest) s t v h =
      elim (Option-cases (execution_refusal review.snapshot_digest execution)) [
        | inr (message, refused) ↦ absurd (raised_ne _ v s t (rw refused at h))
        | inl allowed ↦
            let (results, verified, id, now, same) =
              with_results-ok execution (verify_steps decimal execution.step_records) s t v
                (rw allowed at h) in
            (execution, rest, refl, allowed, results, verified, id, now, same)
      ]

-- A verification that `verify` returns is of the review that is read, which is approved, and of the first
-- execution listed for it, which is over, was performed and has the digest of the review; it carries
-- their identifiers and that digest, and recommends completion exactly when the execution has a step
-- and each of its steps was performed, with a result of that step's tool and operation that is whole,
-- successful and says that the verification after the action passed.
pub verify-IsBacked :
    (review_env verification_env : Environment) (digest : Value → String) (decimal : ℕ → String)
    (review_id : String) (s t : Stores) (v : VerificationRecord)
    → verify review_env verification_env digest decimal review_id s ≡ (ok v, t)
    → IsBacked review_env review_id s v
unfolding verify verify_read verify_status verify_listed created verification_fields
verify-IsBacked review_env verification_env digest decimal review_id s t v h =
    let (review, s1, h1, g1) =
      bind-ok (on_reviews (get_review review_env review_id))
        (λ review. verify_read verification_env decimal review_id review digest) s v t h in
    let (_, s2, h2, g2) =
      bind-ok (on_reviews (verify_integrity digest review))
        (λ _. verify_status verification_env decimal review_id review) s1 v t g1 in
    let (_, s3, h3, g3) =
      bind-ok
        (ensure (is_approved review.status)
          (of_verification (conflict "Only approved plan reviews can be verified.")))
        (λ _. verify_listed verification_env decimal review_id review) s2 v t g2 in
    let (executions, s4, h4, g4) =
      bind-ok (on_executions (list_executions none (some review_id) 1))
        (conclude verification_env decimal review) s3 v t g3 in
    let (execution, rest, listed, allowed, results, verified, id, now, made) =
      conclude-ok verification_env decimal review executions s4 t v g4 in
    let (read, same1) = on_reviews-ok (get_review review_env review_id) s s1 review h1 in
    let (_, same2) = on_reviews-ok (verify_integrity digest review) s1 s2 _ h2 in
    let (approved, same3) = ensure-true (is_approved review.status) _ s2 s3 _ h3 in
    let (digests, over, performed) = refusal_none review.snapshot_digest execution allowed in
    record {
      review = review;
      read = read;
      approved = approved;
      execution = execution;
      rest = rest;
      listed =
          ap (λ x. (list_executions none (some review_id) 1 x).0)
            (same1 ∙ same2 ∙ ap (λ x. x.executions) same3)
          ∙ mapped-ok of_execution (list_executions none (some review_id) 1 s3.executions).0
              executions (ap (λ p. p.0) h4)
          ∙ ap ok listed;
      digest = (eq_iff execution.snapshot_digest review.snapshot_digest).0 digests;
      over = over;
      performed = performed;
      names = (
        ap (λ x. x.execution_id) made,
        ap (λ x. x.review_id) made,
        ap (λ x. x.snapshot_digest) made,
      );
      recommends =
          ap (λ x. completes x.recommendation) made
          ∙ built-completes decimal execution.step_records results verified;
    }
