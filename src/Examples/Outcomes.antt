-- ===== src/Examples/Outcomes.antt =====
-- An execution that is over, its verification, and the state of its review.
use cauco.Base.{◌≡◌, refl, String, true, some, none, [], ◌∷◌, ok, raised, string_eq, arith}
use cauco.Base.Dict.{get, put}
use cauco.Base.Dict.Laws.{Each-one, Each-empty}
use cauco.Base.Ids.{is_opaque_id, is_sha256}
use cauco.Examples.{env, tick_token, tick_token-injective, digest}
use cauco.Tools.Value
use cauco.Examples.Plans
use cauco.Examples.Inputs.{read_step}
use cauco.Reviews.Models.{
  AgentPlanReviewStatus, AgentPlanReviewRecord, approval_warning_text, copied, copy_context,
  copy_plan, snapshot_rejection, decision_rejection,
}
use cauco.Reviews.Payload.{snapshot_payload}
use cauco.Reviews.Store.Methods.{digest_of}
use cauco.Reviews.Store.Intact.{IsIntact}
use cauco.Execution.Models.{ExecutionStatus, AgentPlanExecutionRecord}
use cauco.Execution.Store.{ExecutionStore}
use cauco.Execution.Invariant
use cauco.Verification.Models.{
  VerificationOutcome, VerificationRecommendation, VerificationRecord, conflict,
}
use cauco.Verification.Service.{findings}
use cauco.Verification.Store
use cauco.Verification.Store.{VerificationStore, VerificationFields, for_execution}
use cauco.Verification.Store.Index
use cauco.Verification.Store.Creating
use cauco.Verification.Store.Creating.{new-run-IsSoundStore, create-for_execution}
use cauco.Executive.Models.{ExecutiveState}
use cauco.Services.{Stores}
use cauco.Base.Evolution.{IsIssued}
use cauco.Services.Verify.{verify, verification_fields}
use cauco.Services.Evidence.{IsBacked, verify-IsBacked}
use cauco.Services.Resolve.{resolve}
use cauco.Services.Resolve.Linked.{AreLinked, resolve-returns}

abbrev execution_id : String
execution_id = "exec_0123456789_abcdefghijkl"

abbrev fields : VerificationFields
fields = record {
  execution_id = execution_id;
  review_id = Plans.id;
  snapshot_digest = digest;
  outcome = VerificationOutcome.succeeded;
  recommendation = VerificationRecommendation.complete;
  method = "test";
  step_results = findings (λ n. "1") read_step ∷ [];
  evidence_references = [];
  deviations = [];
  unresolved_conditions = [];
  rollback_available = none;
}

abbrev verifications : VerificationStore
verifications = record { max_records = 1; records = []; by_execution = []; calls = 0 }

verifications-IsSoundStore : Index.IsSoundStore env verifications
verifications-IsSoundStore = record {
  unique = tt;
  held = Each-empty (Index.IsHeld verifications);
  leads = Each-empty (Index.LeadsTo verifications);
  issued = Each-empty _;
  room = omega arith;
}

verifications_are_new : Store.new 1 ≡ ok verifications
unfolding Store.new
verifications_are_new = refl

new-run-IsSoundStore_example :
    Index.IsSoundStore env (Creating.run env (fields ∷ fields ∷ []) verifications)
new-run-IsSoundStore_example =
    new-run-IsSoundStore env 1 (fields ∷ fields ∷ []) verifications tick_token-injective
      verifications_are_new

abbrev stored : VerificationRecord
stored = Store.created "verify_0123456789_abcdefghijkl" fields 1

abbrev one_verification : VerificationStore
one_verification = record {
  max_records = 1;
  records = ("verify_0123456789_abcdefghijkl", stored) ∷ [];
  by_execution = (execution_id, "verify_0123456789_abcdefghijkl") ∷ [];
  calls = 2;
}

created_once : Store.create env fields verifications ≡ (ok stored, one_verification)
unfolding Store.create get is_opaque_id tick_token is_sha256 put
created_once = refl

create-for_execution_example :
    (for_execution execution_id one_verification ≡ (ok stored, one_verification))
    × (Store.create env fields one_verification ≡ (
      raised (conflict "A verification record already exists for this execution."),
      one_verification,
    ))
create-for_execution_example =
    create-for_execution env verifications one_verification fields fields stored
      tick_token-injective verifications-IsSoundStore created_once refl

abbrev pub approved : AgentPlanReviewRecord
approved = record Plans.review {
  status = AgentPlanReviewStatus.approved;
  updated_at = 5;
  approved_at = some 5;
  execution_authorized = true;
  approval_warning = some approval_warning_text;
}

abbrev execution : AgentPlanExecutionRecord
execution = record {
  execution_id = execution_id;
  review_id = Plans.id;
  snapshot_digest = digest;
  status = ExecutionStatus.completed;
  created_at = 6;
  started_at = some 7;
  completed_at = some 8;
  current_step_index = none;
  total_steps = 1;
  step_records = read_step ∷ [];
  execution_performed = true;
  failure_reason = none;
  audit_events = [];
}

abbrev executions : ExecutionStore
executions = record {
  max_records = 2;
  records = (execution_id, execution) ∷ [];
  by_review = (Plans.id, execution_id) ∷ [];
  rejected_events = [];
  calls = 4;
}

abbrev stores : VerificationStore → Stores
stores v = record { reviews = Plans.store 9 approved; executions = executions; verifications = v }

abbrev verification : VerificationRecord
verification =
    Store.created "verify_0123456789_abcdefghijkl"
      (verification_fields approved execution (findings (λ n. "1") read_step ∷ [])) 1

verified :
    verify env env Plans.hash (λ n. "1") Plans.id (stores verifications)
    ≡ (ok verification, (verify env env Plans.hash (λ n. "1") Plans.id (stores verifications)).1)
unfolding verify get snapshot_rejection is_opaque_id is_sha256 decision_rejection copied tick_token
    Value.get
verified = refl

verify-IsBacked_example : IsBacked env Plans.id (stores verifications) verification
verify-IsBacked_example =
    verify-IsBacked env env Plans.hash (λ n. "1") Plans.id (stores verifications)
      (verify env env Plans.hash (λ n. "1") Plans.id (stores verifications)).1 verification verified

approved-IsIntact : IsIntact Plans.hash Plans.id approved
unfolding copied copy_context copy_plan snapshot_rejection decision_rejection is_opaque_id is_sha256
    digest_of snapshot_payload
approved-IsIntact = record { own_id = refl; accepted = refl; copy = refl; sealed = refl }

executions-IsSoundStore : Invariant.IsSoundStore executions
unfolding get
executions-IsSoundStore = record {
  unique = (refl, tt);
  held = Each-one (Invariant.IsHeld executions) execution_id execution (record {
    own_id = refl;
    sound = record {
      counted = refl;
      steps = (
        record {
          completed = λ e. refl;
          failed = λ e. absurd (cc);
          running = λ e. refl;
          pending = λ e. absurd (cc);
        },
        tt,
      );
      finished = λ e. refl;
      called_off = λ e. absurd (cc);
      closed = refl;
      blamed = λ e. refl;
      unperformed = λ e. absurd (cc);
    };
    by_review = refl;
  });
  reviews = Each-one (Invariant.LeadsTo executions) Plans.id execution_id (execution, refl, refl);
  room = omega arith;
}

one_verification-IsSoundStore : Index.IsSoundStore env one_verification
unfolding get tick_token Store.created
one_verification-IsSoundStore = record {
  unique = (refl, tt);
  held =
      Each-one (Index.IsHeld one_verification) "verify_0123456789_abcdefghijkl" stored
        (record { own_id = refl; indexed = refl });
  leads =
      Each-one (Index.LeadsTo one_verification) execution_id "verify_0123456789_abcdefghijkl"
        (stored, refl, refl);
  issued =
      Each-one (λ id r. IsIssued env "verify_" 2 id) "verify_0123456789_abcdefghijkl" stored
        (0, omega arith, refl);
  room = omega arith;
}

stores-AreLinked : AreLinked (stores one_verification)
unfolding get Store.created
stores-AreLinked = record {
  executions = Each-one _ execution_id execution (approved, refl, refl, refl);
  verifications =
      Each-one _ "verify_0123456789_abcdefghijkl" stored (execution, refl, refl, refl, refl);
}

resolve-returns_example :
    (state : ExecutiveState) × (t : Stores) × (resolve env true Plans.id (stores one_verification)
      ≡ (ok state, t))
resolve-returns_example =
    resolve-returns env env Plans.hash true (stores one_verification) Plans.id approved
      (Plans.intact 9 approved approved-IsIntact) executions-IsSoundStore
      one_verification-IsSoundStore stores-AreLinked (Plans.there 9 approved)
