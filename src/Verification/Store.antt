-- ===== src/Verification/Store.antt =====
-- core/src/cauco_core/verification/store.py: `VerificationStore`. Each method is a `Method` of the store;
-- the lock makes it one step.
pub mod Index
pub mod Creating
use Prim.Native.String.{compare}
use text.Mathlib.Text.{is_lt}
use cauco.Base.{
  ℕ, suc, String, str_append, Bool, true, false, ◌&&◌, ◌||◌, Option, none, some, List, [], ◌∷◌,
  ◌==◌, string_eq, ltb, leb, nat_beq, keep, take, Result, ok, raised, Method, return, raise, ask,
  need, update, ◌>>=◌, ◌>>◌, if◌then◌else◌,
}
use cauco.Base.Dict.{Dict, get, put, remove, size, values, is_some}
use cauco.Base.Sort.{sorted, reversed}
use cauco.Base.Environment.{Environment}
use cauco.Verification.Models.{
  VerificationOutcome, VerificationRecommendation, StepVerificationResult, VerificationRecord,
  verification_rejection, VerificationError, not_found, conflict, capacity, value_error, key_error,
}

pub record VerificationStore : Type 0 where
  pub max_records : ℕ
  pub records : Dict String VerificationRecord
  pub by_execution : Dict String String
  pub calls : ℕ  -- how often the environment was asked

abbrev pub StoreMethod : Type 0 → Type 0
StoreMethod A = Method VerificationError VerificationStore A

-- `__init__`
unfoldable pub new : ℕ → Result VerificationError VerificationStore
new max_records =
    if leb 1 max_records && leb max_records 10000
    then ok (record { max_records = max_records; records = []; by_execution = []; calls = 0 })
    else raised (value_error "Verification capacity must be between 1 and 10000.")

-- The keyword arguments of `create`.
pub record VerificationFields : Type 0 where
  pub execution_id : String
  pub review_id : String
  pub snapshot_digest : String
  pub outcome : VerificationOutcome
  pub recommendation : VerificationRecommendation
  pub method : String
  pub step_results : List StepVerificationResult
  pub evidence_references : List String
  pub deviations : List String
  pub unresolved_conditions : List String
  pub rollback_available : Option Bool

-- The record that `create` builds.
unfoldable pub created : String → VerificationFields → ℕ → VerificationRecord
created id f now = record {
  verification_id = id;
  execution_id = f.execution_id;
  review_id = f.review_id;
  snapshot_digest = f.snapshot_digest;
  created_at = now;
  outcome = f.outcome;
  recommendation = f.recommendation;
  method = f.method;
  step_results = f.step_results;
  evidence_references = f.evidence_references;
  deviations = f.deviations;
  unresolved_conditions = f.unresolved_conditions;
  rollback_available = f.rollback_available;
}

-- The key `(item.created_at, item.verification_id)`.
abbrev pub created_before : VerificationRecord → VerificationRecord → Bool
created_before a b =
    ltb a.created_at b.created_at
    || (nat_beq a.created_at b.created_at && is_lt (compare a.verification_id b.verification_id))

-- `_make_room`, where the records come oldest first.
unfoldable pub drop_oldest : List VerificationRecord → StoreMethod (Unit {0})
drop_oldest [] s = (raised (capacity "Verification capacity is full."), s)
drop_oldest (r ∷ rs) s =
    if is_some (get s.records r.verification_id)
    then (
      ok tt,
      record s {
        records = remove s.records r.verification_id;
        by_execution = remove s.by_execution r.execution_id;
      },
    )
    else (raised key_error, s)

-- `_make_room`
unfoldable pub make_room : StoreMethod (Unit {0})
unfolding drop_oldest sorted
make_room s =
    if ltb (size s.records) s.max_records
    then (ok tt, s)
    else drop_oldest (sorted created_before (values s.records)) s

-- `__post_init__` raises `ValueError`; else the record is stored and found by its execution.
unfoldable pub stored : Option String → VerificationRecord → StoreMethod VerificationRecord
stored (some message) r s = (raised (value_error message), s)
stored none r s = (
  ok r,
  record s {
    records = put s.records r.verification_id r;
    by_execution = put s.by_execution r.execution_id r.verification_id;
  },
)

-- `get`
unfoldable pub get_verification : String → StoreMethod VerificationRecord
get_verification id s = need (get s.records id) (not_found "Verification record not found.") s

-- `for_execution`: the lookup in the records raises `KeyError`.
unfoldable pub for_execution : String → StoreMethod VerificationRecord
for_execution execution_id =
    (λ s. need (get s.by_execution execution_id) (not_found "Verification record not found.") s)
    >>= λ id s. need (get s.records id) key_error s

-- `outcome is outcome`
abbrev pub same_outcome : VerificationOutcome → VerificationOutcome → Bool
same_outcome VerificationOutcome.succeeded VerificationOutcome.succeeded = true
same_outcome VerificationOutcome.partial_success VerificationOutcome.partial_success = true
same_outcome VerificationOutcome.failed VerificationOutcome.failed = true
same_outcome VerificationOutcome.insufficient_evidence VerificationOutcome.insufficient_evidence =
    true
same_outcome _ _ = false

abbrev pub unless_none {ℓ} : {A : Type ℓ} → Option A → (A → Bool) → Bool
unless_none none test = true
unless_none (some a) test = test a

-- `list`
unfoldable pub list_verifications :
    Option String → Option VerificationOutcome → ℕ → StoreMethod (List VerificationRecord)
unfolding sorted
list_verifications review_id outcome limit =
    if leb 1 limit && leb limit 100
    then ask (λ s. take limit (
        sorted (reversed created_before) (
          keep
            (λ r.
              unless_none review_id (λ x. r.review_id == x)
              && unless_none outcome (same_outcome r.outcome))
            (values s.records))))
    else raise (value_error "Verification list limit must be between 1 and 100.")

module _ (env : Environment) where
  -- The token comes before the time.
  unfoldable pub new_record : VerificationFields → StoreMethod VerificationRecord
  unfolding created
  new_record f s = (
    ok (created (str_append "verify_" (env.token s.calls)) f (env.clock (suc s.calls))),
    record s { calls = suc (suc s.calls) },
  )

  -- `create`, where the execution has no record yet.
  unfoldable pub store_new : VerificationFields → StoreMethod VerificationRecord
  unfolding make_room new_record stored verification_rejection
  store_new f = make_room >> (new_record f >>= λ r. stored (verification_rejection r) r)

  -- `create`
  unfoldable pub create : VerificationFields → StoreMethod VerificationRecord
  unfolding store_new
  create f s =
      if is_some (get s.by_execution f.execution_id)
      then (raised (conflict "A verification record already exists for this execution."), s)
      else store_new f s
