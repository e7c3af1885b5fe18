-- ===== src/Services.antt =====
-- The services that read several stores at once: a store each of reviews, executions and verifications.
pub mod Verify
pub mod Evidence
pub mod Resolve
pub mod Create
use cauco.Base.{String, List, Result, ok, raised, Method}
use cauco.Reviews.Store.{AgentPlanReviewStore, ReviewError}
use cauco.Execution.Models.{ExecutionError}
use cauco.Execution.Store.{ExecutionStore}
use cauco.Verification.Models.{VerificationError}
use cauco.Verification.Store.{VerificationStore}

pub record Stores : Type 0 where
  pub reviews : AgentPlanReviewStore
  pub executions : ExecutionStore
  pub verifications : VerificationStore

-- An error of one of the stores, or of the service itself.
pub data ServiceError : Type 0 where
  of_review : ReviewError → ServiceError
  of_execution : ExecutionError → ServiceError
  of_verification : VerificationError → ServiceError
  resolution_error value_error : String → ServiceError

abbrev pub ServiceMethod : Type 0 → Type 0
ServiceMethod A = Method ServiceError Stores A

module _ {A : Type 0} where
  abbrev pub mapped : {E : Type 0} → (E → ServiceError) → Result E A → Result ServiceError A
  mapped f (ok a) = ok a
  mapped f (raised e) = raised (f e)

  -- A method of one store, as a step of all three.
  abbrev pub on_reviews : Method ReviewError AgentPlanReviewStore A → ServiceMethod A
  on_reviews m s = let (r, t) = m s.reviews in (mapped of_review r, record s { reviews = t })

  abbrev pub on_executions : Method ExecutionError ExecutionStore A → ServiceMethod A
  on_executions m s =
      let (r, t) = m s.executions in (mapped of_execution r, record s { executions = t })

  abbrev pub on_verifications : Method VerificationError VerificationStore A → ServiceMethod A
  on_verifications m s =
      let (r, t) = m s.verifications in (mapped of_verification r, record s { verifications = t })
