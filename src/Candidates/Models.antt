-- ===== src/Candidates/Models.antt =====
-- core/src/cauco_core/memory_candidates/models.py. Times are microseconds and carry their time zone;
-- a confidence is a number of millionths.
use cauco.Base.{
  ℕ, String, Bool, true, false, not, ◌&&◌, ◌||◌, Option, none, some, ltb, leb, ◌==◌, string_eq,
  if◌then◌else◌,
}
use cauco.Base.Dict.{is_some}
use cauco.Base.Ids.{is_opaque_id, is_sha256}

pub data MemoryCandidateStatus : Type 0 where
  pending_review approved rejected expired : MemoryCandidateStatus

pub data MemoryCandidateDisposition : Type 0 where
  promote_to_memory retain_as_experience_only discard : MemoryCandidateDisposition

pub data MemoryCandidateTarget : Type 0 where
  learning project_note decision : MemoryCandidateTarget

-- `LessonCategory` of core/src/cauco_core/learning/models.py.
pub data LessonCategory : Type 0 where
  planning execution verification tool_reliability : LessonCategory

pub record MemoryCandidateLesson : Type 0 where
  pub category : LessonCategory
  pub observation : String
  pub lesson : String
  pub confidence : ℕ
  pub tool_id : Option String
  pub operation_id : Option String
  pub step_index : Option ℕ

pub record MemoryCandidateRecord : Type 0 where
  pub candidate_id : String
  pub experience_id : String
  pub verification_id : String
  pub execution_id : String
  pub review_id : String
  pub snapshot_digest : String
  pub lesson : MemoryCandidateLesson
  pub target : MemoryCandidateTarget
  pub status : MemoryCandidateStatus
  pub disposition : Option MemoryCandidateDisposition
  pub rationale : String
  pub created_at : ℕ
  pub expires_at : ℕ
  pub reviewed_at : Option ℕ
  pub review_note : Option String
  pub method : String

abbrev pub is_pending : MemoryCandidateStatus → Bool
is_pending MemoryCandidateStatus.pending_review = true
is_pending _ = false

abbrev pub is_approved : MemoryCandidateStatus → Bool
is_approved MemoryCandidateStatus.approved = true
is_approved _ = false

abbrev pub is_rejected : MemoryCandidateStatus → Bool
is_rejected MemoryCandidateStatus.rejected = true
is_rejected _ = false

abbrev pub is_expired : MemoryCandidateStatus → Bool
is_expired MemoryCandidateStatus.expired = true
is_expired _ = false

-- `disposition is PROMOTE_TO_MEMORY`, where there may be none.
abbrev pub promotes : Option MemoryCandidateDisposition → Bool
promotes (some MemoryCandidateDisposition.promote_to_memory) = true
promotes _ = false

-- `disposition in {RETAIN_AS_EXPERIENCE_ONLY, DISCARD}`
abbrev pub declines : Option MemoryCandidateDisposition → Bool
declines (some MemoryCandidateDisposition.retain_as_experience_only) = true
declines (some MemoryCandidateDisposition.discard) = true
declines _ = false

-- `value < 1`, where there may be no value.
abbrev pub is_zero : Option ℕ → Bool
is_zero none = false
is_zero (some n) = ltb n 1

-- `str.strip` is Python's: a parameter.
module _ (strip : String → String) where
  -- `MemoryCandidateLesson.__post_init__`: the message of the first check that fails.
  unfoldable pub lesson_rejection : MemoryCandidateLesson → Option String
  lesson_rejection lesson =
      if (strip lesson.observation == "") || (strip lesson.lesson == "")
      then some "Candidate lesson text is required."
      else if not (leb lesson.confidence 1000000)
      then some "Candidate confidence must be between 0 and 1."
      else if is_zero lesson.step_index
      then some "Candidate step index must be positive."
      else none

  -- The checks of `MemoryCandidateRecord.__post_init__` on the identifiers, texts and times.
  unfoldable pub origin_rejection : MemoryCandidateRecord → Option String
  origin_rejection r =
      if not (
        is_opaque_id "memory_candidate_" r.candidate_id
        && is_opaque_id "experience_" r.experience_id
        && is_opaque_id "verify_" r.verification_id
        && is_opaque_id "exec_" r.execution_id)
      then some "Memory candidate IDs must be opaque and URL-safe."
      else if not (is_sha256 r.snapshot_digest)
      then some "Candidate snapshot digest must be a SHA-256 digest."
      else if (strip r.rationale == "") || (strip r.method == "")
      then some "Candidate rationale and method are required."
      else if leb r.expires_at r.created_at
      then some "Candidate expiration must be after creation."
      else none

-- The checks of `__post_init__` on the review.
unfoldable pub review_rejection : MemoryCandidateRecord → Option String
review_rejection r =
    if is_pending r.status && (is_some r.disposition || is_some r.reviewed_at)
    then some "Pending candidates cannot be reviewed."
    else if is_approved r.status && not (promotes r.disposition)
    then some "Approved candidates must promote to memory."
    else if is_rejected r.status && not (declines r.disposition)
    then some "Rejected candidates require a rejection disposition."
    else if (is_approved r.status || is_rejected r.status) && not (is_some r.reviewed_at)
    then some "Reviewed candidates require reviewed_at."
    else if is_expired r.status
        && (is_some r.disposition || is_some r.reviewed_at || is_some r.review_note)
    then some "Expired candidates cannot contain review state."
    else none

-- The subclasses of `MemoryCandidateError`, and `ValueError`.
pub data MemoryCandidateError : Type 0 where
  not_found : String → MemoryCandidateError
  conflict : String → MemoryCandidateError
  validation : String → MemoryCandidateError
  capacity : String → MemoryCandidateError
  expired_error : String → MemoryCandidateError
  value_error : String → MemoryCandidateError
