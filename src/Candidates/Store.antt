-- ===== src/Candidates/Store.antt =====
-- core/src/cauco_core/memory_candidates/store.py: `MemoryCandidateStore`. Each method is a `Method` of
-- the store; the lock makes it one step. `strip` is Python's `str.strip`.
use Prim.Native.String.{compare}
use text.Mathlib.Text.{is_lt}
use cauco.Base.{
  ℕ, suc, ◌+◌, String, str_append, Bool, true, false, not, ◌&&◌, ◌||◌, Option, none, some, List, [],
  ◌∷◌, ◌==◌, string_eq, ltb, leb, nat_beq, keep, take, length, Result, ok, raised, Method, return,
  raise, ask, need, update, ensure, ◌>>=◌, ◌>>◌, if◌then◌else◌,
}
use cauco.Base.Ids.{codes}
use cauco.Base.Dict.{Dict, get, put, remove, size, values}
use cauco.Base.Sort.{sorted, reversed}
use cauco.Base.Environment.{Environment}
use cauco.Candidates.Models.{
  MemoryCandidateStatus, MemoryCandidateDisposition, MemoryCandidateTarget, MemoryCandidateLesson,
  MemoryCandidateRecord, MemoryCandidateError, origin_rejection, review_rejection, is_pending,
  is_expired, promotes, not_found, conflict, capacity, expired_error, value_error,
}

pub record MemoryCandidateStore : Type 0 where
  pub ttl : ℕ
  pub max_records : ℕ
  pub records : Dict String MemoryCandidateRecord
  pub calls : ℕ  -- how often the environment was asked

abbrev pub StoreMethod : Type 0 → Type 0
StoreMethod A = Method MemoryCandidateError MemoryCandidateStore A

-- `__init__`
unfoldable pub new : ℕ → ℕ → Result MemoryCandidateError MemoryCandidateStore
new ttl max_records =
    if leb ttl 0
    then raised (value_error "Candidate TTL must be positive.")
    else if leb 1 max_records && leb max_records 10000
    then ok (record { ttl = ttl; max_records = max_records; records = []; calls = 0 })
    else raised (value_error "Candidate capacity must be between 1 and 10000.")

-- `_record`
unfoldable pub find : String → StoreMethod MemoryCandidateRecord
find id s = need (get s.records id) (not_found "Memory candidate not found.") s

-- The record of a candidate that is past its time.
abbrev pub lapsed : MemoryCandidateRecord → MemoryCandidateRecord
lapsed r = record r {
  status = MemoryCandidateStatus.expired;
  disposition = none;
  reviewed_at = none;
  review_note = none;
}

-- `status is status`
abbrev pub same_status : MemoryCandidateStatus → MemoryCandidateStatus → Bool
same_status MemoryCandidateStatus.pending_review MemoryCandidateStatus.pending_review = true
same_status MemoryCandidateStatus.approved MemoryCandidateStatus.approved = true
same_status MemoryCandidateStatus.rejected MemoryCandidateStatus.rejected = true
same_status MemoryCandidateStatus.expired MemoryCandidateStatus.expired = true
same_status _ _ = false

abbrev pub same_target : MemoryCandidateTarget → MemoryCandidateTarget → Bool
same_target MemoryCandidateTarget.learning MemoryCandidateTarget.learning = true
same_target MemoryCandidateTarget.project_note MemoryCandidateTarget.project_note = true
same_target MemoryCandidateTarget.decision MemoryCandidateTarget.decision = true
same_target _ _ = false

-- `filter is None or test(filter)`
abbrev pub unless_none {ℓ} : {A : Type ℓ} → Option A → (A → Bool) → Bool
unless_none none test = true
unless_none (some a) test = test a

-- The key `(r.created_at, r.candidate_id)`.
abbrev pub created_before : MemoryCandidateRecord → MemoryCandidateRecord → Bool
created_before a b =
    ltb a.created_at b.created_at
    || (nat_beq a.created_at b.created_at && is_lt (compare a.candidate_id b.candidate_id))

-- The record that a review leaves.
abbrev pub reviewed :
    MemoryCandidateStatus
    → MemoryCandidateDisposition
    → Option String
    → ℕ
    → MemoryCandidateRecord
    → MemoryCandidateRecord
reviewed status disposition remark now r = record r {
  status = status;
  disposition = some disposition;
  reviewed_at = some now;
  review_note = remark;
}

-- `__post_init__` raises `ValueError`.
unfoldable pub accepted : Option String → MemoryCandidateRecord → StoreMethod MemoryCandidateRecord
accepted none r = return r
accepted (some message) r = raise (value_error message)

-- `min(terminal)` leaves, where the terminal records come oldest first.
unfoldable pub drop_oldest : List MemoryCandidateRecord → StoreMethod (Unit {0})
drop_oldest [] = raise (capacity "Only active pending candidates remain.")
drop_oldest (r ∷ rs) = update (λ s. record s { records = remove s.records r.candidate_id })

-- The keyword arguments of `create`.
pub record CandidateFields : Type 0 where
  pub candidate_id : Option String
  pub experience_id : String
  pub verification_id : String
  pub execution_id : String
  pub review_id : String
  pub snapshot_digest : String
  pub lesson : MemoryCandidateLesson
  pub rationale : String
  pub method : String

-- The record that `create` builds.
unfoldable pub created : CandidateFields → String → ℕ → ℕ → MemoryCandidateRecord
created f id now ttl = record {
  candidate_id = id;
  experience_id = f.experience_id;
  verification_id = f.verification_id;
  execution_id = f.execution_id;
  review_id = f.review_id;
  snapshot_digest = f.snapshot_digest;
  lesson = f.lesson;
  target = MemoryCandidateTarget.learning;
  status = MemoryCandidateStatus.pending_review;
  disposition = none;
  rationale = f.rationale;
  created_at = now;
  expires_at = now + ttl;
  reviewed_at = none;
  review_note = none;
  method = f.method;
}

abbrev pub first_rejection : Option String → Option String → Option String
first_rejection none b = b
first_rejection (some a) b = some a

-- `candidate_id and candidate_id in self._records`: the record that is there.
unfoldable pub known : Option String → MemoryCandidateStore → Option MemoryCandidateRecord
known none s = none
known (some id) s = if id == "" then none else get s.records id

abbrev pub or_create :
    Option MemoryCandidateRecord
    → StoreMethod MemoryCandidateRecord
    → StoreMethod MemoryCandidateRecord
or_create (some r) m = return r
or_create none m = m

module _ (env : Environment) where
  -- `_expire`, without its flag.
  unfoldable pub expire : MemoryCandidateRecord → StoreMethod MemoryCandidateRecord
  expire r s =
      if is_pending r.status
      then if leb r.expires_at (env.clock s.calls)
        then (
          ok (lapsed r),
          record s { records = put s.records r.candidate_id (lapsed r); calls = suc s.calls },
        )
        else (ok r, record s { calls = suc s.calls })
      else (ok r, s)

  -- The loops over a copy of the records.
  unfoldable pub expire_all : List MemoryCandidateRecord → StoreMethod (Unit {0})
  unfolding expire
  expire_all [] = return tt
  expire_all (r ∷ rs) = expire r >> expire_all rs

  -- `_make_room`
  unfoldable pub make_room : StoreMethod (Unit {0})
  unfolding expire_all drop_oldest
  make_room s =
      if ltb (size s.records) s.max_records
      then (ok tt, s)
      else (expire_all (values s.records) >> λ t.
            drop_oldest
              (sorted created_before (keep (λ r. not (is_pending r.status)) (values t.records))) t)
          s

  -- `get`
  unfoldable pub get_candidate : String → StoreMethod MemoryCandidateRecord
  unfolding find expire
  get_candidate id = find id >>= expire

  -- `list`
  unfoldable pub list_candidates :
      Option String
      → Option String
      → Option MemoryCandidateStatus
      → Option MemoryCandidateTarget
      → ℕ
      → StoreMethod (List MemoryCandidateRecord)
  unfolding expire_all
  list_candidates experience_id review_id status target limit = do
    ensure (leb 1 limit && leb limit 100)
        (value_error "Candidate list limit must be between 1 and 100.")
    rs ← ask (λ s. values s.records)
    expire_all rs
    ask (λ s. take limit (
        sorted (reversed created_before) (
          keep
            (λ r.
              unless_none experience_id (λ x. r.experience_id == x)
              && unless_none review_id (λ x. r.review_id == x)
              && unless_none status (same_status r.status)
              && unless_none target (same_target r.target))
            (values s.records))))

  -- `for_experience`
  unfoldable pub for_experience : String → StoreMethod (List MemoryCandidateRecord)
  unfolding list_candidates
  for_experience id = list_candidates (some id) none none none 100

  -- `candidate_id or f"memory_candidate_{secrets.token_urlsafe(18)}"`
  unfoldable pub id_or_token : Option String → StoreMethod String
  id_or_token none s =
      (ok (str_append "memory_candidate_" (env.token s.calls)), record s { calls = suc s.calls })
  id_or_token (some id) s =
      if id == ""
      then (
        ok (str_append "memory_candidate_" (env.token s.calls)),
        record s { calls = suc s.calls },
      )
      else (ok id, s)

  module _ (strip : String → String) where
    -- `create`, once there is room, at a time.
    unfoldable pub store_new : CandidateFields → ℕ → StoreMethod MemoryCandidateRecord
    unfolding id_or_token created accepted
    store_new f now = do
      ttl ← ask (λ s. s.ttl)
      id ← id_or_token f.candidate_id
      let r = created f id now ttl
      accepted (first_rejection (origin_rejection strip r) (review_rejection r)) r
      update (λ s. record s { records = put s.records id r })
      return r

    -- `create`, where no candidate is stored under the identifier given.
    unfoldable pub create_new : CandidateFields → StoreMethod MemoryCandidateRecord
    unfolding make_room store_new
    create_new f = do
      make_room
      now ← (λ s. (ok (env.clock s.calls), record s { calls = suc s.calls }))
      store_new f now

    -- `create`
    unfoldable pub create : CandidateFields → StoreMethod MemoryCandidateRecord
    unfolding known create_new
    create f s = or_create (known f.candidate_id s) (create_new f) s

    -- `note.strip() if note else None`, where the empty text is none.
    unfoldable pub trimmed : Option String → Option String
    trimmed none = none
    trimmed (some remark) = if strip remark == "" then none else some (strip remark)

    -- `note and len(note) > 2000`
    unfoldable pub is_too_long : Option String → Bool
    unfolding codes
    is_too_long none = false
    is_too_long (some remark) = ltb 2000 (length (codes remark))

    -- `_review`, once the candidate is read.
    unfoldable pub review_found :
        String
        → MemoryCandidateStatus
        → MemoryCandidateDisposition
        → Option String
        → MemoryCandidateRecord
        → StoreMethod MemoryCandidateRecord
    unfolding trimmed is_too_long
    review_found id status disposition remark r s =
        if is_expired r.status
        then (raised (expired_error "The memory candidate has expired."), s)
        else if not (is_pending r.status)
        then (raised (conflict "The memory candidate was already reviewed."), s)
        else if is_too_long (trimmed remark)
        then (raised (value_error "Review note must not exceed 2000 characters."), s)
        else let r' = reviewed status disposition (trimmed remark) (env.clock s.calls) r in
          (ok r', record s { records = put s.records id r'; calls = suc s.calls })

    -- `_review`
    unfoldable pub review :
        String
        → MemoryCandidateStatus
        → MemoryCandidateDisposition
        → Option String
        → StoreMethod MemoryCandidateRecord
    unfolding get_candidate review_found
    review id status disposition remark =
        get_candidate id >>= review_found id status disposition remark

    -- `approve`
    unfoldable pub approve : String → Option String → StoreMethod MemoryCandidateRecord
    unfolding review
    approve id remark =
        review id MemoryCandidateStatus.approved MemoryCandidateDisposition.promote_to_memory remark

    -- `reject`
    unfoldable pub reject :
        String → MemoryCandidateDisposition → Option String → StoreMethod MemoryCandidateRecord
    unfolding review
    reject id disposition remark =
        if promotes (some disposition)
        then raise (value_error "Rejected candidates cannot promote to memory.")
        else review id MemoryCandidateStatus.rejected disposition remark
