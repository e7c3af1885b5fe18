-- ===== src/Reviews/Store/Methods.antt =====
-- core/src/cauco_core/agents/review_store.py: the public methods of `AgentPlanReviewStore`.
use Prim.Native.String.{compare}
use text.Mathlib.Text.{is_lt}
use cauco.Base.{
  ℕ, zero, suc, ◌+◌, ◌*◌, String, str_append, Bool, true, false, ◌&&◌, ◌||◌, Option, none, some,
  List, [], ◌∷◌, ◌==◌, string_eq, ltb, leb, nat_beq, keep, take, length, ok, return, raise, ask,
  ensure, ◌>>=◌, ◌>>◌, if◌then◌else◌,
}
use cauco.Base.Ids.{codes}
use cauco.Base.Dict.{get, values, is_some}
use cauco.Base.Sort.{sorted, reversed}
use cauco.Base.Environment.{Environment}
use cauco.Tools.Value.{Value}
use cauco.Reviews.Models.{
  AgentPlanReviewStatus, AgentPlanReviewRecord, review_status_value, is_pending, is_approved,
  is_rejected, is_cancelled, is_expired, approval_warning_text,
}
use cauco.Reviews.Payload.{snapshot_payload, json_number}
use cauco.Reviews.Store.{
  AgentPlanReviewStore, StoreMethod, ReviewFields, validate_ttl, find, built, save, rewrite,
  snapshot, expire_if_needed, expire_all, make_room, unix_lines, capacity, conflict, integrity,
  value_error,
}

-- `status is status`
abbrev pub same_status : AgentPlanReviewStatus → AgentPlanReviewStatus → Bool
same_status AgentPlanReviewStatus.pending_review other = is_pending other
same_status AgentPlanReviewStatus.approved other = is_approved other
same_status AgentPlanReviewStatus.rejected other = is_rejected other
same_status AgentPlanReviewStatus.cancelled other = is_cancelled other
same_status AgentPlanReviewStatus.expired other = is_expired other

-- `filter is None or test(filter)`
abbrev pub unless_none {ℓ} : {A : Type ℓ} → Option A → (A → Bool) → Bool
unless_none none test = true
unless_none (some a) test = test a

abbrev pub or_else {ℓ} : {A : Type ℓ} → Option A → A → A
or_else none b = b
or_else (some a) b = a

-- The key `(record.created_at, record.review_id)`.
abbrev pub created_before : AgentPlanReviewRecord → AgentPlanReviewRecord → Bool
created_before a b =
    ltb a.created_at b.created_at
    || (nat_beq a.created_at b.created_at && is_lt (compare a.review_id b.review_id))

-- `tuple(self._snapshot(record) for record in …)`
unfoldable pub snapshots : List AgentPlanReviewRecord → StoreMethod (List AgentPlanReviewRecord)
unfolding snapshot
snapshots [] = return []
snapshots (r ∷ rs) = snapshot r >>= λ copy. snapshots rs >>= λ copies. return (copy ∷ copies)

-- The reviews that `list` returns.
unfoldable pub listed :
    Option AgentPlanReviewStatus
    → Option String
    → ℕ
    → AgentPlanReviewStore
    → List AgentPlanReviewRecord
listed status agent_id limit s = take limit (
    sorted (reversed created_before) (
      keep
        (λ r.
          unless_none status (same_status r.status)
          && unless_none agent_id (λ x. r.selected_agent_id == x))
        (values s.records)))

-- `list`, at a time.
unfoldable pub list_at :
    Option AgentPlanReviewStatus → Option String → ℕ → ℕ → StoreMethod (List AgentPlanReviewRecord)
unfolding expire_all snapshots listed
list_at status agent_id limit now s =
    (expire_all now (values s.records) >> λ t. snapshots (listed status agent_id limit t) t) s

-- The record that `create` builds.
unfoldable pub created : String → ReviewFields → String → ℕ → ℕ → AgentPlanReviewRecord
created id f snapshot_digest now ttl = record {
  review_id = id;
  status = AgentPlanReviewStatus.pending_review;
  created_at = now;
  expires_at = now + ttl * 1000000;
  updated_at = now;
  instruction = f.instruction;
  selected_agent_id = f.plan.agent_id;
  routing = f.routing;
  context = f.context;
  plan = f.plan;
  snapshot_digest = snapshot_digest;
  execution_authorized = false;
  execution_performed = false;
  approved_at = none;
  rejected_at = none;
  cancelled_at = none;
  expired_at = none;
  reviewer_note = none;
  rejection_reason = none;
  cancellation_reason = none;
  approval_warning = none;
  metadata = ("contract_version", Value.text "phase_5c") ∷ ("ttl_seconds", json_number ttl) ∷ [];
}

-- A decision on a review: the target of `_transition`, with the reason that goes with it.
pub data Decision : Type 0 where
  approval : Decision
  rejection : (reason : String) → Decision
  cancellation : (reason : Option String) → Decision

-- The record that `_transition` makes of a pending one.
unfoldable pub decided :
    Decision → Option String → ℕ → AgentPlanReviewRecord → AgentPlanReviewRecord
decided approval remark now r = record r {
  status = AgentPlanReviewStatus.approved;
  updated_at = now;
  reviewer_note = remark;
  approved_at = some now;
  execution_authorized = true;
  approval_warning = some approval_warning_text;
}
decided (rejection reason) remark now r = record r {
  status = AgentPlanReviewStatus.rejected;
  updated_at = now;
  reviewer_note = remark;
  rejected_at = some now;
  rejection_reason = some reason;
}
decided (cancellation reason) remark now r = record r {
  status = AgentPlanReviewStatus.cancelled;
  updated_at = now;
  reviewer_note = remark;
  cancelled_at = some now;
  cancellation_reason = reason;
}

module _ (digest : Value → String) where
  -- `snapshot_digest`, of a record
  unfoldable pub digest_of : AgentPlanReviewRecord → String
  unfolding snapshot_payload
  digest_of r =
      digest (snapshot_payload r.instruction r.selected_agent_id r.routing r.context r.plan)

  -- `verify_integrity`
  unfoldable pub verify_integrity : AgentPlanReviewRecord → StoreMethod (Unit {0})
  unfolding digest_of
  verify_integrity r =
      ensure (r.snapshot_digest == digest_of r)
        (integrity "The stored plan review snapshot failed verification.")

  -- `_transition`, once the review is read and expired if it is past its time.
  unfoldable pub transition_found :
      Decision → Option String → ℕ → AgentPlanReviewRecord → StoreMethod AgentPlanReviewRecord
  unfolding verify_integrity rewrite snapshot decided
  transition_found decision remark now r = do
    ensure (is_pending r.status) (
        conflict
          (str_append "Plan review is already " (str_append (review_status_value r.status) ".")))
    verify_integrity r
    updated ← rewrite (decided decision remark now r)
    snapshot updated

  -- `_transition`, at a time.
  unfoldable pub transition_at :
      String → Decision → Option String → ℕ → StoreMethod AgentPlanReviewRecord
  unfolding find expire_if_needed transition_found
  transition_at id decision remark now =
      find id >>= λ r. expire_if_needed now r >>= transition_found decision remark now

module _ (strip : String → String) where
  -- `normalize_review_text`
  unfoldable pub normalize_review_text : Option String → String → ℕ → StoreMethod (Option String)
  unfolding codes unix_lines
  normalize_review_text none message maximum = return none
  normalize_review_text (some value) message maximum =
      let normalized = strip (unix_lines false value) in
      if normalized == ""
      then return none
      else if ltb maximum (length (codes normalized))
      then raise (value_error message)
      else return (some normalized)

module _ (env : Environment) where
  -- `self.clock()`
  unfoldable pub clock : StoreMethod ℕ
  clock s = (ok (env.clock s.calls), record s { calls = suc s.calls })

  -- `self.id_factory()`, the default one.
  unfoldable pub make_id : StoreMethod String
  make_id s = (ok (str_append "planrev_" (env.token s.calls)), record s { calls = suc s.calls })

  -- The loop of `_new_review_id`, for a number of tries.
  unfoldable pub try_ids : ℕ → StoreMethod String
  unfolding make_id
  try_ids zero = raise (capacity "A unique plan review identifier could not be created.")
  try_ids (suc tries) =
      let rest = try_ids tries in
      make_id >>= λ id s. if is_some (get s.records id) then rest s else (ok id, s)

  -- `_new_review_id`
  unfoldable pub new_review_id : StoreMethod String
  unfolding try_ids
  new_review_id = try_ids 10

  -- `get`
  unfoldable pub get_review : String → StoreMethod AgentPlanReviewRecord
  unfolding find clock expire_if_needed snapshot
  get_review id = find id >>= λ r. clock >>= λ now. expire_if_needed now r >>= snapshot

  -- `list`
  unfoldable pub list_reviews :
      Option AgentPlanReviewStatus → Option String → ℕ → StoreMethod (List AgentPlanReviewRecord)
  unfolding clock list_at
  list_reviews status agent_id limit = do
    ensure (leb 1 limit && leb limit 100)
        (value_error "Plan review list limit must be between 1 and 100.")
    now ← clock
    list_at status agent_id limit now

  module _ (digest : Value → String) where
    -- `create`, with a time to live, at a time.
    unfoldable pub store_new : ReviewFields → ℕ → ℕ → StoreMethod AgentPlanReviewRecord
    unfolding new_review_id built save snapshot created snapshot_payload
    store_new f ttl now = do
      id ← new_review_id
      let hash = digest (snapshot_payload f.instruction f.plan.agent_id f.routing f.context f.plan)
      r ← built (created id f hash now ttl)
      save r
      snapshot r

    -- `create`, at a time.
    unfoldable pub create_at : ReviewFields → ℕ → ℕ → StoreMethod AgentPlanReviewRecord
    unfolding make_room store_new
    create_at f ttl now = make_room now >> store_new f ttl now

    -- `create`
    unfoldable pub create : ReviewFields → StoreMethod AgentPlanReviewRecord
    unfolding validate_ttl clock create_at
    create f = do
      default_ttl ← ask (λ s. s.default_ttl_seconds)
      validate_ttl (or_else f.ttl_seconds default_ttl)
      now ← clock
      create_at f (or_else f.ttl_seconds default_ttl) now

    module _ (strip : String → String) where
      -- `_transition`: the lookup comes after the call of the clock.
      unfoldable pub transition :
          String → Decision → Option String → StoreMethod AgentPlanReviewRecord
      unfolding normalize_review_text clock transition_at
      transition id decision remark =
          normalize_review_text strip remark "Reviewer note cannot exceed 2000 characters." 2000
          >>= λ text. clock >>= transition_at digest id decision text

      -- `approve`
      unfoldable pub approve : String → Option String → StoreMethod AgentPlanReviewRecord
      unfolding transition
      approve id remark = transition id approval remark

      -- `reject`, with a reason that is not empty once normalised.
      unfoldable pub reject_for :
          String → Option String → Option String → StoreMethod AgentPlanReviewRecord
      unfolding transition
      reject_for id none remark = raise (value_error "Rejection reason is required.")
      reject_for id (some reason) remark = transition id (rejection reason) remark

      -- `reject`
      unfoldable pub reject : String → String → Option String → StoreMethod AgentPlanReviewRecord
      unfolding reject_for
      reject id reason remark =
          normalize_review_text strip (some reason)
            "Rejection reason cannot exceed 1000 characters." 1000
          >>= λ text. reject_for id text remark

      -- `cancel`
      unfoldable pub cancel :
          String → Option String → Option String → StoreMethod AgentPlanReviewRecord
      unfolding transition
      cancel id reason remark =
          normalize_review_text strip reason "Cancellation reason cannot exceed 1000 characters."
            1000
          >>= λ text. transition id (cancellation text) remark
