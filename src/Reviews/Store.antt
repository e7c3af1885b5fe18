-- ===== src/Reviews/Store.antt =====
-- core/src/cauco_core/agents/review_store.py: `AgentPlanReviewStore` and what its methods
-- are built from. Each method is a
-- `Method` of the store; the lock makes it one step. `strip` is Python's `str.strip`; `digest` is
-- SHA-256 of the canonical JSON text.
pub mod Methods
pub mod Intact
pub mod Steps
pub mod Changes
pub mod Creating
pub mod Calls
pub mod Admitting
pub mod Deciding
use Prim.Native.String.{compare}
use Prim.Native.Char.{code}
use text.Mathlib.Text.{is_lt}
use cauco.Base.{
  ℕ, suc, ◌+◌, ◌*◌, String, str_append, Bool, true, false, not, ◌&&◌, ◌||◌, Option, none, some,
  List, [], ◌∷◌, ◌==◌, string_eq, ltb, leb, nat_beq, keep, length, Result, ok, raised, Method,
  return, raise, ask, need, update, ensure, ◌>>=◌, ◌>>◌, if◌then◌else◌,
}
use cauco.Base.Ids.{codes}
use cauco.Base.Dict.{Dict, get, put, remove, size, values, is_some}
use cauco.Base.Sort.{sorted}
use cauco.Base.Environment.{Environment}
use cauco.Tools.Value.{Value}
use cauco.Agents.Models.{AgentRouteResult, AgentContext, AgentPlan}
use cauco.Reviews.Models.{
  AgentPlanReviewStatus, AgentPlanReviewRecord, review_status_value, is_pending, review_rejection,
  copied, approval_warning_text,
}
use cauco.Reviews.Payload.{snapshot_payload}

-- The subclasses of `PlanReviewStoreError`, `ValueError` and `KeyError`.
pub data ReviewError : Type 0 where
  not_found conflict integrity capacity value_error : String → ReviewError
  key_error : ReviewError

pub record AgentPlanReviewStore : Type 0 where
  pub default_ttl_seconds : ℕ
  pub max_records : ℕ
  pub records : Dict String AgentPlanReviewRecord
  pub calls : ℕ  -- how often the environment was asked

abbrev pub StoreMethod : Type 0 → Type 0
StoreMethod A = Method ReviewError AgentPlanReviewStore A

abbrev pub is_ttl : ℕ → Bool
is_ttl ttl_seconds = leb 60 ttl_seconds && leb ttl_seconds 86400

-- `validate_ttl`
unfoldable pub validate_ttl : ℕ → StoreMethod (Unit {0})
validate_ttl ttl_seconds =
    ensure (is_ttl ttl_seconds)
      (value_error "Plan review TTL must be between 60 and 86400 seconds.")

-- `__init__`
unfoldable pub new : ℕ → ℕ → Result ReviewError AgentPlanReviewStore
new ttl max_records =
    if not (is_ttl ttl)
    then raised (value_error "Plan review TTL must be between 60 and 86400 seconds.")
    else if leb 1 max_records && leb max_records 10000
    then ok
        (record { default_ttl_seconds = ttl; max_records = max_records; records = []; calls = 0 })
    else raised (value_error "Plan review capacity must be between 1 and 10000.")

-- `_record`
unfoldable pub find : String → StoreMethod AgentPlanReviewRecord
find id s = need (get s.records id) (not_found "Plan review not found.") s

-- `__post_init__` raises `ValueError`, or leaves a record with copies of its parts.
unfoldable pub settled : Option String → AgentPlanReviewRecord → StoreMethod AgentPlanReviewRecord
settled none r = return (copied r)
settled (some message) r = raise (value_error message)

-- A call of the class, or `replace`.
unfoldable pub built : AgentPlanReviewRecord → StoreMethod AgentPlanReviewRecord
unfolding settled
built r = settled (review_rejection r) r

-- `self._records[record.review_id] = record`
unfoldable pub save : AgentPlanReviewRecord → StoreMethod (Unit {0})
save r = update (λ s. record s { records = put s.records r.review_id r })

-- `replace(record, …)`, and the record that it makes is stored.
unfoldable pub rewrite : AgentPlanReviewRecord → StoreMethod AgentPlanReviewRecord
unfolding built save
rewrite r = do new_record ← built r; save new_record; return new_record

-- `_snapshot`
unfoldable pub snapshot : AgentPlanReviewRecord → StoreMethod AgentPlanReviewRecord
unfolding built
snapshot r = built r

abbrev pub lapsed : ℕ → AgentPlanReviewRecord → AgentPlanReviewRecord
lapsed now r = record r {
  status = AgentPlanReviewStatus.expired;
  updated_at = now;
  expired_at = some now;
}

-- `_expire_if_needed`
unfoldable pub expire_if_needed : ℕ → AgentPlanReviewRecord → StoreMethod AgentPlanReviewRecord
unfolding rewrite
expire_if_needed now r =
    if is_pending r.status && leb r.expires_at now then rewrite (lapsed now r) else return r

-- The loops over a copy of the records.
unfoldable pub expire_all : ℕ → List AgentPlanReviewRecord → StoreMethod (Unit {0})
unfolding expire_if_needed
expire_all now [] = return tt
expire_all now (r ∷ rs) = expire_if_needed now r >> expire_all now rs

-- The sort key `(record.updated_at, record.created_at, record.review_id)`.
abbrev pub updated_before : AgentPlanReviewRecord → AgentPlanReviewRecord → Bool
updated_before a b =
    ltb a.updated_at b.updated_at
    || (nat_beq a.updated_at b.updated_at
        && (ltb a.created_at b.created_at
            || (nat_beq a.created_at b.created_at && is_lt (compare a.review_id b.review_id))))

-- `del self._records[review_id]`
unfoldable pub delete : String → StoreMethod (Unit {0})
delete id s =
    if is_some (get s.records id)
    then (ok tt, record s { records = remove s.records id })
    else (raised key_error, s)

-- The loop of `_make_room` over the decided records, oldest first.
unfoldable pub evict : List AgentPlanReviewRecord → StoreMethod (Unit {0})
unfolding delete
evict [] = raise (capacity "Plan review capacity is full of active pending records.")
evict (r ∷ rs) =
    let rest = evict rs in
    do
      delete r.review_id
      room ← ask (λ s. ltb (size s.records) s.max_records)
      if room then return tt else rest

-- `_make_room`, once the records past their time are expired.
unfoldable pub make_room_now : StoreMethod (Unit {0})
unfolding evict
make_room_now s =
    if ltb (size s.records) s.max_records
    then (ok tt, s)
    else evict (sorted updated_before (keep (λ r. not (is_pending r.status)) (values s.records))) s

-- `_make_room`
unfoldable pub make_room : ℕ → StoreMethod (Unit {0})
unfolding expire_all make_room_now
make_room now s = (expire_all now (values s.records) >> make_room_now) s

-- `replace("\r\n", "\n").replace("\r", "\n")`, where the flag says that the last character was `\r`.
unfoldable pub unix_lines : Bool → String → String
unix_lines after_return String.[] = ""
unix_lines after_return (String.◌∷◌ c text) =
    let plain = unix_lines false text in
    let returned = unix_lines true text in
    if nat_beq (code c) 13
    then str_append "\n" returned
    else if after_return && nat_beq (code c) 10
    then plain
    else String.◌∷◌ c plain

-- The arguments of `create`.
pub record ReviewFields : Type 0 where
  pub instruction : String
  pub routing : AgentRouteResult
  pub context : AgentContext
  pub plan : AgentPlan
  pub ttl_seconds : Option ℕ
