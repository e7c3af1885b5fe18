-- ===== src/Proposals.antt =====
-- core/src/cauco_core/memory_writing/store.py: `MemoryWriteProposalStore`. A proposal is an argument;
-- the store reads its identifier, its time and its source. Each method is a `Method` of the store.
pub mod Applied
pub mod Once
use Prim.Native.String.{compare}
use text.Mathlib.Text.{is_lt}
use cauco.Base.{
  ℕ, suc, ◌+◌, String, str_append, Bool, true, false, ◌&&◌, ◌||◌, Option, none, some, List, [], ◌∷◌,
  map, ◌==◌, string_eq, ltb, leb, nat_beq, keep, take, Result, ok, raised, Method, return, raise,
  ask, need, update, ensure, ◌>>=◌, ◌>>◌, if◌then◌else◌,
}
use cauco.Base.Dict.{Dict, get, put, values}
use cauco.Base.Sort.{sorted, reversed}
use cauco.Base.Environment.{Environment}
use cauco.Tools.Value.{Value}

pub data MemoryWriteProposalState : Type 0 where
  pending applied expired : MemoryWriteProposalState

unfoldable pub state_value : MemoryWriteProposalState → String
state_value MemoryWriteProposalState.pending = "pending"
state_value MemoryWriteProposalState.applied = "applied"
state_value MemoryWriteProposalState.expired = "expired"

-- The fields of `MemoryWriteProposal` that the store reads; the others are its content.
pub record MemoryWriteProposal : Type 0 where
  pub proposal_id : String
  pub created_at : ℕ
  pub source_type : Option String
  pub source_id : Option String
  pub content : Value

-- `_ProposalRecord`; a `StoredMemoryWriteProposal` is a copy of one.
pub record ProposalRecord : Type 0 where
  pub proposal : MemoryWriteProposal
  pub state : MemoryWriteProposalState
  pub created_at : ℕ
  pub expires_at : ℕ
  pub applied_at : Option ℕ

pub record MemoryWriteProposalStore : Type 0 where
  pub ttl : ℕ
  pub records : Dict String ProposalRecord
  pub calls : ℕ  -- how often the clock was asked

pub data ProposalError : Type 0 where
  not_found : String → ProposalError
  expired_error : String → ProposalError
  conflict : String → ProposalError
  value_error : String → ProposalError

abbrev pub StoreMethod : Type 0 → Type 0
StoreMethod A = Method ProposalError MemoryWriteProposalStore A

-- `__init__`
unfoldable pub new : ℕ → Result ProposalError MemoryWriteProposalStore
new ttl =
    if leb ttl 0
    then raised (value_error "Proposal TTL must be positive.")
    else ok (record { ttl = ttl; records = []; calls = 0 })

abbrev pub is_pending : MemoryWriteProposalState → Bool
is_pending MemoryWriteProposalState.pending = true
is_pending _ = false

abbrev pub is_expired : MemoryWriteProposalState → Bool
is_expired MemoryWriteProposalState.expired = true
is_expired _ = false

-- `state in {PENDING, APPLIED}`
abbrev pub is_current : MemoryWriteProposalState → Bool
is_current MemoryWriteProposalState.expired = false
is_current _ = true

-- `_record`
unfoldable pub find : String → StoreMethod ProposalRecord
find id s = need (get s.records id) (not_found "Memory write proposal not found.") s

-- The record that `_expire_if_needed` leaves at a time.
unfoldable pub aged : ℕ → ProposalRecord → ProposalRecord
aged now r =
    if is_pending r.state && leb r.expires_at now
    then record r { state = MemoryWriteProposalState.expired }
    else r

-- The checks of `get_pending` and `mark_applied`.
unfoldable pub need_pending : ProposalRecord → StoreMethod (Unit {0})
unfolding state_value
need_pending r =
    if is_expired r.state
    then raise (expired_error "The memory write proposal has expired.")
    else if is_pending r.state
    then return tt
    else raise (
        conflict (
          str_append "The memory write proposal is already "
            (str_append (state_value r.state) ".")))

abbrev pub or_else {ℓ} : {A : Type ℓ} → Option A → A → A
or_else none b = b
or_else (some a) b = a

-- The sort key `(r.applied_at or r.created_at, r.proposal.proposal_id)`.
abbrev pub earlier : ProposalRecord → ProposalRecord → Bool
earlier a b =
    let x = or_else a.applied_at a.created_at in
    let y = or_else b.applied_at b.created_at in
    ltb x y || (nat_beq x y && is_lt (compare a.proposal.proposal_id b.proposal.proposal_id))

abbrev pub same_state : MemoryWriteProposalState → MemoryWriteProposalState → Bool
same_state MemoryWriteProposalState.pending MemoryWriteProposalState.pending = true
same_state MemoryWriteProposalState.applied MemoryWriteProposalState.applied = true
same_state MemoryWriteProposalState.expired MemoryWriteProposalState.expired = true
same_state _ _ = false

-- `filter is None or test(filter)`
abbrev pub unless_none {ℓ} : {A : Type ℓ} → Option A → (A → Bool) → Bool
unless_none none test = true
unless_none (some a) test = test a

abbrev pub is_just : Option String → String → Bool
is_just none b = false
is_just (some a) b = a == b

module _ (env : Environment) where
  -- `_expire_if_needed` on the object stored under `id`: the clock is asked for a pending record only.
  unfoldable pub expire : String → ProposalRecord → StoreMethod ProposalRecord
  expire id r s =
      if is_pending r.state
      then (
        ok (aged (env.clock s.calls) r),
        record s { records = put s.records id (aged (env.clock s.calls) r); calls = suc s.calls },
      )
      else (ok r, s)

  -- `put`, from the point where nothing current is stored.
  unfoldable pub store_new : MemoryWriteProposal → StoreMethod ProposalRecord
  store_new p s =
      let r : ProposalRecord = record {
        proposal = p;
        state = MemoryWriteProposalState.pending;
        created_at = p.created_at;
        expires_at = p.created_at + s.ttl;
        applied_at = none;
      } in
      (ok r, record s { records = put s.records p.proposal_id r })

  -- `put`, where a record was found.
  unfoldable pub put_again : MemoryWriteProposal → ProposalRecord → StoreMethod ProposalRecord
  unfolding store_new
  put_again p r = if is_current r.state then return r else store_new p

  unfoldable pub put_over : MemoryWriteProposal → Option ProposalRecord → StoreMethod ProposalRecord
  unfolding expire put_again store_new
  put_over p none = store_new p
  put_over p (some existing) = expire p.proposal_id existing >>= put_again p

  -- `put`
  unfoldable pub put_proposal : MemoryWriteProposal → StoreMethod ProposalRecord
  unfolding put_over
  put_proposal p s = put_over p (get s.records p.proposal_id) s

  -- `get`
  unfoldable pub get_proposal : String → StoreMethod ProposalRecord
  unfolding find expire
  get_proposal id = find id >>= expire id

  -- `get_pending`
  unfoldable pub get_pending : String → StoreMethod ProposalRecord
  unfolding get_proposal need_pending
  get_pending id = do r ← get_proposal id; need_pending r; return r

  -- `mark_applied`, once the record is read.
  unfoldable pub apply_found : String → ℕ → ProposalRecord → StoreMethod ProposalRecord
  unfolding need_pending
  apply_found id applied_at r = do
    need_pending r
    let r' = record r { state = MemoryWriteProposalState.applied; applied_at = some applied_at }
    update (λ s. record s { records = put s.records id r' })
    return r'

  -- `mark_applied`
  unfoldable pub mark_applied : String → ℕ → StoreMethod ProposalRecord
  unfolding get_proposal apply_found
  mark_applied id applied_at = get_proposal id >>= apply_found id applied_at

  -- The loop of `list` that expires what is due.
  unfoldable pub expire_all : Dict String ProposalRecord → StoreMethod (Unit {0})
  unfolding expire
  expire_all [] = return tt
  expire_all ((id, r) ∷ rest) = expire id r >> expire_all rest

  -- `list`
  unfoldable pub list_proposals :
      Option MemoryWriteProposalState
      → Option String
      → Option String
      → ℕ
      → StoreMethod (List ProposalRecord)
  unfolding expire_all
  list_proposals state source_type source_id limit = do
    ensure (leb 1 limit && leb limit 100)
        (value_error "Proposal list limit must be between 1 and 100.")
    entries ← ask (λ s. s.records)
    expire_all entries
    ask (λ s. take limit (
        sorted (reversed earlier) (
          keep
            (λ r.
              unless_none state (λ x. same_state r.state x)
              && unless_none source_type (is_just r.proposal.source_type)
              && unless_none source_id (is_just r.proposal.source_id))
            (values s.records))))
