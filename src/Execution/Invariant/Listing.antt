-- ===== src/Execution/Invariant/Listing.antt =====
-- What `list` of core/src/cauco_core/execution/store.py returns.
use cauco.Base.{
  ℕ, ◌≤◌, ◌≡◌, refl, String, ◌&&◌, true, Option, List, length, take, length-take-le, keep, Bool,
  some, ok, All, All-take, ◌==◌, string_eq, leb,
}
use cauco.Base.Dict.{get, values}
use cauco.Base.Sort.{sorted, reversed}
use cauco.Base.Sort.Laws.{All-sorted, All-keep}
use cauco.Execution.Models.{ExecutionStatus, AgentPlanExecutionRecord}
use cauco.Execution.Store.{
  ExecutionStore, list_executions, same_status, unless_none, created_before,
}
use cauco.Execution.Invariant.{IsSoundStore}
use cauco.Execution.Invariant.Room.{values_held}

-- The filters of `list`.
abbrev pub is_asked_for : Option ExecutionStatus → Option String → AgentPlanExecutionRecord → Bool
is_asked_for status review_id r =
    unless_none status (λ x. same_status r.status x)
    && unless_none review_id (λ x. r.review_id == x)

-- A record that the store holds under its own identifier, and that the filters let through.
abbrev pub IsListed :
    ExecutionStore → Option ExecutionStatus → Option String → AgentPlanExecutionRecord → Type 0
IsListed s status review_id r =
    (get s.records r.execution_id ≡ some r) × (is_asked_for status review_id r ≡ true)

-- In a sound store and with a limit from 1 to 100, `list` returns at most that many records, each of
-- them stored under its own identifier and passing both filters, and changes nothing.
pub list_executions-IsListed :
    (s : ExecutionStore) (status : Option ExecutionStatus) (review_id : Option String) (limit : ℕ)
    → IsSoundStore s
    → (leb 1 limit && leb limit 100) ≡ true
    → (rs : List AgentPlanExecutionRecord) × (list_executions status review_id limit s ≡ (ok rs, s))
      × (length rs ≤ limit)
      × All (IsListed s status review_id) rs
unfolding list_executions
list_executions-IsListed s status review_id limit h fits =
    let rs =
      sorted (reversed created_before) (keep (is_asked_for status review_id) (values s.records)) in
    (
      take limit rs,
      rw fits refl,
      length-take-le limit rs,
      All-take (IsListed s status review_id) limit rs (
          All-sorted (IsListed s status review_id) (reversed created_before) _ (
            All-keep (λ r. get s.records r.execution_id ≡ some r) (is_asked_for status review_id)
              (values s.records) (values_held s h))),
    )
