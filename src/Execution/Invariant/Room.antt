-- ===== src/Execution/Invariant/Room.antt =====
-- `_make_room` of core/src/cauco_core/execution/store.py: in a sound store it drops at most one
-- record, the terminal one that ended first.
pub mod Oldest
use text.Mathlib.TextEquality.{eq_iff}
use cauco.Base.{
  ◌≡◌, refl, ◌∙◌, ap, String, true, false, some, List, [], ◌∷◌, arith, inl, inr, ◌<◌, ltb, ◌==◌,
  string_eq, Bool-cases, Result, ok, raised, All, keep, if◌then◌else◌,
}
use cauco.Base.Dict.{get, remove, size, values}
use cauco.Base.Dict.Laws.{
  get_of_remove, get-remove_ne, size-remove_old, size-remove-le, Unique-remove, Each-values,
}
use cauco.Base.Sort.{sorted}
use cauco.Base.Sort.Laws.{All-sorted, All-keep}
use cauco.Execution.Models.{AgentPlanExecutionRecord, ExecutionError, capacity, is_terminal}
use cauco.Execution.Store.{ExecutionStore, evict, make_room, ended_before}
use cauco.Execution.Invariant.{IsSoundStore}

-- The records that may be dropped, in the order in which they ended.
unfoldable pub droppable : ExecutionStore → List AgentPlanExecutionRecord
droppable s = sorted ended_before (keep (λ r. is_terminal r.status) (values s.records))

-- The store without one record.
abbrev pub without : ExecutionStore → AgentPlanExecutionRecord → ExecutionStore
without s r = record s {
  records = remove s.records r.execution_id;
  by_review = remove s.by_review r.review_id;
}

-- The specification of `_make_room`.
abbrev pub room_made :
    ExecutionStore
    → List AgentPlanExecutionRecord
    → Result ExecutionError (Unit {0}) × ExecutionStore
room_made s [] = (raised (capacity "Execution capacity is full of active records."), s)
room_made s (r ∷ _) = (ok tt, without s r)

abbrev pub IsDroppable : ExecutionStore → AgentPlanExecutionRecord → Type 0
IsDroppable s r = (get s.records r.execution_id ≡ some r) × (is_terminal r.status ≡ true)

module _ (s : ExecutionStore) (h : IsSoundStore s) where
  pub values_held : All (λ r. get s.records r.execution_id ≡ some r) (values s.records)
  values_held =
      Each-values (λ r. get s.records r.execution_id ≡ some r) s.records h.unique
        λ id r e. ap (get s.records) (h.held id r e).own_id ∙ e

  pub droppable-IsDroppable : All (IsDroppable s) (droppable s)
  unfolding droppable
  droppable-IsDroppable = All-sorted (IsDroppable s) ended_before _ (
      All-keep (λ r. get s.records r.execution_id ≡ some r) (λ r. is_terminal r.status)
        (values s.records) values_held)

  -- One eviction is enough.
  evict_one :
      (rs : List AgentPlanExecutionRecord)
      → All (IsDroppable s) rs
      → ltb (size s.records) s.max_records ≡ false
      → evict rs s ≡ room_made s rs
  unfolding evict
  evict_one [] a full = refl
  evict_one (r ∷ rs) a full =
      let smaller : size (remove s.records r.execution_id) < size s.records =
        size-remove_old s.records r.execution_id r a.0.0 in
      let room = h.room in
      let fits : ltb (size (remove s.records r.execution_id)) s.max_records ≡ true = ground arith in
      rw (a.0.0, fits) refl

  -- What `_make_room` does, by its own list of the terminal records.
  pub make_room_lem :
      make_room s
      ≡ (if ltb (size s.records) s.max_records then (ok tt, s) else room_made s (droppable s))
  unfolding make_room droppable
  make_room_lem = elim (Bool-cases (ltb (size s.records) s.max_records)) [
    | inl room ↦ rw room refl
    | inr full ↦ rw full (evict_one (droppable s) droppable-IsDroppable full)
  ]

module _ (s : ExecutionStore) (h : IsSoundStore s) (id : String) (r : AgentPlanExecutionRecord)
    (found : get s.records id ≡ some r) where
  -- Two records of one review are one record.
  same_review :
      (j : String) (x : AgentPlanExecutionRecord)
      → get s.records j ≡ some x
      → ((r.execution_id == j) ≡ false)
      → (r.review_id == x.review_id) ≡ false
  same_review j x e other = elim (Bool-cases (r.review_id == x.review_id)) [
    | inl same ↦
        let a = h.held id r found in
        let b = h.held j x e in
        let review : r.review_id ≡ x.review_id = (eq_iff r.review_id x.review_id).0 same in
        let there : get s.by_review r.review_id ≡ some id = a.by_review in
        let here : get s.by_review x.review_id ≡ some j = b.by_review in
        let ids : r.execution_id ≡ j = a.own_id ∙ cc in
        absurd (cc ((eq_iff r.execution_id j).1 ids, other))
    | inr differ ↦ differ
  ]

  same_record :
      (v j : String) (x : AgentPlanExecutionRecord)
      → get s.records j ≡ some x
      → x.review_id ≡ v
      → ((r.review_id == v) ≡ false)
      → (r.execution_id == j) ≡ false
  same_record v j x e names other = elim (Bool-cases (r.execution_id == j)) [
    | inl same ↦
        let own : r.execution_id ≡ id = (h.held id r found).own_id in
        let ids : r.execution_id ≡ j = (eq_iff r.execution_id j).0 same in
        let one : r ≡ x = cc in
        let review : r.review_id ≡ v = ap (λ y. y.review_id) one ∙ names in
        absurd (cc ((eq_iff r.review_id v).1 review, other))
    | inr differ ↦ differ
  ]

  pub without-IsSoundStore : IsSoundStore (without s r)
  without-IsSoundStore = record {
    unique = Unique-remove s.records r.execution_id h.unique;
    held = λ j x q.
        let (other, e) = get_of_remove s.records r.execution_id j x q in
        let old = h.held j x e in
        record {
          own_id = old.own_id;
          sound = old.sound;
          by_review =
              get-remove_ne s.by_review r.review_id x.review_id j (same_review j x e other)
                old.by_review;
        };
    reviews = λ v j q.
        let (other, e) = get_of_remove s.by_review r.review_id v j q in
        let (x, at_j, names) = h.reviews v j e in
        (
          x,
          get-remove_ne s.records r.execution_id j x (same_record v j x at_j names other) at_j,
          names,
        );
    room = omega (arith, h.room, size-remove-le s.records r.execution_id);
  }
