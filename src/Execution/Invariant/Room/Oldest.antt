-- ===== src/Execution/Invariant/Room/Oldest.antt =====
-- Which record `_make_room` of core/src/cauco_core/execution/store.py drops.
use cauco.Base.{
  string_eq, ℕ, ◌≤◌, ◌≡◌, refl, ◌∙◌, String, true, false, none, some, List, [], ◌∷◌, ◌⊎◌, arith,
  inl, inr, ltb, Bool-cases, ok, raised, All,
}
use cauco.Base.Dict.{get, size, values}
use cauco.Base.Sort.Least.{IsAscending, All-of-sorted, All-of-keep, values-Each, sorted-IsAscending}
use cauco.Execution.Models.{AgentPlanExecutionRecord, capacity, is_terminal}
use cauco.Execution.Store.{ExecutionStore, make_room, ended_before}
use cauco.Execution.Invariant.{IsSoundStore}
use cauco.Execution.Invariant.Room.{
  droppable, without, room_made, IsDroppable, droppable-IsDroppable, make_room_lem,
}

-- When a record ended, or was created if it has no end.
abbrev pub ended_at : AgentPlanExecutionRecord → ℕ
ended_at r = elim r.completed_at [ none ↦ r.created_at | some time ↦ time ]

-- The store has no terminal record.
abbrev pub AllOpen : ExecutionStore → Type 0
AllOpen s =
    (id : String) (r : AgentPlanExecutionRecord)
    → get s.records id ≡ some r
    → is_terminal r.status ≡ false

-- No terminal record of the store ended before this one.
abbrev pub EndedFirst : ExecutionStore → AgentPlanExecutionRecord → Type 0
EndedFirst s r =
    (id : String) (x : AgentPlanExecutionRecord)
    → get s.records id ≡ some x
    → is_terminal x.status ≡ true
    → ended_at r ≤ ended_at x

below : (a b : AgentPlanExecutionRecord) → ended_before a b ≡ true → ended_at a ≤ ended_at b
below a b h = ground arith

above : (a b : AgentPlanExecutionRecord) → ended_before a b ≡ false → ended_at b ≤ ended_at a
above a b h = ground arith

module _ (s : ExecutionStore) where
  -- What holds of the droppable records holds of every terminal one that is stored.
  droppable-terminal :
      (P : AgentPlanExecutionRecord → Type 0)
      → All P (droppable s)
      → (id : String) (x : AgentPlanExecutionRecord) → get s.records id ≡ some x
      → is_terminal x.status ≡ true
      → P x
  unfolding droppable
  droppable-terminal P h =
      values-Each (λ x. is_terminal x.status ≡ true → P x) s.records
        (All-of-keep P (λ r. is_terminal r.status) (values s.records)
          (All-of-sorted P ended_before _ h))

  full_cases :
      (rs : List AgentPlanExecutionRecord)
      → All (IsDroppable s) rs
      → ((P : AgentPlanExecutionRecord → Type 0)
          → All P rs
          → (id : String) (x : AgentPlanExecutionRecord) → get s.records id ≡ some x
          → is_terminal x.status ≡ true
          → P x)
      → IsAscending ended_before ended_at below above rs
      → make_room s ≡ room_made s rs
      → (AllOpen s
          × (make_room s ≡ (raised (capacity "Execution capacity is full of active records."), s)))
        ⊎ ((r : AgentPlanExecutionRecord) × IsDroppable s r
            × EndedFirst s r
            × (make_room s ≡ (ok tt, without s r)))
  full_cases [] held every ascending e = inl (
    λ id x found. elim (Bool-cases (is_terminal x.status)) [
      | inl over ↦ every (λ y. is_terminal y.status ≡ false) tt id x found over
      | inr still ↦ still
    ],
    e,
  )
  full_cases (r ∷ rs) held every ascending e =
      inr (r, held.0, every (λ x. ended_at r ≤ ended_at x) (omega arith, ascending.0), e)

  -- In a sound store `_make_room` changes nothing if there is room; if there is none and no record is
  -- terminal, it raises and changes nothing; and else it drops one terminal record, than which no
  -- terminal record ended earlier, from both dictionaries. A record without an end counts by its
  -- creation.
  pub make_room-drops_oldest :
      IsSoundStore s
      → ((ltb (size s.records) s.max_records ≡ true) × (make_room s ≡ (ok tt, s)))
        ⊎ ((ltb (size s.records) s.max_records ≡ false)
            × ((AllOpen s
                  × (make_room s
                      ≡ (raised (capacity "Execution capacity is full of active records."), s)))
                ⊎ ((r : AgentPlanExecutionRecord) × IsDroppable s r
                    × EndedFirst s r
                    × (make_room s ≡ (ok tt, without s r)))))
  unfolding droppable
  make_room-drops_oldest h = elim (Bool-cases (ltb (size s.records) s.max_records)) [
    | inl room ↦ inl (room, make_room_lem s h ∙ rw room refl)
    | inr full ↦ inr (
      full,
      full_cases (droppable s) (droppable-IsDroppable s h) droppable-terminal
          (sorted-IsAscending ended_before ended_at below above _)
          (make_room_lem s h ∙ rw full refl),
    )
  ]
