-- ===== src/Execution/Invariant.antt =====
-- What holds of an `ExecutionStore` between two methods.
pub mod Room
pub mod Create
pub mod Listing
use mathlib.Core.Path.{subst}
use text.Mathlib.TextEquality.{eq_iff}
use cauco.Base.{
  ℕ, ◌≤◌, ◌≡◌, refl, sym, ◌∙◌, ap, String, str_append, Bool, true, false, Option, none, some, arith,
  ◌⊎◌, inl, inr, Equality, ◌==◌, string_eq, Bool-cases, if◌then◌else◌,
}
use cauco.Base.Dict.{get, put, remove, size}
use cauco.Base.Dict.Laws.{
  get-put, get-remove, size-put_old, size-remove-le, Each, Each-put, Each-remove, Unique,
  Unique-put, Unique-remove,
}
use cauco.Execution.Models.{AgentPlanExecutionRecord}
use cauco.Execution.Store.{ExecutionStore}
use cauco.Execution.Lifecycle.{Evolves}
use cauco.Execution.Lifecycle.Touches.{Touches, Frame}
use cauco.Execution.Lifecycle.Sound.{IsSound, Evolves-IsSound}
use cauco.Execution.Lifecycle.Progress.{Progress, Evolves-Progress}

-- A record as the store holds it: under its own identifier, sound, and found by its review.
pub record IsHeld (s : ExecutionStore) (id : String) (r : AgentPlanExecutionRecord) : Type 0 where
  pub own_id : r.execution_id ≡ id
  pub sound : IsSound r
  pub by_review : get s.by_review r.review_id ≡ some id

-- The execution that a review leads to.
abbrev pub LeadsTo : ExecutionStore → String → String → Type 0
LeadsTo s review_id id =
    (r : AgentPlanExecutionRecord) × (get s.records id ≡ some r) × (r.review_id ≡ review_id)

pub record IsSoundStore (s : ExecutionStore) : Type 0 where
  pub unique : Unique s.records
  pub held : Each (IsHeld s) s.records
  pub reviews : Each (LeadsTo s) s.by_review
  pub room : size s.records ≤ s.max_records

-- The same record under another index of the same reviews.
IsHeld-frame :
    {s t : ExecutionStore} (id : String) (r : AgentPlanExecutionRecord)
    → t.by_review ≡ s.by_review
    → IsHeld s id r
    → IsHeld t id r
IsHeld-frame id r e h = record { own_id = h.own_id; sound = h.sound; by_review = rw e h.by_review }

-- One record has moved, and the rest is as it was.
module _ (id : String) (s t : ExecutionStore) (r r' : AgentPlanExecutionRecord) (h : IsSoundStore s)
    (frame : Frame s t) (found : get s.records id ≡ some r) (step : Evolves r r')
    (e : t.records ≡ put s.records id r') where
  moved_held : IsHeld t id r'
  moved_held =
      let old = h.held id r found in
      let p = Evolves-Progress step in
      record {
        own_id = p.execution_id ∙ old.own_id;
        sound = Evolves-IsSound old.sound step;
        by_review = rw (frame.by_review, p.review_id) old.by_review;
      }

  moved_reviews : Each (LeadsTo t) t.by_review
  moved_reviews v j q =
      let (x, at_j, names) = h.reviews v j (rw frame.by_review at q) in
      elim (Bool-cases (id == j)) [
        | inl same ↦
            let here : id ≡ j = (eq_iff id j).0 same in
            let now : get t.records j ≡ some r' = rw e (cc (get-put s.records id r' j, same)) in
            let old : r ≡ x = cc in
            (r', now, (Evolves-Progress step).review_id ∙ ap (λ y. y.review_id) old ∙ names)
        | inr other ↦
            let now : get t.records j ≡ some x = rw e (cc (get-put s.records id r' j, other)) in
            (x, now, names)
      ]

  moved-IsSoundStore : IsSoundStore t
  moved-IsSoundStore = record {
    unique = rw e (Unique-put s.records id r' h.unique);
    held =
        subst (λ d. Each (IsHeld t) d) (sym e)
          (Each-put (IsHeld t) s.records id r'
            (λ j x q. IsHeld-frame j x frame.by_review (h.held j x q)) moved_held);
    reviews = moved_reviews;
    room = omega (
      arith,
      frame.max_records,
      ap (λ d. size d) e,
      size-put_old s.records id r' r found,
      h.room,
    );
  }

-- A method on one record keeps the store sound.
pub Touches-IsSoundStore :
    (id : String) {s t : ExecutionStore} → IsSoundStore s → Touches id s t → IsSoundStore t
Touches-IsSoundStore id {s} {t} h (frame, inl same) = record {
  unique = rw same h.unique;
  held = λ j r e. IsHeld-frame j r frame.by_review (h.held j r (rw same at e));
  reviews = λ v j e. rw same (h.reviews v j (rw frame.by_review at e));
  room = omega (arith, frame.max_records, ap (λ d. size d) same, h.room);
}
Touches-IsSoundStore id {s} {t} h (frame, inr (r, r', found, step, e)) =
    moved-IsSoundStore id s t r r' h frame found step e
