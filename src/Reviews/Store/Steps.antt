-- ===== src/Reviews/Store/Steps.antt =====
-- What expiry, eviction and the writes of `AgentPlanReviewStore` do to the stored reviews.
use mathlib.Core.Path.{subst}
use cauco.Base.{
  ℕ, ◌≡◌, refl, sym, ap, ◌∙◌, String, true, false, ◌&&◌, none, some, List, [], ◌∷◌, ◌⊎◌, inl, inr,
  Bool-cases, Option-cases, ◌==◌, string_eq, leb, ltb, Result, ok, raised, ◌>>=◌, arith, All,
}
use cauco.Base.Dict.{get, put, remove, size, values, is_some}
use cauco.Base.Dict.Laws.{Each-values, get-put}
use cauco.Base.Environment.{Environment}
use cauco.Base.Evolution.Kept.{
  Kept, Keeps, Keeps-tick, Keeps-trans, Keeps-put, Keeps-remove, Apart, values-Apart,
}
use cauco.Tools.Value.{Value}
use cauco.Reviews.Models.{AgentPlanReviewRecord, is_pending, review_rejection, copied}
use cauco.Reviews.Store.{
  AgentPlanReviewStore, StoreMethod, ReviewError, settled, built, save, rewrite, snapshot, lapsed,
  expire_if_needed, expire_all, delete, evict, make_room_now, make_room, value_error,
}
use cauco.Reviews.Store.Intact.{
  SameSnapshot, Follows, Follows-Preorder, IsIntact, copied-IsIntact, SameSnapshot-copied,
}

outcome-cases :
    {A : Type 0} (p : Result ReviewError A × AgentPlanReviewStore)
    → ((e : ReviewError) × (t : AgentPlanReviewStore) × (p ≡ (raised e, t)))
      ⊎ ((a : A) × (t : AgentPlanReviewStore) × (p ≡ (ok a, t)))
outcome-cases (raised e, t) = inl (e, t, refl)
outcome-cases (ok a, t) = inr (a, t, refl)

-- The store with one record written.
abbrev pub with_record : AgentPlanReviewStore → AgentPlanReviewRecord → AgentPlanReviewStore
with_record s r = record s { records = put s.records r.review_id r }

-- `replace` and the write raise and change nothing, or write what `replace` made.
pub rewrite-cases :
    (s : AgentPlanReviewStore) (r : AgentPlanReviewRecord)
    → ((e : ReviewError) × (rewrite r s ≡ (raised e, s)))
      ⊎ ((review_rejection r ≡ none) × (rewrite r s ≡ (ok (copied r), with_record s (copied r))))
unfolding rewrite built settled save
rewrite-cases s r = elim (Option-cases (review_rejection r)) [
  | inl passes ↦ inr (passes, rw passes refl)
  | inr (message, fails) ↦ inl (value_error message, rw fails refl)
]

pub expire-cases :
    (s : AgentPlanReviewStore) (now : ℕ) (r : AgentPlanReviewRecord)
    → (expire_if_needed now r s ≡ (ok r, s))
      ⊎ ((is_pending r.status ≡ true) × (expire_if_needed now r s ≡ rewrite (lapsed now r) s))
unfolding expire_if_needed
expire-cases s now r = elim (Bool-cases (is_pending r.status && leb r.expires_at now)) [
  | inl due ↦ inr (ground arith, rw due refl)
  | inr lasting ↦ inl (rw lasting refl)
]

pub snapshot-same : (s : AgentPlanReviewStore) (r : AgentPlanReviewRecord) → (snapshot r s).1 ≡ s
unfolding snapshot built settled
snapshot-same s r = elim (Option-cases (review_rejection r)) [
  | inl passes ↦ rw passes refl
  | inr (message, fails) ↦ rw fails refl
]

module _ (env : Environment) (digest : Value → String) where
  abbrev pub IsIntactStore : AgentPlanReviewStore → Type 0
  IsIntactStore s = Kept (IsIntact digest) s.records

  -- The step from one store to a later one.
  abbrev pub Step : AgentPlanReviewStore → AgentPlanReviewStore → Type 0
  Step s t = Keeps (IsIntact digest) env "planrev_" Follows s.calls s.records t.calls t.records

  pub Step-none : (s : AgentPlanReviewStore) → IsIntactStore s → Step s s
  Step-none s h =
      Keeps-tick env "planrev_" Follows-Preorder s.records s.calls s.calls h (omega arith)

  pub Step-trans :
      (a b c : AgentPlanReviewStore) → Step a b → (IsIntactStore b → Step b c) → Step a c
  Step-trans a b c f g = Keeps-trans env "planrev_" Follows-Preorder f g

  -- Two methods in a row, where the second starts from what the first returned.
  pub bind-Step :
      {A B : Type 0} (m : StoreMethod A) (f : A → StoreMethod B) (s : AgentPlanReviewStore)
      → Step s (m s).1
      → ((a : A) (t : AgentPlanReviewStore) → m s ≡ (ok a, t) → IsIntactStore t → Step t (f a t).1)
      → Step s ((m >>= f) s).1
  bind-Step m f s first then_step = elim (outcome-cases (m s)) [
    | inl (e, t, fails) ↦ rw fails (subst (λ p. Step s p.1) fails first)
    | inr (a, t, returns) ↦ rw returns (
        Step-trans s t (f a t).1 (subst (λ p. Step s p.1) returns first)
          λ k. then_step a t returns k)
  ]

  -- A pending record that is stored is replaced by one of the same snapshot.
  pub rewrite-Step :
      (s : AgentPlanReviewStore)
      → IsIntactStore s
      → (id : String) (a b : AgentPlanReviewRecord) → get s.records id ≡ some a
      → is_pending a.status ≡ true
      → SameSnapshot a b
      → b.review_id ≡ a.review_id
      → Step s (rewrite b s).1
  unfolding copied
  rewrite-Step s h id a b found pending same own = elim (rewrite-cases s b) [
    | inl (e, fails) ↦ rw fails (Step-none s h)
    | inr (passes, writes) ↦
        let key : b.review_id ≡ id = own ∙ (h.each id a found).own_id in
        let intact : IsIntact digest b.review_id a =
          subst (λ k. IsIntact digest k a) (sym key) (h.each id a found) in
        rw writes (
          Keeps-put env "planrev_" Follows-Preorder s.records s.calls b.review_id a (copied b) h
            (ap (get s.records) key ∙ found)
            (record {
              same = SameSnapshot-copied digest b.review_id a b intact same;
              final = λ over. absurd (cc);
            })
            (copied-IsIntact digest b.review_id a b intact same refl passes))
  ]

  pub expire-Step :
      (s : AgentPlanReviewStore)
      → IsIntactStore s
      → (now : ℕ) (id : String) (r : AgentPlanReviewRecord) → get s.records id ≡ some r
      → Step s (expire_if_needed now r s).1
  expire-Step s h now id r found = elim (expire-cases s now r) [
    | inl stays ↦ rw stays (Step-none s h)
    | inr (pending, lapses) ↦
        rw lapses (rewrite-Step s h id r (lapsed now r) found pending refl refl)
  ]

  -- The records that a loop has still to look at are stored as they were.
  expire_all-Step :
      (now : ℕ) (rs : List AgentPlanReviewRecord) (s : AgentPlanReviewStore)
      → IsIntactStore s
      → All (λ r. get s.records r.review_id ≡ some r) rs
      → Apart (λ r. r.review_id) rs
      → Step s (expire_all now rs s).1
  unfolding expire_all copied
  expire_all-Step now [] s h held apart = Step-none s h
  expire_all-Step now (r ∷ rs) s h held apart = elim (expire-cases s now r) [
    | inl stays ↦ rw stays (expire_all-Step now rs s h held.1 apart.1)
    | inr (pending, lapses) ↦ elim (rewrite-cases s (lapsed now r)) [
      | inl (e, fails) ↦ rw (lapses, fails) (Step-none s h)
      | inr (passes, writes) ↦
          let t = with_record s (copied (lapsed now r)) in
          let first : Step s t =
            subst (λ p. Step s p.1) (lapses ∙ writes) (expire-Step s h now r.review_id r held.0) in
          rw (lapses, writes)
            (Step-trans s t (expire_all now rs t).1 first λ k.
              expire_all-Step now rs t k (still r (copied (lapsed now r)) rs held.1 apart.0)
                apart.1)
    ]
  ]
    where
      still :
          (r new : AgentPlanReviewRecord) (rs : List AgentPlanReviewRecord)
          → All (λ x. get s.records x.review_id ≡ some x) rs
          → All (λ x. (r.review_id == x.review_id) ≡ false) rs
          → All (λ x. get (put s.records r.review_id new) x.review_id ≡ some x) rs
      still r new [] held apart = tt
      still r new (x ∷ rs) held apart = (
        cc (get-put s.records r.review_id new x.review_id, apart.0, held.0),
        still r new rs held.1 apart.1,
      )

  evict-Step :
      (rs : List AgentPlanReviewRecord) (s : AgentPlanReviewStore)
      → IsIntactStore s
      → Step s (evict rs s).1
  unfolding evict delete
  evict-Step [] s h = Step-none s h
  evict-Step (r ∷ rs) s h = elim (Bool-cases (is_some (get s.records r.review_id))) [
    | inr absent ↦ rw absent (Step-none s h)
    | inl there ↦
        let t : AgentPlanReviewStore = record s { records = remove s.records r.review_id } in
        let first : Step s t =
          Keeps-remove env "planrev_" Follows-Preorder s.records s.calls r.review_id h in
        elim (Bool-cases (ltb (size t.records) s.max_records)) [
          | inl room ↦ rw (there, room) first
          | inr full ↦ rw (there, full) (Step-trans s t (evict rs t).1 first λ k. evict-Step rs t k)
        ]
  ]

  make_room_now-Step : (s : AgentPlanReviewStore) → IsIntactStore s → Step s (make_room_now s).1
  unfolding make_room_now
  make_room_now-Step s h = elim (Bool-cases (ltb (size s.records) s.max_records)) [
    | inl room ↦ rw room (Step-none s h)
    | inr full ↦ rw full (evict-Step _ s h)
  ]

  -- Both loops look at stored records only.
  pub expire_values-Step :
      (now : ℕ) (s : AgentPlanReviewStore)
      → IsIntactStore s
      → Step s (expire_all now (values s.records) s).1
  expire_values-Step now s h =
      expire_all-Step now (values s.records) s h
        (Each-values (λ r. get s.records r.review_id ≡ some r) s.records h.unique
          λ id r e. ap (get s.records) (h.each id r e).own_id ∙ e)
        (values-Apart (λ r. r.review_id) s.records h.unique λ id r e. (h.each id r e).own_id)

  pub make_room-Step :
      (now : ℕ) (s : AgentPlanReviewStore) → IsIntactStore s → Step s (make_room now s).1
  unfolding make_room
  make_room-Step now s h =
      bind-Step (expire_all now (values s.records)) (λ _. make_room_now) s
        (expire_values-Step now s h) λ _ t _ k. make_room_now-Step t k
