-- ===== src/Reviews/Store/Changes.antt =====
-- What `get`, `list` and the decisions of `AgentPlanReviewStore` do to the stored reviews.
use mathlib.Core.Path.{subst}
use cauco.Base.{
  ℕ, length, suc, ◌≡◌, refl, sym, ap, ◌∙◌, String, false, ◌&&◌, Option, none, some, List, [], ◌∷◌,
  inl, inr, Bool-cases, Option-cases, ◌==◌, string_eq, leb, ltb, ok, return, ◌>>=◌, arith,
}
use cauco.Base.Ids.{codes}
use cauco.Base.Dict.{get, put, values}
use cauco.Base.Dict.Laws.{get-put_self}
use cauco.Base.Results.Rules.{raised_ne, ok-injective}
use cauco.Base.Environment.{Environment}
use cauco.Base.Evolution.Kept.{Keeps-tick}
use cauco.Tools.Value.{Value}
use cauco.Reviews.Models.{AgentPlanReviewStatus, AgentPlanReviewRecord, is_pending, copied}
use cauco.Reviews.Store.{
  AgentPlanReviewStore, StoreMethod, find, rewrite, snapshot, lapsed, expire_if_needed, expire_all,
  unix_lines,
}
use cauco.Reviews.Store.Methods
use cauco.Reviews.Store.Methods.{
  Decision, approval, rejection, cancellation, decided, created, or_else, digest_of,
  verify_integrity, transition_found, clock, make_id, try_ids, new_review_id, transition_at,
  store_new, create_at, list_at, listed, normalize_review_text, transition, reject_for, snapshots,
  unless_none, same_status,
}
use cauco.Reviews.Store.Intact.{SameSnapshot, Follows-Preorder}
use cauco.Reviews.Store.Steps.{
  IsIntactStore, Step, Step-none, Step-trans, bind-Step, rewrite-Step, expire-Step, expire-cases,
  rewrite-cases, expire_values-Step, snapshot-same, with_record,
}

decided-SameSnapshot :
    (decision : Decision) (remark : Option String) (now : ℕ) (r : AgentPlanReviewRecord)
    → SameSnapshot r (decided decision remark now r)
      × ((decided decision remark now r).review_id ≡ r.review_id)
unfolding decided
decided-SameSnapshot approval remark now r = (refl, refl)
decided-SameSnapshot (rejection reason) remark now r = (refl, refl)
decided-SameSnapshot (cancellation reason) remark now r = (refl, refl)

module _ (env : Environment) (digest : Value → String) where
  pub snapshot-Step :
      (s : AgentPlanReviewStore)
      → IsIntactStore env digest s
      → (r : AgentPlanReviewRecord) → Step env digest s (snapshot r s).1
  snapshot-Step s h r =
      subst (λ t. Step env digest s t) (sym (snapshot-same s r)) (Step-none env digest s h)

module _ (env : Environment) (digest : Value → String) (s : AgentPlanReviewStore)
    (h : IsIntactStore env digest s) where
  pub after_clock :
      {A : Type 0} (f : ℕ → StoreMethod A)
      → ((now : ℕ) (t : AgentPlanReviewStore)
          → t.records ≡ s.records
          → IsIntactStore env digest t
          → Step env digest t (f now t).1)
      → Step env digest s ((clock env >>= f) s).1
  unfolding clock
  after_clock f then_step =
      let t : AgentPlanReviewStore = record s { calls = suc s.calls } in
      let tick : Step env digest s t =
        Keeps-tick env "planrev_" Follows-Preorder s.records s.calls t.calls h (omega arith) in
      Step-trans env digest s t (f (env.clock s.calls) t).1 tick
        λ k. then_step (env.clock s.calls) t refl k

  after_find :
      {A : Type 0} (id : String) (f : AgentPlanReviewRecord → StoreMethod A)
      → ((r : AgentPlanReviewRecord) → get s.records id ≡ some r → Step env digest s (f r s).1)
      → Step env digest s ((find id >>= f) s).1
  unfolding find
  after_find id f then_step = elim (Option-cases (get s.records id)) [
    | inl absent ↦ rw absent (Step-none env digest s h)
    | inr (r, found) ↦ rw found (then_step r found)
  ]

  after_expire :
      {A : Type 0} (now : ℕ) (id : String) (r : AgentPlanReviewRecord)
      (f : AgentPlanReviewRecord → StoreMethod A)
      → get s.records id ≡ some r
      → ((x : AgentPlanReviewRecord) (t : AgentPlanReviewStore)
          → get t.records id ≡ some x
          → IsIntactStore env digest t
          → Step env digest t (f x t).1)
      → Step env digest s ((expire_if_needed now r >>= f) s).1
  unfolding copied
  after_expire now id r f found then_step =
      bind-Step env digest (expire_if_needed now r) f s (expire-Step env digest s h now id r found)
        λ x t returns k. then_step x t (held x t returns) k
    where
      held :
          (x : AgentPlanReviewRecord) (t : AgentPlanReviewStore)
          → expire_if_needed now r s ≡ (ok x, t)
          → get t.records id ≡ some x
      held x t returns = elim (expire-cases s now r) [
        | inl stays ↦
            let (one, at) = ok-injective r x s t (sym stays ∙ returns) in
            ap (λ u. get u.records id) (sym at) ∙ found ∙ ap some one
        | inr (pending, lapses) ↦ elim (rewrite-cases s (lapsed now r)) [
          | inl (e, fails) ↦ absurd (raised_ne e x s t (sym (lapses ∙ fails) ∙ returns))
          | inr (passes, writes) ↦
              let new = copied (lapsed now r) in
              let (one, at) =
                ok-injective new x (with_record s new) t (sym (lapses ∙ writes) ∙ returns) in
              ap (λ u. get u.records id) (sym at)
              ∙ ap (get (put s.records r.review_id new)) (sym (h.each id r found).own_id)
              ∙ get-put_self s.records r.review_id new
              ∙ ap some one
        ]
      ]

  transition_found-Step :
      (decision : Decision) (remark : Option String) (now : ℕ) (id : String)
      (r : AgentPlanReviewRecord)
      → get s.records id ≡ some r
      → Step env digest s (transition_found digest decision remark now r s).1
  unfolding transition_found verify_integrity
  transition_found-Step decision remark now id r found = elim (Bool-cases (is_pending r.status)) [
    | inr over ↦ rw over (Step-none env digest s h)
    | inl pending ↦ elim (Bool-cases (r.snapshot_digest == digest_of digest r)) [
      | inr torn ↦ rw (pending, torn) (Step-none env digest s h)
      | inl sealed ↦
          let (same, own) = decided-SameSnapshot decision remark now r in
          rw (pending, sealed)
            (bind-Step env digest (rewrite (decided decision remark now r)) snapshot s
              (rewrite-Step env digest s h id r (decided decision remark now r) found pending same
                own)
              λ x t _ k. snapshot-Step env digest t k x)
    ]
  ]

normalize-same :
    (strip : String → String) (text : Option String) (message : String) (maximum : ℕ)
    (s : AgentPlanReviewStore)
    → (normalize_review_text strip text message maximum s).1 ≡ s
unfolding normalize_review_text
normalize-same strip none message maximum s = refl
normalize-same strip (some value) message maximum s =
    elim (Bool-cases (strip (unix_lines false value) == "")) [
      | inl empty ↦ rw empty refl
      | inr full ↦
          elim (Bool-cases (ltb maximum (length (codes (strip (unix_lines false value)))))) [
            | inl long ↦ rw (full, long) refl
            | inr short ↦ rw (full, short) refl
          ]
    ]

module _ (env : Environment) (digest : Value → String) (s : AgentPlanReviewStore)
    (h : IsIntactStore env digest s) where
  pub get_review-Step : (id : String) → Step env digest s (Methods.get_review env id s).1
  unfolding Methods.get_review
  get_review-Step id =
      after_find env digest s h id (λ r. clock env >>= λ now. expire_if_needed now r >>= snapshot)
        λ r found.
          after_clock env digest s h (λ now. expire_if_needed now r >>= snapshot)
            λ now t same k.
              after_expire env digest t k now id r snapshot (ap (λ d. get d id) same ∙ found)
                λ x u held l. snapshot-Step env digest u l x

  snapshots-Step :
      (rs : List AgentPlanReviewRecord) (t : AgentPlanReviewStore)
      → IsIntactStore env digest t
      → Step env digest t (snapshots rs t).1
  unfolding snapshots
  snapshots-Step [] t k = Step-none env digest t k
  snapshots-Step (r ∷ rs) t k =
      bind-Step env digest (snapshot r) (λ copy. snapshots rs >>= λ copies. return (copy ∷ copies))
        t (snapshot-Step env digest t k r)
        λ copy u _ l.
          bind-Step env digest (snapshots rs) (λ copies. return (copy ∷ copies)) u
            (snapshots-Step rs u l) λ copies v _ m. Step-none env digest v m

  pub list_reviews-Step :
      (status : Option AgentPlanReviewStatus) (agent_id : Option String) (limit : ℕ)
      → Step env digest s (Methods.list_reviews env status agent_id limit s).1
  unfolding Methods.list_reviews list_at
  list_reviews-Step status agent_id limit = elim (Bool-cases (leb 1 limit && leb limit 100)) [
    | inr out ↦ rw out (Step-none env digest s h)
    | inl fits ↦ rw fits (
        after_clock env digest s h (list_at status agent_id limit) λ now t same k.
          bind-Step env digest (expire_all now (values t.records))
            (λ _ u. snapshots (listed status agent_id limit u) u) t
            (expire_values-Step env digest now t k)
            λ _ u _ l. snapshots-Step (listed status agent_id limit u) u l)
  ]

  after_text :
      {A : Type 0} (strip : String → String) (text : Option String) (message : String) (maximum : ℕ)
      (f : Option String → StoreMethod A)
      → ((x : Option String) (t : AgentPlanReviewStore)
          → IsIntactStore env digest t
          → Step env digest t (f x t).1)
      → Step env digest s ((normalize_review_text strip text message maximum >>= f) s).1
  after_text strip text message maximum f then_step =
      bind-Step env digest (normalize_review_text strip text message maximum) f s
        (subst (λ t. Step env digest s t) (sym (normalize-same strip text message maximum s))
          (Step-none env digest s h))
        λ x t _ k. then_step x t k

module _ (env : Environment) (digest : Value → String) (strip : String → String)
    (s : AgentPlanReviewStore) (h : IsIntactStore env digest s) where
  pub transition-Step :
      (id : String) (decision : Decision) (remark : Option String)
      → Step env digest s (transition env digest strip id decision remark s).1
  unfolding transition transition_at
  transition-Step id decision remark =
      after_text env digest s h strip remark "Reviewer note cannot exceed 2000 characters." 2000
        (λ text. clock env >>= transition_at digest id decision text)
        λ text t k.
          after_clock env digest t k (transition_at digest id decision text) λ now u same l.
            after_find env digest u l id
              (λ r. expire_if_needed now r >>= transition_found digest decision text now)
              λ r found.
                after_expire env digest u l now id r (transition_found digest decision text now)
                  found
                  λ x v held m. transition_found-Step env digest v m decision text now id x held

module _ (env : Environment) (digest : Value → String) (strip : String → String)
    (s : AgentPlanReviewStore) (h : IsIntactStore env digest s) where
  reject_for-Step :
      (id : String) (reason remark : Option String)
      → Step env digest s (reject_for env digest strip id reason remark s).1
  unfolding reject_for
  reject_for-Step id none remark = Step-none env digest s h
  reject_for-Step id (some reason) remark =
      transition-Step env digest strip s h id (rejection reason) remark

module _ (env : Environment) (digest : Value → String) (strip : String → String)
    (s : AgentPlanReviewStore) (h : IsIntactStore env digest s) where
  pub reject-Step :
      (id reason : String) (remark : Option String)
      → Step env digest s (Methods.reject env digest strip id reason remark s).1
  unfolding Methods.reject
  reject-Step id reason remark =
      after_text env digest s h strip (some reason)
        "Rejection reason cannot exceed 1000 characters." 1000
        (λ text. reject_for env digest strip id text remark)
        λ text t k. reject_for-Step env digest strip t k id text remark

  pub cancel-Step :
      (id : String) (reason remark : Option String)
      → Step env digest s (Methods.cancel env digest strip id reason remark s).1
  unfolding Methods.cancel
  cancel-Step id reason remark =
      after_text env digest s h strip reason "Cancellation reason cannot exceed 1000 characters."
        1000 (λ text. transition env digest strip id (cancellation text) remark)
        λ text t k. transition-Step env digest strip t k id (cancellation text) remark
