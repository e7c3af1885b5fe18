-- ===== src/Reviews/Store/Calls.antt =====
-- Sequences of calls of `AgentPlanReviewStore`, in any order and with any arguments.
use mathlib.Core.Path.{subst}
use cauco.Base.{
  ℕ, ◌≡◌, String, Option, none, some, List, [], ◌∷◌, ◌⊎◌, inl, inr, string_eq, Result, ok, raised,
  Bool-cases, leb, ◌&&◌,
}
use cauco.Base.Dict.{get}
use cauco.Base.Dict.Laws.{Each, Each-empty}
use cauco.Base.Environment.{Environment}
use cauco.Base.Evolution.{IsIssued, NeverRepeats}
use cauco.Tools.Value.{Value}
use cauco.Reviews.Models.{AgentPlanReviewStatus, AgentPlanReviewRecord}
use cauco.Reviews.Store
use cauco.Reviews.Store.{AgentPlanReviewStore, ReviewError, ReviewFields, is_ttl}
use cauco.Reviews.Store.Methods
use cauco.Reviews.Store.Intact.{Follows, IsIntact}
use cauco.Reviews.Store.Steps.{IsIntactStore, Step, Step-none, Step-trans}
use cauco.Reviews.Store.Changes.{
  get_review-Step, list_reviews-Step, transition-Step, reject-Step, cancel-Step,
}
use cauco.Reviews.Store.Creating.{create-Step}

pub data Call : Type 0 where
  create : ReviewFields → Call
  get_review : (id : String) → Call
  list_reviews : Option AgentPlanReviewStatus → Option String → (limit : ℕ) → Call
  approve : (id : String) → (remark : Option String) → Call
  reject : (id reason : String) → (remark : Option String) → Call
  cancel : (id : String) → (reason remark : Option String) → Call

module _ (env : Environment) (digest : Value → String) (strip : String → String) where
  unfoldable pub apply : Call → AgentPlanReviewStore → AgentPlanReviewStore
  apply (create f) s = (Methods.create env digest f s).1
  apply (get_review id) s = (Methods.get_review env id s).1
  apply (list_reviews status agent_id limit) s =
      (Methods.list_reviews env status agent_id limit s).1
  apply (approve id remark) s = (Methods.approve env digest strip id remark s).1
  apply (reject id reason remark) s = (Methods.reject env digest strip id reason remark s).1
  apply (cancel id reason remark) s = (Methods.cancel env digest strip id reason remark s).1

  unfoldable pub run : List Call → AgentPlanReviewStore → AgentPlanReviewStore
  run [] s = s
  run (call ∷ calls) s = run calls (apply call s)

  module _ (distinct : NeverRepeats env) where
    apply-Step :
        (call : Call) (s : AgentPlanReviewStore)
        → IsIntactStore env digest s
        → Step env digest s (apply call s)
    unfolding apply Methods.approve
    apply-Step (create f) s h = create-Step env digest s h distinct f
    apply-Step (get_review id) s h = get_review-Step env digest s h id
    apply-Step (list_reviews status agent_id limit) s h =
        list_reviews-Step env digest s h status agent_id limit
    apply-Step (approve id remark) s h =
        transition-Step env digest strip s h id Methods.approval remark
    apply-Step (reject id reason remark) s h = reject-Step env digest strip s h id reason remark
    apply-Step (cancel id reason remark) s h = cancel-Step env digest strip s h id reason remark

    pub run-Step :
        (calls : List Call) (s : AgentPlanReviewStore)
        → IsIntactStore env digest s
        → Step env digest s (run calls s)
    unfolding run
    run-Step [] s h = Step-none env digest s h
    run-Step (call ∷ calls) s h =
        Step-trans env digest s (apply call s) (run calls (apply call s)) (apply-Step call s h)
          λ k. run-Step calls (apply call s) k

-- Whatever calls follow, a stored review is either evicted or keeps its snapshot, its digest and its
-- times of creation and expiry, and nothing of it changes any more once it is decided or expired. The
-- store is intact, its identifiers were issued by the token source, and tokens never repeat.
pub run-Follows :
    (env : Environment) (digest : Value → String) (strip : String → String) (calls : List Call)
    (s : AgentPlanReviewStore) (id : String) (r : AgentPlanReviewRecord)
    → NeverRepeats env
    → IsIntactStore env digest s
    → Each (λ j x. IsIssued env "planrev_" s.calls j) s.records
    → get s.records id ≡ some r
    → (get (run env digest strip calls s).records id ≡ none)
      ⊎ ((x : AgentPlanReviewRecord) × (get (run env digest strip calls s).records id ≡ some x)
          × Follows r x)
run-Follows env digest strip calls s id r distinct h issued found =
    (run-Step env digest strip distinct calls s h).0.moved id r (issued id r found) found

-- A new store is intact.
new-IsIntactStore :
    (env : Environment) (digest : Value → String) (ttl max_records : ℕ) (s : AgentPlanReviewStore)
    → Store.new ttl max_records ≡ ok s
    → IsIntactStore env digest s
unfolding Store.new
new-IsIntactStore env digest ttl max_records s made = elim (Bool-cases (is_ttl ttl)) [
  | inr out ↦ absurd (raised_ne s (rw out at made))
  | inl fits ↦ elim (Bool-cases (leb 1 max_records && leb max_records 10000)) [
    | inr wide ↦ absurd (raised_ne s (rw (fits, wide) at made))
    | inl bounded ↦
        let empty : AgentPlanReviewStore = record {
          default_ttl_seconds = ttl;
          max_records = max_records;
          records = [];
          calls = 0;
        } in
        let same : empty ≡ s = ok-injective empty s (rw (fits, bounded) at made) in
        subst (λ t. IsIntactStore env digest t) same
          (record { each = Each-empty (IsIntact digest); unique = tt })
  ]
]
  where
    raised_ne :
        {e : ReviewError} (t : AgentPlanReviewStore)
        → ¬ (◌≡◌ {A = Result ReviewError AgentPlanReviewStore} (raised e) (ok t))
    raised_ne t h = absurd (cc)

    ok-injective :
        (t u : AgentPlanReviewStore)
        → ◌≡◌ {A = Result ReviewError AgentPlanReviewStore} (ok t) (ok u)
        → t ≡ u
    ok-injective t u h = cc

-- After any calls on a new store, each stored review is held under its own identifier, passes the checks
-- of `__post_init__` and has the digest of its own snapshot. Tokens never repeat.
pub run-IsIntact :
    (env : Environment) (digest : Value → String) (strip : String → String) (ttl max_records : ℕ)
    (s : AgentPlanReviewStore) (calls : List Call)
    → NeverRepeats env
    → Store.new ttl max_records ≡ ok s
    → Each (IsIntact digest) (run env digest strip calls s).records
run-IsIntact env digest strip ttl max_records s calls distinct made =
    (run-Step env digest strip distinct calls s
      (new-IsIntactStore env digest ttl max_records s made)).1.each
