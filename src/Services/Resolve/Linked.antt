-- ===== src/Services/Resolve/Linked.antt =====
-- In stores that agree with each other, `resolve` always returns a state.
use mathlib.Core.Path.{subst}
use text.Mathlib.TextEquality.{eq_iff}
use cauco.Base.{
  suc, ◌≡◌, refl, sym, ap, ◌∙◌, String, Bool, true, false, ◌&&◌, Option, none, some, List, [], ◌∷◌,
  string_eq, ◌⊎◌, Result, ok, leb, All, Bool-cases, Option-cases, inl, inr, arith, ◌>>=◌, carry_on,
  Method,
}
use cauco.Base.Dict.{get}
use cauco.Base.Dict.Laws.{Each}
use cauco.Base.Environment.{Environment}
use cauco.Tools.Value.{Value}
use cauco.Reviews.Models.{AgentPlanReviewRecord, is_pending, is_approved}
use cauco.Reviews.Store.{
  AgentPlanReviewStore, ReviewError, find, expire_if_needed, snapshot, lapsed,
}
use cauco.Reviews.Store.Methods.{get_review, clock}
use cauco.Reviews.Store.Steps.{IsIntactStore, with_record}
use cauco.Execution.Models.{ExecutionError, AgentPlanExecutionRecord}
use cauco.Execution.Store.{ExecutionStore, list_executions}
use cauco.Execution.Invariant
use cauco.Execution.Invariant.Listing.{IsListed, list_executions-IsListed}
use cauco.Verification.Models.{VerificationRecord, VerificationError}
use cauco.Verification.Store.{VerificationStore, for_execution}
use cauco.Verification.Store.Index
use cauco.Executive.Models.{ExecutiveState, state_rejection}
use cauco.Services.{
  Stores, ServiceError, mapped, of_review, of_execution, of_verification, on_reviews, on_executions,
  on_verifications,
}
use cauco.Services.Resolve.{
  none_if_missing, find_verification, state_of, accepted, built, with_verification, with_execution,
  with_executions, resolve,
}
use cauco.Reviews.Store.Admitting.{lapsed_accepted, copied-lapsed, built_lem, rewrite_lem}

-- Reading a stored review returns it, or returns it expired if it was pending and past its time.
get_review-returns :
    (env : Environment) (digest : Value → String) (s : AgentPlanReviewStore) (id : String)
    (r : AgentPlanReviewRecord)
    → IsIntactStore env digest s
    → get s.records id ≡ some r
    → (x : AgentPlanReviewRecord) × (t : AgentPlanReviewStore) × (get_review env id s ≡ (ok x, t))
      × (x.review_id ≡ id)
      × (is_pending r.status ≡ false → x ≡ r)
unfolding get_review find clock expire_if_needed snapshot
get_review-returns env digest s id r h found =
    let now = env.clock s.calls in
    let t : AgentPlanReviewStore = record s { calls = suc s.calls } in
    let intact = h.each id r found in
    elim (Bool-cases (is_pending r.status && leb r.expires_at now)) [
      | inr lasting ↦ (
        r,
        t,
        rw (found, lasting) (built_lem r t intact.accepted intact.copy),
        intact.own_id,
        λ over. refl,
      )
      | inl due ↦
          let x = lapsed now r in
          let passes = lapsed_accepted now r (ground arith) (ground arith) intact.accepted in
          let copy = copied-lapsed now r intact.copy in
          (
            x,
            with_record t x,
            rw (found, due, rewrite_lem x t passes copy)
                (built_lem x (with_record t x) passes copy),
            intact.own_id,
            λ over. absurd (ground arith),
          )
    ]

-- How the stores agree: an execution belongs to an approved review with its digest, and a verification to
-- a performed execution with its review and its digest.
pub record AreLinked (s : Stores) : Type 0 where
  pub executions :
      Each
        (λ j e.
          (r : AgentPlanReviewRecord) × (get s.reviews.records e.review_id ≡ some r)
          × (is_approved r.status ≡ true)
          × (e.snapshot_digest ≡ r.snapshot_digest))
        s.executions.records
  pub verifications :
      Each
        (λ j v.
          (e : AgentPlanExecutionRecord) × (get s.executions.records v.execution_id ≡ some e)
          × (e.execution_performed ≡ true)
          × (v.review_id ≡ e.review_id)
          × (v.snapshot_digest ≡ e.snapshot_digest))
        s.verifications.records

approved-settled :
    (r : AgentPlanReviewRecord) → is_approved r.status ≡ true → is_pending r.status ≡ false
approved-settled r h = ground arith

-- A verification, if there is one, of that execution of that review.
abbrev pub Fits :
    AgentPlanReviewRecord → AgentPlanExecutionRecord → Option VerificationRecord → Type 0
Fits review e none = Unit
Fits review e (some v) =
    (v.execution_id ≡ e.execution_id)
    × (v.review_id ≡ review.review_id)
    × (v.snapshot_digest ≡ review.snapshot_digest)
    × (e.execution_performed ≡ true)

module _ (review : AgentPlanReviewRecord) (e : AgentPlanExecutionRecord)
    (approved : is_approved review.status ≡ true) where
  state_accepted :
      (v : Option VerificationRecord)
      → Fits review e v
      → state_rejection (state_of review (some e) v) ≡ none
  unfolding state_rejection state_of
  state_accepted none fits = ground arith
  state_accepted (some v) (_, _, _, performed) = ground arith

  built_state :
      (v : Option VerificationRecord) (s : Stores)
      → Fits review e v
      → built review (some e) v s ≡ (ok (state_of review (some e) v), s)
  unfolding built accepted
  built_state v s fits = rw (state_accepted v fits) refl

  with_verification_lem :
      (v : Option VerificationRecord) (s : Stores)
      → Fits review e v
      → with_verification review e v s ≡ (ok (state_of review (some e) v), s)
  unfolding with_verification
  with_verification_lem none s fits = built_state none s fits
  with_verification_lem (some v) s (names, its_review, digests, performed) =
      rw
        (
          (eq_iff v.execution_id e.execution_id).1 names,
          (eq_iff v.review_id review.review_id).1 its_review,
          (eq_iff v.snapshot_digest review.snapshot_digest).1 digests,
        )
        (built_state (some v) s (names, its_review, digests, performed))

-- What `for_execution` finds for an execution, if anything, is of that execution.
find_verification-finds :
    (env : Environment) (s : VerificationStore) (id : String)
    → Index.IsSoundStore env s
    → (find_verification id s ≡ (ok none, s))
      ⊎ ((j : String) × (v : VerificationRecord) × (get s.records j ≡ some v)
          × (v.execution_id ≡ id)
          × (find_verification id s ≡ (ok (some v), s)))
unfolding find_verification for_execution none_if_missing
find_verification-finds env s id h = elim (Option-cases (get s.by_execution id)) [
  | inl absent ↦ inl (rw absent refl)
  | inr (j, there) ↦
      let (v, at_j, names) = h.leads id j there in inr (j, v, at_j, names, rw (there, at_j) refl)
]

module _ (verification_env : Environment) (has_store : Bool) (s : Stores) (linked : AreLinked s)
    (sound : Index.IsSoundStore verification_env s.verifications) where
  -- From the execution on, with what the stores held before the review was read.
  with_execution-returns :
      (x : AgentPlanReviewRecord) (e : AgentPlanExecutionRecord) (j : String) (u : Stores)
      → is_approved x.status ≡ true
      → get s.executions.records j ≡ some e
      → e.execution_id ≡ j
      → e.review_id ≡ x.review_id
      → e.snapshot_digest ≡ x.snapshot_digest
      → u.verifications ≡ s.verifications
      → (state : ExecutiveState) × (with_execution has_store x e u ≡ (ok state, u))
  unfolding with_execution
  with_execution-returns x e j u approved found own same digests verifications =
      elim (Bool-cases has_store) [
        | inr bare ↦
            (state_of x (some e) none, rw bare (with_verification_lem x e approved none u tt))
        | inl given ↦
            let sound_there : Index.IsSoundStore verification_env u.verifications =
              subst (λ q. Index.IsSoundStore verification_env q) (sym verifications) sound in
            elim (find_verification-finds verification_env u.verifications e.execution_id
              sound_there) [
                | inl absent ↦ (state_of x (some e) none, rw given (found_with none absent tt))
                | inr (k, v, at_k, names, finds) ↦
                    let at_s : get s.verifications.records k ≡ some v =
                      ap (λ q. get q.records k) (sym verifications) ∙ at_k in
                    let (e', at_e, performed, its_review, digest_same) =
                      linked.verifications k v at_s in
                    let key : v.execution_id ≡ j = names ∙ own in
                    let one : e' ≡ e = cc in
                    (
                      state_of x (some e) (some v),
                      rw given (
                          found_with (some v) finds (
                            names,
                            its_review ∙ ap (λ y. y.review_id) one ∙ same,
                            digest_same ∙ ap (λ y. y.snapshot_digest) one ∙ digests,
                            ap (λ y. y.execution_performed) (sym one) ∙ performed,
                          )),
                    )
              ]
      ]
    where
      found_with :
          (v : Option VerificationRecord)
          → find_verification e.execution_id u.verifications ≡ (ok v, u.verifications)
          → Fits x e v
          → (on_verifications (find_verification e.execution_id) >>= with_verification x e) u
            ≡ (ok (state_of x (some e) v), u)
      found_with v finds fits =
          let under : Result VerificationError (Option VerificationRecord) × VerificationStore
              → Result ServiceError ExecutiveState × Stores =
            λ p.
              carry_on (mapped of_verification p.0) (record u { verifications = p.1 })
                (with_verification x e) in
          ap under finds ∙ with_verification_lem x e approved v u fits

on_reviews-returns :
    {A : Type 0} (m : Method ReviewError AgentPlanReviewStore A) (s : Stores) (a : A)
    (t : AgentPlanReviewStore)
    → m s.reviews ≡ (ok a, t)
    → on_reviews m s ≡ (ok a, record s { reviews = t })
on_reviews-returns m s a t h = λ i. (mapped of_review (h i).0, record s { reviews = (h i).1 })

on_executions-returns :
    {A : Type 0} (m : Method ExecutionError ExecutionStore A) (s : Stores) (a : A)
    → m s.executions ≡ (ok a, s.executions)
    → on_executions m s ≡ (ok a, s)
on_executions-returns m s a h =
    λ i. (mapped of_execution (h i).0, record s { executions = (h i).1 })

bind-returns :
    {A B : Type 0} (m : Method ServiceError Stores A) (f : A → Method ServiceError Stores B)
    (s t u : Stores) (a : A) (b : B)
    → m s ≡ (ok a, t)
    → f a t ≡ (ok b, u)
    → (m >>= f) s ≡ (ok b, u)
bind-returns m f s t u a b first last = ap (λ p. carry_on p.0 p.1 f) first ∙ last

no_execution :
    (x : AgentPlanReviewRecord) (u : Stores)
    → (state : ExecutiveState) × (built x none none u ≡ (ok state, u))
unfolding built accepted state_rejection state_of
no_execution x u = (state_of x none none, refl)

-- In an intact review store, a sound execution store and a sound verification store that agree with each
-- other, `resolve` returns a state for every stored review: no check of the resolver or of the state
-- fails, and no lookup.
pub resolve-returns :
    (env verification_env : Environment) (digest : Value → String) (has_store : Bool) (s : Stores)
    (id : String) (r : AgentPlanReviewRecord)
    → IsIntactStore env digest s.reviews
    → Invariant.IsSoundStore s.executions
    → Index.IsSoundStore verification_env s.verifications
    → AreLinked s
    → get s.reviews.records id ≡ some r
    → (state : ExecutiveState) × (t : Stores) × (resolve env has_store id s ≡ (ok state, t))
unfolding resolve with_executions
resolve-returns env verification_env digest has_store s id r intact executions verifications linked
      found =
    let (x, t, reads, own, settled) = get_review-returns env digest s.reviews id r intact found in
    let u : Stores = record s { reviews = t } in
    let (rs, lists, _, all_listed) =
      list_executions-IsListed s.executions none (some id) 1 executions refl in
    let (state, ends) = onward x u rs own settled refl refl all_listed in
    (
      state,
      u,
      bind-returns (on_reviews (get_review env id))
          (λ review.
            on_executions (list_executions none (some id) 1) >>= with_executions has_store review)
          s u u x state (on_reviews-returns (get_review env id) s x t reads)
          (bind-returns (on_executions (list_executions none (some id) 1))
            (with_executions has_store x) u u u rs state
            (on_executions-returns (list_executions none (some id) 1) u rs lists) ends),
    )
  where
    onward :
        (x : AgentPlanReviewRecord) (u : Stores) (rs : List AgentPlanExecutionRecord)
        → x.review_id ≡ id
        → (is_pending r.status ≡ false → x ≡ r)
        → u.verifications ≡ s.verifications
        → u.executions ≡ s.executions
        → All (IsListed s.executions none (some id)) rs
        → (state : ExecutiveState) × (with_executions has_store x rs u ≡ (ok state, u))
    onward x u [] own settled same_v same_e listed = no_execution x u
    onward x u (e ∷ rs) own settled same_v same_e listed =
        let (at_e, asked) = listed.0 in
        let names : e.review_id ≡ id = (eq_iff e.review_id id).0 asked in
        let (r', there, approved, digests) = linked.executions e.execution_id e at_e in
        let there_too : get s.reviews.records id ≡ some r' =
          ap (get s.reviews.records) (sym names) ∙ there in
        let one : r' ≡ r = cc (there_too, found) in
        let is : is_approved r.status ≡ true =
          ap (λ y. is_approved y.status) (sym one) ∙ approved in
        let reads : x ≡ r = settled (approved-settled r is) in
        let same_review : e.review_id ≡ x.review_id = names ∙ sym own in
        let same_digest : e.snapshot_digest ≡ x.snapshot_digest =
          digests ∙ ap (λ y. y.snapshot_digest) (one ∙ sym reads) in
        let (state, ends) =
          with_execution-returns verification_env has_store s linked verifications x e
            e.execution_id u (ap (λ y. is_approved y.status) reads ∙ is) at_e refl same_review
            same_digest same_v in
        (
          state,
          rw
              (
                (eq_iff e.review_id x.review_id).1 same_review,
                (eq_iff e.snapshot_digest x.snapshot_digest).1 same_digest,
              )
              ends,
        )
