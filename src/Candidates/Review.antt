-- ===== src/Candidates/Review.antt =====
-- What the methods of `MemoryCandidateStore` leave of the checks on a review.
use mathlib.Core.Path.{subst}
use cauco.Base.{
  ℕ, suc, ◌≡◌, refl, sym, String, true, false, Option, none, some, ◌⊎◌, inl, inr, Bool-cases,
  Option-cases, string_eq, Result, ok, raised, carry_on, arith, leb,
}
use cauco.Base.Dict.{get, put}
use cauco.Base.Dict.Laws.{Each, Each-put}
use cauco.Base.Environment.{Environment}
use cauco.Candidates.Models.{
  MemoryCandidateStatus, MemoryCandidateDisposition, MemoryCandidateRecord, MemoryCandidateError,
  review_rejection, is_pending, is_expired, promotes, value_error, conflict, expired_error,
}
use cauco.Candidates.Store.{
  MemoryCandidateStore, find, expire, lapsed, reviewed, trimmed, is_too_long, get_candidate,
  review_found, review, approve, reject,
}

-- A review that fits its status: what `approve` and `reject` write.
abbrev pub Fits : MemoryCandidateStatus → MemoryCandidateDisposition → Type 0
Fits status disposition =
    ((status ≡ MemoryCandidateStatus.approved) × (promotes (some disposition) ≡ true))
    ⊎ ((status ≡ MemoryCandidateStatus.rejected) × (promotes (some disposition) ≡ false))

reviewed-accepted :
    (status : MemoryCandidateStatus) (disposition : MemoryCandidateDisposition)
    (remark : Option String) (now : ℕ) (r : MemoryCandidateRecord)
    → Fits status disposition
    → review_rejection (reviewed status disposition remark now r) ≡ none
unfolding review_rejection
reviewed-accepted status disposition remark now r h = ground arith

lapsed-accepted : (r : MemoryCandidateRecord) → review_rejection (lapsed r) ≡ none
unfolding review_rejection
lapsed-accepted r = refl

-- Each stored candidate passes the checks of `__post_init__` on its review.
abbrev pub IsReviewed : MemoryCandidateStore → Type 0
IsReviewed s = Each (λ id r. review_rejection r ≡ none) s.records

module _ (env : Environment) where
  expire-IsReviewed :
      (s : MemoryCandidateStore) (r : MemoryCandidateRecord)
      → IsReviewed s
      → IsReviewed (expire env r s).1
  unfolding expire
  expire-IsReviewed s r h = elim (Bool-cases (is_pending r.status)) [
    | inr over ↦ rw over h
    | inl pending ↦ elim (Bool-cases (leb r.expires_at (env.clock s.calls))) [
      | inr early ↦ rw (pending, early) h
      | inl due ↦
          rw (pending, due)
            (Each-put (λ id x. review_rejection x ≡ none) s.records r.candidate_id (lapsed r) h
              (lapsed-accepted r))
    ]
  ]

  get_candidate-IsReviewed :
      (s : MemoryCandidateStore) (id : String)
      → IsReviewed s
      → IsReviewed (get_candidate env id s).1
  unfolding get_candidate find
  get_candidate-IsReviewed s id h = elim (Option-cases (get s.records id)) [
    | inl absent ↦ rw absent h
    | inr (r, found) ↦ rw found (expire-IsReviewed s r h)
  ]

  module _ (strip : String → String) where
    -- What `_review` does once the candidate is read: it writes the review of a pending one, or raises.
    review_found-cases :
        (s : MemoryCandidateStore) (id : String) (status : MemoryCandidateStatus)
        (disposition : MemoryCandidateDisposition) (remark : Option String)
        (r : MemoryCandidateRecord)
        → let r' = reviewed status disposition (trimmed env strip remark) (env.clock s.calls) r in
          ((is_pending r.status ≡ true)
            × (review_found env strip id status disposition remark r s
                ≡ (ok r', record s { records = put s.records id r'; calls = suc s.calls })))
          ⊎ ((e : MemoryCandidateError) × (review_found env strip id status disposition remark r s
                ≡ (raised e, s)))
    unfolding review_found
    review_found-cases s id status disposition remark r = elim (Bool-cases (is_expired r.status)) [
      | inl over ↦ inr (expired_error "The memory candidate has expired.", rw over refl)
      | inr lasting ↦ elim (Bool-cases (is_pending r.status)) [
        | inr done ↦
            inr (conflict "The memory candidate was already reviewed.", rw (lasting, done) refl)
        | inl pending ↦ elim (Bool-cases (is_too_long env strip (trimmed env strip remark))) [
          | inl long ↦ inr (
            value_error "Review note must not exceed 2000 characters.",
            rw (lasting, pending, long) refl,
          )
          | inr short ↦ inl (pending, rw (lasting, pending, short) refl)
        ]
      ]
    ]

    review-IsReviewed :
        (s : MemoryCandidateStore) (id : String) (status : MemoryCandidateStatus)
        (disposition : MemoryCandidateDisposition) (remark : Option String)
        → Fits status disposition
        → IsReviewed s
        → IsReviewed (review env strip id status disposition remark s).1
    unfolding review
    review-IsReviewed s id status disposition remark fits h =
        go (get_candidate env id s).0 (get_candidate env id s).1 (get_candidate-IsReviewed s id h)
      where
        go :
            (o : Result MemoryCandidateError MemoryCandidateRecord) (t : MemoryCandidateStore)
            → IsReviewed t
            → IsReviewed (carry_on o t (review_found env strip id status disposition remark)).1
        go (raised e) t k = k
        go (ok r) t k = elim (review_found-cases t id status disposition remark r) [
          | inr (e, refused) ↦ subst (λ x. IsReviewed x.1) (sym refused) k
          | inl (pending, done) ↦
              subst (λ x. IsReviewed x.1) (sym done)
                (Each-put (λ j x. review_rejection x ≡ none) t.records id _ k
                  (reviewed-accepted status disposition (trimmed env strip remark)
                    (env.clock t.calls) r fits))
        ]

    -- Whatever `approve` and `reject` are called with, and whether they return or raise, each stored
    -- candidate still passes the checks of `__post_init__` on its review: the two methods and the
    -- expiry on the way write no review that the record would refuse.
    pub approve-reject-IsReviewed :
        (s : MemoryCandidateStore) (id : String) (disposition : MemoryCandidateDisposition)
        (remark : Option String)
        → IsReviewed s
        → IsReviewed (approve env strip id remark s).1
          × IsReviewed (reject env strip id disposition remark s).1
    unfolding approve reject
    approve-reject-IsReviewed s id disposition remark h = (
      review-IsReviewed s id MemoryCandidateStatus.approved
          MemoryCandidateDisposition.promote_to_memory remark (inl (refl, refl)) h,
      elim (Bool-cases (promotes (some disposition))) [
        | inl promoted ↦ rw promoted h
        | inr declined ↦ rw declined (
            review-IsReviewed s id MemoryCandidateStatus.rejected disposition remark
              (inr (refl, declined)) h)
      ],
    )
