-- ===== src/Reviews/Store/Admitting.antt =====
-- The checks of `AgentPlanReviewRecord.__post_init__` on what the store makes of a stored review.
use cauco.Base.{ℕ, ◌≤◌, ◌≡◌, refl, ap, String, true, Option, none, ◌==◌, string_eq, ok, arith}
use cauco.Reviews.Models.{
  AgentPlanReviewRecord, is_pending, review_rejection, snapshot_rejection, decision_rejection,
  copied, approval_warning_text, first_message,
}
use cauco.Reviews.Store.{AgentPlanReviewStore, built, settled, save, rewrite, lapsed}
use cauco.Reviews.Store.Methods.{Decision, approval, rejection, cancellation, decided}
use cauco.Reviews.Store.Steps.{with_record}

snapshot_accepted :
    (decision : Decision) (remark : Option String) (now : ℕ) (r : AgentPlanReviewRecord)
    → is_pending r.status ≡ true
    → r.created_at ≤ now
    → snapshot_rejection r ≡ none
    → snapshot_rejection (decided decision remark now r) ≡ none
unfolding snapshot_rejection decided
snapshot_accepted approval remark now r pending later passes = ground arith
snapshot_accepted (rejection reason) remark now r pending later passes = ground arith
snapshot_accepted (cancellation reason) remark now r pending later passes = ground arith

warning_same : (approval_warning_text == approval_warning_text) ≡ true
warning_same = refl

decision_accepted :
    (decision : Decision) (remark : Option String) (now : ℕ) (r : AgentPlanReviewRecord)
    → is_pending r.status ≡ true
    → decision_rejection r ≡ none
    → decision_rejection (decided decision remark now r) ≡ none
unfolding decision_rejection decided
decision_accepted approval remark now r pending passes = ground (arith, warning_same)
decision_accepted (rejection reason) remark now r pending passes = ground arith
decision_accepted (cancellation reason) remark now r pending passes = ground arith

-- A pending review past its time passes the checks once it is expired.
pub lapsed_accepted :
    (now : ℕ) (r : AgentPlanReviewRecord)
    → is_pending r.status ≡ true
    → r.expires_at ≤ now
    → review_rejection r ≡ none
    → review_rejection (lapsed now r) ≡ none
unfolding snapshot_rejection decision_rejection
lapsed_accepted now r pending due passes = ground arith

accepted_parts : (a b : Option String) → first_message a b ≡ none → (a ≡ none) × (b ≡ none)
accepted_parts a b h = ground arith

pub decided_accepted :
    (decision : Decision) (remark : Option String) (now : ℕ) (r : AgentPlanReviewRecord)
    → is_pending r.status ≡ true
    → r.created_at ≤ now
    → review_rejection r ≡ none
    → review_rejection (decided decision remark now r) ≡ none
decided_accepted decision remark now r pending later passes =
    let (origin, choice) = accepted_parts (snapshot_rejection r) (decision_rejection r) passes in
    rw (snapshot_accepted decision remark now r pending later origin)
      (decision_accepted decision remark now r pending choice)

pub copied-decided :
    (decision : Decision) (remark : Option String) (now : ℕ) (r : AgentPlanReviewRecord)
    → copied r ≡ r
    → copied (decided decision remark now r) ≡ decided decision remark now r
unfolding copied decided
copied-decided approval remark now r copy = ap (decided approval remark now) copy
copied-decided (rejection reason) remark now r copy =
    ap (decided (rejection reason) remark now) copy
copied-decided (cancellation reason) remark now r copy =
    ap (decided (cancellation reason) remark now) copy

pub decided_id :
    (decision : Decision) (remark : Option String) (now : ℕ) (r : AgentPlanReviewRecord)
    → (decided decision remark now r).review_id ≡ r.review_id
unfolding decided
decided_id approval remark now r = refl
decided_id (rejection reason) remark now r = refl
decided_id (cancellation reason) remark now r = refl

pub copied-lapsed :
    (now : ℕ) (r : AgentPlanReviewRecord) → copied r ≡ r → copied (lapsed now r) ≡ lapsed now r
unfolding copied
copied-lapsed now r copy =
    let late : AgentPlanReviewRecord → AgentPlanReviewRecord = λ x. lapsed now x in ap late copy

-- Building a record that is already a copy and passes the checks gives it back.
pub built_lem :
    (r : AgentPlanReviewRecord) (s : AgentPlanReviewStore)
    → review_rejection r ≡ none
    → copied r ≡ r
    → built r s ≡ (ok r, s)
unfolding built settled
built_lem r s passes copy = rw (passes, copy) refl

pub rewrite_lem :
    (r : AgentPlanReviewRecord) (s : AgentPlanReviewStore)
    → review_rejection r ≡ none
    → copied r ≡ r
    → rewrite r s ≡ (ok r, with_record s r)
unfolding rewrite save
rewrite_lem r s passes copy = rw (built_lem r s passes copy) refl
