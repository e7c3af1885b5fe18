-- ===== src/Reviews/Store/Intact.antt =====
-- What every method of `AgentPlanReviewStore` keeps of the stored reviews.
use cauco.Base.{ℕ, ◌≡◌, refl, sym, ap, ◌∙◌, String, false, none, string_eq}
use cauco.Base.Evolution.{Preorder}
use cauco.Tools.Value.{Value}
use cauco.Agents.Models.{AgentRouteResult, AgentContext, AgentPlan}
use cauco.Reviews.Models.{
  AgentPlanReviewRecord, is_pending, review_rejection, snapshot_rejection, decision_rejection,
  copied, copy_context, copy_plan,
}
use cauco.Reviews.Payload.{snapshot_payload, context_payload, plan_payload}
use cauco.Reviews.Store.Methods.{digest_of}

-- What a review is of, and the times that are set with it.
pub record Snapshot : Type 0 where
  pub instruction : String
  pub selected_agent_id : String
  pub routing : AgentRouteResult
  pub context : AgentContext
  pub plan : AgentPlan
  pub snapshot_digest : String
  pub created_at : ℕ
  pub expires_at : ℕ

abbrev pub snapshot_of : AgentPlanReviewRecord → Snapshot
snapshot_of r = record {
  instruction = r.instruction;
  selected_agent_id = r.selected_agent_id;
  routing = r.routing;
  context = r.context;
  plan = r.plan;
  snapshot_digest = r.snapshot_digest;
  created_at = r.created_at;
  expires_at = r.expires_at;
}

abbrev pub SameSnapshot : AgentPlanReviewRecord → AgentPlanReviewRecord → Type 0
SameSnapshot a b = snapshot_of b ≡ snapshot_of a

-- How a stored review may change: its snapshot never, and nothing of it once it is decided.
pub record Follows (a b : AgentPlanReviewRecord) : Type 0 where
  pub same : SameSnapshot a b
  pub final : is_pending a.status ≡ false → b ≡ a

pub Follows-Preorder : Preorder Follows
Follows-Preorder = record {
  reflexive = λ a. record { same = refl; final = λ _. refl };
  transitive = λ {a} {b} {c} f g. record {
    same = g.same ∙ f.same;
    final = λ over. g.final (ap (λ x. is_pending x.status) (f.final over) ∙ over) ∙ f.final over;
  };
}

-- `__post_init__` copies once and for all.
copied-copied : (r : AgentPlanReviewRecord) → copied (copied r) ≡ copied r
unfolding copied copy_context copy_plan
copied-copied r = refl

pub review_rejection-copied :
    (r : AgentPlanReviewRecord) → review_rejection (copied r) ≡ review_rejection r
unfolding copied copy_context copy_plan snapshot_rejection decision_rejection
review_rejection-copied r = refl

module _ (digest : Value → String) where
  -- A stored review: under its own identifier, accepted by `__post_init__`, a copy of its own parts,
  -- and with the digest of its snapshot.
  pub record IsIntact (id : String) (r : AgentPlanReviewRecord) : Type 0 where
    pub own_id : r.review_id ≡ id
    pub accepted : review_rejection r ≡ none
    pub copy : copied r ≡ r
    pub sealed : r.snapshot_digest ≡ digest_of digest r

  digest_of-copied : (r : AgentPlanReviewRecord) → digest_of digest (copied r) ≡ digest_of digest r
  unfolding digest_of copied copy_context copy_plan snapshot_payload context_payload plan_payload
  digest_of-copied r = refl

  digest_of-same :
      (a b : AgentPlanReviewRecord) → SameSnapshot a b → digest_of digest b ≡ digest_of digest a
  unfolding digest_of
  digest_of-same a b same =
      ap
        (λ x.
          digest (snapshot_payload x.instruction x.selected_agent_id x.routing x.context x.plan))
        same

  pub SameSnapshot-copied :
      (id : String) (a b : AgentPlanReviewRecord)
      → IsIntact id a
      → SameSnapshot a b
      → SameSnapshot a (copied b)
  unfolding copied
  SameSnapshot-copied id a b h same =
      let copy_parts : Snapshot → Snapshot =
        λ x. record x { context = copy_context x.context; plan = copy_plan x.plan } in
      ap copy_parts same ∙ ap snapshot_of h.copy

  -- What `replace` makes of an intact record is intact.
  pub copied-IsIntact :
      (id : String) (a b : AgentPlanReviewRecord)
      → IsIntact id a
      → SameSnapshot a b
      → b.review_id ≡ id
      → review_rejection b ≡ none
      → IsIntact id (copied b)
  unfolding copied
  copied-IsIntact id a b h same own passes = record {
    own_id = own;
    accepted = review_rejection-copied b ∙ passes;
    copy = copied-copied b;
    sealed =
        ap (λ x. x.snapshot_digest) same
        ∙ h.sealed
        ∙ sym (digest_of-same a b same)
        ∙ sym (digest_of-copied b);
  }
