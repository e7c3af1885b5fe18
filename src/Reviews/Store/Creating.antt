-- ===== src/Reviews/Store/Creating.antt =====
-- What `create` of `AgentPlanReviewStore` does to the stored reviews.
use cauco.Base.{
  ℕ, zero, suc, ◌≤◌, ◌<◌, ◌≡◌, refl, ◌∙◌, String, str_append, none, ◌⊎◌, inl, inr, Bool-cases,
  Option-cases, string_eq, ok, raised, arith,
}
use cauco.Base.Dict.{get, put, is_some}
use cauco.Base.Environment.{Environment}
use cauco.Base.Evolution.{NeverRepeats}
use cauco.Base.Evolution.Kept.{Keeps-tick, Keeps-new}
use cauco.Tools.Value.{Value}
use cauco.Reviews.Models.{review_rejection, copied, copy_context, copy_plan}
use cauco.Reviews.Payload.{snapshot_payload, context_payload, plan_payload}
use cauco.Reviews.Store.{
  AgentPlanReviewStore, ReviewFields, ReviewError, built, settled, save, snapshot, validate_ttl,
  is_ttl, make_room, capacity,
}
use cauco.Reviews.Store.Methods
use cauco.Reviews.Store.Methods.{
  Decision, approval, rejection, cancellation, decided, created, or_else, digest_of,
  verify_integrity, transition_found, clock, make_id, try_ids, new_review_id, transition_at,
  store_new, create_at, list_at, listed, normalize_review_text, transition, reject_for, snapshots,
  unless_none, same_status,
}
use cauco.Reviews.Store.Intact.{Follows-Preorder, IsIntact, review_rejection-copied}
use cauco.Reviews.Store.Steps.{
  IsIntactStore, Step, Step-none, Step-trans, bind-Step, make_room-Step,
}
use cauco.Reviews.Store.Changes.{snapshot-Step, after_clock}

-- The loop of `_new_review_id` changes nothing but the count of calls.
pub try_ids-cases :
    (env : Environment) (tries : ℕ) (s : AgentPlanReviewStore)
    → (n : ℕ) × (s.calls ≤ n)
      × (((e : ReviewError) × (try_ids env tries s ≡ (raised e, record s { calls = n })))
          ⊎ ((k : ℕ) × (s.calls ≤ k)
              × (k < n)
              × (try_ids env tries s
                  ≡ (ok (str_append "planrev_" (env.token k)), record s { calls = n }))))
unfolding try_ids make_id
try_ids-cases env zero s = (
  s.calls,
  omega arith,
  inl (capacity "A unique plan review identifier could not be created.", refl),
)
try_ids-cases env (suc tries) s =
    elim (Bool-cases (is_some (get s.records (str_append "planrev_" (env.token s.calls))))) [
      | inr free ↦ (suc s.calls, omega arith, inr (s.calls, omega arith, omega arith, rw free refl))
      | inl taken ↦
          let (n, later, outcome) = try_ids-cases env tries (record s { calls = suc s.calls }) in
          (
            n,
            omega arith,
            elim outcome [
              | inl (e, fails) ↦ inl (e, rw taken fails)
              | inr (k, from, till, made) ↦ inr (k, omega arith, till, rw taken made)
            ],
          )
    ]

-- A new record, as `__post_init__` leaves it.
created-IsIntact :
    (digest : Value → String) (f : ReviewFields) (id hash : String) (now ttl : ℕ)
    → hash ≡ digest (snapshot_payload f.instruction f.plan.agent_id f.routing f.context f.plan)
    → review_rejection (created id f hash now ttl) ≡ none
    → IsIntact digest id (copied (created id f hash now ttl))
unfolding copied created digest_of copy_context copy_plan snapshot_payload context_payload
    plan_payload
created-IsIntact digest f id hash now ttl sealed passes = record {
  own_id = refl;
  accepted = review_rejection-copied (created id f hash now ttl) ∙ passes;
  copy = refl;
  sealed = sealed;
}

module _ (env : Environment) (digest : Value → String) (s : AgentPlanReviewStore)
    (h : IsIntactStore env digest s) where
  store_new-Step :
      NeverRepeats env
      → (f : ReviewFields) (ttl now : ℕ) → Step env digest s (store_new env digest f ttl now s).1
  unfolding store_new new_review_id built settled save copied
  store_new-Step distinct f ttl now =
      let hash =
        digest (snapshot_payload f.instruction f.plan.agent_id f.routing f.context f.plan) in
      let (n, later, outcome) = try_ids-cases env 10 s in
      let tick : Step env digest s (record s { calls = n }) =
        Keeps-tick env "planrev_" Follows-Preorder s.records s.calls n h later in
      elim outcome [
        | inl (e, fails) ↦ rw fails tick
        | inr (k, from, till, made) ↦
            let id = str_append "planrev_" (env.token k) in
            let r = created id f hash now ttl in
            elim (Option-cases (review_rejection r)) [
              | inr (message, fails) ↦ rw (made, fails) tick
              | inl passes ↦
                  let t : AgentPlanReviewStore = record s {
                    records = put s.records id (copied r);
                    calls = n;
                  } in
                  let first : Step env digest s t =
                    Keeps-new env "planrev_" Follows-Preorder distinct s.records s.calls k n
                      (copied r) h from till
                      (created-IsIntact digest f id hash now ttl refl passes) in
                  rw (made, passes)
                    (Step-trans env digest s t (snapshot (copied r) t).1 first
                      λ l. snapshot-Step env digest t l (copied r))
            ]
      ]

module _ (env : Environment) (digest : Value → String) (s : AgentPlanReviewStore)
    (h : IsIntactStore env digest s) where
  pub create-Step :
      NeverRepeats env → (f : ReviewFields) → Step env digest s (Methods.create env digest f s).1
  unfolding Methods.create validate_ttl create_at
  create-Step distinct f =
      elim (Bool-cases (is_ttl (or_else f.ttl_seconds s.default_ttl_seconds))) [
        | inr out ↦ rw out (Step-none env digest s h)
        | inl fits ↦ rw fits (
            after_clock env digest s h
              (create_at env digest f (or_else f.ttl_seconds s.default_ttl_seconds))
              λ now t same k.
                bind-Step env digest (make_room now)
                  (λ _. store_new env digest f (or_else f.ttl_seconds s.default_ttl_seconds) now) t
                  (make_room-Step env digest now t k)
                  λ _ u _ l.
                    store_new-Step env digest u l distinct f
                      (or_else f.ttl_seconds s.default_ttl_seconds) now)
      ]
